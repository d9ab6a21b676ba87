-- ===== src/Gosproto/Encode.antt =====
-- gosproto/encode.go behind the words: the coders of the fields, and `Encode`. A buffer is made in
-- its full size and written from the front; `put` is a write or a copy through the slice `buf[k:]`.
pub mod Buffers
pub mod Width
use cellorigin.Base.{
  ℕ, zero, suc, ◌+◌, ◌-◌, ◌*◌, ◌%◌, ◌^◌, List, [], ◌∷◌, ◌++◌, Option, none, some, Bool, true, false,
  ltb, leb, ◌==◌, ◌||◌, if◌then◌else◌, length, take, drop, replicate, get_elem?, Outcome, ok, err,
  panic, ◌>>=◌, map,
}
use cellorigin.Gosproto.Error.{Error, non_ptr, non_struct, nil_value}
use cellorigin.Gosproto.Words.{store, write_uint16, write_uint32, write_uint64}
use cellorigin.Gosproto.Pack.{slice_from, slice_to, copy}
use cellorigin.Gosproto.Types.{
  IntKind, int8, int16, int32, int64, int, uint8, uint16, uint32, uint64, uint, Coder, bool, string,
  bool_slice, bytes, string_slice, unset, integer, integer_slice, struct, struct_slice, SprotoField,
  SprotoType, Value, Values, Structs, nil, bool_of, int_of, string_of, bytes_of, bools_of, ints_of,
  strings_of, struct_of, structs_of, end, field, stop, null, item, zeros,
}

abbrev pub max_embedded_int : ℕ
max_embedded_int = 0x7fff - 1

-- The four `headerEncode…` functions: the header, and whether the value is left out.
unfoldable pub header_encode_default : Value → Outcome Error (ℕ × Bool)
header_encode_default (string_of []) = ok (0, true)
header_encode_default nil = ok (0, true)
header_encode_default _ = ok (0, false)

unfoldable pub header_encode_bool : Bool → ℕ × Bool
header_encode_bool false = (0, true)
header_encode_bool true = (2 * (1 + 1), false)

unfoldable pub header_encode_int : ℕ → ℕ × Bool
header_encode_int n =
    if n == 0
    then (0, true)
    else if leb n max_embedded_int
    then (2 * (n + 1) % 2 ^ 16, false)
    else (0, false)

-- A value of another type than the field's, or a field without coders, panics.
unfoldable pub header_enc : Coder → Value → Outcome Error (ℕ × Bool)
unfolding header_encode_default header_encode_bool header_encode_int
header_enc bool (bool_of b) = ok (header_encode_bool b)
header_enc (integer k) (int_of n) = ok (header_encode_int n)
header_enc bool _ = panic
header_enc (integer k) _ = panic
header_enc unset _ = panic
header_enc _ v = header_encode_default v

-- The `sz` of `extractInt`. For a signed type of 64 bits, the test of the range of int32 is on the
-- pattern.
unfoldable pub extract_size : IntKind → ℕ → ℕ
extract_size int n = if leb n 0x7fffffff || leb (2 ^ 64 - 2 ^ 31) n then 4 else 8
extract_size int64 n = if leb n 0x7fffffff || leb (2 ^ 64 - 2 ^ 31) n then 4 else 8
extract_size uint32 n = if leb n 0x7fffffff then 4 else 8
extract_size uint64 n = if leb n 0x7fffffff then 4 else 8
extract_size uint n = if leb n 0x7fffffff then 4 else 8
extract_size _ n = 4

-- `writeUint32(buf, uint32(n))` or `writeUint64(buf, n)`
unfoldable pub write_int : ℕ → List ℕ → ℕ → Outcome Error (List ℕ)
write_int sz buf n = if sz == 4 then write_uint32 buf (n % 2 ^ 32) else write_uint64 buf n

unfoldable pub encode_int : IntKind → ℕ → Outcome Error (Option (List ℕ))
unfolding write_int extract_size
encode_int k n =
    if leb n max_embedded_int
    then ok none
    else (write_int (extract_size k n) (replicate (extract_size k n) 0) n >>= λ buf. ok (some buf))

-- `copy(buf, src)` into a new buffer of the same length.
unfoldable pub encode_bytes : List ℕ → List ℕ
encode_bytes src = copy (replicate (length src) 0) src

unfoldable pub encode_bool_slice : List Bool → List ℕ
encode_bool_slice = map (λ b. if b then 1 else 0)

-- A write through `buf[offset:]`.
unfoldable pub put : (List ℕ → Outcome Error (List ℕ)) → List ℕ → ℕ → Outcome Error (List ℕ)
put write buf offset = do
  view ← slice_from buf offset
  view' ← write view
  ok (take offset buf ++ view')

-- The size that the first loop of `encodeStringSlice` and `encodeStructSlice` adds up.
unfoldable pub chunks_size : List (List ℕ) → ℕ
chunks_size [] = 0
chunks_size (val ∷ vals) = 4 + length val + chunks_size vals

-- Their second loop.
unfoldable pub write_chunks : List (List ℕ) → List ℕ → ℕ → Outcome Error (List ℕ)
unfolding put
write_chunks [] buf offset = ok buf
write_chunks (val ∷ vals) buf offset = do
  buf1 ← put (λ view. write_uint32 view (length val % 2 ^ 32)) buf offset
  buf2 ← put (λ view. ok (copy view val)) buf1 (offset + 4)
  write_chunks vals buf2 (offset + (4 + length val))

unfoldable pub encode_chunks : List (List ℕ) → Outcome Error (List ℕ)
unfolding write_chunks chunks_size
encode_chunks vals = write_chunks vals (replicate (chunks_size vals) 0) 0

-- `intLen` after the first loop of `encodeIntSlice`.
unfoldable pub int_len : IntKind → List ℕ → ℕ → ℕ
unfolding extract_size
int_len k [] len = len
int_len k (n ∷ ns) len = int_len k ns (if ltb len (extract_size k n) then extract_size k n else len)

unfoldable pub write_ints : ℕ → List ℕ → List ℕ → ℕ → Outcome Error (List ℕ)
unfolding put write_int
write_ints len [] buf offset = ok buf
write_ints len (n ∷ ns) buf offset = do
  buf' ← put (λ view. write_int len view n) buf offset
  write_ints len ns buf' (offset + len)

unfoldable pub encode_int_slice : IntKind → List ℕ → Outcome Error (List ℕ)
unfolding write_ints int_len
encode_int_slice k ns = do
  let len = int_len k ns 4
  buf ← store (replicate (1 + len * length ns) 0) 0 len
  write_ints len ns buf 1

-- `tag` is one less than `next`.
unfoldable pub skip_tag : ℕ → ℕ → ℕ
skip_tag next next_tag = if ltb next next_tag then ((next_tag - next - 1) * 2 + 1) % 2 ^ 16 else 0

unfoldable pub write_headers : List ℕ → List ℕ → ℕ → Outcome Error (List ℕ)
unfolding put
write_headers [] buf i = slice_to buf i
write_headers (v ∷ headers) buf i = do
  buf' ← put (λ view. write_uint16 view v) buf i
  write_headers headers buf' (i + 2)

unfoldable pub encode_headers : List ℕ → ℕ → Outcome Error (List ℕ)
unfolding write_headers
encode_headers headers reserved = do
  buf ← write_uint16 (replicate ((length headers + 1) * 2 + reserved) 0) (length headers % 2 ^ 16)
  write_headers headers buf 2

-- What `headerEnc` and `enc` give for a field, where the loop of `encodeMessage` asks for them.
pub record Encoded : Type 0 where
  pub header : Outcome Error (ℕ × Bool)
  pub data_of : Outcome Error (Option (List ℕ))

-- `headers[offset] = v`; the slice has two places for each field.
unfoldable pub push_header : ℕ → List ℕ → ℕ → Outcome Error (List ℕ)
push_header room headers v = if ltb (length headers) room then ok (headers ++ v ∷ []) else panic

unfoldable pub push_skip : ℕ → List ℕ → ℕ → Outcome Error (List ℕ)
unfolding push_header
push_skip room headers skip = if ltb 0 skip then push_header room headers skip else ok headers

-- `Append(Append(buffer, dataLen), data)`, where there is data.
unfoldable pub push_data : List ℕ → Option (List ℕ) → Outcome Error (List ℕ)
push_data buffer none = ok buffer
push_data buffer (some d) = do
  data_len ← write_uint32 (replicate 4 0) (length d % 2 ^ 32)
  ok (buffer ++ (data_len ++ d))

-- The loop of `encodeMessage` over the fields that are left, with their tag and what their coders
-- give: the headers and the buffer.
unfoldable pub message_loop :
    ℕ → List (Option ℕ × Encoded) → List ℕ → ℕ → List ℕ → Outcome Error (List ℕ × List ℕ)
unfolding push_skip push_header push_data skip_tag
message_loop room [] headers next buffer = ok (headers, buffer)
message_loop room ((none, e) ∷ items) headers next buffer =
    message_loop room items headers next buffer
message_loop room ((some next_tag, e) ∷ items) headers next buffer =
    e.header >>= λ (header, is_nil). elim is_nil [
      | true ↦ message_loop room items headers next buffer
      | false ↦ do
        headers1 ← push_skip room headers (skip_tag next next_tag)
        headers2 ← push_header room headers1 header
        d ← e.data_of
        buffer' ← push_data buffer d
        message_loop room items headers2 (next_tag + 1) buffer'
    ]

-- `st.Fields[i]` and its value for each `i` of `st.order`; an index out of range panics.
unfoldable pub in_order :
    List SprotoField → List Encoded → List ℕ → Outcome Error (List (Option ℕ × Encoded))
in_order fields encs [] = ok []
in_order fields encs (i ∷ order) = elim (get_elem? fields i) [
  | none ↦ panic
  | some sf ↦ elim (get_elem? encs i) [
    | none ↦ panic
    | some e ↦ in_order fields encs order >>= λ items. ok ((sf.tag, e) ∷ items)
  ]
]

unfoldable pub assemble : SprotoType → List Encoded → Outcome Error (List ℕ)
unfolding message_loop in_order encode_headers
assemble st encs = do
  items ← in_order st.fields encs st.order
  (headers, buffer) ← message_loop (length st.fields * 2) items [] 0 []
  head ← encode_headers headers (length buffer)
  ok (head ++ buffer)

-- A nil pointer gives a message without fields.
unfoldable pub encode_null : Outcome Error (List ℕ)
unfolding encode_headers
encode_null = encode_headers [] 0

-- `sf.enc`, where `ok none` is no data. What the coders give is worked out field by field, before
-- the loop of `encodeMessage` takes it in the order of the tags.
module _ (types : ℕ → SprotoType) where
  unfoldable mutual
    unfolding assemble encode_int encode_bytes encode_bool_slice encode_int_slice encode_chunks

    pub enc : Coder → Value → Outcome Error (Option (List ℕ))
    enc bool (bool_of b) = ok none
    enc (integer k) (int_of n) = encode_int k n
    enc string (string_of s) = ok (some (encode_bytes s))
    enc bytes (bytes_of s) = ok (some (encode_bytes s))
    enc bool_slice (bools_of bs) = ok (some (encode_bool_slice bs))
    enc (integer_slice k) (ints_of ns) = encode_int_slice k ns >>= λ d. ok (some d)
    enc string_slice (strings_of ss) = encode_chunks ss >>= λ d. ok (some d)
    enc (struct st) (struct_of vs) =
        assemble (types st) (enc_values (types st).fields vs) >>= λ d. ok (some d)
    enc (struct_slice st) (structs_of ss) =
        encode_structs (types st) ss >>= λ vals. encode_chunks vals >>= λ d. ok (some d)
    enc _ _ = panic

    pub enc_values : List SprotoField → Values → List Encoded
    enc_values [] vs = []
    enc_values (sf ∷ fields) end = []
    enc_values (sf ∷ fields) (field v vs) =
        record { header = header_enc sf.coder v; data_of = enc sf.coder v } ∷ enc_values fields vs

    pub encode_structs : SprotoType → Structs → Outcome Error (List (List ℕ))
    encode_structs st stop = ok []
    encode_structs st (null ss) =
        encode_null >>= λ val. encode_structs st ss >>= λ vals. ok (val ∷ vals)
    encode_structs st (item vs ss) = assemble st (enc_values st.fields vs) >>= λ val.
        encode_structs st ss >>= λ vals. ok (val ∷ vals)

  unfoldable pub encode_message : SprotoType → Values → Outcome Error (List ℕ)
  unfolding assemble enc_values
  encode_message st vs = assemble st (enc_values st.fields vs)

-- An argument of `Encode` or `Decode`: what the checks of `getbase` tell apart, or a pointer to a
-- struct of a type.
pub data Arg : Type 0 where
  nil_interface not_pointer not_struct : Arg
  nil_pointer : ℕ → Arg
  pointer : ℕ → Values → Arg

unfoldable pub getbase : Arg → Outcome Error (ℕ × Values)
getbase nil_interface = err nil_value
getbase not_pointer = err non_ptr
getbase not_struct = err non_struct
getbase (nil_pointer st) = err nil_value
getbase (pointer st vs) = ok (st, vs)

-- `Encode`, where `GetSprotoType` gives the types.
unfoldable pub encode_sproto :
    (ℕ → Outcome Error SprotoType) → (ℕ → SprotoType) → Arg → Outcome Error (List ℕ)
unfolding getbase encode_message
encode_sproto get_type types sp = do
  (t, vs) ← getbase sp
  st ← get_type t
  encode_message types st vs
