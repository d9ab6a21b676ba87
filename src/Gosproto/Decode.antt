-- ===== src/Gosproto/Decode.antt =====
-- gosproto/decode.go behind the words: the decoders of the fields, and `Decode`. The loops over a
-- slice run on its length, of which every round takes a byte at least; a nested message is shorter
-- than the one that holds it, and `fuel` bounds this depth. Without fuel they panic.
pub mod Slices
pub mod Bounds
use cellorigin.Base.{
  ℕ, zero, suc, ◌+◌, ◌-◌, ◌*◌, ◌/◌, ◌%◌, ◌^◌, List, [], ◌∷◌, ◌++◌, Option, none, some, Bool, true,
  false, ltb, ◌==◌, if◌then◌else◌, length, take, drop, get_elem?, Outcome, ok, err, panic, ◌>>=◌,
  map,
}
use cellorigin.Base.Assoc.{lookup, nat_eq}
use cellorigin.Gosproto.Error.{Error, decode, malformed}
use cellorigin.Gosproto.Words.{read_uint16, read_uint32, read_uint64}
use cellorigin.Gosproto.Pack.{slice_from}
use cellorigin.Gosproto.Types.{
  IntKind, Coder, bool, string, bool_slice, bytes, string_slice, unset, integer, integer_slice,
  struct, struct_slice, SprotoField, SprotoType, Value, Values, Structs, bool_of, int_of, string_of,
  bytes_of, bools_of, ints_of, strings_of, struct_of, structs_of, stop, item, zeros, set_int,
  set_value,
}
use cellorigin.Gosproto.Encode.{Arg, getbase}

-- `readChunk`: how many bytes it takes, and the data.
unfoldable pub read_chunk : List ℕ → Outcome Error (ℕ × List ℕ)
read_chunk chunk =
    if ltb (length chunk) 4
    then err decode
    else (read_uint32 chunk >>= λ sz.
        if ltb (length chunk) (4 + sz)
        then err decode
        else ok (4 + sz, drop 4 (take (4 + sz) chunk)))

-- `*val`
unfoldable pub decode_bool : Option ℕ → Outcome Error Value
decode_bool none = panic
decode_bool (some n) = ok (bool_of (if n == 0 then false else true))

-- The pattern that `decodeInt` sets: the value of the header, or the data.
unfoldable pub int_data : Option ℕ → List ℕ → Outcome Error ℕ
int_data (some n) bs = ok n
int_data none bs =
    if length bs == 0
    then ok 0
    else if length bs == 4
    then read_uint32 bs
    else if length bs == 8
    then read_uint64 bs
    else err malformed

unfoldable pub decode_int : IntKind → Option ℕ → List ℕ → Outcome Error Value
unfolding int_data
decode_int k val bs = int_data val bs >>= λ n. ok (int_of (set_int k n))

unfoldable pub decode_bool_slice : List ℕ → List Bool
decode_bool_slice = map (λ b. if b == 0 then false else true)

-- `readUint32(data[i*intLen:])` or `readUint64(…)`
unfoldable pub read_int : ℕ → List ℕ → Outcome Error ℕ
read_int len bs = if len == 4 then read_uint32 bs else read_uint64 bs

-- The loop of `decodeIntSlice`, with the rounds left, from `data[i*intLen:]` on.
unfoldable pub read_ints : ℕ → IntKind → ℕ → List ℕ → Outcome Error (List ℕ)
unfolding read_int
read_ints zero k len bs = ok []
read_ints (suc rounds) k len bs = do
  n ← read_int len bs
  ns ← read_ints rounds k len (drop len bs)
  ok (set_int k n ∷ ns)

-- A length of zero divides by zero.
unfoldable pub decode_ints_of : IntKind → ℕ → List ℕ → Outcome Error Value
unfolding read_ints
decode_ints_of k len bs =
    if len == 0
    then panic
    else if length bs % len == 0
    then (read_ints (length bs / len) k len bs >>= λ ns. ok (ints_of ns))
    else err malformed

unfoldable pub decode_int_slice : IntKind → List ℕ → Outcome Error Value
unfolding decode_ints_of
decode_int_slice k [] = err decode
decode_int_slice k (len ∷ bs) = decode_ints_of k len bs

-- The loop of `decodeStringSlice`.
unfoldable pub read_strings : ℕ → List ℕ → Outcome Error (List (List ℕ))
unfolding read_chunk
read_strings fuel [] = ok []
read_strings zero (b ∷ bs) = panic
read_strings (suc fuel) (b ∷ bs) = do
  (used, val) ← read_chunk (b ∷ bs)
  vals ← read_strings fuel (drop used (b ∷ bs))
  ok (val ∷ vals)

-- What `decodeStruct`, and a round of `decodeStructSlice`, do with the result of `decodeMessage`.
unfoldable pub used_all : List ℕ → ℕ × Values → Outcome Error Values
used_all bs (used, vs) = if used == length bs then ok vs else err malformed

-- The loop of `decodeStructSlice`; `message` decodes into a new struct.
unfoldable pub read_structs :
    (List ℕ → Outcome Error (ℕ × Values)) → ℕ → List ℕ → Outcome Error Structs
unfolding read_chunk used_all
read_structs message fuel [] = ok stop
read_structs message zero (b ∷ bs) = panic
read_structs message (suc fuel) (b ∷ bs) = do
  (used, buf) ← read_chunk (b ∷ bs)
  r ← message buf
  vs ← used_all buf r
  rest ← read_structs message fuel (drop used (b ∷ bs))
  ok (item vs rest)

pub record Tag : Type 0 where
  pub tag : ℕ
  pub val : Option ℕ

-- The loop of `decodeHeader`, with the rounds left and `(i+1)*2`.
unfoldable pub read_tags : ℕ → List ℕ → ℕ → ℕ → Outcome Error (List Tag)
unfolding slice_from
read_tags zero chunk at tag = ok []
read_tags (suc rounds) chunk at tag = do
  view ← slice_from chunk at
  v ← read_uint16 view
  elim (v % 2 == 0) [
    | false ↦ read_tags rounds chunk (at + 2) ((tag + (v + 1) % 2 ^ 16 / 2) % 2 ^ 16)
    | true ↦ read_tags rounds chunk (at + 2) ((tag + 1) % 2 ^ 16) >>= λ tags.
        ok (record { tag = tag; val = if v == 0 then none else some (v / 2 - 1) } ∷ tags)
  ]

unfoldable pub decode_header : List ℕ → Outcome Error (ℕ × List Tag)
unfolding read_tags
decode_header chunk =
    if ltb (length chunk) 2
    then err decode
    else (read_uint16 chunk >>= λ fn.
        if ltb (length chunk) (2 + fn * 2)
        then err decode
        else (read_tags fn chunk 2 0 >>= λ tags. ok (2 + fn * 2, tags)))

-- `FieldByTag`: the index of the field, and the field.
unfoldable pub field_by_tag : SprotoType → ℕ → Option (ℕ × SprotoField)
field_by_tag st tag = elim (lookup tag st.tag_map) [
  | none ↦ none
  | some i ↦ elim (get_elem? st.fields i) [ none ↦ none | some sf ↦ some (i, sf) ]
]

-- The bytes taken and the data for a tag: a chunk of `chunk[total:]`, unless the header has the value.
unfoldable pub tag_data : Option ℕ → List ℕ → ℕ → Outcome Error (ℕ × List ℕ)
unfolding read_chunk slice_from
tag_data (some n) chunk total = ok (0, [])
tag_data none chunk total = slice_from chunk total >>= λ view. read_chunk view

-- A field that is not known is passed over.
unfoldable pub set_field :
    (Coder → Option ℕ → List ℕ → Outcome Error Value)
    → Option (ℕ × SprotoField)
    → Option ℕ
    → List ℕ
    → Values
    → Outcome Error Values
set_field dec none val bs vs = ok vs
set_field dec (some (i, sf)) val bs vs = dec sf.coder val bs >>= λ v. ok (set_value vs i v)

-- The loop of `decodeMessage`, with `sf.dec`.
unfoldable pub tags_loop :
    (Coder → Option ℕ → List ℕ → Outcome Error Value)
    → SprotoType
    → List Tag
    → List ℕ
    → ℕ
    → Values
    → Outcome Error (ℕ × Values)
unfolding tag_data set_field field_by_tag
tags_loop dec st [] chunk total vs = ok (total, vs)
tags_loop dec st (t ∷ tags) chunk total vs = do
  (used, bs) ← tag_data t.val chunk total
  vs' ← set_field dec (field_by_tag st t.tag) t.val bs vs
  tags_loop dec st tags chunk (total + used) vs'

unfoldable pub message_with :
    (Coder → Option ℕ → List ℕ → Outcome Error Value)
    → SprotoType
    → List ℕ
    → Values
    → Outcome Error (ℕ × Values)
unfolding decode_header tags_loop
message_with dec st chunk vs = do
  (total, tags) ← decode_header chunk
  tags_loop dec st tags chunk total vs

-- `sf.dec`, with `decodeMessage` into a new struct of a type.
unfoldable pub dec_with :
    (ℕ → List ℕ → Outcome Error (ℕ × Values)) → Coder → Option ℕ → List ℕ → Outcome Error Value
unfolding decode_bool decode_int decode_bool_slice decode_int_slice read_strings used_all
    read_structs
dec_with message bool val bs = decode_bool val
dec_with message (integer k) val bs = decode_int k val bs
dec_with message string val bs = ok (string_of bs)
dec_with message bytes val bs = ok (bytes_of bs)
dec_with message bool_slice val bs = ok (bools_of (decode_bool_slice bs))
dec_with message (integer_slice k) val bs = decode_int_slice k bs
dec_with message string_slice val bs = read_strings (length bs) bs >>= λ ss. ok (strings_of ss)
dec_with message (struct st) val bs =
    message st bs >>= λ r. used_all bs r >>= λ vs. ok (struct_of vs)
dec_with message (struct_slice st) val bs =
    read_structs (message st) (length bs) bs >>= λ ss. ok (structs_of ss)
dec_with message unset val bs = panic

module _ (types : ℕ → SprotoType) where
  unfoldable pub decode_message : ℕ → SprotoType → List ℕ → Values → Outcome Error (ℕ × Values)
  unfolding message_with dec_with zeros
  decode_message zero st chunk vs = panic
  decode_message (suc fuel) st chunk vs =
      message_with (dec_with (λ t bs. decode_message fuel (types t) bs (zeros (types t).fields))) st
        chunk vs

  -- `Decode` clears the struct first, also if the type is then refused.
  unfoldable pub decode_sproto :
      (ℕ → Outcome Error SprotoType) → List ℕ → Arg → Outcome Error (ℕ × Values)
  unfolding getbase decode_message
  decode_sproto get_type bs sp = do
    (t, vs) ← getbase sp
    st ← get_type t
    decode_message (suc (length bs)) st bs (zeros st.fields)
