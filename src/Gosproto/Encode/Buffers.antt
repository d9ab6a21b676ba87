-- ===== src/Gosproto/Encode/Buffers.antt =====
-- What the loops over a buffer leave in it: the parts one behind the other.
use cellorigin.Base.{
  ℕ, suc, ◌+◌, ◌*◌, ◌%◌, ◌^◌, ◌≤◌, ◌≡◌, refl, sym, ap, ◌∙◌, arith, List, [], ◌∷◌, ◌++◌, append-nil,
  append_assoc, ltb, length, drop, replicate, All, length-append, length-drop, length-replicate,
  take-append, drop-append, split_at, Outcome, ok, ◌>>=◌, le_bytes, length-le_bytes, ◌⊎◌, inl, inr,
  Bool-cases,
}
use cellorigin.Base.Bits.{IsU16}
use cellorigin.Gosproto.Error.{Error}
use cellorigin.Gosproto.Words.{store, write_uint16, write_uint32}
use cellorigin.Gosproto.Words.RoundTrip.{
  write_uint16-le_bytes, write_uint32-le_bytes, write_uint64-le_bytes,
}
use cellorigin.Gosproto.Pack.{slice_from, slice_to, copy}
use cellorigin.Gosproto.Pack.Flush.{copy-append}
use cellorigin.Gosproto.Types.{
  IntKind, int8, int16, int32, int64, int, uint8, uint16, uint32, uint64, uint,
}
use cellorigin.Gosproto.Encode.{
  put, chunks_size, write_chunks, encode_chunks, write_int, int_len, write_ints, encode_int_slice,
  write_headers, encode_headers, encode_bytes, extract_size,
}

-- A chunk is its length and its bytes.
abbrev pub chunk : List ℕ → List ℕ
chunk val = le_bytes 4 (length val % 2 ^ 32) ++ val

abbrev pub chunks : List (List ℕ) → List ℕ
chunks [] = []
chunks (val ∷ vals) = chunk val ++ chunks vals

-- Numbers of `len` bytes, and headers of two.
abbrev pub ints : ℕ → List ℕ → List ℕ
ints len [] = []
ints len (n ∷ ns) = le_bytes len n ++ ints len ns

pub slice_from-append : (front back : List ℕ) → slice_from (front ++ back) (length front) ≡ ok back
unfolding slice_from
slice_from-append front back =
    ground (arith, length-append front back, drop-append (length front) front back refl)

put-append :
    (write : List ℕ → Outcome Error (List ℕ)) (front back back' : List ℕ) (k : ℕ)
    → k ≡ length front
    → write back ≡ ok back'
    → put write (front ++ back) k ≡ ok (front ++ back')
unfolding put
put-append write front back back' k e w =
    rw (e, slice_from-append front back, w, take-append (length front) front back refl) refl

put-word :
    (front back : List ℕ) (n k : ℕ)
    → k ≡ length front
    → 4 ≤ length back
    → put (λ view. write_uint32 view n) (front ++ back) k
      ≡ ok (front ++ (le_bytes 4 n ++ drop 4 back))
put-word front back n k e room = put-append _ front back _ k e (write_uint32-le_bytes back n room)

put-copy :
    (front val a b : List ℕ) (k : ℕ)
    → k ≡ length front
    → length a ≡ length val
    → put (λ view. ok (copy view val)) (front ++ (a ++ b)) k ≡ ok (front ++ (val ++ b))
put-copy front val a b k e l = put-append _ front (a ++ b) _ k e (ap ok (copy-append val a b l))

-- The loop over strings or messages.
write_chunks-chunks :
    (vals : List (List ℕ)) (front back : List ℕ) (k : ℕ)
    → k ≡ length front
    → length back ≡ chunks_size vals
    → write_chunks vals (front ++ back) k ≡ ok (front ++ chunks vals)
unfolding write_chunks chunks_size
write_chunks-chunks [] front [] k e l = refl
write_chunks-chunks [] front (x ∷ back) k e l = absurd (omega arith)
write_chunks-chunks (val ∷ vals) front back k e l =
    let head = le_bytes 4 (length val % 2 ^ 32) in
    let (a, b, s, la) = split_at (length val) (drop 4 back) (omega (arith, length-drop 4 back)) in
    let lb : length b ≡ chunks_size vals =
      omega (arith, length-drop 4 back, ap length s, length-append a b) in
    rw (put-word front back (length val % 2 ^ 32) k e (omega arith)) (
      ap (λ o. o >>= λ buf. write_chunks vals buf (k + (4 + length val)))
        (ap (λ t. put (λ view. ok (copy view val)) t (k + 4))
            (ap (λ t. front ++ (head ++ t)) s ∙ sym (append_assoc front head (a ++ b)))
          ∙ put-copy (front ++ head) val a b (k + 4) (omega (arith, length-append front head)) la)
      ∙ (ap (λ t. write_chunks vals t (k + (4 + length val)))
            (sym (append_assoc (front ++ head) val b))
          ∙ (write_chunks-chunks vals ((front ++ head) ++ val) b (k + (4 + length val))
                (omega (arith, length-append front head, length-append (front ++ head) val)) lb
              ∙ ap ok (
                  append_assoc (front ++ head) val (chunks vals)
                  ∙ append_assoc front head (val ++ chunks vals)))))

-- The buffer of `encodeStringSlice` and `encodeStructSlice` holds the chunks and nothing else.
pub encode_chunks-chunks : (vals : List (List ℕ)) → encode_chunks vals ≡ ok (chunks vals)
unfolding encode_chunks
encode_chunks-chunks vals =
    write_chunks-chunks vals [] (replicate (chunks_size vals) 0) 0 refl
      (length-replicate (chunks_size vals) 0)

-- A number in four bytes or in eight.
abbrev pub IsLen : ℕ → Type 0
IsLen len = (len ≡ 4) ⊎ (len ≡ 8)

pub le_bytes-mod : (n : ℕ) → le_bytes 4 (n % 2 ^ 32) ≡ le_bytes 4 n
le_bytes-mod n = ground arith

pub mul_suc : (a b : ℕ) → a * suc b ≡ a + a * b
mul_suc a b = grind arith

pub extract_size-IsLen : (k : IntKind) (n : ℕ) → IsLen (extract_size k n)
unfolding extract_size
extract_size-IsLen int8 n = inl refl
extract_size-IsLen int16 n = inl refl
extract_size-IsLen int32 n = inl refl
extract_size-IsLen int64 n = ground arith
extract_size-IsLen int n = ground arith
extract_size-IsLen uint8 n = inl refl
extract_size-IsLen uint16 n = inl refl
extract_size-IsLen uint32 n = ground arith
extract_size-IsLen uint64 n = ground arith
extract_size-IsLen uint n = ground arith

store_first :
    (len size : ℕ)
    → IsLen len
    → store {E = Error} (replicate (1 + size) 0) 0 len ≡ ok (len ∷ replicate size 0)
unfolding store
store_first len size w =
    let one : 1 + size ≡ suc size = omega arith in
    let small : len % 256 ≡ len = elim w [ inl e ↦ omega arith | inr e ↦ omega arith ] in
    rw (one, small) (ground arith)

pub write_int-le_bytes :
    (len n : ℕ) (buf : List ℕ)
    → IsLen len
    → len ≤ length buf
    → write_int len buf n ≡ ok (le_bytes len n ++ drop len buf)
unfolding write_int
write_int-le_bytes len n buf (inl e) h = rw e (
    write_uint32-le_bytes buf (n % 2 ^ 32) (omega arith)
    ∙ ap (λ t. ok (t ++ drop 4 buf)) (le_bytes-mod n))
write_int-le_bytes len n buf (inr e) h = rw e (write_uint64-le_bytes buf n (omega arith))

write_ints-ints :
    (len : ℕ) (ns front back : List ℕ) (k : ℕ)
    → IsLen len
    → k ≡ length front
    → length back ≡ len * length ns
    → write_ints len ns (front ++ back) k ≡ ok (front ++ ints len ns)
unfolding write_ints
write_ints-ints len [] front [] k w e l = refl
write_ints-ints len [] front (x ∷ back) k w e l = absurd (omega arith)
write_ints-ints len (n ∷ ns) front back k w e l =
    let more = mul_suc len (length ns) in
    let all = front ++ (le_bytes len n ++ drop len back) in
    ap (λ o. o >>= λ buf. write_ints len ns buf (k + len))
      (put-append (λ view. write_int len view n) front back _ k e
        (write_int-le_bytes len n back w (omega arith)))
    ∙ (ap (λ t. write_ints len ns t (k + len))
          (sym (append_assoc front (le_bytes len n) (drop len back)))
        ∙ (write_ints-ints len ns (front ++ le_bytes len n) (drop len back) (k + len) w
              (omega (arith, length-append front (le_bytes len n), length-le_bytes len n))
              (omega (arith, length-drop len back))
            ∙ ap ok (append_assoc front (le_bytes len n) (ints len ns))))

pub int_len-IsLen : (k : IntKind) (ns : List ℕ) (len : ℕ) → IsLen len → IsLen (int_len k ns len)
unfolding int_len
int_len-IsLen k [] len w = w
int_len-IsLen k (n ∷ ns) len w = elim (Bool-cases (ltb len (extract_size k n))) [
  | inl e ↦ int_len-IsLen k ns _ (rw e (extract_size-IsLen k n))
  | inr e ↦ int_len-IsLen k ns _ (rw e w)
]

-- The buffer of `encodeIntSlice` holds the size of a number, and the numbers in this size.
pub encode_int_slice-ints :
    (k : IntKind) (ns : List ℕ)
    → encode_int_slice k ns ≡ ok (int_len k ns 4 ∷ ints (int_len k ns 4) ns)
unfolding encode_int_slice
encode_int_slice-ints k ns =
    let len = int_len k ns 4 in
    let w = int_len-IsLen k ns 4 (inl refl) in
    ap (λ o. o >>= λ buf. write_ints len ns buf 1) (store_first len (len * length ns) w)
    ∙ write_ints-ints len ns (len ∷ []) (replicate (len * length ns) 0) 1 w refl
        (length-replicate (len * length ns) 0)

pub encode_bytes_lem : (src : List ℕ) → encode_bytes src ≡ src
unfolding encode_bytes
encode_bytes_lem src =
    ap (λ b. copy b src) (sym (append-nil (replicate (length src) 0)))
    ∙ (copy-append src (replicate (length src) 0) [] (length-replicate (length src) 0)
        ∙ append-nil src)

slice_to-append :
    (front back : List ℕ) (k : ℕ) → k ≡ length front → slice_to (front ++ back) k ≡ ok front
unfolding slice_to
slice_to-append front back k e =
    ground (arith, length-append front back, take-append k front back (sym e))

write_headers-ints :
    (headers front back : List ℕ) (k : ℕ)
    → All IsU16 headers
    → k ≡ length front
    → 2 * length headers ≤ length back
    → write_headers headers (front ++ back) k ≡ ok (front ++ ints 2 headers)
unfolding write_headers
write_headers-ints [] front back k u e l =
    slice_to-append front back k e ∙ ap ok (sym (append-nil front))
write_headers-ints (v ∷ headers) front back k (u, us) e l =
    ap (λ o. o >>= λ buf. write_headers headers buf (k + 2))
      (put-append (λ view. write_uint16 view v) front back _ k e
        (write_uint16-le_bytes back v u (omega arith)))
    ∙ (ap (λ t. write_headers headers t (k + 2))
          (sym (append_assoc front (le_bytes 2 v) (drop 2 back)))
        ∙ (write_headers-ints headers (front ++ le_bytes 2 v) (drop 2 back) (k + 2) us
              (omega (arith, length-append front (le_bytes 2 v)))
              (omega (arith, length-drop 2 back))
            ∙ ap ok (append_assoc front (le_bytes 2 v) (ints 2 headers))))

-- `encodeHeaders` gives the number of headers and the headers; the room it reserves is not part of
-- the result.
pub encode_headers-ints :
    (headers : List ℕ) (reserved : ℕ)
    → All IsU16 headers
    → encode_headers headers reserved ≡ ok (le_bytes 2 (length headers % 2 ^ 16) ++ ints 2 headers)
unfolding encode_headers
encode_headers-ints headers reserved u =
    let size = (length headers + 1) * 2 + reserved in
    let count = length headers % 2 ^ 16 in
    let room = length-replicate {A = ℕ} size 0 in
    ap (λ o. o >>= λ buf. write_headers headers buf 2)
      (write_uint16-le_bytes (replicate size 0) count (omega arith) (omega (arith, room)))
    ∙ write_headers-ints headers (le_bytes 2 count) (drop 2 (replicate size 0)) 2 u refl
        (omega (arith, length-drop 2 (replicate {A = ℕ} size 0), room))
