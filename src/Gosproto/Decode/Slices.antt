-- ===== src/Gosproto/Decode/Slices.antt =====
-- The decoders of the slices read what the encoders' buffers hold.
use cellorigin.Base.{
  ℕ, zero, suc, ◌+◌, ◌-◌, ◌*◌, ◌/◌, ◌%◌, ◌^◌, ◌<◌, ◌≤◌, ◌≡◌, refl, sym, ap, ◌∙◌, arith, List, [],
  ◌∷◌, ◌++◌, ltb, ◌==◌, if◌then◌else◌, length, drop, All, length-append, take-append, drop-append,
  ok, ◌>>=◌, le_bytes, length-le_bytes, inl, inr, Bool, true, false, Bool-cases, ltb→lt,
}
use cellorigin.Gosproto.Error.{Error}
use cellorigin.Gosproto.Words.{read_uint32}
use cellorigin.Gosproto.Words.RoundTrip.{read_uint32-le_bytes, read_uint64-le_bytes}
use cellorigin.Gosproto.Types.{
  IntKind, int8, int16, int32, int64, int, uint8, uint16, uint32, uint64, uint, set_int, ints_of,
}
use cellorigin.Gosproto.Encode.{extract_size, int_len, encode_bool_slice}
use cellorigin.Gosproto.Encode.Buffers.{
  chunk, chunks, ints, IsLen, int_len-IsLen, extract_size-IsLen, le_bytes-mod, mul_suc,
}
use cellorigin.Gosproto.Decode.{
  read_chunk, read_int, read_ints, decode_ints_of, decode_int_slice, read_strings,
  decode_bool_slice,
}

-- The length of a chunk's data is a uint32.
abbrev pub IsShort : List ℕ → Type 0
IsShort val = length val < 2 ^ 32

pub read_chunk-chunk :
    (val rest : List ℕ) → IsShort val → read_chunk (chunk val ++ rest) ≡ ok (4 + length val, val)
unfolding read_chunk
read_chunk-chunk val rest h =
    let size : length val % 2 ^ 32 ≡ length val = omega arith in
    ground (
      arith,
      read_uint32-le_bytes {E = Error} (length val % 2 ^ 32) (val ++ rest),
      length-append val rest,
      take-append (length val) val rest refl,
    )

pub drop-chunk : (val rest : List ℕ) → drop (4 + length val) (chunk val ++ rest) ≡ rest
drop-chunk val rest = drop-append (4 + length val) (chunk val) rest (omega arith)

pub read_strings-chunks :
    (vals : List (List ℕ)) (fuel : ℕ)
    → All IsShort vals
    → length (chunks vals) ≤ fuel
    → read_strings fuel (chunks vals) ≡ ok vals
unfolding read_strings
read_strings-chunks [] fuel h l = refl
read_strings-chunks (val ∷ vals) zero h l = absurd (omega arith)
read_strings-chunks (val ∷ vals) (suc fuel) (h, hs) l =
    ap
      (λ o. o >>= λ (used, v).
        read_strings fuel (drop used (chunk val ++ chunks vals)) >>= λ vs. ok (v ∷ vs))
      (read_chunk-chunk val (chunks vals) h)
    ∙ (ap (λ t. read_strings fuel t >>= λ vs. ok (val ∷ vs)) (drop-chunk val (chunks vals))
        ∙ ap (λ o. o >>= λ vs. ok (val ∷ vs))
            (read_strings-chunks vals fuel hs (omega (arith, length-append val (chunks vals)))))

pub decode_bool_slice-encode : (bs : List Bool) → decode_bool_slice (encode_bool_slice bs) ≡ bs
unfolding decode_bool_slice encode_bool_slice
decode_bool_slice-encode [] = refl
decode_bool_slice-encode (true ∷ bs) = ap (◌∷◌ true) (decode_bool_slice-encode bs)
decode_bool_slice-encode (false ∷ bs) = ap (◌∷◌ false) (decode_bool_slice-encode bs)

-- A pattern that the kind can hold.
abbrev pub IsInt : IntKind → ℕ → Type 0
IsInt k n = set_int k n ≡ n

-- Not a negative number of a signed type of 64 bits that would fit into 32: the coders lose those.
abbrev pub IsKept : IntKind → ℕ → Type 0
IsKept int n = n < 2 ^ 64 - 2 ^ 31
IsKept int64 n = n < 2 ^ 64 - 2 ^ 31
IsKept _ n = Unit

-- What is left of a number that was written in `len` bytes.
abbrev pub low : ℕ → ℕ → ℕ
low len n = if len == 4 then n % 2 ^ 32 else n

pub IsInt-lt : (k : IntKind) (n : ℕ) → IsInt k n → n < 2 ^ 64
unfolding set_int
IsInt-lt int8 n h = ground arith
IsInt-lt int16 n h = ground arith
IsInt-lt int32 n h = ground arith
IsInt-lt int64 n h = omega arith
IsInt-lt int n h = omega arith
IsInt-lt uint8 n h = omega arith
IsInt-lt uint16 n h = omega arith
IsInt-lt uint32 n h = omega arith
IsInt-lt uint64 n h = omega arith
IsInt-lt uint n h = omega arith

set_int-low4 :
    (k : IntKind) (n : ℕ)
    → IsInt k n
    → IsKept k n
    → extract_size k n ≡ 4
    → set_int k (n % 2 ^ 32) ≡ n
unfolding set_int extract_size
set_int-low4 int8 n h s e = ground arith
set_int-low4 int16 n h s e = ground arith
set_int-low4 int32 n h s e = ground arith
set_int-low4 int64 n h s e = ground arith
set_int-low4 int n h s e = ground arith
set_int-low4 uint8 n h s e = omega arith
set_int-low4 uint16 n h s e = omega arith
set_int-low4 uint32 n h s e = ground arith
set_int-low4 uint64 n h s e = ground arith
set_int-low4 uint n h s e = ground arith

-- A kept number is read back from at least as many bytes as `extractInt` gives it.
pub set_int-low :
    (k : IntKind) (n len : ℕ)
    → IsInt k n
    → IsKept k n
    → IsLen len
    → extract_size k n ≤ len
    → set_int k (low len n) ≡ n
set_int-low k n len h s (inl e) l = rw e (
    set_int-low4 k n h s
      (elim (extract_size-IsLen k n) [ inl f ↦ f | inr f ↦ absurd (omega arith) ]))
set_int-low k n len h s (inr e) l = rw e h

pub read_int-le_bytes :
    (len n : ℕ) (rest : List ℕ)
    → IsLen len
    → n < 2 ^ 64
    → read_int len (le_bytes len n ++ rest) ≡ ok (low len n)
unfolding read_int
read_int-le_bytes len n rest (inl e) h = rw e (
    ap (λ t. read_uint32 (t ++ rest)) (sym (le_bytes-mod n))
    ∙ read_uint32-le_bytes (n % 2 ^ 32) rest (omega arith))
read_int-le_bytes len n rest (inr e) h = rw e (read_uint64-le_bytes n rest h)

-- The numbers of a slice, each of which survives the size.
abbrev pub Survives : IntKind → ℕ → ℕ → Type 0
Survives k len n = (n < 2 ^ 64) × (set_int k (low len n) ≡ n)

read_ints-ints :
    (k : IntKind) (len : ℕ) (ns : List ℕ)
    → IsLen len
    → All (Survives k len) ns
    → read_ints (length ns) k len (ints len ns) ≡ ok ns
unfolding read_ints
read_ints-ints k len [] w h = refl
read_ints-ints k len (n ∷ ns) w ((l, h), hs) =
    ap
      (λ o. o >>= λ v.
        read_ints (length ns) k len (drop len (le_bytes len n ++ ints len ns)) >>= λ vs.
        ok (set_int k v ∷ vs))
      (read_int-le_bytes len n (ints len ns) w l)
    ∙ (ap (λ t. read_ints (length ns) k len t >>= λ vs. ok (set_int k (low len n) ∷ vs))
          (drop-append len (le_bytes len n) (ints len ns) (length-le_bytes len n))
        ∙ (ap (λ o. o >>= λ vs. ok (set_int k (low len n) ∷ vs)) (read_ints-ints k len ns w hs)
            ∙ ap (λ v. ok (v ∷ ns)) h))

pub length-ints : (len : ℕ) (ns : List ℕ) → length (ints len ns) ≡ len * length ns
length-ints len [] = omega arith
length-ints len (n ∷ ns) = omega (
  arith,
  length-append (le_bytes len n) (ints len ns),
  length-le_bytes len n,
  length-ints len ns,
  mul_suc len (length ns),
)

len-ne_zero : (len : ℕ) → IsLen len → (len == 0) ≡ false
len-ne_zero len (inl e) = rw e refl
len-ne_zero len (inr e) = rw e refl

ints-rem : (len m n : ℕ) → IsLen len → m ≡ len * n → (m % len ≡ 0) × (m / len ≡ n)
ints-rem len m n (inl f) e =
    let e' : m ≡ 4 * n = e ∙ ap (λ l. l * n) f in rw f (omega arith, omega arith)
ints-rem len m n (inr f) e =
    let e' : m ≡ 8 * n = e ∙ ap (λ l. l * n) f in rw f (omega arith, omega arith)

decode_ints_of-ints :
    (k : IntKind) (len : ℕ) (ns : List ℕ)
    → IsLen len
    → All (Survives k len) ns
    → decode_ints_of k len (ints len ns) ≡ ok (ints_of ns)
unfolding decode_ints_of
decode_ints_of-ints k len ns w h =
    let (rem, quot) = ints-rem len (length (ints len ns)) (length ns) w (length-ints len ns) in
    rw (len-ne_zero len w, rem)
      (ap (λ m. read_ints m k len (ints len ns) >>= λ v. ok (ints_of v)) quot
        ∙ ap (λ o. o >>= λ v. ok (ints_of v)) (read_ints-ints k len ns w h))

int_len-le : (k : IntKind) (ns : List ℕ) (len : ℕ) → len ≤ int_len k ns len
unfolding int_len
int_len-le k [] len = omega arith
int_len-le k (n ∷ ns) len = elim (Bool-cases (ltb len (extract_size k n))) [
  | inl e ↦
      rw e (omega (arith, int_len-le k ns (extract_size k n), ltb→lt len (extract_size k n) e))
  | inr e ↦ rw e (int_len-le k ns len)
]

-- No number of the slice is larger than the size that is chosen for all of them.
int_len-Survives :
    (k : IntKind) (ns : List ℕ) (len size : ℕ)
    → IsLen size
    → int_len k ns len ≤ size
    → All (λ n. IsInt k n × IsKept k n) ns
    → All (Survives k size) ns
unfolding int_len
int_len-Survives k [] len size w h a = tt
int_len-Survives k (n ∷ ns) len size w h ((i, s), a) =
    let next = if ltb len (extract_size k n) then extract_size k n else len in
    let enough : extract_size k n ≤ next = ground arith in
    (
      (IsInt-lt k n i, set_int-low k n size i s w (omega (arith, int_len-le k ns next))),
      int_len-Survives k ns next size w h a,
    )

-- `decodeIntSlice` reads the numbers that `encodeIntSlice` wrote, if they are kept.
pub decode_int_slice-ints :
    (k : IntKind) (ns : List ℕ)
    → All (λ n. IsInt k n × IsKept k n) ns
    → decode_int_slice k (int_len k ns 4 ∷ ints (int_len k ns 4) ns) ≡ ok (ints_of ns)
unfolding decode_int_slice
decode_int_slice-ints k ns a =
    let w = int_len-IsLen k ns 4 (inl refl) in
    decode_ints_of-ints k (int_len k ns 4) ns w
      (int_len-Survives k ns 4 (int_len k ns 4) w (omega arith) a)
