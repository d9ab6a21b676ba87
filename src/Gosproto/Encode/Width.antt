-- ===== src/Gosproto/Encode/Width.antt =====
-- gosproto/encode.go: the size that `encodeIntSlice` chooses for the numbers of a slice.
use cellorigin.Base.{
  ℕ, ◌-◌, ◌^◌, ◌≤◌, ◌<◌, ◌≡◌, refl, ap, ◌∙◌, arith, List, [], ◌∷◌, ok, All, ◌⊎◌, inl, inr,
}
use cellorigin.Gosproto.Types.{
  IntKind, int8, int16, int32, int64, int, uint8, uint16, uint32, uint64, uint,
}
use cellorigin.Gosproto.Encode.{int_len, encode_int_slice, extract_size}
use cellorigin.Gosproto.Encode.Buffers.{ints, extract_size-IsLen, encode_int_slice-ints}

-- The numbers that are written in four bytes: all of the small types; of int and int64, as patterns
-- of 64 bits, those from -2^31 to below 2^31; of uint32, uint64 and uint those below 2^31.
abbrev pub Small : IntKind → ℕ → Type 0
Small int n = (n < 2 ^ 31) ⊎ (2 ^ 64 - 2 ^ 31 ≤ n)
Small int64 n = (n < 2 ^ 31) ⊎ (2 ^ 64 - 2 ^ 31 ≤ n)
Small uint32 n = n < 2 ^ 31
Small uint64 n = n < 2 ^ 31
Small uint n = n < 2 ^ 31
Small _ n = Unit

extract_size-Small :
    (k : IntKind) (n : ℕ)
    → (Small k n × (extract_size k n ≡ 4)) ⊎ ((¬ Small k n) × (extract_size k n ≡ 8))
unfolding extract_size
extract_size-Small int8 n = inl (tt, refl)
extract_size-Small int16 n = inl (tt, refl)
extract_size-Small int32 n = inl (tt, refl)
extract_size-Small int64 n = ground arith
extract_size-Small int n = ground arith
extract_size-Small uint8 n = inl (tt, refl)
extract_size-Small uint16 n = inl (tt, refl)
extract_size-Small uint32 n = ground arith
extract_size-Small uint64 n = ground arith
extract_size-Small uint n = ground arith

int_len_8 : (k : IntKind) (ns : List ℕ) → int_len k ns 8 ≡ 8
unfolding int_len
int_len_8 k [] = refl
int_len_8 k (n ∷ ns) = elim (extract_size-IsLen k n) [
  | inl e ↦ rw e (int_len_8 k ns)
  | inr e ↦ rw e (int_len_8 k ns)
]

int_len-Small :
    (k : IntKind) (ns : List ℕ)
    → (All (Small k) ns × (int_len k ns 4 ≡ 4)) ⊎ ((¬ All (Small k) ns) × (int_len k ns 4 ≡ 8))
unfolding int_len
int_len-Small k [] = inl (tt, refl)
int_len-Small k (n ∷ ns) = elim (extract_size-Small k n) [
  | inl (s, e) ↦ elim (int_len-Small k ns) [
    | inl (all, l) ↦ inl ((s, all), rw e l)
    | inr (big, l) ↦ inr ((λ all. big all.1), rw e l)
  ]
  | inr (big, e) ↦ inr ((λ all. big all.0), rw e (int_len_8 k ns))
]

-- The buffer of `encodeIntSlice` is the size of a number, which is 4 if every number is small and 8 if
-- one is not, and then the numbers one behind the other, each in that many bytes. Small are: for int
-- and int64 the numbers from -2^31 to below 2^31, for uint32, uint64 and uint those below 2^31, and
-- for the other types all.
pub encode_int_slice-Small :
    (k : IntKind) (ns : List ℕ)
    → (All (Small k) ns × (encode_int_slice k ns ≡ ok (4 ∷ ints 4 ns)))
      ⊎ ((¬ All (Small k) ns) × (encode_int_slice k ns ≡ ok (8 ∷ ints 8 ns)))
encode_int_slice-Small k ns = elim (int_len-Small k ns) [
  | inl (all, l) ↦ inl (all, encode_int_slice-ints k ns ∙ ap (λ len. ok (len ∷ ints len ns)) l)
  | inr (big, l) ↦ inr (big, encode_int_slice-ints k ns ∙ ap (λ len. ok (len ∷ ints len ns)) l)
]
