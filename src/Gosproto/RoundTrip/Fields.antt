-- ===== src/Gosproto/RoundTrip/Fields.antt =====
-- The coders of the fields that hold no struct (gosproto/encode.go, gosproto/decode.go) carry every
-- value that `IsSent` allows.
use cellorigin.Base.{
  ℕ, ◌+◌, ◌*◌, ◌%◌, ◌^◌, ◌<◌, ◌≡◌, refl, ap, ◌∙◌, subst, arith, List, [], ◌∷◌, ◌++◌, append-nil,
  none, some, leb, ◌==◌, length, drop_all, replicate, length-replicate, All, ok, ◌>>=◌, le_bytes,
  length-le_bytes, Bool, true, false, Bool-cases, inl, inr,
}
use cellorigin.Gosproto.Words.RoundTrip.{le_bytes-IsByte}
use cellorigin.Gosproto.Types.{
  IntKind, SprotoType, string, bool_slice, bytes, string_slice, integer, integer_slice, set_int,
  zero_of, int_of, string_of, bytes_of, bools_of, ints_of, strings_of,
}
use cellorigin.Gosproto.Encode.{
  enc, header_enc, max_embedded_int, extract_size, encode_int, encode_bool_slice,
}
use cellorigin.Gosproto.Encode.Buffers.{
  chunks, IsLen, extract_size-IsLen, write_int-le_bytes, encode_bytes_lem, encode_chunks-chunks,
  encode_int_slice-ints,
}
use cellorigin.Gosproto.Decode.{dec_with, read_int, int_data}
use cellorigin.Gosproto.Decode.Slices.{
  IsInt, IsKept, IsShort, IsInt-lt, low, set_int-low, read_int-le_bytes, decode_bool_slice-encode,
  decode_int_slice-ints, read_strings-chunks,
}
use cellorigin.Gosproto.RoundTrip.{Fits, IsCoded}

-- The data of a number.
int_data-le_bytes :
    (len n : ℕ) → IsLen len → n < 2 ^ 64 → int_data none (le_bytes len n) ≡ ok (low len n)
unfolding int_data read_int
int_data-le_bytes len n (inl e) h = rw e (read_int-le_bytes 4 n [] (inl refl) h)
int_data-le_bytes len n (inr e) h = rw e (read_int-le_bytes 8 n [] (inr refl) h)

encode_int-le_bytes :
    (k : IntKind) (n : ℕ)
    → leb n max_embedded_int ≡ false
    → encode_int k n ≡ ok (some (le_bytes (extract_size k n) n))
unfolding encode_int
encode_int-le_bytes k n h =
    let size = extract_size k n in
    let zeros = replicate {A = ℕ} size 0 in
    rw h (
      ap (λ o. o >>= λ buf. ok (some buf))
        (write_int-le_bytes size n zeros (extract_size-IsLen k n)
          (omega (arith, length-replicate {A = ℕ} size 0)))
      ∙ (ap (λ t. ok (some (le_bytes size n ++ t)))
            (drop_all size zeros (omega (arith, length-replicate {A = ℕ} size 0)))
          ∙ ap (λ t. ok (some t)) (append-nil (le_bytes size n))))

encode_int-none : (k : IntKind) (n : ℕ) → leb n max_embedded_int ≡ true → encode_int k n ≡ ok none
unfolding encode_int
encode_int-none k n h = rw h refl

module _ (types : ℕ → SprotoType) where
  pub int-IsCoded :
      (k : IntKind) (n : ℕ) → IsInt k n → IsKept k n → IsCoded types (integer k) (int_of n)
  unfolding enc header_enc dec_with zero_of
  int-IsCoded k n h s = elim (Bool-cases (n == 0)) [
    | inl e ↦
        let zero_n : 0 ≡ n = ground arith in
        subst (λ n. IsCoded types (integer k) (int_of n)) zero_n (IsCoded.absent refl refl)
    | inr e ↦ elim (Bool-cases (leb n max_embedded_int)) [
      | inl f ↦
          let small : 2 * (n + 1) % 2 ^ 16 ≡ 2 * (n + 1) = ground arith in
          IsCoded.embedded n (ground arith) (rw (e, f, small) refl) (encode_int-none k n f)
            (λ fuel. ap (λ n. ok (int_of n)) h)
      | inr f ↦
          let size = extract_size k n in
          let w = extract_size-IsLen k n in
          let short : length (le_bytes size n) < 2 ^ 32 = elim w [
            | inl g ↦ omega (arith, length-le_bytes size n)
            | inr g ↦ omega (arith, length-le_bytes size n)
          ] in
          IsCoded.chunked (le_bytes size n) (rw (e, f) refl) (encode_int-le_bytes k n f)
            (short, le_bytes-IsByte size n)
            (λ fuel l.
              ap (λ o. o >>= λ n. ok (int_of (set_int k n)))
                (int_data-le_bytes size n w (IsInt-lt k n h))
              ∙ ap (λ n. ok (int_of n)) (set_int-low k n size h s w (omega arith)))
    ]
  ]

  pub string-IsCoded :
      (s : List ℕ) → Fits (enc types string (string_of s)) → IsCoded types string (string_of s)
  unfolding enc header_enc dec_with zero_of
  string-IsCoded [] f = IsCoded.absent refl refl
  string-IsCoded (b ∷ bs) f =
      let e = ap (λ s. ok (some s)) (encode_bytes_lem (b ∷ bs)) in
      IsCoded.chunked (b ∷ bs) refl e (subst Fits e f) (λ fuel l. refl)

  pub bytes-IsCoded :
      (s : List ℕ) → Fits (enc types bytes (bytes_of s)) → IsCoded types bytes (bytes_of s)
  unfolding enc header_enc dec_with
  bytes-IsCoded s f =
      let e = ap (λ s. ok (some s)) (encode_bytes_lem s) in
      IsCoded.chunked s refl e (subst Fits e f) (λ fuel l. refl)

  pub bools-IsCoded :
      (bs : List Bool)
      → Fits (enc types bool_slice (bools_of bs))
      → IsCoded types bool_slice (bools_of bs)
  unfolding enc header_enc dec_with
  bools-IsCoded bs f =
      IsCoded.chunked (encode_bool_slice bs) refl refl f
        (λ fuel l. ap (λ b. ok (bools_of b)) (decode_bool_slice-encode bs))

  pub ints-IsCoded :
      (k : IntKind) (ns : List ℕ)
      → All (λ n. IsInt k n × IsKept k n) ns
      → Fits (enc types (integer_slice k) (ints_of ns))
      → IsCoded types (integer_slice k) (ints_of ns)
  unfolding enc header_enc dec_with
  ints-IsCoded k ns a f =
      let e = ap (λ o. o >>= λ d. ok (some d)) (encode_int_slice-ints k ns) in
      IsCoded.chunked _ refl e (subst Fits e f) (λ fuel l. decode_int_slice-ints k ns a)

  pub strings-IsCoded :
      (ss : List (List ℕ))
      → All IsShort ss
      → Fits (enc types string_slice (strings_of ss))
      → IsCoded types string_slice (strings_of ss)
  unfolding enc header_enc dec_with
  strings-IsCoded ss a f =
      let e = ap (λ o. o >>= λ d. ok (some d)) (encode_chunks-chunks ss) in
      IsCoded.chunked (chunks ss) refl e (subst Fits e f) (λ fuel l.
        ap (λ o. o >>= λ ss. ok (strings_of ss))
          (read_strings-chunks ss (length (chunks ss)) a (omega arith)))
