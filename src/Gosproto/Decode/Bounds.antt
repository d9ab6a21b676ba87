-- ===== src/Gosproto/Decode/Bounds.antt =====
-- What the decoders do with bytes that no encoder wrote (gosproto/decode.go).
use cellorigin.Base.{
  ℕ, zero, suc, ◌+◌, ◌-◌, ◌*◌, ◌/◌, ◌%◌, ◌^◌, ◌<◌, ◌≤◌, ◌≡◌, ◌≢◌, refl, sym, ap, ◌∙◌, arith, List,
  [], ◌∷◌, none, some, ltb, ltb→lt, ◌==◌, if◌then◌else◌, length, length-drop, drop, get_elem?, ok,
  err, panic, ◌>>=◌, inl, inr, ◌⊎◌, true, false, Bool-cases,
}
use native.Mathlib.Nat.{div-add-mod'}
use cellorigin.Gosproto.Error.{Error, decode}
use cellorigin.Gosproto.Words.{read_uint16, read_uint64}
use cellorigin.Gosproto.Pack.{slice_from}
use cellorigin.Gosproto.Types.{IntKind, set_int, ints_of}
use cellorigin.Gosproto.Decode.{
  Tag, read_tags, decode_header, read_int, read_ints, decode_int_slice,
}

read_uint16-total : (bs : List ℕ) → 2 ≤ length bs → (v : ℕ) × (read_uint16 {E = Error} bs ≡ ok v)
unfolding read_uint16
read_uint16-total (a ∷ (b ∷ bs)) h = (_, refl)
read_uint16-total (a ∷ []) h = absurd (omega arith)
read_uint16-total [] h = absurd (omega arith)

slice_from-total : (bs : List ℕ) (k : ℕ) → k ≤ length bs → slice_from bs k ≡ ok (drop k bs)
unfolding slice_from
slice_from-total bs k h = ground arith

-- A round of the loop of `decodeHeader` that reads `v`.
read_tags-reads :
    (rounds v k tag : ℕ) (chunk : List ℕ)
    → k ≤ length chunk
    → read_uint16 {E = Error} (drop k chunk) ≡ ok v
    → read_tags (suc rounds) chunk k tag ≡ elim (v % 2 == 0) [
      | false ↦ read_tags rounds chunk (k + 2) ((tag + (v + 1) % 2 ^ 16 / 2) % 2 ^ 16)
      | true ↦ read_tags rounds chunk (k + 2) ((tag + 1) % 2 ^ 16) >>= λ tags.
          ok (record { tag = tag; val = if v == 0 then none else some (v / 2 - 1) } ∷ tags)
    ]
unfolding read_tags
read_tags-reads rounds v k tag chunk h r = rw (slice_from-total chunk k h, r) refl

read_tags-even :
    (rounds v k tag : ℕ) (chunk : List ℕ) (tags : List Tag)
    → k ≤ length chunk
    → read_uint16 {E = Error} (drop k chunk) ≡ ok v
    → v % 2 ≡ 0
    → read_tags rounds chunk (k + 2) ((tag + 1) % 2 ^ 16) ≡ ok tags
    → read_tags (suc rounds) chunk k tag
      ≡ ok (record { tag = tag; val = if v == 0 then none else some (v / 2 - 1) } ∷ tags)
unfolding read_tags
read_tags-even rounds v k tag chunk tags h r e t =
    read_tags-reads rounds v k tag chunk h r ∙ rw (e, t) refl

read_tags-odd :
    (rounds v k tag : ℕ) (chunk : List ℕ)
    → k ≤ length chunk
    → read_uint16 {E = Error} (drop k chunk) ≡ ok v
    → v % 2 ≡ 1
    → read_tags (suc rounds) chunk k tag
      ≡ read_tags rounds chunk (k + 2) ((tag + (v + 1) % 2 ^ 16 / 2) % 2 ^ 16)
unfolding read_tags
read_tags-odd rounds v k tag chunk h r e = read_tags-reads rounds v k tag chunk h r ∙ rw e refl

-- The tags that are read, no more than the rounds.
abbrev Reads : ℕ → List ℕ → ℕ → ℕ → Type 0
Reads rounds chunk k tag =
    (tags : List Tag) × (read_tags rounds chunk k tag ≡ ok tags) × (length tags ≤ rounds)

read_tags-next :
    (rounds v k tag : ℕ) (chunk : List ℕ)
    → k ≤ length chunk
    → read_uint16 {E = Error} (drop k chunk) ≡ ok v
    → ((tag' : ℕ) → Reads rounds chunk (k + 2) tag')
    → Reads (suc rounds) chunk k tag
read_tags-next rounds v k tag chunk h r rec = elim (Bool-cases (v % 2 == 0)) [
  | inl e ↦
      let (tags, t, l) = rec ((tag + 1) % 2 ^ 16) in
      (_, read_tags-even rounds v k tag chunk tags h r (ground arith) t, omega arith)
  | inr e ↦
      let (tags, t, l) = rec ((tag + (v + 1) % 2 ^ 16 / 2) % 2 ^ 16) in
      (tags, read_tags-odd rounds v k tag chunk h r (ground arith) ∙ t, omega arith)
]

read_tags-total :
    (rounds : ℕ) (chunk : List ℕ) (k tag : ℕ)
    → k + 2 * rounds ≤ length chunk
    → Reads rounds chunk k tag
unfolding read_tags
read_tags-total zero chunk k tag h = ([], refl, omega arith)
read_tags-total (suc rounds) chunk k tag h =
    let (v, r) = read_uint16-total (drop k chunk) (omega (arith, length-drop k chunk)) in
    read_tags-next rounds v k tag chunk (omega arith) r
      (λ tag'. read_tags-total rounds chunk (k + 2) tag' (omega arith))

decode_header-by :
    (chunk : List ℕ) (fn : ℕ) (tags : List Tag)
    → ltb (length chunk) 2 ≡ false
    → read_uint16 {E = Error} chunk ≡ ok fn
    → ltb (length chunk) (2 + fn * 2) ≡ false
    → read_tags fn chunk 2 0 ≡ ok tags
    → decode_header chunk ≡ ok (2 + fn * 2, tags)
unfolding decode_header
decode_header-by chunk fn tags e r f t = rw (e, r, f, t) refl

decode_header-short :
    (chunk : List ℕ) (fn : ℕ)
    → ltb (length chunk) 2 ≡ false
    → read_uint16 {E = Error} chunk ≡ ok fn
    → ltb (length chunk) (2 + fn * 2) ≡ true
    → decode_header chunk ≡ err decode
unfolding decode_header
decode_header-short chunk fn e r f = rw (e, r, f) refl

-- `decodeHeader` never panics: for any bytes it gives ErrDecode, or a position within the bytes behind
-- the headers, and at most as many tags as there are headers.
pub decode_header-Bounded :
    (chunk : List ℕ)
    → (decode_header chunk ≡ err decode)
      ⊎ ((total : ℕ) × (tags : List Tag) × (decode_header chunk ≡ ok (total, tags))
          × (total ≤ length chunk)
          × (2 * length tags + 2 ≤ total))
unfolding decode_header
decode_header-Bounded chunk = elim (Bool-cases (ltb (length chunk) 2)) [
  | inl e ↦ inl (rw e refl)
  | inr e ↦
      let two : 2 ≤ length chunk = ground arith in
      let (fn, r) = read_uint16-total chunk two in
      elim (Bool-cases (ltb (length chunk) (2 + fn * 2))) [
        | inl f ↦ inl (decode_header-short chunk fn e r f)
        | inr f ↦
            let within : 2 + fn * 2 ≤ length chunk = ground arith in
            let (tags, t, l) = read_tags-total fn chunk 2 0 (omega arith) in
            inr (2 + fn * 2, tags, decode_header-by chunk fn tags e r f t, within, omega arith)
      ]
]

get_elem?-none : (bs : List ℕ) (i : ℕ) → length bs ≤ i → get_elem? bs i ≡ none
get_elem?-none [] i h = refl
get_elem?-none (b ∷ bs) zero h = absurd (omega arith)
get_elem?-none (b ∷ bs) (suc i) h = get_elem?-none bs i (omega arith)

read_int-wide : (len : ℕ) (bs : List ℕ) → len ≢ 4 → read_int len bs ≡ read_uint64 bs
unfolding read_int
read_int-wide len bs n = elim (Bool-cases (len == 4)) [
  | inl e ↦ absurd (n (ground arith))
  | inr e ↦ rw e refl
]

quotient :
    (q len n : ℕ) → q * len ≡ n → 0 < n → (rounds : ℕ) × (q ≡ suc rounds) × (n ≡ suc rounds * len)
quotient zero len n e pos = absurd (omega arith)
quotient (suc q) len n e pos = (q, refl, sym e)

-- A whole number of numbers.
whole :
    (len : ℕ) (bs : List ℕ)
    → 0 < length bs
    → length bs % len ≡ 0
    → 0 < len
    → (rounds : ℕ) × (length bs / len ≡ suc rounds) × (length bs ≡ suc rounds * len)
whole len bs pos e l =
    let all = div-add-mod' (length bs) len in
    quotient (length bs / len) len (length bs) (omega arith) pos

read_uint64-short : (bs : List ℕ) → length bs < 8 → read_uint64 {E = Error} bs ≡ panic
unfolding read_uint64
read_uint64-short bs h = let gone = get_elem?-none bs 7 (omega arith) in ground arith

read_uint64-total : (bs : List ℕ) → 8 ≤ length bs → (v : ℕ) × (read_uint64 {E = Error} bs ≡ ok v)
unfolding read_uint64
read_uint64-total (a ∷ (b ∷ (c ∷ (d ∷ (e ∷ (f ∷ (g ∷ (h ∷ bs)))))))) l = (_, refl)
read_uint64-total [] l = absurd (omega arith)
read_uint64-total (a ∷ []) l = absurd (omega arith)
read_uint64-total (a ∷ (b ∷ [])) l = absurd (omega arith)
read_uint64-total (a ∷ (b ∷ (c ∷ []))) l = absurd (omega arith)
read_uint64-total (a ∷ (b ∷ (c ∷ (d ∷ [])))) l = absurd (omega arith)
read_uint64-total (a ∷ (b ∷ (c ∷ (d ∷ (e ∷ []))))) l = absurd (omega arith)
read_uint64-total (a ∷ (b ∷ (c ∷ (d ∷ (e ∷ (f ∷ [])))))) l = absurd (omega arith)
read_uint64-total (a ∷ (b ∷ (c ∷ (d ∷ (e ∷ (f ∷ (g ∷ []))))))) l = absurd (omega arith)

-- A number that is too short to read, and one that is read before the others panic.
read_ints-short :
    (rounds : ℕ) (k : IntKind) (len : ℕ) (bs : List ℕ)
    → len ≢ 4
    → length bs < 8
    → read_ints (suc rounds) k len bs ≡ panic
unfolding read_ints
read_ints-short rounds k len bs n h =
    ap (λ o. o >>= λ v. read_ints rounds k len (drop len bs) >>= λ vs. ok (set_int k v ∷ vs))
      (read_int-wide len bs n ∙ read_uint64-short bs h)

read_ints-later :
    (rounds : ℕ) (k : IntKind) (len : ℕ) (bs : List ℕ)
    → len ≢ 4
    → 8 ≤ length bs
    → read_ints rounds k len (drop len bs) ≡ panic
    → read_ints (suc rounds) k len bs ≡ panic
unfolding read_ints
read_ints-later rounds k len bs n h p =
    let (v, r) = read_uint64-total bs h in
    ap (λ o. o >>= λ v. read_ints rounds k len (drop len bs) >>= λ vs. ok (set_int k v ∷ vs))
      (read_int-wide len bs n ∙ r)
    ∙ ap (λ o. o >>= λ vs. ok (set_int k v ∷ vs)) p

suc_mul : (a b : ℕ) → suc a * b ≡ b + a * b
suc_mul a b = grind arith

-- The last number of the slice has fewer than eight bytes.
read_ints-panics :
    (rounds : ℕ) (k : IntKind) (len : ℕ) (bs : List ℕ)
    → len < 8
    → len ≢ 4
    → length bs ≡ suc rounds * len
    → read_ints (suc rounds) k len bs ≡ panic
read_ints-panics zero k len bs l n h = read_ints-short 0 k len bs n (omega arith)
read_ints-panics (suc rounds) k len bs l n h = elim (Bool-cases (ltb (length bs) 8)) [
  | inl e ↦ read_ints-short (suc rounds) k len bs n (ltb→lt (length bs) 8 e)
  | inr e ↦
      let wide : 8 ≤ length bs = ground arith in
      read_ints-later (suc rounds) k len bs n wide (
        read_ints-panics rounds k len (drop len bs) l n
          (omega (arith, length-drop len bs, suc_mul (suc rounds) len)))
]

-- `decodeIntSlice` panics on data whose first byte, the size of a number, is not 4 and less than 8, if
-- that size is zero or the rest of the data is a positive multiple of it.
pub decode_int_slice-panics :
    (k : IntKind) (len : ℕ) (bs : List ℕ)
    → len < 8
    → len ≢ 4
    → (len ≡ 0) ⊎ ((0 < length bs) × (length bs % len ≡ 0))
    → decode_int_slice k (len ∷ bs) ≡ panic
unfolding decode_int_slice
decode_int_slice-panics k len bs l n (inl e) = rw e refl
decode_int_slice-panics k len bs l n (inr (pos, e)) = elim (Bool-cases (len == 0)) [
  | inl z ↦ rw z refl
  | inr z ↦
      let (rounds, r, q) = whole len bs pos e (ground arith) in
      rw (z, e)
        (ap (λ m. read_ints m k len bs >>= λ ns. ok (ints_of ns)) r
          ∙ ap (λ o. o >>= λ ns. ok (ints_of ns)) (read_ints-panics rounds k len bs l n q))
]
