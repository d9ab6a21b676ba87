-- ===== src/Gosproto/Pack/Total.antt =====
-- `Unpack` on any bytes, well formed or not.
use cellorigin.Base.{
  ℕ, zero, suc, ◌+◌, ◌*◌, ◌/◌, ◌%◌, ◌<◌, ◌≤◌, ◌≡◌, true, false, refl, arith, List, [], ◌∷◌, ◌++◌,
  length, take, drop, length-append, length-take, length-drop, ◌==◌, Outcome, ok, err, ◌>>=◌, ◌⊎◌,
  inl, inr, Bool-cases, lt_or_ge, ==_iff,
}
use cellorigin.Gosproto.Error.{Error, unpack}
use cellorigin.Gosproto.Words.{load}
use cellorigin.Gosproto.Pack.{unpack_bits, unpack_round, unpack_loop, unpack_bytes}

load_inside : (src : List ℕ) (i : ℕ) → i < length src → (b : ℕ) × (load {E = Error} src i ≡ ok b)
unfolding load
load_inside [] i h = absurd (omega arith)
load_inside (x ∷ src) zero h = (x, refl)
load_inside (x ∷ src) (suc i) h = load_inside src i (omega arith)

-- The rounds of the inner loop: an error, or as many bytes as rounds, with `notzero` inside `src`.
abbrev BitsDone : ℕ → ℕ → List ℕ → Outcome Error (ℕ × List ℕ) → Type 0
BitsDone rounds notzero src r =
    (r ≡ err unpack)
    ⊎ ((n : ℕ) × (buf : List ℕ) × (r ≡ ok (n, buf)) × (length buf ≡ rounds) × (n < length src))

bits_cons :
    (rounds notzero b : ℕ) (src : List ℕ) (r : Outcome Error (ℕ × List ℕ))
    → BitsDone rounds notzero src r
    → BitsDone (suc rounds) notzero src (r >>= λ (n, buf). ok (n, b ∷ buf))
bits_cons rounds notzero b src r (inl e) = inl (rw e refl)
bits_cons rounds notzero b src r (inr (n, buf, e, l, h)) =
    inr (n, b ∷ buf, rw e refl, omega arith, h)

bits_clear :
    (rounds hd notzero : ℕ) (src : List ℕ)
    → (hd % 2 == 1) ≡ false
    → unpack_bits (suc rounds) hd notzero src
      ≡ (unpack_bits rounds (hd / 2) notzero src >>= λ (n, buf). ok (n, 0 ∷ buf))
unfolding unpack_bits
bits_clear rounds hd notzero src e = ground arith

bits_short :
    (rounds hd notzero : ℕ) (src : List ℕ)
    → (hd % 2 == 1) ≡ true
    → length src < notzero + 2
    → unpack_bits (suc rounds) hd notzero src ≡ err unpack
unfolding unpack_bits
bits_short rounds hd notzero src e h = ground arith

bits_set :
    (rounds hd notzero b : ℕ) (src : List ℕ)
    → (hd % 2 == 1) ≡ true
    → notzero + 2 ≤ length src
    → load {E = Error} src (notzero + 1) ≡ ok b
    → unpack_bits (suc rounds) hd notzero src
      ≡ (unpack_bits rounds (hd / 2) (notzero + 1) src >>= λ (n, buf). ok (n, b ∷ buf))
unfolding unpack_bits
bits_set rounds hd notzero b src e h l = ground arith

unpack_bits_done :
    (rounds hd notzero : ℕ) (src : List ℕ)
    → notzero < length src
    → BitsDone rounds notzero src (unpack_bits rounds hd notzero src)
unpack_bits_done zero hd notzero src h = inr (notzero, [], unfold unpack_bits in refl, refl, h)
unpack_bits_done (suc rounds) hd notzero src h = elim (Bool-cases (hd % 2 == 1)) [
  | inr clear ↦
      rw (bits_clear rounds hd notzero src clear)
        (bits_cons rounds notzero 0 src _ (unpack_bits_done rounds (hd / 2) notzero src h))
  | inl bit ↦ elim (lt_or_ge (length src) (notzero + 2)) [
    | inl short ↦ inl (bits_short rounds hd notzero src bit short)
    | inr room ↦
        let (b, l) = load_inside src (notzero + 1) (omega arith) in
        rw (bits_set rounds hd notzero b src bit room l) (
          bits_cons rounds (notzero + 1) b src _
            (unpack_bits_done rounds (hd / 2) (notzero + 1) src (omega arith)))
  ]
]

-- A round: an error, or at least one byte used, all inside the slice, and whole segments appended.
abbrev RoundDone : List ℕ → Outcome Error (ℕ × List ℕ) → Type 0
RoundDone src r =
    (r ≡ err unpack)
    ⊎ ((used : ℕ) × (bytes : List ℕ) × (r ≡ ok (used, bytes))
        × (0 < used)
        × (used ≤ length src)
        × (length bytes % 8 ≡ 0))

round_run :
    (count : ℕ) (src : List ℕ)
    → load {E = Error} src 1 ≡ ok count
    → 2 ≤ length src
    → RoundDone src (unpack_round 0xff src)
unfolding unpack_round
round_run count src l h = elim (lt_or_ge (length src) (2 + (count + 1) * 8)) [
  | inl short ↦ inl (ground arith)
  | inr room ↦ inr (
    2 + (count + 1) * 8,
    drop 2 (take (2 + (count + 1) * 8) src),
    ground arith,
    omega arith,
    room,
    omega (
      arith,
      length-drop 2 (take (2 + (count + 1) * 8) src),
      length-take (2 + (count + 1) * 8) src,
    ),
  )
]

round_segment :
    (hd : ℕ) (src : List ℕ)
    → (hd == 0xff) ≡ false
    → BitsDone 8 0 src (unpack_bits 8 hd 0 src)
    → RoundDone src (unpack_round hd src)
unfolding unpack_round
round_segment hd src e (inl f) = inl (rw (e, f) refl)
round_segment hd src e (inr (n, buf, f, l, h)) =
    inr (n + 1, buf, rw (e, f) refl, omega arith, omega arith, omega arith)

unpack_round_done : (hd : ℕ) (src : List ℕ) → 0 < length src → RoundDone src (unpack_round hd src)
unpack_round_done hd src pos = elim (Bool-cases (hd == 0xff)) [
  | inr other ↦ round_segment hd src other (unpack_bits_done 8 hd 0 src pos)
  | inl run ↦
      let e : hd ≡ 0xff = (==_iff hd 0xff).0 run in
      rw e (elim (lt_or_ge (length src) 2) [
        | inl short ↦ inl (unfold unpack_round in ground arith)
        | inr room ↦ let (count, l) = load_inside src 1 (omega arith) in round_run count src l room
      ])
]

-- The result of the loop: an error, or whole segments.
abbrev pub Unpacked : Outcome Error (List ℕ) → Type 0
Unpacked r = (r ≡ err unpack) ⊎ ((d : List ℕ) × (r ≡ ok d) × (length d % 8 ≡ 0))

loop_next :
    (fuel hd used : ℕ) (src bytes out : List ℕ)
    → unpack_round hd (hd ∷ src) ≡ ok (used, bytes)
    → unpack_loop (suc fuel) (hd ∷ src) out ≡ unpack_loop fuel (drop used (hd ∷ src)) (out ++ bytes)
unfolding unpack_loop
loop_next fuel hd used src bytes out e = rw e refl

unpack_loop_done :
    (fuel : ℕ) (src out : List ℕ)
    → length src ≤ fuel
    → length out % 8 ≡ 0
    → Unpacked (unpack_loop fuel src out)
unpack_loop_done fuel [] out h l = inr (out, unfold unpack_loop in refl, l)
unpack_loop_done zero (hd ∷ src) out h l = absurd (omega arith)
unpack_loop_done (suc fuel) (hd ∷ src) out h l =
    elim (unpack_round_done hd (hd ∷ src) (omega arith)) [
      | inl e ↦ inl (unfold unpack_loop in rw e refl)
      | inr (used, bytes, e, pos, room, whole) ↦ rw (loop_next fuel hd used src bytes out e) (
          unpack_loop_done fuel (drop used (hd ∷ src)) (out ++ bytes)
            (omega (arith, length-drop used (hd ∷ src))) (omega (arith, length-append out bytes)))
    ]

-- On every input `Unpack` ends, without a panic: with `ErrUnpack`, or with whole segments of eight.
pub unpack_bytes-Unpacked : (src : List ℕ) → Unpacked (unpack_bytes src)
unfolding unpack_bytes
unpack_bytes-Unpacked src = unpack_loop_done (length src) src [] (omega arith) refl
