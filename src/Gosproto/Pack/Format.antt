-- ===== src/Gosproto/Pack/Format.antt =====
-- The packed format by itself, and that `Unpack` reads exactly it.
use cellorigin.Base.{
  ℕ, zero, suc, ◌+◌, ◌-◌, ◌*◌, ◌/◌, ◌%◌, ◌^◌, ◌<◌, ◌≤◌, ◌≡◌, refl, ap, ◌∙◌, arith, List, [], ◌∷◌,
  ◌++◌, append-nil, append_assoc, length, drop, length-append, take-append, drop-append, Bool-cases,
  inl, inr, get_elem?-append, not-==_of_ne, ◌==◌, if◌then◌else◌, Outcome, ok, ◌>>=◌,
}
use cellorigin.Gosproto.Words.{load}
use cellorigin.Gosproto.Error.{Error}
use cellorigin.Gosproto.Pack.{unpack_bits, unpack_round, unpack_loop, unpack_bytes}
use native.Mathlib.Nat.{pow-suc, zero-add}
use native.Mathlib.Numerals.{add-one}

-- The bytes of a segment that are not zero, and the header whose bit `i` says so of byte `i`.
abbrev pub nonzeros : List ℕ → List ℕ
nonzeros [] = []
nonzeros (v ∷ vs) = if v == 0 then nonzeros vs else v ∷ nonzeros vs

abbrev pub header : List ℕ → ℕ
header [] = 0
header (v ∷ vs) = (if v == 0 then 0 else 1) + 2 * header vs

-- `Packed p d`: the bytes `p` stand for the bytes `d`, which are whole segments of eight.
-- A segment with a zero is its header and the other bytes; up to 256 segments may stand as they are.
pub data Packed : List ℕ → List ℕ → Type 0 where
  done : {p d : List ℕ} → p ≡ [] → d ≡ [] → Packed p d
  plain :
      {p d : List ℕ} (seg p' d' : List ℕ)
      → length seg ≡ 8
      → length (nonzeros seg) < 8
      → Packed p' d'
      → p ≡ header seg ∷ (nonzeros seg ++ p')
      → d ≡ seg ++ d'
      → Packed p d
  run :
      {p d : List ℕ} (n : ℕ) (bytes p' d' : List ℕ)
      → n < 256
      → length bytes ≡ 8 * (n + 1)
      → Packed p' d'
      → p ≡ 0xff ∷ n ∷ (bytes ++ p')
      → d ≡ bytes ++ d'
      → Packed p d

-- A header has a bit for each byte, and all of them only if no byte is zero.
pub header_lt : (seg : List ℕ) → header seg < 2 ^ length seg
header_lt [] = omega arith
header_lt (v ∷ vs) = ground (arith, header_lt vs, pow-suc 2 (length vs))

pub header_not_full :
    (seg : List ℕ) → length (nonzeros seg) < length seg → header seg + 1 < 2 ^ length seg
header_not_full [] h = absurd (omega arith)
header_not_full (v ∷ vs) h = ground (arith, header_lt vs, header_not_full vs, pow-suc 2 (length vs))

pub length-nonzeros : (seg : List ℕ) → length (nonzeros seg) ≤ length seg
length-nonzeros [] = omega arith
length-nonzeros (v ∷ vs) = ground (arith, length-nonzeros vs)

load-append :
    (pre : List ℕ) (v : ℕ) (rest : List ℕ) (i : ℕ)
    → length pre ≡ i
    → load {E = Error} (pre ++ v ∷ rest) i ≡ ok v
unfolding load
load-append pre v rest i h = rw (← h) (rw (get_elem?-append pre v rest, load))

abbrev put_byte : ℕ → ℕ × List ℕ → Outcome Error (ℕ × List ℕ)
put_byte b (n, buf) = ok (n, b ∷ buf)

-- A round at a clear bit, and at a set bit over the byte `v`.
unpack_bits_clear :
    (n hd notzero : ℕ) (src : List ℕ)
    → hd % 2 ≡ 0
    → unpack_bits (suc n) hd notzero src ≡ (unpack_bits n (hd / 2) notzero src >>= put_byte 0)
unfolding unpack_bits
unpack_bits_clear n hd notzero src h = ground arith

unpack_bits_set :
    (n hd notzero v : ℕ) (pre rest : List ℕ)
    → hd % 2 ≡ 1
    → length pre ≡ notzero + 1
    → unpack_bits (suc n) hd notzero (pre ++ v ∷ rest)
      ≡ (unpack_bits n (hd / 2) (notzero + 1) (pre ++ v ∷ rest) >>= put_byte v)
unfolding unpack_bits
unpack_bits_set n hd notzero v pre rest h l =
    ground (arith, load-append pre v rest (notzero + 1) l, length-append pre (v ∷ rest))

-- The inner loop reads a segment back from its header and its bytes.
unpack_bits-header :
    (seg pre rest : List ℕ) (notzero hd : ℕ)
    → hd ≡ header seg
    → length pre ≡ notzero + 1
    → unpack_bits (length seg) hd notzero (pre ++ (nonzeros seg ++ rest))
      ≡ ok (notzero + length (nonzeros seg), seg)
unpack_bits-header [] pre rest notzero hd e h = unfold unpack_bits in ground arith
unpack_bits-header (v ∷ seg) pre rest notzero hd e h = elim (Bool-cases (v == 0)) [
  | inl z ↦ rw z (
      unpack_bits_clear (length seg) hd notzero _ (ground arith)
      ∙ rw (unpack_bits-header seg pre rest notzero (hd / 2) (ground arith) h) (ground arith))
  | inr nz ↦ rw nz (
      unpack_bits_set (length seg) hd notzero v pre (nonzeros seg ++ rest) (ground arith) h
      ∙ rw (← append_assoc pre (v ∷ []) (nonzeros seg ++ rest)) (
          rw
            (unpack_bits-header seg (pre ++ v ∷ []) rest (notzero + 1) (hd / 2) (ground arith)
              (omega (arith, length-append pre (v ∷ []))))
            (ground arith)))
]

-- A round of `Unpack` on the packed form of a segment, and of a run.
unpack_round_plain :
    (seg rest : List ℕ)
    → length seg ≡ 8
    → length (nonzeros seg) < 8
    → unpack_round (header seg) (header seg ∷ (nonzeros seg ++ rest))
      ≡ ok (length (nonzeros seg) + 1, seg)
unfolding unpack_round
unpack_round_plain seg rest l h =
    rw (not-==_of_ne (header seg) 0xff (λ e. omega (arith, full, e)), whole) refl
  where
    full : header seg + 1 < 256
    full = rw l at (header_not_full seg (omega arith))

    whole :
        unpack_bits 8 (header seg) 0 (header seg ∷ (nonzeros seg ++ rest))
        ≡ ok (length (nonzeros seg), seg)
    whole =
        rw (l, zero-add) at (unpack_bits-header seg (header seg ∷ []) rest 0 (header seg) refl refl)

unpack_round_run :
    (n : ℕ) (bytes rest : List ℕ)
    → length bytes ≡ 8 * (n + 1)
    → unpack_round 0xff (0xff ∷ n ∷ (bytes ++ rest)) ≡ ok (2 + (n + 1) * 8, bytes)
unfolding unpack_round load
unpack_round_run n bytes rest l =
    ground (arith, length-append bytes rest, take-append (n * 8 + 8) bytes rest)

unpack_loop_step :
    (fuel hd used : ℕ) (src rest bytes out : List ℕ)
    → 0 < fuel
    → unpack_round hd (hd ∷ src) ≡ ok (used, bytes)
    → drop used (hd ∷ src) ≡ rest
    → unpack_loop fuel (hd ∷ src) out ≡ unpack_loop (fuel - 1) rest (out ++ bytes)
unfolding unpack_loop
unpack_loop_step zero hd used src rest bytes out pos e r = absurd (omega arith)
unpack_loop_step (suc fuel) hd used src rest bytes out pos e r =
    let less : suc fuel - 1 ≡ fuel = omega arith in
    rw (e, less) (ap (λ x. unpack_loop fuel x (out ++ bytes)) r)

-- The rounds: on any packed form, with fuel for its bytes.
unpack_loop-Packed :
    {p d : List ℕ} (fuel : ℕ) (out : List ℕ)
    → Packed p d
    → length p ≤ fuel
    → unpack_loop fuel p out ≡ ok (out ++ d)
unpack_loop-Packed fuel out (done ep ed) h = rw (ep, ed, append-nil) (unfold unpack_loop in refl)
unpack_loop-Packed fuel out (plain seg p' d' l few t ep ed) h =
    let len : suc (length (nonzeros seg ++ p')) ≤ fuel = rw ep at h in
    let tail : length p' ≤ fuel - 1 = omega (arith, len, length-append (nonzeros seg) p') in
    rw (ep, ed)
      (unpack_loop_step fuel (header seg) _ (nonzeros seg ++ p') p' seg out (omega arith)
          (unpack_round_plain seg p' l few)
          (rw add-one (drop-append (length (nonzeros seg)) (nonzeros seg) p' refl))
        ∙ unpack_loop-Packed (fuel - 1) (out ++ seg) t tail
        ∙ ap ok (append_assoc out seg d'))
unpack_loop-Packed fuel out (run n bytes p' d' small l t ep ed) h =
    let len : suc (suc (length (bytes ++ p'))) ≤ fuel = rw ep at h in
    let tail : length p' ≤ fuel - 1 = omega (arith, len, length-append bytes p') in
    let used : 2 + (n + 1) * 8 ≡ suc (suc (length bytes)) = omega arith in
    rw (ep, ed)
      (unpack_loop_step fuel 0xff _ (n ∷ (bytes ++ p')) p' bytes out (omega arith)
          (unpack_round_run n bytes p' l) (rw used (drop-append (length bytes) bytes p' refl))
        ∙ unpack_loop-Packed (fuel - 1) (out ++ bytes) t tail
        ∙ ap ok (append_assoc out bytes d'))

-- `Unpack` reads every packed form, and gives what it stands for.
pub unpack_bytes-Packed : {p d : List ℕ} → Packed p d → unpack_bytes p ≡ ok d
unfolding unpack_bytes
unpack_bytes-Packed {p} t = unpack_loop-Packed (length p) [] t (omega arith)
