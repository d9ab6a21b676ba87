-- ===== src/Gosproto/Pack/Steps.antt =====
-- The loop invariant of `Pack`. What is written for good is a packed form of what was read; while a
-- run is open the buffer behind it is scratch, and `ffS` still holds the run.
use cellorigin.Base.{
  ℕ, zero, suc, ◌+◌, ◌-◌, ◌*◌, ◌/◌, ◌<◌, ◌≤◌, ◌≡◌, true, refl, arith, List, [], ◌∷◌, ◌++◌,
  append_assoc, length, take, replicate, length-append, length-replicate, take-append, drop-append,
  leb, if◌then◌else◌, ◌>>=◌, ◌⊎◌,
}
use cellorigin.Gosproto.Pack.{PackState, slice_from, pack_segment, after_segment, pack_round}
use cellorigin.Gosproto.Pack.Format.{Packed, plain, run, header, nonzeros}

-- `out` is the packed form of `front`, with more to come.
abbrev pub Prefix : List ℕ → List ℕ → Type 0
Prefix out front = (p d : List ℕ) → Packed p d → Packed (out ++ p) (front ++ d)

-- The last segment is read as if zeros followed it; so is the last segment of a run.
abbrev pub pad : ℕ → List ℕ → List ℕ
pad n bytes = bytes ++ replicate (8 * n - length bytes) 0

-- The packed form grows by at most two bytes for each 2048.
abbrev pub Fits : List ℕ → List ℕ → Type 0
Fits out front = length out ≤ length front + 2 * (length front / 2048)

pub record Idle (size : ℕ) (front src : List ℕ) (s : PackState) : Type 0 where
  pub out : List ℕ
  pub junk : List ℕ
  pub buffer : s.packed ≡ out ++ junk
  pub sized : length s.packed ≡ size
  pub at : s.offset ≡ length out
  pub closed : s.ff_n ≡ 0
  pub holds : Prefix out front
  pub small : Fits out front

pub record Running (size : ℕ) (front src : List ℕ) (s : PackState) : Type 0 where
  pub out : List ℕ
  pub junk : List ℕ
  pub front0 : List ℕ
  pub bytes : List ℕ
  pub buffer : s.packed ≡ out ++ junk
  pub sized : length s.packed ≡ size
  pub start : s.ff_p ≡ length out
  pub at : s.offset ≡ length out + 2 + 8 * s.ff_n
  pub opened : 0 < s.ff_n
  pub bounded : s.ff_n < 256
  pub scratch : 2 + 8 * s.ff_n ≤ length junk
  pub source : s.ff_s ≡ bytes ++ src
  pub whole : (src ≡ []) ⊎ (length bytes ≡ 8 * s.ff_n)
  pub not_more : length bytes ≤ 8 * s.ff_n
  pub not_less : 8 * s.ff_n < length bytes + 8
  pub read : front ≡ front0 ++ pad s.ff_n bytes
  pub holds : Prefix out front0
  pub small : Fits out front0

abbrev pub Inv : ℕ → List ℕ → List ℕ → PackState → Type 0
Inv size front src s = Idle size front src s ⊎ Running size front src s

pub Prefix-plain :
    (out front seg : List ℕ)
    → Prefix out front
    → length seg ≡ 8
    → length (nonzeros seg) < 8
    → Prefix (out ++ (header seg ∷ nonzeros seg)) (front ++ seg)
Prefix-plain out front seg h l few p d t =
    rw (append_assoc out (header seg ∷ nonzeros seg) p, append_assoc front seg d)
      (h _ _ (plain seg p d l few t refl refl))

pub Prefix-run :
    (out front bytes : List ℕ) (n : ℕ)
    → Prefix out front
    → n < 256
    → length bytes ≡ 8 * (n + 1)
    → Prefix (out ++ (0xff ∷ n ∷ bytes)) (front ++ bytes)
Prefix-run out front bytes n h small l p d t =
    rw (append_assoc out (0xff ∷ n ∷ bytes) p, append_assoc front bytes d)
      (h _ _ (run n bytes p d small l t refl refl))

-- Zeros add nothing to a header.
pub header-pad : (seg : List ℕ) (k : ℕ) → header (seg ++ replicate k 0) ≡ header seg
header-pad [] zero = refl
header-pad [] (suc k) = ground (arith, header-pad [] k)
header-pad (v ∷ seg) k = ground (arith, header-pad seg k)

pub nonzeros-pad : (seg : List ℕ) (k : ℕ) → nonzeros (seg ++ replicate k 0) ≡ nonzeros seg
nonzeros-pad [] zero = refl
nonzeros-pad [] (suc k) = nonzeros-pad [] k
nonzeros-pad (v ∷ seg) k = rw (nonzeros-pad seg k)

pub length-pad : (n : ℕ) (bytes : List ℕ) → length bytes ≤ 8 * n → length (pad n bytes) ≡ 8 * n
length-pad n bytes h = omega (
  arith,
  length-append bytes (replicate (8 * n - length bytes) 0),
  length-replicate {A = ℕ} (8 * n - length bytes) 0,
)

-- A round opens the buffer at `offset`.
pub round_view :
    (s : PackState) (src input pre r : List ℕ) (x : ℕ)
    → (if leb 8 (length src) then take 8 src else src) ≡ input
    → s.packed ≡ pre ++ x ∷ r
    → s.offset ≡ length pre
    → pack_round s src ≡ (
        pack_segment (x ∷ r) input s.ff_n >>= λ (used, view).
        after_segment s src (pre ++ view) used)
unfolding pack_round slice_from
round_view s src input pre r x e b o =
    let inside : leb (length pre) (length (pre ++ x ∷ r)) ≡ true =
      ground (arith, length-append pre (x ∷ r)) in
    rw (e, b, o)
      (rw
        (
          inside,
          drop-append (length pre) pre (x ∷ r) refl,
          take-append (length pre) pre (x ∷ r) refl,
        )
        refl)
