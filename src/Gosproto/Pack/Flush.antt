-- ===== src/Gosproto/Pack/Flush.antt =====
-- What `writeFF` leaves: a head of two bytes, the bytes of the run, and zeros up to a whole segment.
use cellorigin.Base.{
  ℕ, ◌+◌, ◌-◌, ◌*◌, ◌/◌, ◌%◌, ◌<◌, ◌≤◌, ◌≡◌, true, refl, ap, ◌∙◌, arith, List, [], ◌∷◌, ◌++◌,
  append_assoc, length, take, replicate, length-append, take-append, drop-append, ltb, leb,
  if◌then◌else◌, ok, split_at,
}
use cellorigin.Gosproto.Error.{Error}
use cellorigin.Gosproto.Words.{store}
use cellorigin.Gosproto.Pack.{slice_from, copy, zero_fill, align8, write_ff, flush}
use cellorigin.Gosproto.Pack.Segment.{store-append}

pub copy-append : (src a b : List ℕ) → length a ≡ length src → copy (a ++ b) src ≡ src ++ b
unfolding copy
copy-append [] [] [] h = refl
copy-append [] [] (y ∷ b) h = refl
copy-append [] (x ∷ a) b h = absurd (omega arith)
copy-append (v ∷ src) [] b h = absurd (omega arith)
copy-append (v ∷ src) (x ∷ a) b h = ap (◌∷◌ v) (copy-append src a b (omega arith))

-- The loop turns the part `a` behind `2 + i` bytes into zeros.
zero_fill_lem :
    (a pre b : List ℕ) (i : ℕ)
    → length pre ≡ 2 + i
    → zero_fill (length a) i (pre ++ (a ++ b)) ≡ ok (pre ++ (replicate (length a) 0 ++ b))
unfolding zero_fill
zero_fill_lem [] pre b i h = refl
zero_fill_lem (x ∷ a) pre b i h =
    rw
      (
        store-append pre x 0 (2 + i) (a ++ b) h (omega arith),
        ← append_assoc pre (0 ∷ []) (a ++ b),
        ← append_assoc pre (0 ∷ []) (replicate (length a) 0 ++ b),
      )
      (zero_fill_lem a (pre ++ 0 ∷ []) b (i + 1) (omega (arith, length-append pre (0 ∷ []))))

-- The head and the bytes of a run of `k + 1` segments, of which `bytes` are given.
abbrev pub run_block : ℕ → List ℕ → List ℕ
run_block k bytes = 0xff ∷ k ∷ (bytes ++ replicate (8 * (k + 1) - length bytes) 0)

-- The body of the run and the zeros, once the head stands.
fill_block :
    (k : ℕ) (bytes a1 a2 b : List ℕ)
    → length bytes + length a2 ≡ 8 * (k + 1)
    → length a1 ≡ length bytes
    → zero_fill
        (8 * (k + 1) - length bytes)
        (length bytes)
        (0xff ∷ k ∷ copy (a1 ++ (a2 ++ b)) bytes)
      ≡ ok (run_block k bytes ++ b)
fill_block k bytes a1 a2 b room l =
    let l2 : 8 * (k + 1) - length bytes ≡ length a2 = omega arith in
    rw (copy-append bytes a1 (a2 ++ b) l, l2, append_assoc)
      (zero_fill_lem a2 (0xff ∷ k ∷ bytes) b (length bytes) (omega arith))

store_second :
    (x y v : ℕ) (dst : List ℕ) → store {E = Error} (x ∷ y ∷ dst) 1 v ≡ ok (x ∷ v % 256 ∷ dst)
unfolding store
store_second x y v dst = ground arith

slice_two : (x y : ℕ) (dst : List ℕ) → slice_from (x ∷ y ∷ dst) 2 ≡ ok dst
unfolding slice_from
slice_two x y dst = ground arith

-- The statements before the zeros are filled in: the head, and the copy.
write_ff_head :
    (k n n' x y : ℕ) (bytes src dst : List ℕ)
    → k < 256
    → align8 n ≡ 8 * (k + 1)
    → (if ltb (length src) n then length src else n) ≡ n'
    → take n' src ≡ bytes
    → write_ff (x ∷ y ∷ dst) src n ≡ zero_fill (8 * (k + 1) - n') n' (0xff ∷ k ∷ copy dst bytes)
unfolding write_ff
write_ff_head k n n' x y bytes src dst small aligned count front =
    let head : (8 * (k + 1) / 8 + 255) % 256 ≡ k = omega arith in
    rw
      (
        store-append [] x 0xff 0 (y ∷ dst) refl (omega arith),
        store_second 0xff y (align8 n / 8 + 255) dst,
        slice_two 0xff ((align8 n / 8 + 255) % 256) dst,
        count,
        front,
        aligned,
        head,
      )
      refl

-- `src` may be longer than `n`, or end within the last segment.
pub write_ff-run_block :
    (k n x y : ℕ) (bytes src a b : List ℕ)
    → k < 256
    → align8 n ≡ 8 * (k + 1)
    → (if ltb (length src) n then length src else n) ≡ length bytes
    → take (length bytes) src ≡ bytes
    → length bytes ≤ 8 * (k + 1)
    → length a ≡ 8 * (k + 1)
    → write_ff (x ∷ y ∷ (a ++ b)) src n ≡ ok (run_block k bytes ++ b)
write_ff-run_block k n x y bytes src a b small aligned count front fits room =
    let (a1, a2, e, l) = split_at (length bytes) a (omega arith) in
    let whole : length bytes + length a2 ≡ 8 * (k + 1) =
      omega (arith, ap (length {A = ℕ}) e, length-append a1 a2) in
    write_ff_head k n (length bytes) x y bytes src (a ++ b) small aligned count front
    ∙ ap (λ t. zero_fill (8 * (k + 1) - length bytes) (length bytes) (0xff ∷ k ∷ copy t bytes))
        (ap (λ t. t ++ b) e ∙ append_assoc a1 a2 b)
    ∙ fill_block k bytes a1 a2 b whole l

-- `writeFF` on the part of the buffer that begins behind `out`.
pub flush-run_block :
    (k n p x y : ℕ) (packed out bytes src a b : List ℕ)
    → packed ≡ out ++ (x ∷ y ∷ (a ++ b))
    → p ≡ length out
    → k < 256
    → align8 n ≡ 8 * (k + 1)
    → (if ltb (length src) n then length src else n) ≡ length bytes
    → take (length bytes) src ≡ bytes
    → length bytes ≤ 8 * (k + 1)
    → length a ≡ 8 * (k + 1)
    → flush packed p src n ≡ ok (out ++ (run_block k bytes ++ b))
unfolding flush slice_from
flush-run_block k n p x y packed out bytes src a b e ep small aligned count front fits room =
    let inside : leb (length out) (length (out ++ (x ∷ y ∷ (a ++ b)))) ≡ true =
      ground (arith, length-append out (x ∷ y ∷ (a ++ b))) in
    rw (e, ep)
      (rw
        (
          inside,
          drop-append (length out) out (x ∷ y ∷ (a ++ b)) refl,
          take-append (length out) out (x ∷ y ∷ (a ++ b)) refl,
          write_ff-run_block k n x y bytes src a b small aligned count front fits room,
        )
        refl)
