-- ===== src/Gosproto/Pack/Segment.antt =====
-- What `packSegment` writes, and when it announces a segment of a run.
use cellorigin.Base.{
  ℕ, ◌+◌, ◌*◌, ◌%◌, ◌^◌, ◌<◌, ◌≤◌, ◌≡◌, refl, ◌∙◌, arith, true, false, List, [], ◌∷◌, ◌++◌,
  append_assoc, length, drop, length-append, set-append, Bool-cases, ◌⊎◌, inl, inr, ◌==◌, ok, All,
  lt→ltb,
}
use cellorigin.Base.Bits.{bit_or, bit_or-above, double_pow, IsByte}
use cellorigin.Gosproto.Error.{Error}
use cellorigin.Gosproto.Words.{store}
use cellorigin.Gosproto.Pack.{segment_loop, segment_result, pack_segment}
use cellorigin.Gosproto.Pack.Format.{header, nonzeros, header_lt}
use native.Mathlib.Nat.{one-mul, pow-le-pow_right}

pub store-append :
    (pre : List ℕ) (y v i : ℕ) (rest : List ℕ)
    → length pre ≡ i
    → IsByte v
    → store {E = Error} (pre ++ y ∷ rest) i v ≡ ok (pre ++ v ∷ rest)
unfolding store
store-append pre y v i rest h b =
    let byte : v % 256 ≡ v = omega arith in
    let room : length pre < length (pre ++ y ∷ rest) =
      omega (arith, length-append pre (y ∷ rest)) in
    rw (← h) (rw (lt→ltb _ _ room, byte) (rw (set-append pre y v rest)))

segment_loop_zero :
    (v i hd notzero : ℕ) (vs dst : List ℕ)
    → (v == 0) ≡ true
    → segment_loop (v ∷ vs) i hd notzero dst ≡ segment_loop vs (i + 1) hd notzero dst
unfolding segment_loop
segment_loop_zero v i hd notzero vs dst z = rw (z, segment_loop)

bit_small : (i : ℕ) → i < 8 → 2 ^ i % 256 ≡ 2 ^ i
bit_small i h = omega (arith, pow-le-pow_right {n = 2} (omega arith) {i = i} {j = 7} (omega arith))

segment_loop_set :
    (v y i hd notzero : ℕ) (vs pre rest : List ℕ)
    → (v == 0) ≡ false
    → IsByte v
    → length pre ≡ notzero + 1
    → hd < 2 ^ i
    → i < 8
    → segment_loop (v ∷ vs) i hd notzero (pre ++ y ∷ rest)
      ≡ segment_loop vs (i + 1) (hd + 2 ^ i) (notzero + 1) ((pre ++ v ∷ []) ++ rest)
unfolding segment_loop
segment_loop_set v y i hd notzero vs pre rest nz b l small fits =
    let set_bit : bit_or hd (2 ^ i) ≡ hd + 2 ^ i = rw one-mul at (bit_or-above i hd 1 small) in
    rw (nz, segment_loop, store-append pre y v (notzero + 1) rest l b, bit_small i fits, set_bit)
      (rw (append_assoc pre (v ∷ []) rest))

-- The rest of a loop over `dst` that takes the bytes of `vs` in turn.
segment_loop-header :
    (vs pre rest : List ℕ) (i hd notzero : ℕ)
    → All IsByte vs
    → length pre ≡ notzero + 1
    → length vs ≤ length rest
    → hd < 2 ^ i
    → i + length vs ≤ 8
    → segment_loop vs i hd notzero (pre ++ rest)
      ≡ ok (
        hd + header vs * 2 ^ i,
        notzero + length (nonzeros vs),
        pre ++ (nonzeros vs ++ drop (length (nonzeros vs)) rest),
      )
segment_loop-header [] pre rest i hd notzero bytes l room small fits =
    unfold segment_loop in ground arith
segment_loop-header (v ∷ vs) pre [] i hd notzero bytes l room small fits = absurd (omega arith)
segment_loop-header (v ∷ vs) pre (y ∷ rest) i hd notzero (b, bytes) l room small fits =
    elim (Bool-cases (v == 0)) [
      | inl z ↦
          segment_loop_zero v i hd notzero vs (pre ++ y ∷ rest) z
          ∙ segment_loop-header vs pre (y ∷ rest) (i + 1) hd notzero bytes l (omega arith)
              (omega (arith, double_pow 1 i)) (omega arith)
          ∙ rw z (ground (arith, double_pow (header vs) i))
      | inr nz ↦
          segment_loop_set v y i hd notzero vs pre rest nz b l small (omega arith)
          ∙ segment_loop-header vs (pre ++ v ∷ []) rest (i + 1) (hd + 2 ^ i) (notzero + 1) bytes
              (omega (arith, length-append pre (v ∷ []))) (omega arith)
              (omega (arith, double_pow 1 i)) (omega arith)
          ∙ rw (nz, append_assoc) (ground (arith, double_pow (header vs) i))
    ]

-- What `dst` holds behind its first byte once the bytes of `seg` are written.
abbrev pub segment_bytes : List ℕ → List ℕ → List ℕ
segment_bytes seg rest = nonzeros seg ++ drop (length (nonzeros seg)) rest

header_small : (seg : List ℕ) → length seg ≤ 8 → header seg < 256
header_small seg h =
    omega (arith, header_lt seg, pow-le-pow_right {n = 2} (omega arith) {i = length seg} {j = 8} h)

module _ (seg : List ℕ) (x : ℕ) (rest : List ℕ) (bytes : All IsByte seg) (short : length seg ≤ 8)
    (room : length seg ≤ length rest) where
  whole_loop :
      segment_loop seg 0 0 0 (x ∷ rest)
      ≡ ok (header seg, length (nonzeros seg), x ∷ segment_bytes seg rest)
  whole_loop =
      segment_loop-header seg (x ∷ []) rest 0 0 0 bytes refl room (omega arith) (omega arith)
      ∙ ground arith

  pub pack_segment_in_run :
      (ff_n : ℕ)
      → 0 < ff_n
      → 6 ≤ length (nonzeros seg)
      → pack_segment (x ∷ rest) seg ff_n ≡ ok (8, x ∷ segment_bytes seg rest)
  unfolding pack_segment segment_result
  pack_segment_in_run ff_n pos many = rw whole_loop (ground arith)

  pub pack_segment_opens :
      length (nonzeros seg) ≡ 8
      → pack_segment (x ∷ rest) seg 0 ≡ ok (10, x ∷ segment_bytes seg rest)
  unfolding pack_segment segment_result
  pack_segment_opens full = rw whole_loop (ground arith)

  pub pack_segment_plain :
      (ff_n : ℕ)
      → length (nonzeros seg) < 8
      → (ff_n ≡ 0) ⊎ (length (nonzeros seg) < 6)
      → pack_segment (x ∷ rest) seg ff_n
        ≡ ok (length (nonzeros seg) + 1, header seg ∷ segment_bytes seg rest)
  unfolding pack_segment segment_result store
  pack_segment_plain ff_n few idle = rw whole_loop (ground (arith, header_small seg short))
