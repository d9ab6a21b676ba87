-- ===== src/Gosproto/Pack/Rounds.antt =====
-- One round of `Pack` keeps the loop invariant: a segment is written as it is, opens a run, goes on
-- with one, or closes one.
use cellorigin.Base.{
  ℕ, ◌+◌, ◌-◌, ◌*◌, ◌<◌, ◌≤◌, ◌≡◌, refl, ◌∙◌, arith, List, [], ◌∷◌, ◌++◌, append-nil, length, take,
  length-append, take-append, take_all, leb, if◌then◌else◌, ok, ◌>>=◌, ◌⊎◌, inl, inr, All,
}
use cellorigin.Base.Bits.{IsByte}
use cellorigin.Gosproto.Pack.{PackState, pack_segment, after_segment, pack_round, flush}
use cellorigin.Gosproto.Pack.Format.{header, nonzeros}
use cellorigin.Gosproto.Pack.Segment.{
  segment_bytes, pack_segment_in_run, pack_segment_opens, pack_segment_plain,
}
use cellorigin.Gosproto.Pack.Steps.{
  Prefix, pad, Prefix-plain, header-pad, nonzeros-pad, length-pad, round_view,
}

-- A list with an element splits off its head.
pub uncons : (xs : List ℕ) → 0 < length xs → (x : ℕ) × (r : List ℕ) × (xs ≡ x ∷ r)
uncons [] h = absurd (omega arith)
uncons (x ∷ r) h = (x, r, refl)

input_segment :
    (seg rest : List ℕ)
    → length seg ≤ 8
    → (rest ≡ []) ⊎ (length seg ≡ 8)
    → (if leb 8 (length (seg ++ rest)) then take 8 (seg ++ rest) else seg ++ rest) ≡ seg
input_segment seg rest le (inl e) = rw (e, append-nil) (ground (arith, take_all 8 seg le))
input_segment seg rest le (inr e) = ground (arith, take-append 8 seg rest e, length-append seg rest)

-- A padded segment written as it is.
pub Prefix_segment :
    (out front seg : List ℕ)
    → Prefix out front
    → length seg ≤ 8
    → length (nonzeros seg) < 8
    → Prefix (out ++ (header seg ∷ nonzeros seg)) (front ++ pad 1 seg)
Prefix_segment out front seg h le few =
    rw (nonzeros-pad seg (8 - length seg), header-pad seg (8 - length seg)) at
      (Prefix-plain out front (pad 1 seg) h (length-pad 1 seg le)
        (rw (nonzeros-pad seg (8 - length seg)) few))

-- What a round does to the state, by what `packSegment` finds.
module _ (s : PackState) (seg rest pre r : List ℕ) (x : ℕ) (bytes : All IsByte seg)
    (le : length seg ≤ 8) (last : (rest ≡ []) ⊎ (length seg ≡ 8)) (buffer : s.packed ≡ pre ++ x ∷ r)
    (at : s.offset ≡ length pre) (room : length seg ≤ length r) where
  view : pack_round s (seg ++ rest) ≡ (
      pack_segment (x ∷ r) seg s.ff_n >>= λ (used, v).
      after_segment s (seg ++ rest) (pre ++ v) used)
  view = round_view s (seg ++ rest) seg pre r x (input_segment seg rest le last) buffer at

  pub round_plain :
      s.ff_n ≡ 0
      → length (nonzeros seg) < 8
      → pack_round s (seg ++ rest)
        ≡ ok (record s {
          packed = pre ++ (header seg ∷ segment_bytes seg r);
          offset = s.offset + (length (nonzeros seg) + 1);
        })
  unfolding after_segment
  round_plain closed few =
      view ∙ rw (pack_segment_plain seg x r bytes le room s.ff_n few (inl closed)) (ground arith)

  pub round_opens :
      s.ff_n ≡ 0
      → length (nonzeros seg) ≡ 8
      → pack_round s (seg ++ rest)
        ≡ ok (record {
          packed = pre ++ (x ∷ segment_bytes seg r);
          offset = s.offset + 10;
          ff_s = seg ++ rest;
          ff_n = 1;
          ff_p = s.offset;
        })
  unfolding after_segment
  round_opens closed full =
      view ∙ rw closed (rw (pack_segment_opens seg x r bytes le room full) (ground arith))

  pub round_in_run :
      0 < s.ff_n
      → s.ff_n < 255
      → 6 ≤ length (nonzeros seg)
      → pack_round s (seg ++ rest)
        ≡ ok (record s {
          packed = pre ++ (x ∷ segment_bytes seg r);
          offset = s.offset + 8;
          ff_n = s.ff_n + 1;
        })
  unfolding after_segment
  round_in_run pos bounded many =
      view ∙ rw (pack_segment_in_run seg x r bytes le room s.ff_n pos many) (ground arith)

  pub round_full_run :
      (p : List ℕ)
      → s.ff_n ≡ 255
      → 6 ≤ length (nonzeros seg)
      → flush (pre ++ (x ∷ segment_bytes seg r)) s.ff_p s.ff_s 2048 ≡ ok p
      → pack_round s (seg ++ rest) ≡ ok (record s { packed = p; offset = s.offset + 8; ff_n = 0 })
  unfolding after_segment
  round_full_run p limit many flushed =
      view ∙ rw (pack_segment_in_run seg x r bytes le room s.ff_n (omega arith) many) (ground arith)

  pub round_closes :
      (p : List ℕ)
      → 0 < s.ff_n
      → length (nonzeros seg) < 6
      → flush (pre ++ (header seg ∷ segment_bytes seg r)) s.ff_p s.ff_s (s.ff_n * 8) ≡ ok p
      → pack_round s (seg ++ rest)
        ≡ ok (record s { packed = p; offset = s.offset + (length (nonzeros seg) + 1); ff_n = 0 })
  unfolding after_segment
  round_closes p pos few flushed =
      view
      ∙ rw (pack_segment_plain seg x r bytes le room s.ff_n (omega arith) (inr few)) (ground arith)
