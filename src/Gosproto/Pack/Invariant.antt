-- ===== src/Gosproto/Pack/Invariant.antt =====
-- Each round of `Pack` keeps the invariant, and never leaves the buffer.
use cellorigin.Base.{
  ℕ, ◌+◌, ◌-◌, ◌*◌, ◌<◌, ◌≤◌, ◌≡◌, refl, sym, ap, ◌∙◌, arith, List, [], ◌∷◌, ◌++◌, append-nil,
  append_assoc, length, take, drop, replicate, length-append, take-append, ltb, if◌then◌else◌, ok,
  ◌⊎◌, inl, inr, All, length-drop,
}
use cellorigin.Base.Bits.{IsByte}
use cellorigin.Gosproto.Pack.{PackState, pack_round, max_size}
use cellorigin.Gosproto.Pack.Format.{header, nonzeros, length-nonzeros}
use cellorigin.Gosproto.Pack.Segment.{segment_bytes}
use cellorigin.Gosproto.Pack.Flush.{run_block, flush-run_block}
use cellorigin.Gosproto.Pack.Steps.{Prefix, pad, Fits, Inv, Prefix-run, length-pad}
use cellorigin.Gosproto.Pack.Rounds.{
  Prefix_segment, round_plain, round_opens, round_in_run, round_full_run, round_closes,
}

pub length-segment_bytes :
    (seg r : List ℕ) → length seg ≤ length r → length (segment_bytes seg r) ≡ length r
length-segment_bytes seg r h = omega (
  arith,
  length-nonzeros seg,
  length-append (nonzeros seg) (drop (length (nonzeros seg)) r),
  length-drop (length (nonzeros seg)) r,
)

nonzero_len : (seg : List ℕ) → length (nonzeros seg) ≡ 8 → length seg ≤ 8 → length seg ≡ 8
nonzero_len seg h le = omega (arith, length-nonzeros seg)

length-segment :
    (pre seg r : List ℕ) (x y : ℕ)
    → length seg ≤ length r
    → length (pre ++ y ∷ segment_bytes seg r) ≡ length (pre ++ x ∷ r)
length-segment pre seg r x y h = omega (
  arith,
  length-segment_bytes seg r h,
  length-append pre (y ∷ segment_bytes seg r),
  length-append pre (x ∷ r),
)

pad-append :
    (n : ℕ) (done seg : List ℕ)
    → length done ≡ 8 * n
    → pad (n + 1) (done ++ seg) ≡ done ++ pad 1 seg
pad-append n done seg h =
    let e : 8 * (n + 1) - length (done ++ seg) ≡ 8 - length seg =
      omega (arith, length-append done seg) in
    rw e (append_assoc done seg (replicate (8 - length seg) 0))

run_block_whole :
    (k : ℕ) (bytes : List ℕ) → length bytes ≡ 8 * (k + 1) → run_block k bytes ≡ 0xff ∷ k ∷ bytes
run_block_whole k bytes h =
    let e : 8 * (k + 1) - length bytes ≡ 0 = omega arith in rw (e, append-nil)

length-run_block :
    (k : ℕ) (bytes : List ℕ)
    → length bytes ≤ 8 * (k + 1)
    → length (run_block k bytes) ≡ 8 * (k + 1) + 2
length-run_block k bytes h = omega (arith, length-pad (k + 1) bytes h)

-- The goal of each case.
abbrev pub Next : ℕ → List ℕ → List ℕ → List ℕ → PackState → Type 0
Next size front seg rest s =
    (s' : PackState) × (pack_round s (seg ++ rest) ≡ ok s') × Inv size (front ++ pad 1 seg) rest s'

module _ (size total : ℕ) (front seg rest : List ℕ) (s : PackState) (bytes : All IsByte seg)
    (le : length seg ≤ 8) (last : (rest ≡ []) ⊎ (length seg ≡ 8)) (max : size ≡ max_size total)
    (inside : length front + length seg ≤ total) (some_left : 0 < length seg)
    (sized : length s.packed ≡ size) where
  module _ (out r : List ℕ) (x : ℕ) (buffer : s.packed ≡ out ++ x ∷ r) (at : s.offset ≡ length out)
      (closed : s.ff_n ≡ 0) (holds : Prefix out front) (small : Fits out front) where
    idle_room : 9 ≤ length r
    idle_room = omega (arith, ap (length {A = ℕ}) buffer, length-append out (x ∷ r))

    idle_size : (y : ℕ) → length (out ++ y ∷ segment_bytes seg r) ≡ size
    idle_size y =
        length-segment out seg r x y (omega (arith, idle_room))
        ∙ ap (length {A = ℕ}) (sym buffer)
        ∙ sized

    pub idle_opens : length (nonzeros seg) ≡ 8 → Next size front seg rest s
    idle_opens full = (
      _,
      round_opens s seg rest out r x bytes le last buffer at (omega (arith, idle_room)) closed full,
      inr (record {
        out = out;
        junk = x ∷ segment_bytes seg r;
        front0 = front;
        bytes = seg;
        buffer = refl;
        sized = idle_size x;
        start = at;
        at = omega arith;
        opened = omega arith;
        bounded = omega arith;
        scratch = omega (arith, idle_room, length-segment_bytes seg r);
        source = refl;
        whole = omega (arith, nonzero_len seg full le);
        not_more = omega arith;
        not_less = omega arith;
        read = refl;
        holds = holds;
        small = small;
      }),
    )

    pub idle_plain : length (nonzeros seg) < 8 → Next size front seg rest s
    idle_plain few = (
      _,
      round_plain s seg rest out r x bytes le last buffer at (omega (arith, idle_room)) closed few,
      inl (record {
        out = out ++ (header seg ∷ nonzeros seg);
        junk = drop (length (nonzeros seg)) r;
        buffer = sym (append_assoc out (header seg ∷ nonzeros seg) _);
        sized = idle_size (header seg);
        at = omega (arith, length-append out (header seg ∷ nonzeros seg));
        closed = closed;
        holds = Prefix_segment out front seg holds le few;
        small = omega (
          arith,
          length-append out (header seg ∷ nonzeros seg),
          length-append front (pad 1 seg),
          length-pad 1 seg le,
        );
      }),
    )

  module _ (out a r done front0 : List ℕ) (x y z k : ℕ)
      (buffer : s.packed ≡ (out ++ y ∷ z ∷ a) ++ x ∷ r) (start : s.ff_p ≡ length out)
      (count : s.ff_n ≡ k + 1) (bounded : k < 255) (len_a : length a ≡ 8 * (k + 1))
      (at : s.offset ≡ length out + 2 + 8 * (k + 1)) (source : s.ff_s ≡ done ++ (seg ++ rest))
      (len_done : length done ≡ 8 * (k + 1)) (read : front ≡ front0 ++ done)
      (holds : Prefix out front0) (small : Fits out front0) where
    at_pre : s.offset ≡ length (out ++ y ∷ z ∷ a)
    at_pre = omega (arith, length-append out (y ∷ z ∷ a))

    run_room : 9 ≤ length r
    run_room = omega (
      arith,
      ap (length {A = ℕ}) buffer,
      length-append (out ++ y ∷ z ∷ a) (x ∷ r),
      length-append out (y ∷ z ∷ a),
      ap (length {A = ℕ}) read,
      length-append front0 done,
    )

    run_size : (w : ℕ) → length ((out ++ y ∷ z ∷ a) ++ w ∷ segment_bytes seg r) ≡ size
    run_size w =
        length-segment (out ++ y ∷ z ∷ a) seg r x w (omega (arith, run_room))
        ∙ ap (length {A = ℕ}) (sym buffer)
        ∙ sized

    reads_on : front ++ pad 1 seg ≡ front0 ++ pad (k + 1 + 1) (done ++ seg)
    reads_on =
        rw (read, pad-append (k + 1) done seg len_done) (append_assoc front0 done (pad 1 seg))

    pub run_more : k < 254 → 6 ≤ length (nonzeros seg) → Next size front seg rest s
    run_more below many = (
      _,
      round_in_run s seg rest (out ++ y ∷ z ∷ a) r x bytes le last buffer at_pre
          (omega (arith, run_room)) (omega arith) (omega arith) many,
      inr (record {
        out = out;
        junk = (y ∷ z ∷ a) ++ x ∷ segment_bytes seg r;
        front0 = front0;
        bytes = done ++ seg;
        buffer = append_assoc out (y ∷ z ∷ a) (x ∷ segment_bytes seg r);
        sized = run_size x;
        start = start;
        at = omega arith;
        opened = omega arith;
        bounded = omega arith;
        scratch = omega (
          arith,
          run_room,
          length-segment_bytes seg r,
          length-append a (x ∷ segment_bytes seg r),
        );
        source = source ∙ sym (append_assoc done seg rest);
        whole = elim last [ inl e ↦ inl e | inr e ↦ inr (omega (arith, length-append done seg)) ];
        not_more = omega (arith, length-append done seg);
        not_less = omega (arith, length-append done seg);
        read = rw count reads_on;
        holds = holds;
        small = small;
      }),
    )

    ff_len : length s.ff_s ≡ length done + (length seg + length rest)
    ff_len = omega (
      arith,
      ap (length {A = ℕ}) source,
      length-append done (seg ++ rest),
      length-append seg rest,
    )

    full_count :
        k ≡ 254 → (if ltb (length s.ff_s) 2048 then length s.ff_s else 2048) ≡ length (done ++ seg)
    full_count limit = elim last [
      | inl e ↦ ground (arith, ff_len, ap (length {A = ℕ}) e, length-append done seg)
      | inr e ↦ ground (arith, ff_len, length-append done seg)
    ]

    full_front : take (length (done ++ seg)) s.ff_s ≡ done ++ seg
    full_front =
        rw (source, ← append_assoc done seg rest)
          (take-append (length (done ++ seg)) (done ++ seg) rest refl)

    full_block : k ≡ 254 → length (run_block 255 (done ++ seg)) ≡ 2050
    full_block limit =
        omega (arith, length-run_block 255 (done ++ seg) (omega (arith, length-append done seg)))

    full_holds : k ≡ 254 → Prefix (out ++ run_block 255 (done ++ seg)) (front ++ pad 1 seg)
    full_holds limit =
        let last_one : k + 1 + 1 ≡ 256 = omega arith in
        rw (reads_on, last_one)
          (Prefix-run out front0 (pad 256 (done ++ seg)) 255 holds (omega arith)
            (length-pad 256 (done ++ seg) (omega (arith, length-append done seg))))

    -- A run of 256 segments is written at once.
    pub run_full :
        (b1 b2 : List ℕ)
        → ◌≡◌ {A = List ℕ} (x ∷ segment_bytes seg r) (b1 ++ b2)
        → length b1 ≡ 8
        → k ≡ 254
        → 6 ≤ length (nonzeros seg)
        → Next size front seg rest s
    run_full b1 b2 e l limit many = (
      _,
      round_full_run s seg rest (out ++ y ∷ z ∷ a) r x bytes le last buffer at_pre
          (omega (arith, run_room)) (out ++ (run_block 255 (done ++ seg) ++ b2)) (omega arith) many
          (flush-run_block 255 2048 s.ff_p y z _ out (done ++ seg) s.ff_s (a ++ b1) b2
            (rw (e, append_assoc, append_assoc) refl) start (omega arith) (omega arith)
            (full_count limit) full_front (omega (arith, length-append done seg))
            (omega (arith, length-append a b1))),
      inl (record {
        out = out ++ run_block 255 (done ++ seg);
        junk = b2;
        buffer = sym (append_assoc out (run_block 255 (done ++ seg)) b2);
        sized = omega (
          arith,
          run_size x,
          length-append (out ++ y ∷ z ∷ a) (x ∷ segment_bytes seg r),
          length-append out (y ∷ z ∷ a),
          ap (length {A = ℕ}) e,
          length-append b1 b2,
          length-append out (run_block 255 (done ++ seg) ++ b2),
          length-append (run_block 255 (done ++ seg)) b2,
          full_block limit,
        );
        at = omega (arith, length-append out (run_block 255 (done ++ seg)), full_block limit);
        closed = refl;
        holds = full_holds limit;
        small = omega (
          arith,
          full_block limit,
          length-append out (run_block 255 (done ++ seg)),
          ap (length {A = ℕ}) reads_on,
          length-append front0 (pad (k + 1 + 1) (done ++ seg)),
          length-pad (k + 1 + 1) (done ++ seg) (omega (arith, length-append done seg)),
        );
      }),
    )

    close_front : take (length done) s.ff_s ≡ done
    close_front = rw source (take-append (length done) done (seg ++ rest) refl)

    close_count :
        (if ltb (length s.ff_s) (s.ff_n * 8) then length s.ff_s else s.ff_n * 8) ≡ length done
    close_count = ground (arith, ff_len)

    -- A segment with more zeros closes the run and is written behind it.
    pub run_closes : length (nonzeros seg) < 6 → Next size front seg rest s
    run_closes few = (
      _,
      round_closes s seg rest (out ++ y ∷ z ∷ a) r x bytes le last buffer at_pre
          (omega (arith, run_room)) (out ++ (run_block k done ++ header seg ∷ segment_bytes seg r))
          (omega arith) few
          (flush-run_block k (s.ff_n * 8) s.ff_p y z _ out done s.ff_s a
            (header seg ∷ segment_bytes seg r) (append_assoc out (y ∷ z ∷ a) _) start (omega arith)
            (omega arith) close_count close_front (omega arith) len_a),
      inl (record {
        out = (out ++ run_block k done) ++ (header seg ∷ nonzeros seg);
        junk = drop (length (nonzeros seg)) r;
        buffer = simp append_assoc;
        sized = omega (
          arith,
          run_size (header seg),
          length-append (out ++ y ∷ z ∷ a) (header seg ∷ segment_bytes seg r),
          length-append out (y ∷ z ∷ a),
          length-append out (run_block k done ++ header seg ∷ segment_bytes seg r),
          length-append (run_block k done) (header seg ∷ segment_bytes seg r),
          length-run_block k done,
        );
        at = omega (
          arith,
          length-append (out ++ run_block k done) (header seg ∷ nonzeros seg),
          length-append out (run_block k done),
          length-run_block k done,
        );
        closed = refl;
        holds = rw read (
            Prefix_segment (out ++ run_block k done) (front0 ++ done) seg
              (rw (run_block_whole k done len_done)
                (Prefix-run out front0 done k holds (omega arith) len_done))
              le (omega arith));
        small = omega (
          arith,
          length-append (out ++ run_block k done) (header seg ∷ nonzeros seg),
          length-append out (run_block k done),
          length-run_block k done,
          length-append front (pad 1 seg),
          length-pad 1 seg le,
          ap (length {A = ℕ}) read,
          length-append front0 done,
        );
      }),
    )
