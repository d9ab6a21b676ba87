-- ===== src/Gosproto/Pack/Loop.antt =====
-- The loop of `Pack`, and the run that is open when it ends.
use cellorigin.Base.{
  ℕ, ◌+◌, ◌-◌, ◌*◌, ◌<◌, ◌≤◌, ◌≡◌, true, refl, sym, ap, ap₂, ◌∙◌, arith, List, [], ◌∷◌, ◌++◌,
  append-nil, append_assoc, length, length-append, take-append, take_all, ltb, ok, split_at, ◌⊎◌,
  inl, inr, All, lt_or_ge,
}
use cellorigin.Base.Bits.{IsByte}
use cellorigin.Gosproto.Pack.{PackState, pack_finish, slice_to, max_size, flush}
use cellorigin.Gosproto.Pack.Format.{Packed, done, nonzeros, length-nonzeros}
use cellorigin.Gosproto.Pack.Segment.{segment_bytes}
use cellorigin.Gosproto.Pack.Flush.{run_block, flush-run_block}
use cellorigin.Gosproto.Pack.Steps.{Prefix, pad, Idle, Running, Inv, Prefix-run, length-pad}
use cellorigin.Gosproto.Pack.Rounds.{uncons}
use cellorigin.Gosproto.Pack.Invariant.{
  Next, length-segment_bytes, idle_opens, idle_plain, run_more, run_full, run_closes,
}

uncons_two : (xs : List ℕ) → 1 < length xs → (x : ℕ) × (y : ℕ) × (r : List ℕ) × (xs ≡ x ∷ y ∷ r)
uncons_two [] h = absurd (omega arith)
uncons_two (x ∷ []) h = absurd (omega arith)
uncons_two (x ∷ y ∷ r) h = (x, y, r, refl)

pad_whole : (n : ℕ) (bytes : List ℕ) → length bytes ≡ 8 * n → pad n bytes ≡ bytes
pad_whole n bytes h = let e : 8 * n - length bytes ≡ 0 = omega arith in rw (e, append-nil)

module _ (size total : ℕ) (front seg rest : List ℕ) (s : PackState) (bytes : All IsByte seg)
    (le : length seg ≤ 8) (last : (rest ≡ []) ⊎ (length seg ≡ 8)) (max : size ≡ max_size total)
    (inside : length front + length seg ≤ total) (some_left : 0 < length seg) where
  round-Idle : Idle size front (seg ++ rest) s → Next size front seg rest s
  round-Idle v =
      let (x, r, e) = uncons v.junk (
        omega
          (arith, ap (length {A = ℕ}) v.buffer, length-append v.out v.junk, v.sized, v.small)) in
      let buffer : s.packed ≡ v.out ++ x ∷ r = v.buffer ∙ ap (λ t. v.out ++ t) e in
      elim (lt_or_ge (length (nonzeros seg)) 8) [
        | inl few ↦
            idle_plain size total front seg rest s bytes le last max inside some_left v.sized v.out
              r x buffer v.at v.closed v.holds v.small few
        | inr all ↦
            idle_opens size total front seg rest s bytes le last max inside some_left v.sized v.out
              r x buffer v.at v.closed v.holds v.small (omega (arith, all, length-nonzeros seg))
      ]

  -- The run's bytes are whole segments, since more is left to read.
  run_whole : (v : Running size front (seg ++ rest) s) → length v.bytes ≡ 8 * s.ff_n
  run_whole v = elim v.whole [
    | inl e ↦ absurd (omega (arith, ap (length {A = ℕ}) e, length-append seg rest))
    | inr e ↦ e
  ]

  run_read : (v : Running size front (seg ++ rest) s) → front ≡ v.front0 ++ v.bytes
  run_read v = v.read ∙ ap (λ t. v.front0 ++ t) (pad_whole s.ff_n v.bytes (run_whole v))

  run_left : (v : Running size front (seg ++ rest) s) → 12 + 8 * s.ff_n ≤ length v.junk
  run_left v = omega (
    arith,
    ap (length {A = ℕ}) v.buffer,
    length-append v.out v.junk,
    v.sized,
    v.small,
    ap (length {A = ℕ}) (run_read v),
    length-append v.front0 v.bytes,
    run_whole v,
  )

  module _ (v : Running size front (seg ++ rest) s) (y z x : ℕ) (a r : List ℕ)
      (split : v.junk ≡ (y ∷ z ∷ a) ++ x ∷ r) (len_a : length a ≡ 8 * s.ff_n) where
    run_buffer : s.packed ≡ (v.out ++ y ∷ z ∷ a) ++ x ∷ r
    run_buffer =
        v.buffer ∙ ap (λ t. v.out ++ t) split ∙ sym (append_assoc v.out (y ∷ z ∷ a) (x ∷ r))

    run_cases :
        (b1 b2 : List ℕ)
        → ◌≡◌ {A = List ℕ} (x ∷ segment_bytes seg r) (b1 ++ b2)
        → length b1 ≡ 8
        → Next size front seg rest s
    run_cases b1 b2 e l =
        let opened : 0 < s.ff_n = v.opened in
        let bounded : s.ff_n < 256 = v.bounded in
        let whole : length v.bytes ≡ 8 * s.ff_n = run_whole v in
        let at : s.offset ≡ length v.out + 2 + 8 * s.ff_n = v.at in
        elim (lt_or_ge (length (nonzeros seg)) 6) [
          | inl few ↦
              run_closes size total front seg rest s bytes le last max inside some_left v.sized
                v.out a r v.bytes v.front0 x y z (s.ff_n - 1) run_buffer v.start (omega arith)
                (omega arith) (omega arith) (omega arith) v.source (omega arith) (run_read v)
                v.holds v.small few
          | inr many ↦ elim (lt_or_ge s.ff_n 255) [
            | inl below ↦
                run_more size total front seg rest s bytes le last max inside some_left v.sized
                  v.out a r v.bytes v.front0 x y z (s.ff_n - 1) run_buffer v.start (omega arith)
                  (omega arith) (omega arith) (omega arith) v.source (omega arith) (run_read v)
                  v.holds v.small (omega arith) many
            | inr limit ↦
                run_full size total front seg rest s bytes le last max inside some_left v.sized
                  v.out a r v.bytes v.front0 x y z (s.ff_n - 1) run_buffer v.start (omega arith)
                  (omega arith) (omega arith) (omega arith) v.source (omega arith) (run_read v)
                  v.holds v.small b1 b2 e l (omega arith) many
          ]
        ]

  round-Running : Running size front (seg ++ rest) s → Next size front seg rest s
  round-Running v =
      let (j1, j2, e, l) = split_at (2 + 8 * s.ff_n) v.junk (omega (arith, run_left v)) in
      let (y, z, a, e1) = uncons_two j1 (omega arith) in
      let left : 10 ≤ length j2 =
        omega (arith, run_left v, ap (length {A = ℕ}) e, length-append j1 j2) in
      let (x, r, e2) = uncons j2 (omega arith) in
      let left_r : 9 ≤ length r = omega (arith, ap (length {A = ℕ}) e2) in
      let (b1, b2, e3, l3) =
        split_at 8 (x ∷ segment_bytes seg r) (omega (arith, length-segment_bytes seg r)) in
      run_cases v y z x a r (e ∙ ap₂ (◌++◌ {A = ℕ}) e1 e2) (omega (arith, ap (length {A = ℕ}) e1))
        b1 b2 e3 l3

  -- One round keeps the invariant, whatever the segment.
  pub round-Inv : Inv size front (seg ++ rest) s → Next size front seg rest s
  round-Inv (inl v) = round-Idle v
  round-Inv (inr v) = round-Running v

slice_to-append :
    (n : ℕ) (packed pre b : List ℕ)
    → packed ≡ pre ++ b
    → n ≡ length pre
    → slice_to packed n ≡ ok pre
unfolding slice_to
slice_to-append n packed pre b e h =
    rw (e, h) (ground (arith, length-append pre b, take-append (length pre) pre b refl))

Prefix-end : (out front : List ℕ) → Prefix out front → Packed out front
Prefix-end out front h = rw (append-nil, append-nil) at (h [] [] (done refl refl))

abbrev Finished : PackState → List ℕ → Type 0
Finished s front = (p : List ℕ) × (pack_finish s ≡ ok p) × Packed p front

finish-Idle : (size : ℕ) (front : List ℕ) (s : PackState) → Idle size front [] s → Finished s front
unfolding pack_finish
finish-Idle size front s v = (
  v.out,
  ground (arith, slice_to-append s.offset s.packed v.out v.junk v.buffer v.at, v.closed),
  Prefix-end v.out front v.holds,
)

finish_parts :
    (size : ℕ) (front : List ℕ) (s : PackState) (v : Running size front [] s) (y z : ℕ)
    (a b : List ℕ)
    → v.junk ≡ y ∷ z ∷ (a ++ b)
    → length a ≡ 8 * s.ff_n
    → Finished s front
unfolding pack_finish
finish_parts size front s v y z a b e l = (
  v.out ++ run_block (s.ff_n - 1) v.bytes,
  rw (opened, flushed)
      (slice_to-append s.offset _ (v.out ++ run_block (s.ff_n - 1) v.bytes) b
        (sym (append_assoc v.out (run_block (s.ff_n - 1) v.bytes) b))
        (omega (
          arith,
          v.at,
          v.opened,
          length-append v.out (run_block (s.ff_n - 1) v.bytes),
          length-pad (s.ff_n - 1 + 1) v.bytes (omega (arith, v.not_more, v.opened)),
        ))),
  Prefix-end _ front (
      rw read (
        Prefix-run v.out v.front0 (pad (s.ff_n - 1 + 1) v.bytes) (s.ff_n - 1) v.holds
          (omega (arith, v.bounded, v.opened))
          (length-pad (s.ff_n - 1 + 1) v.bytes (omega (arith, v.not_more, v.opened))))),
)
  where
    read : front ≡ v.front0 ++ pad (s.ff_n - 1 + 1) v.bytes
    read = v.read ∙ ap (λ t. v.front0 ++ pad t v.bytes) (omega (arith, v.opened))

    opened : ltb 0 s.ff_n ≡ true
    opened = ground (arith, v.opened)

    whole_source : s.ff_s ≡ v.bytes
    whole_source = v.source ∙ append-nil v.bytes

    flushed :
        flush s.packed s.ff_p s.ff_s (length s.ff_s)
        ≡ ok (v.out ++ (run_block (s.ff_n - 1) v.bytes ++ b))
    flushed =
        flush-run_block (s.ff_n - 1) (length s.ff_s) s.ff_p y z s.packed v.out v.bytes s.ff_s a b
          (v.buffer ∙ ap (λ t. v.out ++ t) e) v.start (omega (arith, v.bounded, v.opened))
          (omega (arith, v.not_less, v.not_more, v.opened, ap (length {A = ℕ}) whole_source))
          (ground (arith, ap (length {A = ℕ}) whole_source))
          (rw whole_source (take_all (length v.bytes) v.bytes (omega arith)))
          (omega (arith, v.not_more, v.opened)) (omega (arith, v.opened))

finish-Running :
    (size : ℕ) (front : List ℕ) (s : PackState) → Running size front [] s → Finished s front
finish-Running size front s v =
    let (j1, b, e, l) = split_at (2 + 8 * s.ff_n) v.junk (omega (arith, v.scratch)) in
    let (y, z, a, e1) = uncons_two j1 (omega arith) in
    finish_parts size front s v y z a b (e ∙ ap (λ t. t ++ b) e1)
      (omega (arith, ap (length {A = ℕ}) e1))

-- After the last round the open run, if there is one, is written with its zeros.
pub finish-Inv :
    (size : ℕ) (front : List ℕ) (s : PackState) → Inv size front [] s → Finished s front
finish-Inv size front s (inl v) = finish-Idle size front s v
finish-Inv size front s (inr v) = finish-Running size front s v

-- The slice from here on, a segment of at most eight bytes and the rest.
pub next_segment :
    (v : ℕ) (src : List ℕ)
    → (seg : List ℕ) × (rest : List ℕ) × (v ∷ src ≡ seg ++ rest)
      × (0 < length seg)
      × (length seg ≤ 8)
      × ((rest ≡ []) ⊎ (length seg ≡ 8))
next_segment v src = elim (lt_or_ge (length (v ∷ src)) 8) [
  | inl short ↦ (v ∷ src, [], sym (append-nil (v ∷ src)), omega arith, omega arith, inl refl)
  | inr long ↦
      let (seg, rest, e, l) = split_at 8 (v ∷ src) long in
      (seg, rest, e, omega arith, omega arith, inr l)
]
