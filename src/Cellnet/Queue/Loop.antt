-- ===== src/Cellnet/Queue/Loop.antt =====
-- The consumer of a queue runs the callbacks in the order in which they were posted.
use cellorigin.Base.{
  ℕ, suc, ◌≤◌, ◌≡◌, refl, sym, ap, subst, ◌∙◌, arith, List, [], ◌∷◌, ◌++◌, append-nil, append_assoc,
  Option, none, some, some_inj, some-ne-none, Bool, true, false, ltb, ltb→lt, length, length-append,
  if◌then◌else◌, Bool-cases, inl, inr,
}
use cellorigin.Cellnet.Queue.{
  EvQueue, Callback, post, protect, protected_call, turn, take_turn, hand_over,
  new_event_queue_by_len,
}

module _ {W : Type 0} where
  abbrev pub run_all : List (Callback W) → W → W
  run_all [] w = w
  run_all (c ∷ cs) w = run_all cs (c w).0

  run_all-snoc :
      (cs : List (Callback W)) (c : Callback W) (w : W)
      → run_all (cs ++ c ∷ []) w ≡ (c (run_all cs w)).0
  run_all-snoc [] c w = refl
  run_all-snoc (d ∷ cs) c w = run_all-snoc cs c (d w).0

  -- `Run size w q v posted`: a new queue of this size, at the world `w`, and then posts, also to a
  -- consumer that waits, and turns of the consumer in any order, none of which ends the program, lead to `q` and `v`.
  pub data Run (size : ℕ) (w : W) : EvQueue W → W → List (Callback W) → Type 0 where
    starts : Run size w (new_event_queue_by_len size) w []
    posts :
        (c : Callback W) (q q' : EvQueue W) (v : W) (posted : List (Callback W))
        → Run size w q v posted
        → post (some c) q ≡ some q'
        → Run size w q' v (posted ++ c ∷ [])
    hands :
        (c : Callback W) (q q' : EvQueue W) (v v' : W) (posted : List (Callback W))
        → Run size w q v posted
        → hand_over c q v ≡ some (q', some v')
        → Run size w q' v' (posted ++ c ∷ [])
    turns :
        (q q' : EvQueue W) (v v' : W) (posted : List (Callback W))
        → Run size w q v posted
        → turn q v ≡ some (q', some v')
        → Run size w q' v' posted

  -- The callbacks that were run, with those that wait.
  abbrev pub Ordered : ℕ → W → EvQueue W → W → List (Callback W) → Type 0
  Ordered size w q v posted =
      (ran : List (Callback W)) × (posted ≡ ran ++ q.queue)
      × (v ≡ run_all ran w)
      × (length q.queue ≤ size)
      × (q.size ≡ size)
      × (q.capture_panic ≡ false)

  post-fits :
      (c : Callback W) (q q' : EvQueue W)
      → post (some c) q ≡ some q'
      → (q' ≡ record q { queue = q.queue ++ c ∷ [] }) × (suc (length q.queue) ≤ q.size)
  unfolding post
  post-fits c q q' e =
      let by = λ (b : Bool). if b then some (record q { queue = q.queue ++ c ∷ [] }) else none in
      elim (Bool-cases (ltb (length q.queue) q.size)) [
        | inl room ↦
            (some_inj (sym e ∙ ap by room), omega (arith, ltb→lt (length q.queue) q.size room))
        | inr full ↦ absurd (some-ne-none q' (sym e ∙ ap by full))
      ]

  protect_lem : (b : Bool) (p : W × Bool) (v : W) → protect b p ≡ some v → v ≡ p.0
  unfolding protect
  protect_lem b (w, false) v e = some_inj (sym e)
  protect_lem true (w, true) v e = some_inj (sym e)
  protect_lem false (w, true) v e = absurd (some-ne-none v (sym e))

  take_turn-queue :
      (cs : List (Callback W)) (q q' : EvQueue W) (v v' : W)
      → take_turn cs q v ≡ some (q', some v')
      → (c : Callback W) × (rest : List (Callback W)) × (cs ≡ c ∷ rest)
        × (q' ≡ record q { queue = rest })
        × (v' ≡ (c v).0)
  unfolding take_turn protected_call
  take_turn-queue [] q q' v v' e = absurd (some-ne-none _ (sym e))
  take_turn-queue (c ∷ rest) q q' v v' e =
      let both = some_inj e in
      (
        c,
        rest,
        refl,
        ap (λ p. p.0) (sym both),
        protect_lem q.capture_panic (c v) v' (ap (λ p. p.1) both),
      )

  abbrev hand_by : Callback W → EvQueue W → W → List (Callback W) → Option (EvQueue W × Option W)
  hand_by c q v cs = elim cs [ [] ↦ take_turn (c ∷ []) q v | d ∷ ds ↦ none ]

  hand_over-queue :
      (c : Callback W) (cs : List (Callback W)) (q q' : EvQueue W) (v v' : W)
      → q.queue ≡ cs
      → hand_over c q v ≡ some (q', some v')
      → (cs ≡ []) × (q' ≡ record q { queue = [] }) × (v' ≡ (c v).0)
  unfolding hand_over take_turn protected_call
  hand_over-queue c [] q q' v v' front e =
      let both = some_inj (sym (ap (hand_by c q v) front) ∙ e) in
      (refl, ap (λ p. p.0) (sym both), protect_lem q.capture_panic (c v) v' (ap (λ p. p.1) both))
  hand_over-queue c (d ∷ cs) q q' v v' front e =
      absurd (some-ne-none (q', some v') (sym e ∙ ap (hand_by c q v) front))

  -- The world is what the callbacks that were run, in the order in which they were posted, make of
  -- the first one; the others wait in this order, and there are never more than the size.
  pub Run-Ordered :
      {size : ℕ} {w : W} {q : EvQueue W} {v : W} {posted : List (Callback W)}
      → Run size w q v posted
      → Ordered size w q v posted
  unfolding new_event_queue_by_len
  Run-Ordered {size} {w} starts = ([], refl, refl, omega arith, refl, refl)
  Run-Ordered {size} {w} (posts c q q' v posted r e) =
      let (ran, o, x, l, z, k) = Run-Ordered r in
      let (same, room) = post-fits c q q' e in
      subst (λ t. Ordered size w t v (posted ++ c ∷ [])) (sym same)
        (
          ran,
          ap (λ t. t ++ c ∷ []) o ∙ append_assoc ran q.queue (c ∷ []),
          x,
          omega (arith, room, z, length-append q.queue (c ∷ [])),
          z,
          k,
        )
  Run-Ordered {size} {w} (hands c q q' v v' posted r e) =
      let (ran, o, x, l, z, k) = Run-Ordered r in
      let (empty, same, y) = hand_over-queue c q.queue q q' v v' refl e in
      subst (λ t. Ordered size w t v' (posted ++ c ∷ [])) (sym same)
        (
          ran ++ c ∷ [],
          ap (λ t. t ++ c ∷ []) (o ∙ (ap (λ t. ran ++ t) empty ∙ append-nil ran))
              ∙ sym (append-nil (ran ++ c ∷ [])),
          y ∙ (ap (λ t. (c t).0) x ∙ sym (run_all-snoc ran c w)),
          omega arith,
          z,
          k,
        )
  Run-Ordered {size} {w} (turns q q' v v' posted r e) =
      let (ran, o, x, l, z, k) = Run-Ordered r in
      let (c, rest, front, same, y) = take_turn-queue q.queue q q' v v' (unfold turn in e) in
      subst (λ t. Ordered size w t v' posted) (sym same)
        (
          ran ++ c ∷ [],
          o ∙ (ap (λ t. ran ++ t) front ∙ sym (append_assoc ran (c ∷ []) rest)),
          y ∙ (ap (λ t. (c t).0) x ∙ sym (run_all-snoc ran c w)),
          omega (arith, l, ap length front),
          z,
          k,
        )
