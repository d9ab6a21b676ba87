-- ===== src/Cellnet/EventList/Order.antt =====
-- cellnet/socket/eventlist.go: the list of events as a queue, in every order of the calls of `Add`,
-- `Close` and `Pick`.
use cellorigin.Base.{
  ◌≡◌, refl, sym, ap, ◌∙◌, List, [], ◌∷◌, ◌++◌, append-nil, append_assoc, Option, none, some,
  some_inj, some-ne-none, Bool, true, false,
}
use cellorigin.Cellnet.EventList.{add, reset, collect, pick}

module _ {E : Type 0} where
  -- The events in a list, without the nils.
  abbrev pub events : List (Option E) → List E
  events [] = []
  events (none ∷ l) = events l
  events (some ev ∷ l) = ev ∷ events l

  -- The events before the first nil, and those behind it.
  abbrev pub until_nil : List (Option E) → List E
  until_nil [] = []
  until_nil (none ∷ l) = []
  until_nil (some ev ∷ l) = ev ∷ until_nil l

  abbrev pub behind_nil : List (Option E) → List E
  behind_nil [] = []
  behind_nil (none ∷ l) = events l
  behind_nil (some ev ∷ l) = behind_nil l

  events-split : (l : List (Option E)) → events l ≡ until_nil l ++ behind_nil l
  events-split [] = refl
  events-split (none ∷ l) = refl
  events-split (some ev ∷ l) = ap (◌∷◌ ev) (events-split l)

  pub collect-until_nil : (l : List (Option E)) → (collect l).0 ≡ until_nil l
  unfolding collect
  collect-until_nil [] = refl
  collect-until_nil (none ∷ l) = refl
  collect-until_nil (some ev ∷ l) = ap (◌∷◌ ev) (collect-until_nil l)

  events-append : (l k : List (Option E)) → events (l ++ k) ≡ events l ++ events k
  events-append [] k = refl
  events-append (none ∷ l) k = events-append l k
  events-append (some ev ∷ l) k = ap (◌∷◌ ev) (events-append l k)

  -- A session that runs: `Run list sent written` when the events `sent` were sent, of which the
  -- writer took `written`.
  pub data Run : List (Option E) → List E → List E → Type 0 where
    start : Run [] [] []
    sends :
        (ev : E) (list : List (Option E)) (sent written : List E)
        → Run list sent written
        → Run (add (some ev) list) (sent ++ ev ∷ []) written
    closes :
        (list : List (Option E)) (sent written : List E)
        → Run list sent written
        → Run (add none list) sent written
    picks :
        (list list' : List (Option E)) (sent written ret : List E)
        → Run list sent written
        → pick list ≡ some (ret, false, list')
        → Run list' sent (written ++ ret)

  -- What the loop takes, and what it leaves behind.
  collect-events :
      (l : List (Option E))
      → (lost : List E) × (events l ≡ (collect l).0 ++ lost) × ((collect l).1 ≡ false → lost ≡ [])
  unfolding collect
  collect-events [] = ([], refl, λ e. refl)
  collect-events (none ∷ l) = (events l, refl, λ e. cc)
  collect-events (some ev ∷ l) = let (lost, e, f) = collect-events l in (lost, ap (◌∷◌ ev) e, f)

  pub pick-collect :
      (l l' : List (Option E)) (ret : List E) (exit : Bool)
      → pick l ≡ some (ret, exit, l')
      → (ret ≡ (collect l).0) × (exit ≡ (collect l).1) × (l' ≡ [])
  unfolding pick reset
  pick-collect [] l' ret exit p = absurd (some-ne-none _ (sym p))
  pick-collect (x ∷ l) l' ret exit p =
      let e = some_inj p in (ap (λ t. t.0) (sym e), ap (λ t. t.1) (sym e), ap (λ t. t.2) (sym e))

  -- What one `Pick` takes is the front of the list, and all of it if it does not exit.
  pick-events :
      (l l' : List (Option E)) (ret : List E) (exit : Bool)
      → pick l ≡ some (ret, exit, l')
      → (lost : List E) × (events l ≡ ret ++ lost) × (exit ≡ false → lost ≡ []) × (l' ≡ [])
  pick-events l l' ret exit p =
      let (a, b, c) = pick-collect l l' ret exit p in
      let (lost, e, f) = collect-events l in
      (lost, e ∙ ap (λ r. r ++ lost) (sym a), (λ g. f (sym b ∙ g)), c)

  -- While the session runs, the events that were sent are those written and those still in the
  -- list, in this order.
  pub Run-events :
      {l : List (Option E)} {sent written : List E}
      → Run l sent written
      → sent ≡ written ++ events l
  unfolding add
  Run-events start = refl
  Run-events (sends ev l sent written r) =
      ap (λ s. s ++ ev ∷ []) (Run-events r)
      ∙ (append_assoc written (events l) (ev ∷ [])
          ∙ ap (λ s. written ++ s) (sym (events-append l (some ev ∷ []))))
  Run-events (closes l sent written r) =
      Run-events r
      ∙ ap (λ s. written ++ s) (sym (append-nil (events l)) ∙ sym (events-append l (none ∷ [])))
  Run-events (picks l l' sent written ret r p) =
      let (lost, e, f, g) = pick-events l l' ret false p in
      Run-events r
      ∙ (ap (λ s. written ++ s) e
          ∙ (sym (append_assoc written ret lost)
              ∙ ap (λ s. (written ++ ret) ++ s) (f refl ∙ sym (ap events g))))

  -- When the writer exits, the last events it wrote are those that stand in the list before the first
  -- nil. The events that were sent are those written and then those that stand in the list behind
  -- this nil, which are lost.
  pub Run-exit :
      {l : List (Option E)} {sent written : List E} (l' : List (Option E)) (ret : List E)
      → Run l sent written
      → pick l ≡ some (ret, true, l')
      → (ret ≡ until_nil l) × (sent ≡ (written ++ ret) ++ behind_nil l)
  Run-exit {l} {sent} {written} l' ret r p =
      let (a, _, _) = pick-collect l l' ret true p in
      let e = a ∙ collect-until_nil l in
      (
        e,
        Run-events r
            ∙ (ap (λ s. written ++ s) (events-split l ∙ ap (λ s. s ++ behind_nil l) (sym e))
                ∙ sym (append_assoc written ret (behind_nil l))),
      )
