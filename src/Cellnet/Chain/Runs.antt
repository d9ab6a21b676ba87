-- ===== src/Cellnet/Chain/Runs.antt =====
-- What a call of a chain does, by rules, and that `Call` does just that.
use cellorigin.Base.{
  sym, ◌↔◌, some-ne-none, some_inj, ◌≡◌, ◌≢◌, refl, ap, ◌∙◌, arith, List, [], ◌∷◌, none, some,
  Option-cases, ◌⊎◌, inl, inr,
}
use cellorigin.Cellnet.Event.{Event, Result, fine, next_chain}
use cellorigin.Cellnet.Chain.{Handler, HandlerChain, call_list, call}

-- The result a handler left, for a case split.
result_cases : (r : Result) → (r ≡ fine) ⊎ ((r ≡ next_chain) ⊎ ((r ≢ fine) × (r ≢ next_chain)))
result_cases fine = inl refl
result_cases next_chain = inr (inl refl)
result_cases _ = inr (inr (λ e. cc, λ e. cc))

module _ {Obj W : Type 0} where
  -- `Calls hs ev w p`: the handlers run in their order, each on what the one before it left, up to
  -- the first that leaves a result; `p` is what it left. `Result_NextChain` ends the chain too,
  -- but as a success.
  pub data Calls : List (Handler Obj W) → Event Obj → W → Event Obj × W → Type 0 where
    done : {ev : Event Obj} {w : W} {p : Event Obj × W} → p ≡ (ev, w) → Calls [] ev w p
    goes_on :
        {h : Handler Obj W} {hs : List (Handler Obj W)} {ev : Event Obj} {w : W} {p : Event Obj × W}
        (ev1 : Event Obj) (w1 : W)
        → h ev w ≡ some (ev1, w1)
        → ev1.r ≡ fine
        → Calls hs ev1 w1 p
        → Calls (h ∷ hs) ev w p
    next :
        {h : Handler Obj W} {hs : List (Handler Obj W)} {ev : Event Obj} {w : W} {p : Event Obj × W}
        (ev1 : Event Obj) (w1 : W)
        → h ev w ≡ some (ev1, w1)
        → ev1.r ≡ next_chain
        → p ≡ (record ev1 { r = fine }, w1)
        → Calls (h ∷ hs) ev w p
    stops :
        {h : Handler Obj W} {hs : List (Handler Obj W)} {ev : Event Obj} {w : W} {p : Event Obj × W}
        (ev1 : Event Obj) (w1 : W)
        → h ev w ≡ some (ev1, w1)
        → ev1.r ≢ fine
        → ev1.r ≢ next_chain
        → p ≡ (ev1, w1)
        → Calls (h ∷ hs) ev w p

  module _ (h : Handler Obj W) (hs : List (Handler Obj W)) (ev ev1 : Event Obj) (w w1 : W)
      (e : h ev w ≡ some (ev1, w1)) where
    pub call_list_goes_on : ev1.r ≡ fine → call_list (h ∷ hs) ev w ≡ call_list hs ev1 w1
    unfolding call_list
    call_list_goes_on f = simp (e, f)

    pub call_list_next :
        ev1.r ≡ next_chain → call_list (h ∷ hs) ev w ≡ some (record ev1 { r = fine }, w1)
    unfolding call_list
    call_list_next f = simp (e, f)

    pub call_list_stops :
        ev1.r ≢ fine → ev1.r ≢ next_chain → call_list (h ∷ hs) ev w ≡ some (ev1, w1)
    unfolding call_list
    call_list_stops f g = ground arith

  pub call_list_faults :
      (h : Handler Obj W) (hs : List (Handler Obj W)) (ev : Event Obj) (w : W)
      → h ev w ≡ none
      → call_list (h ∷ hs) ev w ≡ none
  unfolding call_list
  call_list_faults h hs ev w e = simp e

  pub call_list_nil : (ev : Event Obj) (w : W) → call_list [] ev w ≡ some (ev, w)
  unfolding call_list
  call_list_nil ev w = refl

  pub Calls→call_list :
      {hs : List (Handler Obj W)} {ev : Event Obj} {w : W} {p : Event Obj × W}
      → Calls hs ev w p
      → call_list hs ev w ≡ some p
  Calls→call_list (done e) = unfold call_list in ap some (sym e)
  Calls→call_list (goes_on ev1 w1 e f t) = call_list_goes_on _ _ _ ev1 _ w1 e f ∙ Calls→call_list t
  Calls→call_list (next ev1 w1 e f g) = call_list_next _ _ _ ev1 _ w1 e f ∙ ap some (sym g)
  Calls→call_list (stops ev1 w1 e f g i) = call_list_stops _ _ _ ev1 _ w1 e f g ∙ ap some (sym i)

  pub call_list→Calls :
      (hs : List (Handler Obj W)) (ev : Event Obj) (w : W) (p : Event Obj × W)
      → call_list hs ev w ≡ some p
      → Calls hs ev w p
  call_list→Calls [] ev w p e = done (some_inj (sym e ∙ call_list_nil ev w))
  call_list→Calls (h ∷ hs) ev w p e = elim (Option-cases (h ev w)) [
    | inl f ↦ absurd (some-ne-none p (sym e ∙ call_list_faults h hs ev w f))
    | inr ((ev1, w1), f) ↦ elim (result_cases ev1.r) [
      | inl r ↦
          goes_on ev1 w1 f r
            (call_list→Calls hs ev1 w1 p (sym (call_list_goes_on h hs ev ev1 w w1 f r) ∙ e))
      | inr (inl r) ↦ next ev1 w1 f r (some_inj (sym e ∙ call_list_next h hs ev ev1 w w1 f r))
      | inr (inr (a, b)) ↦
          stops ev1 w1 f a b (some_inj (sym e ∙ call_list_stops h hs ev ev1 w w1 f a b))
    ]
  ]

  -- `HandlerChain.Call` does what the rules say, and nothing else: it comes back with `p` exactly
  -- when the rules lead to `p` from the event marked with the chain's id.
  pub call-Calls :
      (c : HandlerChain Obj W) (ev : Event Obj) (w : W) (p : Event Obj × W)
      → (call c ev w ≡ some p) ↔ Calls c.list (record ev { chainid = c.id }) w p
  unfolding call
  call-Calls c ev w p = (call_list→Calls c.list (record ev { chainid = c.id }) w p, Calls→call_list)

  -- No chain comes back with `Result_NextChain` unless it is empty.
  Calls-r :
      {hs : List (Handler Obj W)} {ev : Event Obj} {w : W} {p : Event Obj × W}
      → Calls hs ev w p
      → ev.r ≢ next_chain
      → p.0.r ≢ next_chain
  Calls-r (done e) h = rw e h
  Calls-r (goes_on ev1 w1 e f t) h = Calls-r t (λ g. cc)
  Calls-r (next ev1 w1 e f g) h = rw g (λ i. cc)
  Calls-r (stops ev1 w1 e f g i) h = rw i g
