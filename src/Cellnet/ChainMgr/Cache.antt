-- ===== src/Cellnet/ChainMgr/Cache.antt =====
-- cellnet/handlerchainmgr.go: the cached list of receive chains, in any order of the operations.
use cellorigin.Base.{
  subst, ap₂, ℕ, ◌+◌, ◌%◌, ◌^◌, ◌≤◌, ◌<◌, ◌≡◌, refl, sym, ap, ◌∙◌, arith, List, [], ◌∷◌, ◌++◌,
  Option, true, false, if◌then◌else◌, length, ◌==◌, not-==_of_ne, inl, inr, Bool-cases, Bool, All,
}
use mathlib.Core.List.{Perm, map}
use mathlib.Core.List.Perm
use cellorigin.Base.Assoc.{insert, delete, nat_eq}
use cellorigin.Cellnet.ChainMgr.{
  HandlerChainManager, add_chain_recv, remove_chain_recv, set_chain_send, set_read_write_chain,
  values, chain_list_recv, new_handler_chain_manager,
}

-- What a peer may do with the manager.
pub data Op (C : Type 0) : Type 0 where
  adds : C → Op C
  removes : ℕ → Op C
  sets_send : Option C → Op C
  sets_read_write : Option (Unit {0} → C) → Option (Unit {0} → C) → Op C
  lists : (List (ℕ × C) → List (ℕ × C)) → Op C

module _ {C : Type 0} where
  abbrev pub step : Op C → HandlerChainManager C → HandlerChainManager C
  step (adds c) mgr = (add_chain_recv c mgr).0
  step (removes id) mgr = remove_chain_recv id mgr
  step (sets_send c) mgr = set_chain_send c mgr
  step (sets_read_write r w) mgr = set_read_write_chain r w mgr
  step (lists range) mgr = (chain_list_recv range mgr).1

  -- A `range` gives every entry once, in some order.
  abbrev pub IsRange : (List (ℕ × C) → List (ℕ × C)) → Type 0
  IsRange range = (m : List (ℕ × C)) → Perm (range m) m

  abbrev pub Ranges : Op C → Type 0
  Ranges (lists range) = IsRange range
  Ranges _ = Unit

  abbrev pub run : List (Op C) → HandlerChainManager C → HandlerChainManager C
  run [] mgr = mgr
  run (o ∷ os) mgr = run os (step o mgr)

  -- The entries with another id.
  abbrev pub without : ℕ → List (ℕ × C) → List (ℕ × C)
  without id [] = []
  without id ((j, c) ∷ l) = if j == id then without id l else (j, c) ∷ without id l

  -- What was added and not removed: how many additions there were, and the entries, numbered from 1
  -- in the order of the additions.
  abbrev pub spec_step : Op C → ℕ × List (ℕ × C) → ℕ × List (ℕ × C)
  spec_step (adds c) (n, l) = (n + 1, l ++ (n + 1, c) ∷ [])
  spec_step (removes id) (n, l) = (n, without id l)
  spec_step _ s = s

  abbrev pub spec : List (Op C) → ℕ × List (ℕ × C) → ℕ × List (ℕ × C)
  spec [] s = s
  spec (o ∷ os) s = spec os (spec_step o s)

  abbrev pub chains : List (ℕ × C) → List C
  chains [] = []
  chains ((id, c) ∷ l) = c ∷ chains l

  -- All ids up to `n`.
  abbrev pub Below : ℕ → List (ℕ × C) → Type 0
  Below n [] = Unit
  Below n ((id, c) ∷ l) = (id ≤ n) × Below n l

  -- The manager holds the entries, and a cache that is not dirty is a list of their chains.
  pub record Refines (mgr : HandlerChainManager C) (s : ℕ × List (ℕ × C)) : Type 0 where
    pub acc : mgr.chain_id_acc ≡ s.0
    pub entries : mgr.recv_chain_by_id ≡ s.1
    pub below : Below s.0 s.1
    pub cache : mgr.recv_chain_list_dirty ≡ false → Perm mgr.recv_chain_list (chains s.1)

  Below-weaken : (n : ℕ) (l : List (ℕ × C)) → Below n l → Below (n + 1) l
  Below-weaken n [] b = tt
  Below-weaken n ((id, c) ∷ l) (a, b) = (omega arith, Below-weaken n l b)

  Below-snoc : (n : ℕ) (c : C) (l : List (ℕ × C)) → Below n l → Below (n + 1) (l ++ (n + 1, c) ∷ [])
  Below-snoc n c [] b = (omega arith, tt)
  Below-snoc n c ((id, d) ∷ l) (a, b) = (omega arith, Below-snoc n c l b)

  Below-without : (n id : ℕ) (l : List (ℕ × C)) → Below n l → Below n (without id l)
  Below-without n id [] b = tt
  Below-without n id ((j, c) ∷ l) (a, b) = elim (Bool-cases (j == id)) [
    | inl e ↦ rw e (Below-without n id l b)
    | inr e ↦ rw e (a, Below-without n id l b)
  ]

  insert-snoc :
      (n : ℕ) (c : C) (l : List (ℕ × C)) → Below n l → insert (n + 1) c l ≡ l ++ (n + 1, c) ∷ []
  unfolding insert
  insert-snoc n c [] b = refl
  insert-snoc n c ((id, d) ∷ l) (a, b) =
      rw (not-==_of_ne id (n + 1) (λ e. omega arith)) (ap (◌∷◌ (id, d)) (insert-snoc n c l b))

  delete-without : (id : ℕ) (l : List (ℕ × C)) → delete id l ≡ without id l
  unfolding delete
  delete-without id [] = refl
  delete-without id ((j, c) ∷ l) = ap (λ m. if j == id then m else (j, c) ∷ m) (delete-without id l)

  chains-map : (l : List (ℕ × C)) → chains l ≡ map (λ e. e.1) l
  chains-map [] = refl
  chains-map ((id, c) ∷ l) = ap (◌∷◌ c) (chains-map l)

  values-chains : (l : List (ℕ × C)) → values l ≡ chains l
  unfolding values
  values-chains [] = refl
  values-chains ((id, c) ∷ l) = ap (◌∷◌ c) (values-chains l)

  values-range :
      (range : List (ℕ × C) → List (ℕ × C)) (m l : List (ℕ × C))
      → IsRange range
      → m ≡ l
      → Perm (values (range m)) (chains l)
  values-range range m l h e =
      subst (λ v. Perm v (chains l)) (sym (values-chains (range m) ∙ chains-map (range m)))
        (subst (Perm (map (λ p. p.1) (range m))) (sym (chains-map l)) (
          subst (λ k. Perm (map (λ p. p.1) (range m)) (map (λ p. p.1) k)) e
            (Perm.map (λ p. p.1) (h m))))

  module _ (mgr : HandlerChainManager C) (n : ℕ) (l : List (ℕ × C)) (r : Refines mgr (n, l)) where
    add-Refines : (c : C) → n + 1 < 2 ^ 64 → Refines (step (adds c) mgr) (spec_step (adds c) (n, l))
    unfolding add_chain_recv
    add-Refines c b =
        let e = ap (λ a. (a + 1) % 2 ^ 64) r.acc in
        let id : (mgr.chain_id_acc + 1) % 2 ^ 64 ≡ n + 1 = omega (arith, r.acc) in
        record {
          acc = id;
          entries = ap₂ (λ i m. insert i c m) id r.entries ∙ insert-snoc n c l r.below;
          below = Below-snoc n c l r.below;
          cache = λ e. cc;
        }

    remove-Refines : (id : ℕ) → Refines (step (removes id) mgr) (spec_step (removes id) (n, l))
    unfolding remove_chain_recv
    remove-Refines id = record {
      acc = r.acc;
      entries = ap (delete id) r.entries ∙ delete-without id l;
      below = Below-without n id l r.below;
      cache = λ e. cc;
    }

    module _ (range : List (ℕ × C) → List (ℕ × C)) (h : IsRange range) where
      list-chains : Perm (chain_list_recv range mgr).0 (chains l)
      unfolding chain_list_recv
      list-chains = elim (Bool-cases mgr.recv_chain_list_dirty) [
        | inl e ↦ rw e (values-range range mgr.recv_chain_by_id l h r.entries)
        | inr e ↦ rw e (r.cache e)
      ]

      -- What the manager is afterwards, by whether the list was dirty.
      abbrev listed : Bool → HandlerChainManager C
      listed dirty =
          let list = values (range mgr.recv_chain_by_id) in
          (if◌then◌else◌ {A = List C × HandlerChainManager C} dirty
            (list, record mgr { recv_chain_list = list; recv_chain_list_dirty = false })
            (mgr.recv_chain_list, mgr)).1

      list-listed : (b : Bool) → mgr.recv_chain_list_dirty ≡ b → step (lists range) mgr ≡ listed b
      unfolding chain_list_recv
      list-listed b e = ap listed e

      list-Refines : Refines (step (lists range) mgr) (n, l)
      list-Refines = elim (Bool-cases mgr.recv_chain_list_dirty) [
        | inl e ↦
            subst (λ m. Refines m (n, l)) (sym (list-listed true e))
              (record {
                acc = r.acc;
                entries = r.entries;
                below = r.below;
                cache = λ f. values-range range mgr.recv_chain_by_id l h r.entries;
              })
        | inr e ↦ subst (λ m. Refines m (n, l)) (sym (list-listed false e)) r
      ]

  -- Every operation keeps the refinement, as long as the counter does not wrap.
  step-Refines :
      (o : Op C) (mgr : HandlerChainManager C) (n : ℕ) (l : List (ℕ × C))
      → n + 1 < 2 ^ 64
      → Ranges o
      → Refines mgr (n, l)
      → Refines (step o mgr) (spec_step o (n, l))
  unfolding set_chain_send set_read_write_chain
  step-Refines (adds c) mgr n l b h r = add-Refines mgr n l r c b
  step-Refines (removes id) mgr n l b h r = remove-Refines mgr n l r id
  step-Refines (sets_send c) mgr n l b h r = record {
    acc = r.acc;
    entries = r.entries;
    below = r.below;
    cache = r.cache;
  }
  step-Refines (sets_read_write x y) mgr n l b h r = record {
    acc = r.acc;
    entries = r.entries;
    below = r.below;
    cache = r.cache;
  }
  step-Refines (lists range) mgr n l b h r = list-Refines mgr n l r range h

  spec_step-count : (o : Op C) (n : ℕ) (l : List (ℕ × C)) → (spec_step o (n, l)).0 ≤ n + 1
  spec_step-count (adds c) n l = omega arith
  spec_step-count (removes id) n l = omega arith
  spec_step-count (sets_send c) n l = omega arith
  spec_step-count (sets_read_write x y) n l = omega arith
  spec_step-count (lists range) n l = omega arith

  run-Refines :
      (os : List (Op C)) (mgr : HandlerChainManager C) (s : ℕ × List (ℕ × C))
      → s.0 + length os < 2 ^ 64
      → All Ranges os
      → Refines mgr s
      → Refines (run os mgr) (spec os s)
  run-Refines [] mgr s b h r = r
  run-Refines (o ∷ os) mgr (n, l) b (h, hs) r =
      run-Refines os (step o mgr) (spec_step o (n, l)) (omega (arith, spec_step-count o n l)) hs
        (step-Refines o mgr n l (omega arith) h r)

  new-Refines : Refines new_handler_chain_manager (0, [])
  unfolding new_handler_chain_manager
  new-Refines = record { acc = refl; entries = refl; below = tt; cache = λ e. Perm.nil }

  -- After any operations on a new manager, fewer than 2^64, and whatever the order in which each
  -- `range` over the map gives the entries, `ChainListRecv` returns the chains that were added and
  -- not removed, each once for each addition, in some order.
  pub chain_list_recv-chains :
      (os : List (Op C)) (range : List (ℕ × C) → List (ℕ × C))
      → length os < 2 ^ 64
      → All Ranges os
      → IsRange range
      → Perm
          (chain_list_recv range (run os new_handler_chain_manager)).0
          (chains (spec os (0, [])).1)
  chain_list_recv-chains os range b hs h =
      list-chains (run os new_handler_chain_manager) _ _
        (run-Refines os new_handler_chain_manager (0, []) (omega arith) hs new-Refines) range h
