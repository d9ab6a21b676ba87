-- ===== src/Cellnet/Examples/Sessions.antt =====
-- A session manager with a session whose id is the next number, and a chain manager.
use cellorigin.Base.{ℕ, ◌<◌, ◌≡◌, ◌≢◌, refl, List, [], ◌∷◌, none, some, arith, ◌==◌, if◌then◌else◌}
use mathlib.Core.List.{Perm, reverse, reverse_perm}
use mathlib.Core.List.Perm
use cellorigin.Base.Assoc.{lookup}
use cellorigin.Cellnet.Session.{SessionManager, add, remove, get_session, session_count}
use cellorigin.Cellnet.Session.Manager.{
  IsValid, Added, remove-IsValid, add-Added, remove-add, remove-gone,
}
use cellorigin.Cellnet.ChainMgr.{chain_list_recv, new_handler_chain_manager}
use cellorigin.Cellnet.ChainMgr.Cache.{
  Op, IsRange, adds, removes, lists, sets_send, run, spec, chains, chain_list_recv-chains,
}

-- The counter stands at its last value, and the id 0 is taken by session 40.
abbrev manager : SessionManager
manager = record {
  ses_map = (0, 40) ∷ (5, 41) ∷ [];
  ses_id_acc = 0xffffffffffffffff;
  ids = λ s. if s == 41 then 5 else 0;
}

valid : IsValid manager
unfolding get_session lookup
valid = (omega arith, λ id s e. ground arith)

few : session_count manager < 100
unfolding session_count
few = omega arith

add-Added_example : Added 42 manager (add 42 manager)
add-Added_example = add-Added 42 manager valid few

there : get_session 5 manager ≡ some 41
unfolding get_session lookup
there = refl

remove-IsValid_example :
    IsValid (remove 41 manager)
    × ((j : ℕ)
        → get_session j (remove 41 manager) ≡ (if 5 == j then none else get_session j manager))
remove-IsValid_example = remove-IsValid 41 5 manager valid there

remove-add_example : get_session 5 (remove 42 (add 42 manager)) ≡ get_session 5 manager
remove-add_example = remove-add 42 manager valid few 5

remove-gone_example : get_session 5 (remove 41 manager) ≢ some 41
remove-gone_example = remove-gone 41 5 manager valid

-- Two orders of the entries: as they were added, and the other way round.
forward : IsRange {C = ℕ} (λ m. m)
forward m = Perm.refl m

backward : IsRange {C = ℕ} reverse
backward m = reverse_perm m

abbrev ops : List (Op ℕ)
ops = adds 70 ∷ adds 71 ∷ lists (λ m. m) ∷ removes 1 ∷ sets_send (some 80) ∷ adds 72 ∷ []

chain_list_recv-chains_example :
    Perm
      (chain_list_recv reverse (run ops new_handler_chain_manager)).0
      (chains (spec ops (0, [])).1)
chain_list_recv-chains_example =
    chain_list_recv-chains ops reverse (omega arith) (tt, (tt, (forward, (tt, (tt, (tt, tt))))))
      backward
