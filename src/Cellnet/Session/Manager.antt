-- ===== src/Cellnet/Session/Manager.antt =====
-- The session manager keeps every session under its own id, and no session is lost while there
-- are fewer sessions than tries.
use cellorigin.Base.{
  ℕ, ◌+◌, ◌^◌, ◌<◌, ◌≡◌, ◌≢◌, refl, sym, ap, ◌∙◌, arith, none, some, some-ne-none, ◌==◌, ==_of_eq,
  ==_iff, if◌then◌else◌, inl, inr, Bool-cases,
}
use cellorigin.Base.Assoc.{lookup, lookup-insert, lookup-delete, length-insert, nat_eq}
use cellorigin.Cellnet.Session.{
  SessionManager, find_id, add, add_with, remove, get_session, session_count, set_id,
  total_try_count,
}
use cellorigin.Cellnet.Session.Ids.{free, override, find_id-Found, Taken-length}

-- The counter is an int64, and every session in the map answers the id under which it is there.
abbrev pub IsValid : SessionManager → Type 0
IsValid mgr =
    (mgr.ses_id_acc < 2 ^ 64) × ((id ses : ℕ) → get_session id mgr ≡ some ses → mgr.ids ses ≡ id)

-- The id that `Add` chooses.
abbrev pub chosen : SessionManager → ℕ
chosen mgr = (find_id total_try_count mgr.ses_id_acc mgr.ses_map).0

-- While there are fewer than 100 sessions, the id is free.
pub chosen-free :
    (mgr : SessionManager)
    → IsValid mgr
    → session_count mgr < total_try_count
    → get_session (chosen mgr) mgr ≡ none
unfolding session_count get_session
chosen-free mgr (l, v) c = elim (find_id-Found total_try_count mgr.ses_id_acc mgr.ses_map l) [
  | free j _ t f _ a b ↦ ap (λ i. lookup i mgr.ses_map) a ∙ f
  | override t _ a b ↦
      let e = Taken-length 100 mgr.ses_id_acc mgr.ses_map (omega arith) t in absurd (omega arith)
]

module _ (ses id : ℕ) (ids : ℕ → ℕ) where
  set_id_self : set_id ses id ids ses ≡ id
  unfolding set_id
  set_id_self = rw (==_of_eq ses ses refl) refl

add-others :
    (ses : ℕ) (mgr : SessionManager) (j : ℕ)
    → get_session j (add ses mgr)
      ≡ (if (add ses mgr).ids ses == j then some ses else get_session j mgr)
unfolding add add_with get_session
add-others ses mgr j =
    lookup-insert (chosen mgr) j ses mgr.ses_map
    ∙ ap (λ i. if i == j then some ses else lookup j mgr.ses_map)
        (sym (set_id_self ses (chosen mgr) mgr.ids))

remove-others :
    (ses id j : ℕ) (mgr : SessionManager)
    → mgr.ids ses ≡ id
    → get_session j (remove ses mgr) ≡ (if id == j then none else get_session j mgr)
unfolding remove get_session
remove-others ses id j mgr e =
    lookup-delete (mgr.ids ses) j mgr.ses_map
    ∙ ap (λ i. if i == j then none else lookup j mgr.ses_map) e

-- `Remove` of a session that is in a valid manager under the id `id`: the manager stays valid,
-- nothing is found under `id` any more, and all the other ids lead where they did.
pub remove-IsValid :
    (ses id : ℕ) (mgr : SessionManager)
    → IsValid mgr
    → get_session id mgr ≡ some ses
    → IsValid (remove ses mgr)
      × ((j : ℕ) → get_session j (remove ses mgr) ≡ (if id == j then none else get_session j mgr))
unfolding remove get_session
remove-IsValid ses id mgr (l, v) here = (
  (
    l,
    λ j s e. v j s (elim (Bool-cases (mgr.ids ses == j)) [
      | inl same ↦
          absurd
            (some-ne-none s (sym e ∙ (lookup-delete (mgr.ids ses) j mgr.ses_map ∙ rw same refl)))
      | inr other ↦ sym (lookup-delete (mgr.ids ses) j mgr.ses_map ∙ rw other refl) ∙ e
    ]),
  ),
  λ j. remove-others ses id j mgr (v id ses here),
)

-- The session is found under the id that it answers now, which nothing was under; the others are
-- where they were, and there is one more.
abbrev pub Added : ℕ → SessionManager → SessionManager → Type 0
Added ses mgr mgr' =
    (get_session (mgr'.ids ses) mgr ≡ none)
    × ((j : ℕ) → get_session j mgr' ≡ (if mgr'.ids ses == j then some ses else get_session j mgr))
    × (session_count mgr' ≡ session_count mgr + 1)

-- In a valid manager with fewer than 100 sessions, `Add` gives the session an id that no session
-- has, leaves the others as they are, and there is one session more.
pub add-Added :
    (ses : ℕ) (mgr : SessionManager)
    → IsValid mgr
    → session_count mgr < total_try_count
    → Added ses mgr (add ses mgr)
unfolding add add_with get_session session_count
add-Added ses mgr v c =
    let f = chosen-free mgr v c in
    let e = set_id_self ses (chosen mgr) mgr.ids in
    (
      ap (λ i. lookup i mgr.ses_map) e ∙ f,
      add-others ses mgr,
      length-insert (chosen mgr) ses mgr.ses_map f,
    )

-- In a valid manager with fewer than 100 sessions, `Remove` takes back `Add`: afterwards the same
-- sessions are there under the same ids as before.
pub remove-add :
    (ses : ℕ) (mgr : SessionManager)
    → IsValid mgr
    → session_count mgr < total_try_count
    → (j : ℕ) → get_session j (remove ses (add ses mgr)) ≡ get_session j mgr
unfolding remove get_session
remove-add ses mgr v c j =
    let mgr' = add ses mgr in
    let (f, g, n) = add-Added ses mgr v c in
    elim (Bool-cases (mgr'.ids ses == j)) [
      | inl same ↦
          lookup-delete (mgr'.ids ses) j mgr'.ses_map
          ∙ (rw same (sym f ∙ ap (λ i. lookup i mgr.ses_map) ((==_iff _ _).0 same)))
      | inr other ↦ lookup-delete (mgr'.ids ses) j mgr'.ses_map ∙ (rw other (g j ∙ rw other refl))
    ]

-- `Remove` makes the session unreachable under every id, in a valid manager.
pub remove-gone :
    (ses j : ℕ) (mgr : SessionManager) → IsValid mgr → get_session j (remove ses mgr) ≢ some ses
unfolding remove get_session
remove-gone ses j mgr (l, v) e = elim (Bool-cases (mgr.ids ses == j)) [
  | inl same ↦ some-ne-none ses (sym e ∙ (lookup-delete (mgr.ids ses) j mgr.ses_map ∙ rw same refl))
  | inr other ↦
      let old : lookup j mgr.ses_map ≡ some ses =
        sym (lookup-delete (mgr.ids ses) j mgr.ses_map ∙ rw other refl) ∙ e in
      ground (arith, v j ses old)
]
