-- ===== src/Cellnet/Session.antt =====
-- cellnet/sesmgr.go: the session manager. A session is named by a reference; `ids` holds what
-- `ses.ID()` answers. An id is the bit pattern of an int64. The lock makes each operation one step.
pub mod Ids
pub mod Manager
use cellorigin.Base.{
  ℕ, zero, suc, ◌+◌, ◌%◌, ◌^◌, List, [], ◌∷◌, Option, none, some, ◌==◌, if◌then◌else◌, length, Bool,
  true, false,
}
use cellorigin.Base.Assoc.{lookup, insert, delete, nat_eq}

pub record SessionManager : Type 0 where
  pub ses_map : List (ℕ × ℕ)
  pub ses_id_acc : ℕ
  pub ids : ℕ → ℕ

abbrev pub total_try_count : ℕ
total_try_count = 100

-- `atomic.AddInt64(&self.sesIDAcc, 1)`
unfoldable pub next_id : ℕ → ℕ
next_id acc = (acc + 1) % 2 ^ 64

-- The loop of `Add`, on `tryCount`: the counter afterwards, which is also the id, and the tries left.
unfoldable pub find_id : ℕ → ℕ → List (ℕ × ℕ) → ℕ × ℕ
unfolding next_id
find_id zero acc m = (acc, 0)
find_id (suc tries) acc m = elim (lookup (next_id acc) m) [
  | none ↦ (next_id acc, suc tries)
  | some _ ↦ find_id tries (next_id acc) m
]

unfoldable pub set_id : ℕ → ℕ → (ℕ → ℕ) → (ℕ → ℕ)
set_id ses id ids s = if s == ses then id else ids s

-- `Add`; what it does when no id was free is only logged.
unfoldable pub add_with : ℕ → SessionManager → ℕ → SessionManager
add_with ses mgr id = record {
  ses_map = insert id ses mgr.ses_map;
  ses_id_acc = id;
  ids = set_id ses id mgr.ids;
}

unfoldable pub add : ℕ → SessionManager → SessionManager
unfolding find_id add_with
add ses mgr = add_with ses mgr (find_id total_try_count mgr.ses_id_acc mgr.ses_map).0

unfoldable pub remove : ℕ → SessionManager → SessionManager
remove ses mgr = record mgr { ses_map = delete (mgr.ids ses) mgr.ses_map }

unfoldable pub get_session : ℕ → SessionManager → Option ℕ
get_session id mgr = lookup id mgr.ses_map

unfoldable pub session_count : SessionManager → ℕ
session_count mgr = length mgr.ses_map

-- `VisitSession` with a callback on the world `W`, over the sessions in the order of the range.
unfoldable pub visit : {W : Type 0} → (ℕ → W → Bool × W) → List (ℕ × ℕ) → W → W
visit callback [] w = w
visit callback ((id, ses) ∷ m) w =
    let (on, w') = callback ses w in elim on [ true ↦ visit callback m w' | false ↦ w' ]

unfoldable pub close_all_session : {W : Type 0} → (ℕ → W → W) → List (ℕ × ℕ) → W → W
unfolding visit
close_all_session close m w = visit (λ ses v. (true, close ses v)) m w

unfoldable pub new_session_manager : (ℕ → ℕ) → SessionManager
new_session_manager ids = record { ses_map = []; ses_id_acc = 0; ids = ids }
