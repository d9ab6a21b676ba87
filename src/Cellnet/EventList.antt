-- ===== src/Cellnet/EventList.antt =====
-- cellnet/socket/evtlist.go: the list of events that a session has still to write. `none` is the
-- nil that `Close` adds. The locks make each operation one step.
pub mod Order
use cellorigin.Base.{List, [], ◌∷◌, ◌++◌, Option, none, some, Bool, true, false}

module _ {E : Type 0} where
  unfoldable pub add : Option E → List (Option E) → List (Option E)
  add ev list = list ++ ev ∷ []

  unfoldable pub reset : List (Option E) → List (Option E)
  reset list = []

  -- The loop of `Pick`: the events before the first nil, and whether there is one.
  unfoldable pub collect : List (Option E) → List E × Bool
  collect [] = ([], false)
  collect (none ∷ list) = ([], true)
  collect (some ev ∷ list) = let (ret, exit) = collect list in (ev ∷ ret, exit)

  -- `none` while the list is empty and `Pick` waits; else `ret`, `exit` and the new list.
  unfoldable pub pick : List (Option E) → Option (List E × Bool × List (Option E))
  unfolding collect reset
  pick [] = none
  pick (ev ∷ list) = let (ret, exit) = collect (ev ∷ list) in some (ret, exit, reset (ev ∷ list))
