-- ===== src/Cellnet/Socket/Sound.antt =====
-- What holds of a session at any time, and that each operation keeps it.
use cellorigin.Base.{
  ℕ, ◌+◌, ◌≡◌, ◌≢◌, refl, sym, ap, ◌∙◌, subst, List, [], ◌∷◌, ◌++◌, Option, Option-cases, none,
  some, some_inj, some-ne-none, Bool, Bool-cases, true, false, not, ◌||◌, if◌then◌else◌, ◌⊎◌, inl,
  inr,
}
use cellorigin.Cellnet.Event.{Event, Result}
use cellorigin.Cellnet.Chain.{◌>>=◌}
use cellorigin.Cellnet.EventList.{add, pick, collect}
use cellorigin.Cellnet.EventList.Order.{pick-collect}
use cellorigin.Cellnet.Socket.{
  WriteChain, Session, Phase, looping, leaving, ended, close, push, recv_turn, recv_end, send_turn,
  send_end, after_pick, run_end, new_session, is_fine, all_fine,
}

-- What has happened at a phase: the posts of `Event_Closed`, and whether the connection is open.
abbrev pub posts : Phase → ℕ
posts looping = 0
posts _ = 1

abbrev pub is_open : Phase → Bool
is_open ended = false
is_open _ = true

true-ne-false : true ≢ false
true-ne-false e = cc

open_if : (b : Bool) → is_open (if b then leaving else looping) ≡ true
open_if true = refl
open_if false = refl

leaves : {exit : Bool} (b : Bool) → exit ≡ true → (if exit || b then leaving else looping) ≢ looping
leaves b e l = cc

module _ {Obj : Type 0} where
  -- The invariant. The writer will find the nil of `Close` if the receiver has ended before it.
  pub record IsSound (s : Session Obj) : Type 0 where
    pub notify : s.need_notify_write ≡ is_open s.sender
    pub conn : s.conn_open ≡ is_open s.sender
    pub closed : s.closed_posts ≡ posts s.receiver
    pub nil : s.receiver ≡ ended → s.sender ≡ looping → (collect s.send_list).1 ≡ true
    pub once :
        (s.on_close_calls ≡ 0)
        ⊎ ((s.on_close_calls ≡ 1) × (s.receiver ≡ ended) × (s.sender ≡ ended))

  collect-append :
      (l k : List (Option (Event Obj))) → (collect (l ++ k)).1 ≡ ((collect l).1 || (collect k).1)
  unfolding collect
  collect-append [] k = refl
  collect-append (none ∷ l) k = refl
  collect-append (some ev ∷ l) k = collect-append l k

  collect-add :
      (ev : Event Obj) (l : List (Option (Event Obj)))
      → (collect l).1 ≡ true
      → (collect (add (some ev) l)).1 ≡ true
  unfolding add collect
  collect-add ev l h = collect-append l (some ev ∷ []) ∙ ap (λ b. b || false) h

  collect-add_nil : (l : List (Option (Event Obj))) → (collect (add none l)).1 ≡ true
  unfolding add collect
  collect-add_nil l = collect-append l (none ∷ []) ∙ elim (Bool-cases (collect l).1) [
    | inl e ↦ ap (λ b. b || true) e
    | inr e ↦ ap (λ b. b || true) e
  ]

  pub push-IsSound : (ev : Event Obj) (s : Session Obj) → IsSound s → IsSound (push ev s)
  unfolding push
  push-IsSound ev s i = record {
    notify = i.notify;
    conn = i.conn;
    closed = i.closed;
    nil = λ r w. collect-add ev s.send_list (i.nil r w);
    once = i.once;
  }

  pub close-IsSound : (s : Session Obj) → IsSound s → IsSound (close s)
  unfolding close
  close-IsSound s i = record {
    notify = i.notify;
    conn = i.conn;
    closed = i.closed;
    nil = λ r w. collect-add_nil s.send_list;
    once = i.once;
  }

  pub recv_turn-IsSound :
      (r : Result) (s : Session Obj) → s.receiver ≡ looping → IsSound s → IsSound (recv_turn r s)
  unfolding recv_turn
  recv_turn-IsSound r s l i = elim (Bool-cases (is_fine r)) [
    | inl e ↦ rw (e, recv_turn) i
    | inr e ↦
        rw (e, recv_turn)
          (record {
            notify = i.notify;
            conn = i.conn;
            closed = ap (λ n. n + 1) (i.closed ∙ ap posts l);
            nil = λ f w. absurd cc;
            once = elim i.once [ inl z ↦ inl z | inr (o, a, b) ↦ absurd cc ];
          })
  ]

  -- The state after a turn that took `evs`, when all calls of the write chain came back.
  abbrev pub written_turn :
      Session Obj → List (Event Obj) → Bool → List (Option (Event Obj)) → Bool → Session Obj
  written_turn s evs exit list all = record s {
    send_list = list;
    written = s.written ++ evs;
    sender = if exit || not all then leaving else looping;
  }

  pub send_turn-picks :
      (write : WriteChain Obj) (s : Session Obj) (evs : List (Event Obj)) (exit : Bool)
      (list : List (Option (Event Obj)))
      → pick s.send_list ≡ some (evs, exit, list)
      → send_turn write s ≡ (all_fine write evs >>= λ all. some (written_turn s evs exit list all))
  unfolding send_turn after_pick
  send_turn-picks write s evs exit list e = ap (λ o. o >>= λ p. after_pick write s p) e

  send_turn-waits :
      (write : WriteChain Obj) (s : Session Obj)
      → pick s.send_list ≡ none
      → send_turn write s ≡ none
  unfolding send_turn
  send_turn-waits write s e = ap (λ o. o >>= λ p. after_pick write s p) e

  -- A whole turn took something from the list, and the calls of the write chain came back.
  turn_took :
      (write : WriteChain Obj) (s s' : Session Obj)
      → send_turn write s ≡ some s'
      → (evs : List (Event Obj)) × (exit : Bool) × (list : List (Option (Event Obj))) × (all : Bool)
        × (pick s.send_list ≡ some (evs, exit, list))
        × (written_turn s evs exit list all ≡ s')
  turn_took write s s' e = elim (Option-cases (pick s.send_list)) [
    | inl n ↦ absurd (some-ne-none s' (sym e ∙ send_turn-waits write s n))
    | inr ((evs, exit, list), p) ↦
        let k = λ (o : Option Bool). o >>= λ all. some (written_turn s evs exit list all) in
        let t = send_turn-picks write s evs exit list p in
        elim (Option-cases (all_fine write evs)) [
          | inl n ↦ absurd (some-ne-none s' (sym e ∙ (t ∙ ap k n)))
          | inr (all, a) ↦ (evs, exit, list, all, p, some_inj (sym (t ∙ ap k a) ∙ e))
        ]
  ]

  pub pick-nil : (l : List (Option (Event Obj))) → pick l ≡ none → (collect l).1 ≢ true
  unfolding pick collect
  pick-nil [] e h = cc
  pick-nil (x ∷ l) e h = some-ne-none _ e

  recv_end-close :
      (s : Session Obj)
      → s.need_notify_write ≡ true
      → recv_end s ≡ record (close s) { receiver = ended }
  unfolding recv_end
  recv_end-close s e = ap (λ b. record (if b then close s else s) { receiver = ended }) e

  recv_end-plain :
      (s : Session Obj) → s.need_notify_write ≡ false → recv_end s ≡ record s { receiver = ended }
  unfolding recv_end
  recv_end-plain s e = ap (λ b. record (if b then close s else s) { receiver = ended }) e

  pub once_running :
      (s : Session Obj)
      → IsSound s
      → (s.receiver ≢ ended) ⊎ (s.sender ≢ ended)
      → s.on_close_calls ≡ 0
  once_running s i h = elim i.once [
    | inl z ↦ z
    | inr (o, a, b) ↦ elim h [ inl n ↦ absurd (n a) | inr n ↦ absurd (n b) ]
  ]

  pub recv_end-IsSound : (s : Session Obj) → s.receiver ≡ leaving → IsSound s → IsSound (recv_end s)
  unfolding close
  recv_end-IsSound s l i =
      let calls = once_running s i (inl (λ e. cc)) in
      elim (Bool-cases s.need_notify_write) [
        | inl e ↦ subst IsSound (sym (recv_end-close s e)) (record {
          notify = i.notify;
          conn = i.conn;
          closed = i.closed ∙ ap posts l;
          nil = λ r w. collect-add_nil s.send_list;
          once = inl calls;
        })
        | inr e ↦ subst IsSound (sym (recv_end-plain s e)) (record {
          notify = i.notify;
          conn = i.conn;
          closed = i.closed ∙ ap posts l;
          nil = λ r w. absurd (true-ne-false (sym (i.notify ∙ ap is_open w) ∙ e));
          once = inl calls;
        })
      ]

  written_turn-IsSound :
      (s : Session Obj) (evs : List (Event Obj)) (exit : Bool) (list : List (Option (Event Obj)))
      (all : Bool)
      → s.sender ≡ looping
      → pick s.send_list ≡ some (evs, exit, list)
      → IsSound s
      → IsSound (written_turn s evs exit list all)
  written_turn-IsSound s evs exit list all l p i =
      let calls = once_running s i (inr (λ e. cc)) in
      let (_, same, _) = pick-collect s.send_list list evs exit p in
      record {
        notify = i.notify ∙ (ap is_open l ∙ sym (open_if (exit || not all)));
        conn = i.conn ∙ (ap is_open l ∙ sym (open_if (exit || not all)));
        closed = i.closed;
        nil = λ r w. absurd (leaves (not all) (same ∙ i.nil r l) w);
        once = inl calls;
      }

  pub send_turn-IsSound :
      (write : WriteChain Obj) (s s' : Session Obj)
      → s.sender ≡ looping
      → send_turn write s ≡ some s'
      → IsSound s
      → IsSound s'
  send_turn-IsSound write s s' l e i =
      let (evs, exit, list, all, p, same) = turn_took write s s' e in
      subst IsSound same (written_turn-IsSound s evs exit list all l p i)

  pub send_end-IsSound : (s : Session Obj) → s.sender ≡ leaving → IsSound s → IsSound (send_end s)
  unfolding send_end
  send_end-IsSound s l i = record {
    notify = refl;
    conn = refl;
    closed = i.closed;
    nil = λ r w. absurd cc;
    once = inl (once_running s i (inr (λ e. cc)));
  }

  pub run_end-IsSound :
      (s : Session Obj)
      → s.receiver ≡ ended
      → s.sender ≡ ended
      → s.on_close_calls ≡ 0
      → IsSound s
      → IsSound (run_end s)
  unfolding run_end
  run_end-IsSound s r w z i = record {
    notify = i.notify;
    conn = i.conn;
    closed = i.closed;
    nil = i.nil;
    once = inr (ap (λ n. n + 1) z, r, w);
  }

  pub new-IsSound : IsSound new_session
  unfolding new_session
  new-IsSound = record {
    notify = refl;
    conn = refl;
    closed = refl;
    nil = λ r w. absurd cc;
    once = inl refl;
  }
