-- ===== src/Cellnet/Socket.antt =====
-- cellnet/socket/session.go: a session with its two threads. A critical section, a turn of a
-- thread's loop and what a thread does behind its loop are one step each; the deadlines are left
-- out. The sessions and chains of an event are references.
pub mod Sound
pub mod Threads
use cellorigin.Base.{
  ℕ, ◌+◌, List, [], ◌∷◌, ◌++◌, Option, none, some, Bool, true, false, not, ◌&&◌, ◌||◌,
  if◌then◌else◌,
}
use cellorigin.Cellnet.Event.{
  Event, EventType, unset, connected, connect_failed, accepted, accept_failed, closed, recv, send,
  Result, fine, new_event,
}
use cellorigin.Cellnet.Chain.{Handler, HandlerChain, call, ◌>>=◌}
use cellorigin.Cellnet.EventList.{add, pick}

-- Where a thread is: in its loop, behind it, or ended (`endSync.Done()`).
pub data Phase : Type 0 where
  looping leaving ended : Phase

pub record Session (Obj : Type 0) : Type 0 where
  pub id : ℕ
  pub need_notify_write : Bool
  pub send_list : List (Option (Event Obj))
  pub conn_open : Bool
  pub tag : Option Obj
  pub receiver : Phase
  pub sender : Phase
  -- The events that went through the write chain, the events `Event_Closed`, the calls of `OnClose`.
  pub written : List (Event Obj)
  pub closed_posts : ℕ
  pub on_close_calls : ℕ

-- The result is `Result_OK`.
unfoldable pub is_fine : Result → Bool
is_fine fine = true
is_fine _ = false

-- What the write chain does with an event: a result, or it panics or never comes back (`none`).
abbrev pub WriteChain : Type 0 → Type 0
WriteChain Obj = Event Obj → Option Result

module _ {Obj : Type 0} where
  unfoldable pub set_id : ℕ → Session Obj → Session Obj
  set_id id s = record s { id = id }

  unfoldable pub set_tag : Option Obj → Session Obj → Session Obj
  set_tag tag s = record s { tag = tag }

  unfoldable pub close : Session Obj → Session Obj
  unfolding add
  close s = record s { send_list = add none s.send_list }

  unfoldable pub push : Event Obj → Session Obj → Session Obj
  unfolding add
  push ev s = record s { send_list = add (some ev) s.send_list }

  -- What follows the check of the type: the send chain of the event, if it has one.
  unfoldable pub chain_and_push :
      {W : Type 0}
      → (ℕ → HandlerChain Obj W)
      → Event Obj
      → Session Obj
      → W
      → Option (Session Obj × W)
  unfolding push
  chain_and_push chain_of ev s w = elim ev.chain_send [
    | none ↦ some (push ev s, w)
    | some c ↦ call (chain_of c) ev w >>= λ p. some (push p.0 s, p.1)
  ]

  -- `RawSend` of the session named `self`; another type of event panics.
  unfoldable pub raw_send :
      {W : Type 0}
      → ℕ
      → (ℕ → HandlerChain Obj W)
      → Event Obj
      → Session Obj
      → W
      → Option (Session Obj × W)
  unfolding chain_and_push
  raw_send self chain_of ev s w = elim ev.kind [
    | send ↦ chain_and_push chain_of (record ev { ses = some self }) s w
    | _ ↦ none
  ]

  -- `Send`, with the send chain of the peer and the number for the event.
  unfoldable pub send_message :
      {W : Type 0}
      → ℕ
      → (ℕ → HandlerChain Obj W)
      → Option ℕ
      → ℕ
      → Option Obj
      → Session Obj
      → W
      → Option (Session Obj × W)
  unfolding raw_send new_event
  send_message self chain_of chain_send uid msg s w =
      raw_send self chain_of
        (record (new_event send (some self) uid) { msg = msg; chain_send = chain_send }) s w

  -- A turn of the loop of `recvThread`, with the result of the read chain.
  unfoldable pub recv_turn : Result → Session Obj → Session Obj
  unfolding is_fine
  recv_turn r s =
      if is_fine r then s else record s { closed_posts = s.closed_posts + 1; receiver = leaving }

  -- The end of `recvThread`.
  unfoldable pub recv_end : Session Obj → Session Obj
  unfolding close
  recv_end s = record (if s.need_notify_write then close s else s) { receiver = ended }

  -- Whether the write chain gave `Result_OK` for all; it is called for all of them, in their order,
  -- and nothing follows a call that does not come back.
  unfoldable pub all_fine : WriteChain Obj → List (Event Obj) → Option Bool
  unfolding is_fine
  all_fine write [] = some true
  all_fine write (ev ∷ evs) = do r ← write ev; rest ← all_fine write evs; some (is_fine r && rest)

  unfoldable pub after_pick :
      WriteChain Obj
      → Session Obj
      → List (Event Obj) × Bool × List (Option (Event Obj))
      → Option (Session Obj)
  unfolding all_fine
  after_pick write s (write_list, will_exit, list) = all_fine write write_list >>= λ all.
      some (record s {
        send_list = list;
        written = s.written ++ write_list;
        sender = if will_exit || not all then leaving else looping;
      })

  -- A whole turn of the loop of `sendThread`; `none` while `Pick` waits, and if a call of the write
  -- chain does not come back.
  unfoldable pub send_turn : WriteChain Obj → Session Obj → Option (Session Obj)
  unfolding after_pick pick
  send_turn write s = pick s.send_list >>= λ p. after_pick write s p

  -- `exitsendloop`
  unfoldable pub send_end : Session Obj → Session Obj
  send_end s = record s { need_notify_write = false; conn_open = false; sender = ended }

  -- The third goroutine of `run`, once both threads have ended.
  unfoldable pub run_end : Session Obj → Session Obj
  run_end s = record s { on_close_calls = s.on_close_calls + 1 }

  -- `newSession` and `run`
  unfoldable pub new_session : Session Obj
  new_session = record {
    id = 0;
    need_notify_write = true;
    send_list = [];
    conn_open = true;
    tag = none;
    receiver = looping;
    sender = looping;
    written = [];
    closed_posts = 0;
    on_close_calls = 0;
  }
