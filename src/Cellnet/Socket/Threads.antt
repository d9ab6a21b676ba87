-- ===== src/Cellnet/Socket/Threads.antt =====
-- cellnet/socket/session.go: the two threads of a session and its users, in every interleaving of
-- their steps, and how the end of the receiving thread ends the sending thread.
use cellorigin.Base.{◌≡◌, List, some, All}
use cellorigin.Cellnet.Event.{Event, Result}
use cellorigin.Cellnet.Socket.{
  WriteChain, Session, looping, leaving, ended, close, push, recv_turn, recv_end, send_turn,
  send_end, run_end, new_session,
}
use cellorigin.Cellnet.Socket.Sound.{
  IsSound, push-IsSound, close-IsSound, recv_turn-IsSound, recv_end-IsSound, send_turn-IsSound,
  send_end-IsSound, run_end-IsSound, new-IsSound,
}

module _ {Obj : Type 0} where
  -- A step of some thread, or of the user of the session.
  pub data Step : Session Obj → Session Obj → Type 0 where
    pushes : (ev : Event Obj) (s : Session Obj) → Step s (push ev s)
    closes : (s : Session Obj) → Step s (close s)
    receives : (r : Result) (s : Session Obj) → s.receiver ≡ looping → Step s (recv_turn r s)
    receiver_ends : (s : Session Obj) → s.receiver ≡ leaving → Step s (recv_end s)
    writes :
        (write : WriteChain Obj) (s s' : Session Obj)
        → s.sender ≡ looping
        → send_turn write s ≡ some s'
        → Step s s'
    sender_ends : (s : Session Obj) → s.sender ≡ leaving → Step s (send_end s)
    ends :
        (s : Session Obj)
        → s.receiver ≡ ended
        → s.sender ≡ ended
        → s.on_close_calls ≡ 0
        → Step s (run_end s)

  pub data Reached : Session Obj → Type 0 where
    starts : Reached new_session
    steps : (s s' : Session Obj) → Reached s → Step s s' → Reached s'

  Step-IsSound : {s s' : Session Obj} → Step s s' → IsSound s → IsSound s'
  Step-IsSound (pushes ev s) i = push-IsSound ev s i
  Step-IsSound (closes s) i = close-IsSound s i
  Step-IsSound (receives r s l) i = recv_turn-IsSound r s l i
  Step-IsSound (receiver_ends s l) i = recv_end-IsSound s l i
  Step-IsSound (writes write s s' l e) i = send_turn-IsSound write s s' l e i
  Step-IsSound (sender_ends s l) i = send_end-IsSound s l i
  Step-IsSound (ends s r w z) i = run_end-IsSound s r w z i

  -- In every interleaving of the threads and the users of a session: the connection is open until
  -- the sending thread ends; `Event_Closed` is posted once, when the receiving thread leaves its
  -- loop; `OnClose` is called at most once, and after both threads have ended.
  pub Reached-IsSound : {s : Session Obj} → Reached s → IsSound s
  Reached-IsSound starts = new-IsSound
  Reached-IsSound (steps s s' r t) = Step-IsSound t (Reached-IsSound r)

  -- The write chain comes back from these events.
  abbrev pub ComesBack : WriteChain Obj → List (Event Obj) → Type 0
  ComesBack write = All (λ ev. (r : Result) × (write ev ≡ some r))
