-- ===== src/Cellnet/Examples/Peers.antt =====
-- A session whose receiver ends first, a caller that waits too late, and a queue with two callbacks.
use cellorigin.Base.{none, ℕ, ◌+◌, ◌*◌, ◌≡◌, ◌≢◌, refl, [], ◌∷◌, some, false}
use cellorigin.Cellnet.Event.{Event, socket_error, new_event, recv}
use cellorigin.Cellnet.Socket.{
  WriteChain, push, Session, looping, leaving, recv_turn, recv_end, new_session, is_fine,
}
use cellorigin.Cellnet.Socket.Sound.{IsSound}
use cellorigin.Cellnet.Socket.Threads.{
  pushes, Reached, starts, steps, receives, receiver_ends, Reached-IsSound,
}
use cellorigin.Cellnet.Peer.{
  StopState, before, tested, receiving, back, start_stopping, end_stopping, end_by, same_channel,
  wait_receive,
}
use cellorigin.Cellnet.Peer.Stopping.{Steps, here, there, begins, ends, Steps-late}
use cellorigin.Cellnet.Queue.{
  EvQueue, Callback, post, turn, take_turn, protect, protected_call, new_event_queue_by_len,
}
use cellorigin.Cellnet.Queue.Loop.{Run, Ordered, Run-Ordered, posts, turns}
use cellorigin.Cellnet.Queue.Loop as Loop

-- An event is sent, the read chain gives an error, and the receiver closes the session for the
-- sender.
abbrev event : Event ℕ
event = new_event recv (some 1) 0

abbrev asked : Session ℕ
asked = push event new_session

abbrev failed : Session ℕ
failed = recv_turn socket_error asked

abbrev half_closed : Session ℕ
half_closed = recv_end failed

asked-receiver : asked.receiver ≡ looping
unfolding push new_session
asked-receiver = refl

failed-receiver : failed.receiver ≡ leaving
unfolding recv_turn is_fine
failed-receiver = refl

reached : Reached half_closed
unfolding new_session
reached =
    steps failed half_closed
      (steps asked failed (steps new_session asked starts (pushes event new_session))
        (receives socket_error asked asked-receiver))
      (receiver_ends failed failed-receiver)

Reached-IsSound_example : IsSound half_closed
Reached-IsSound_example = Reached-IsSound reached

-- The write chain fails.
abbrev write : WriteChain ℕ
write ev = some socket_error

-- The caller has seen that the peer is stopping; then the accepting thread ends. A new stop, which
-- ends as well, does not reach the caller.
abbrev between : StopState
between = record { stopping = some 0; made = 1; waiter = tested }

abbrev stuck : StopState
stuck = record { stopping = none; made = 2; waiter = receiving none }

late_receive : Steps (wait_receive (end_stopping between)) stuck
unfolding end_stopping end_by same_channel wait_receive start_stopping
late_receive =
    let s = wait_receive (end_stopping between) in
    there s (start_stopping s) stuck (begins s)
      (there (start_stopping s) stuck stuck (ends (start_stopping s)) (here refl))

Steps-late_example : stuck.waiter ≢ back
Steps-late_example = Steps-late between stuck refl late_receive

abbrev running_peer : StopState
running_peer = record { stopping = none; made = 4; waiter = before }

abbrev add_one : Callback ℕ
add_one n = (n + 1, false)

abbrev double : Callback ℕ
double n = (n * 2, false)

abbrev two_posted : EvQueue ℕ
two_posted = record { queue = add_one ∷ double ∷ []; size = 2; capture_panic = false }

abbrev one_left : EvQueue ℕ
one_left = record { queue = double ∷ []; size = 2; capture_panic = false }

one_turn : Run 2 5 one_left 6 (add_one ∷ double ∷ [])
unfolding post new_event_queue_by_len turn take_turn protected_call protect
one_turn =
    turns two_posted one_left 5 6 (add_one ∷ double ∷ [])
      (posts double (record { queue = add_one ∷ []; size = 2; capture_panic = false }) two_posted 5
        (add_one ∷ [])
        (posts add_one (new_event_queue_by_len 2)
          (record { queue = add_one ∷ []; size = 2; capture_panic = false }) 5 [] Loop.starts refl)
        refl)
      refl

Run-Ordered_example : Ordered 2 5 one_left 6 (add_one ∷ double ∷ [])
Run-Ordered_example = Run-Ordered one_turn
