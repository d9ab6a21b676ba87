-- ===== src/Cellnet/Peer/Stopping.antt =====
-- cellnet/socket/base.go: what becomes of a caller that waits for a peer to stop.
use cellorigin.Base.{◌≡◌, ◌≢◌, ap, subst, ◌∙◌, none, if◌then◌else◌, Option-cases, inl, inr}
use cellorigin.Cellnet.Peer.{
  StopState, before, tested, receiving, woken, back, start_stopping, wait_test, wait_receive,
  wait_clear, end_stopping, end_by, same_channel,
}

-- A step of the caller of `waitStopFinished`, or of a thread that starts or ends a stop.
pub data Step : StopState → StopState → Type 0 where
  begins : (s : StopState) → Step s (start_stopping s)
  tests : (s : StopState) → s.waiter ≡ before → Step s (wait_test s)
  waits : (s : StopState) → s.waiter ≡ tested → Step s (wait_receive s)
  clears : (s : StopState) → s.waiter ≡ woken → Step s (wait_clear s)
  ends : (s : StopState) → Step s (end_stopping s)

pub data Steps : StopState → StopState → Type 0 where
  here : {s t : StopState} → s ≡ t → Steps s t
  there : (s t u : StopState) → Step s t → Steps t u → Steps s u

end-nil :
    (s : StopState) → s.waiter ≡ receiving none → end_stopping s ≡ record s { stopping = none }
unfolding end_stopping end_by same_channel
end-nil s w = ap (λ p. end_by p s) w ∙ elim (Option-cases s.stopping) [
  | inl n ↦
      ap
        (λ c.
          if same_channel c none then record s { waiter = woken } else record s { stopping = none })
        n
  | inr (d, n) ↦
      ap
        (λ c.
          if same_channel c none then record s { waiter = woken } else record s { stopping = none })
        n
]

-- A caller that receives from a nil channel stays there.
Step-nil : {s t : StopState} → Step s t → s.waiter ≡ receiving none → t.waiter ≡ receiving none
unfolding start_stopping
Step-nil (begins s) w = w
Step-nil (tests s b) w = absurd cc
Step-nil (waits s b) w = absurd cc
Step-nil (clears s b) w = absurd cc
Step-nil (ends s) w = ap (λ t. t.waiter) (end-nil s w) ∙ w

Steps-nil : {s t : StopState} → Steps s t → s.waiter ≡ receiving none → t.waiter ≡ receiving none
Steps-nil (here e) w = subst (λ t. t.waiter ≡ receiving none) e w
Steps-nil (there s t u a b) w = Steps-nil b (Step-nil a w)

end-tested : (s : StopState) → s.waiter ≡ tested → end_stopping s ≡ record s { stopping = none }
unfolding end_stopping end_by
end-tested s w = ap (λ p. end_by p s) w

-- If the stopping thread ends while the caller of `waitStopFinished` is between its test and its
-- receive, and the caller then receives, it never comes back, whatever steps follow, those of a new
-- stop included.
pub Steps-late :
    (s t : StopState)
    → s.waiter ≡ tested
    → Steps (wait_receive (end_stopping s)) t
    → t.waiter ≢ back
unfolding wait_receive
Steps-late s t w r e = let nil = Steps-nil r (ap (λ x. receiving x.stopping) (end-tested s w)) in cc
