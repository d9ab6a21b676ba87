-- ===== src/Cellnet/Handlers/Dispatch.antt =====
-- cellnet/handlerchain.go, handler_matchmsgid.go and handler_decode.go: what a chain for a message id
-- does with an event, and what a list of such chains does.
use cellorigin.Base.{
  true, false, ℕ, ◌≡◌, refl, ap, ◌∙◌, List, [], ◌∷◌, Option, none, some, ◌==◌, if◌then◌else◌, ok,
  err, panic, Bool-cases, outcome_of, is_ok, is_err, is_panic, inl, inr,
}
use cellorigin.Cellnet.Event.{Event, fine, codec_error, next_chain, clone, set_result}
use cellorigin.Cellnet.Meta.{Registry, Error}
use cellorigin.Cellnet.Chain.{Handler, HandlerChain, ◌>>=◌, call_list, call, call_all}
use cellorigin.Cellnet.Chain.Runs.{
  call_list_goes_on, call_list_next, call_list_stops, call_list_faults,
}
use cellorigin.Cellnet.Handlers.{decode_message, decode_packet, match_msg_id, err_to_result}

module _ {Obj W : Type 0} (ev : Event Obj) (w : W) where
  match_msg_id-same : (id : ℕ) → (ev.msg_id == id) ≡ true → match_msg_id id ev w ≡ some (ev, w)
  unfolding match_msg_id
  match_msg_id-same id e = rw e refl

  match_msg_id-other :
      (id : ℕ)
      → (ev.msg_id == id) ≡ false
      → match_msg_id id ev w ≡ some (set_result next_chain ev, w)
  unfolding match_msg_id
  match_msg_id-other id e = rw e refl

  module _ (g : Registry Obj) (type_of : Obj → ℕ) where
    decode_packet-ok :
        (m : Obj)
        → decode_message g type_of ev.msg_id ev.body ≡ ok m
        → decode_packet g type_of ev w ≡ some (record ev { msg = some m }, w)
    unfolding decode_packet
    decode_packet-ok m e = rw (e, decode_packet) refl

    decode_packet-err :
        (x : Error)
        → decode_message g type_of ev.msg_id ev.body ≡ err x
        → decode_packet g type_of ev w ≡ some (record ev { msg = none; r = codec_error }, w)
    unfolding decode_packet err_to_result set_result
    decode_packet-err x e = rw (e, decode_packet) refl

    decode_packet-panic :
        decode_message g type_of ev.msg_id ev.body ≡ panic → decode_packet g type_of ev w ≡ none
    unfolding decode_packet
    decode_packet-panic e = rw (e, decode_packet) refl

module _ {Obj W : Type 0} (g : Registry Obj) (type_of : Obj → ℕ) where
  -- A chain for the message `id`.
  abbrev pub chain_for : ℕ → ℕ → List (Handler Obj W) → HandlerChain Obj W
  chain_for chain_id id handlers = record {
    id = chain_id;
    list = match_msg_id id ∷ decode_packet g type_of ∷ handlers;
  }

  -- What the chain leaves of a copy of an event.
  abbrev pub expected : ℕ → ℕ → List (Handler Obj W) → Event Obj → W → Option (Event Obj × W)
  expected chain_id id handlers ev w =
      if ev.msg_id == id
      then elim (decode_message g type_of ev.msg_id ev.body) [
        | ok m ↦ call_list handlers (record ev { r = fine; chainid = chain_id; msg = some m }) w
        | err e ↦ some (record ev { chainid = chain_id; msg = none; r = codec_error }, w)
        | panic ↦ none
      ]
      else some (record ev { r = fine; chainid = chain_id }, w)

  module _ (handlers : List (Handler Obj W)) (ev : Event Obj) (w : W) (fresh : ev.r ≡ fine) where
    call_list-decode :
        call_list (decode_packet g type_of ∷ handlers) ev w
        ≡ (elim (decode_message g type_of ev.msg_id ev.body) [
          | ok m ↦ call_list handlers (record ev { msg = some m }) w
          | err e ↦ some (record ev { msg = none; r = codec_error }, w)
          | panic ↦ none
        ])
    call_list-decode = elim (outcome_of (decode_message g type_of ev.msg_id ev.body)) [
      | is_ok m e ↦
          rw e (call_list_goes_on _ handlers ev _ w w (decode_packet-ok ev w g type_of m e) fresh)
      | is_err x e ↦ rw e (
          call_list_stops _ handlers ev _ w w (decode_packet-err ev w g type_of x e) (λ i. cc)
            (λ i. cc))
      | is_panic e ↦ rw e (call_list_faults _ handlers ev w (decode_packet-panic ev w g type_of e))
    ]

    call_list-match :
        (id : ℕ)
        → call_list (match_msg_id id ∷ handlers) ev w
          ≡ (if ev.msg_id == id then call_list handlers ev w else some (record ev { r = fine }, w))
    unfolding set_result
    call_list-match id = elim (Bool-cases (ev.msg_id == id)) [
      | inl e ↦ rw e (call_list_goes_on _ handlers ev _ w w (match_msg_id-same ev w id e) fresh)
      | inr e ↦ rw e (call_list_next _ handlers ev _ w w (match_msg_id-other ev w id e) refl)
    ]

  -- On a copy of an event: with another id the chain leaves copy and world alone; with its own id
  -- it decodes, and runs the handlers on the decoded message; if decoding fails, no handler runs
  -- and the result is `Result_CodecError`.
  pub call-chain_for :
      (chain_id id : ℕ) (handlers : List (Handler Obj W)) (ev : Event Obj) (w : W)
      → call (chain_for chain_id id handlers) (clone ev) w ≡ expected chain_id id handlers ev w
  unfolding call clone
  call-chain_for chain_id id handlers ev w =
      let marked = record ev { r = fine; chainid = chain_id } in
      call_list-match (decode_packet g type_of ∷ handlers) marked w refl id
      ∙ ap (λ x. if ev.msg_id == id then x else some (marked, w))
          (call_list-decode handlers marked w refl)

-- A list of registrations: the chain's id, the message's id, the handlers.
abbrev pub Registration : Type 0 → Type 0 → Type 0
Registration Obj W = ℕ × ℕ × List (Handler Obj W)

module _ {Obj W : Type 0} (g : Registry Obj) (type_of : Obj → ℕ) where
  abbrev pub chains : List (Registration Obj W) → List (HandlerChain Obj W)
  chains [] = []
  chains ((c, id, hs) ∷ rs) = chain_for g type_of c id hs ∷ chains rs

  -- Going through the list of registrations: those for another message id are left out; those for
  -- the event's decode the body afresh and run their handlers on a copy of the event, and what the
  -- handlers make of the world goes on to the next.
  abbrev pub deliver : List (Registration Obj W) → Event Obj → W → Option W
  deliver [] ev w = some w
  deliver ((c, id, hs) ∷ rs) ev w =
      if ev.msg_id == id
      then elim (decode_message g type_of ev.msg_id ev.body) [
        | ok m ↦ call_list hs (record ev { r = fine; chainid = c; msg = some m }) w >>= λ p.
            deliver rs ev p.1
        | err e ↦ deliver rs ev w
        | panic ↦ none
      ]
      else deliver rs ev w

  module _ (c : ℕ) (id : ℕ) (hs : List (Handler Obj W)) (ev : Event Obj) (w : W) where
    -- The chain, and what follows it.
    after_chain :
        (k : W → Option W)
        → (call (chain_for g type_of c id hs) (clone ev) w >>= λ p. k p.1) ≡ (
            if ev.msg_id == id
            then elim (decode_message g type_of ev.msg_id ev.body) [
              | ok m ↦
                  call_list hs (record ev { r = fine; chainid = c; msg = some m }) w >>= λ p. k p.1
              | err e ↦ k w
              | panic ↦ none
            ]
            else k w)
    after_chain k =
        ap (λ o. o >>= λ p. k p.1) (call-chain_for g type_of c id hs ev w)
        ∙ elim (Bool-cases (ev.msg_id == id)) [
          | inl e ↦ rw e (elim (outcome_of (decode_message g type_of ev.msg_id ev.body)) [
            | is_ok m d ↦ rw d refl
            | is_err x d ↦ rw d refl
            | is_panic d ↦ rw d refl
          ])
          | inr e ↦ rw e refl
        ]

  -- A list of chains for message ids runs in its order: a chain for the event's message id decodes the
  -- body afresh and runs its handlers on a copy of the event with the decoded message; a chain for
  -- another id, and one whose decoding fails, does nothing; the call panics when a handler that
  -- is reached, or a decoding, panics.
  pub call_all-deliver :
      (rs : List (Registration Obj W)) (ev : Event Obj) (w : W)
      → call_all (chains rs) ev w ≡ deliver rs ev w
  unfolding call_all
  call_all-deliver [] ev w = refl
  call_all-deliver ((c, id, hs) ∷ rs) ev w =
      ap (λ k. call (chain_for g type_of c id hs) (clone ev) w >>= k)
        (λ i p. call_all-deliver rs ev p.1 i)
      ∙ after_chain c id hs ev w (deliver rs ev)
