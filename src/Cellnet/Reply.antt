-- ===== src/Cellnet/Reply.antt =====
-- The methods of an event in cellnet/event.go that use its session, the registry or a chain.
-- `SessionInfo` is what the interface Session and its peer answer.
use cellorigin.Base.{ℕ, Option, none, some, if◌then◌else◌}
use cellorigin.Cellnet.Event.{Event, send, new_event}
use cellorigin.Cellnet.Meta.{Registry, message_meta_by_id}
use cellorigin.Cellnet.Handlers.{encode_message}
use cellorigin.Cellnet.Chain.{HandlerChain, ◌>>=◌}
use cellorigin.Cellnet.Socket.{Session, raw_send}
use Prim.Native.String.{String}
use text.Mathlib.Text.{◌==◌ as str_beq}

pub record SessionInfo : Type 0 where
  pub id : ℕ
  pub peer_name : String
  pub peer_address : String
  pub peer_chain_send : Option ℕ

-- The chain of the event, or that of the peer of the session.
abbrev pub chosen_chain : (ℕ → SessionInfo) → ℕ → Option ℕ → Option ℕ
chosen_chain info self (some c) = some c
chosen_chain info self none = (info self).peer_chain_send

module _ {Obj : Type 0} (info : ℕ → SessionInfo) where
  pub peer_name_of : Event Obj → String
  peer_name_of ev = elim ev.ses [
    | none ↦ ""
    | some s ↦ if str_beq (info s).peer_name "" then (info s).peer_address else (info s).peer_name
  ]

  pub session_id : Event Obj → ℕ
  session_id ev = elim ev.ses [ none ↦ 0 | some s ↦ (info s).id ]

  -- The event that `Send` makes.
  abbrev pub reply : ℕ → ℕ → Option Obj → Event Obj → Event Obj
  reply self uid msg ev = record (new_event send (some self) uid) {
    msg = msg;
    transmit_tag = ev.transmit_tag;
    chain_send = chosen_chain info self ev.chain_send;
  }

  -- `Send`, by the session of the event, which is `s`.
  unfoldable pub send_by :
      {W : Type 0}
      → Option ℕ
      → (ℕ → HandlerChain Obj W)
      → ℕ
      → Option Obj
      → Event Obj
      → Session Obj
      → W
      → Option (Session Obj × W)
  unfolding raw_send
  send_by none chain_of uid msg ev s w = some (s, w)
  send_by (some self) chain_of uid msg ev s w = raw_send self chain_of (reply self uid msg ev) s w

  unfoldable pub event_send :
      {W : Type 0}
      → (ℕ → HandlerChain Obj W)
      → ℕ
      → Option Obj
      → Event Obj
      → Session Obj
      → W
      → Option (Session Obj × W)
  unfolding send_by
  event_send chain_of uid msg ev s w = send_by ev.ses chain_of uid msg ev s w

module _ {Obj : Type 0} (g : Registry Obj) where
  pub msg_name : Event Obj → String
  msg_name ev = elim (message_meta_by_id ev.msg_id g) [ none ↦ "" | some meta ↦ meta.name ]

  -- `FromMessage`; the error is only logged. `none` is a panic of the codec.
  pub from_message : (Obj → ℕ) → Obj → Event Obj → Option (Event Obj)
  from_message type_of msg ev = encode_message g type_of msg >>= λ (body, id, e).
      some (record ev { body = body; msg_id = id; msg = none })
