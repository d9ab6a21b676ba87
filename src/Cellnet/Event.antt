-- ===== src/Cellnet/Event.antt =====
-- cellnet/event.go: the event that travels through the handler chains.
-- `Obj` stands for Go's `interface{}`; a session and a chain are named by their references.
use cellorigin.Base.{ℕ, List, [], Option, none, length}
use Prim.Native.String.{String}

pub data EventType : Type 0 where
  unset connected connect_failed accepted accept_failed closed recv send : EventType

-- `EventType.String`, at the values that have a name.
pub event_type_string : EventType → String
event_type_string recv = "recv"
event_type_string send = "send"
event_type_string connected = "connected"
event_type_string connect_failed = "connectfailed"
event_type_string accepted = "accepted"
event_type_string accept_failed = "acceptfailed"
event_type_string closed = "closed"
event_type_string unset = "unknown(0)"

pub data Result : Type 0 where
  fine socket_error socket_timeout package_crack codec_error request_close next_chain : Result

pub record Event (Obj : Type 0) : Type 0 where
  pub uid : ℕ
  pub kind : EventType
  pub msg_id : ℕ
  pub msg : Option Obj
  pub body : List ℕ
  pub tag : Option Obj
  pub transmit_tag : Option Obj
  pub ses : Option ℕ
  pub chain_send : Option ℕ
  pub r : Result
  pub chainid : ℕ

-- `Clone`: `r` and `chainid` are not copied.
unfoldable pub clone : {Obj : Type 0} → Event Obj → Event Obj
clone ev = record ev { r = fine; chainid = 0 }

unfoldable pub set_result : {Obj : Type 0} → Result → Event Obj → Event Obj
set_result r ev = record ev { r = r }

-- `NewEvent`, with the counter `evuid` and the flag `EnableHandlerLog`.
unfoldable pub new_event : {Obj : Type 0} → EventType → Option ℕ → ℕ → Event Obj
new_event t s uid = record {
  uid = uid;
  kind = t;
  msg_id = 0;
  msg = none;
  body = [];
  tag = none;
  transmit_tag = none;
  ses = s;
  chain_send = none;
  r = fine;
  chainid = 0;
}

unfoldable pub msg_size : {Obj : Type 0} → Event Obj → ℕ
msg_size ev = length ev.body
