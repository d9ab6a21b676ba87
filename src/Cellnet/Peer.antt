-- ===== src/Cellnet/Peer.antt =====
-- cellnet/peerprofile.go, socket/options.go and the stopping state of socket/base.go: what the
-- sessions of a peer share. The lock of the running flag makes each access one step.
pub mod Stopping
use cellorigin.Base.{
  ℕ, ◌+◌, ◌==◌, Bool, true, false, List, [], ◌∷◌, ◌++◌, Option, none, some, if◌then◌else◌, ◌≡◌,
  refl,
}
use Prim.Native.String.{String}
use text.Mathlib.Text.{◌==◌ as str_beq}

pub record PeerProfile (Obj : Type 0) : Type 0 where
  pub name : String
  pub address : String
  pub tag : Option Obj
  pub running : Bool

module _ {Obj : Type 0} where
  unfoldable pub set_running : Bool → PeerProfile Obj → PeerProfile Obj
  set_running v p = record p { running = v }

  unfoldable pub is_running : PeerProfile Obj → Bool
  is_running p = p.running

  unfoldable pub set_name : String → PeerProfile Obj → PeerProfile Obj
  set_name name p = record p { name = name }

  unfoldable pub set_address : String → PeerProfile Obj → PeerProfile Obj
  set_address address p = record p { address = address }

  unfoldable pub set_tag : Option Obj → PeerProfile Obj → PeerProfile Obj
  set_tag tag p = record p { tag = tag }

  unfoldable pub name_or_address : PeerProfile Obj → String
  name_or_address p = if str_beq p.name "" then p.address else p.name

  unfoldable pub new_peer_profile : PeerProfile Obj
  new_peer_profile = record { name = ""; address = ""; tag = none; running = false }

-- A size of a buffer; -1 leaves the connection's own (`none`).
pub record SocketOptions : Type 0 where
  pub max_packet_size : ℕ
  pub conn_read_buffer : Option ℕ
  pub conn_write_buffer : Option ℕ
  pub conn_no_delay : Bool
  pub conn_read_timeout : ℕ
  pub conn_write_timeout : ℕ

unfoldable pub set_max_packet_size : ℕ → SocketOptions → SocketOptions
set_max_packet_size size o = record o { max_packet_size = size }

unfoldable pub set_socket_deadline : ℕ → ℕ → SocketOptions → SocketOptions
set_socket_deadline read write o = record o { conn_read_timeout = read; conn_write_timeout = write }

unfoldable pub socket_deadline : SocketOptions → ℕ × ℕ
socket_deadline o = (o.conn_read_timeout, o.conn_write_timeout)

unfoldable pub set_socket_option : Option ℕ → Option ℕ → Bool → SocketOptions → SocketOptions
set_socket_option read write nodelay o = record o {
  conn_read_buffer = read;
  conn_write_buffer = write;
  conn_no_delay = nodelay;
}

-- The calls on a connection of TCP.
pub data ConnCall : Type 0 where
  set_read_buffer set_write_buffer : ℕ → ConnCall
  set_no_delay : Bool → ConnCall

-- `Apply` to a connection that is of TCP, or not.
unfoldable pub apply : Bool → SocketOptions → List ConnCall
apply false o = []
apply true o =
    (elim o.conn_read_buffer [ none ↦ [] | some n ↦ set_read_buffer n ∷ [] ])
    ++ ((elim o.conn_write_buffer [ none ↦ [] | some n ↦ set_write_buffer n ∷ [] ])
        ++ set_no_delay o.conn_no_delay ∷ [])

unfoldable pub new_socket_options : SocketOptions
new_socket_options = record {
  max_packet_size = 0;
  conn_read_buffer = none;
  conn_write_buffer = none;
  conn_no_delay = false;
  conn_read_timeout = 0;
  conn_write_timeout = 0;
}

-- Where a caller of `waitStopFinished` is: before the test of `stopping`, between the test and the
-- receive, in the receive from a channel (`none` for nil), woken by a value, or back.
pub data Waiter : Type 0 where
  before tested woken back : Waiter
  receiving : Option ℕ → Waiter

-- `stopping` is a channel or nil; the channels are numbered in the order in which they were made.
pub record StopState : Type 0 where
  pub stopping : Option ℕ
  pub made : ℕ
  pub waiter : Waiter

unfoldable pub start_stopping : StopState → StopState
start_stopping s = record s { stopping = some s.made; made = s.made + 1 }

unfoldable pub is_stopping : StopState → Bool
is_stopping s = elim s.stopping [ none ↦ false | some c ↦ true ]

-- The test.
unfoldable pub wait_test : StopState → StopState
wait_test s = record s { waiter = elim s.stopping [ none ↦ back | some c ↦ tested ] }

-- The receive begins: the field is read again.
unfoldable pub wait_receive : StopState → StopState
wait_receive s = record s { waiter = receiving s.stopping }

-- What follows the receive.
unfoldable pub wait_clear : StopState → StopState
wait_clear s = record s { stopping = none; waiter = back }

-- The two are the same channel; nothing is sent on a nil channel, or received from one.
unfoldable pub same_channel : Option ℕ → Option ℕ → Bool
same_channel (some c) (some d) = c == d
same_channel _ _ = false

-- `endStopping`, by where the waiter is: if it is in a receive from the channel that the field has
-- now, it is woken; else the default case sets the field to nil.
unfoldable pub end_by : Waiter → StopState → StopState
unfolding same_channel
end_by (receiving c) s =
    if same_channel s.stopping c then record s { waiter = woken } else record s { stopping = none }
end_by _ s = record s { stopping = none }

unfoldable pub end_stopping : StopState → StopState
unfolding end_by
end_stopping s = end_by s.waiter s
