-- ===== src/Cellnet/Examples/Wire.antt =====
-- Packets on a connection, and the list of events of a session.
use cellorigin.Base.{
  ℕ, ◌≡◌, refl, List, [], ◌∷◌, ◌++◌, Option, none, some, arith, inr, All, true, false,
}
use cellorigin.Cellnet.Event.{Event, fine, new_event, recv}
use cellorigin.Cellnet.Chain.{call_list}
use cellorigin.Cellnet.Frame.{
  write_chain, private_packet_writer, fixed_length_frame_writer, write_full, wrote, Socket,
}
use cellorigin.Cellnet.Frame.Packets.{Fits, transmit, receive, receive-transmit}
use cellorigin.Cellnet.EventList.{add, pick, collect, reset}
use cellorigin.Cellnet.EventList.Order.{
  Run, start, sends, closes, picks, events, until_nil, behind_nil, Run-events, Run-exit,
}

abbrev fresh : Event ℕ
fresh = new_event recv (some 1) 0

clean : fresh.r ≡ fine
unfolding new_event
clean = refl

abbrev sender : Socket
sender = record {
  input = [];
  output = [];
  accepts = [];
  recvser = 1;
  sendser = 0xffff;
  max_packet_size = 0;
}

-- The serial number wraps around behind the first packet.
abbrev packets : List (ℕ × List ℕ)
packets = (7, 1 ∷ 2 ∷ 3 ∷ []) ∷ (0xdeadbeef, []) ∷ []

-- The bytes of the two packets: serial number, message id, size, data.
abbrev sent_bytes : List ℕ
sent_bytes =
    255 ∷ 255 ∷ 7 ∷ 0 ∷ 0 ∷ 0 ∷ 3 ∷ 0 ∷ 0 ∷ 0 ∷ 1 ∷ 2 ∷ 3 ∷ 0 ∷ 0 ∷ 0xef ∷ 0xbe ∷ 0xad ∷ 0xde ∷ 0
    ∷ 0 ∷ 0 ∷ 0 ∷ []

-- The packets have come in, and the first byte of a third one.
abbrev receiver : Socket
receiver = record {
  input = sent_bytes ++ 99 ∷ [];
  output = [];
  accepts = [];
  recvser = 0xffff;
  sendser = 1;
  max_packet_size = 4;
}

-- The sender's output is these bytes.
sent :
    transmit fresh clean packets sender ≡ some (record sender { output = sent_bytes; sendser = 1 })
unfolding write_chain private_packet_writer fixed_length_frame_writer write_full wrote call_list
    new_event
sent = refl

fits : All (Fits 4) packets
fits = (
  (omega arith, omega arith, inr (omega arith)),
  ((omega arith, omega arith, inr (omega arith)), tt),
)

receive-transmit_example :
    (w' : Socket) × (transmit fresh clean packets sender ≡ some w')
    × (receiver.input ≡ w'.output ++ (99 ∷ [])
        → (r' : Socket) × (receive fresh clean 2 receiver ≡ some (packets, r'))
          × (r'.input ≡ 99 ∷ [])
          × (r'.recvser ≡ w'.sendser))
receive-transmit_example =
    receive-transmit fresh clean packets sender receiver (99 ∷ []) fits refl refl (omega arith) refl

-- Two events, of which the writer took one.
abbrev one_left : List (Option ℕ)
one_left = add (some 6) []

first_pick : pick {E = ℕ} (add (some 5) []) ≡ some (5 ∷ [], false, [])
unfolding pick add collect reset
first_pick = refl

run : Run one_left (5 ∷ 6 ∷ []) (5 ∷ [])
run =
    sends 6 [] (5 ∷ []) (5 ∷ [])
      (picks (add (some 5) []) [] (5 ∷ []) [] (5 ∷ []) (sends 5 [] [] [] start) first_pick)

Run-events_example : (5 ∷ 6 ∷ []) ≡ (5 ∷ []) ++ events one_left
Run-events_example = Run-events run

-- `Close` comes before a third event, which is lost.
abbrev closed : List (Option ℕ)
closed = add (some 8) (add none one_left)

last_pick : pick closed ≡ some (6 ∷ [], true, [])
unfolding pick add collect reset
last_pick = refl

Run-exit_example :
    ((6 ∷ []) ≡ until_nil closed) × ((5 ∷ 6 ∷ 8 ∷ []) ≡ ((5 ∷ []) ++ (6 ∷ [])) ++ behind_nil closed)
Run-exit_example =
    Run-exit [] (6 ∷ [])
      (sends 8 (add none one_left) (5 ∷ 6 ∷ []) (5 ∷ [])
        (closes one_left (5 ∷ 6 ∷ []) (5 ∷ []) run))
      last_pick
