-- ===== src/Cellnet/Frame/Packets.antt =====
-- Packets that are sent by the write chain are received by the read chain at the other end.
use cellorigin.Base.{
  ℕ, zero, suc, ◌+◌, ◌%◌, ◌^◌, ◌≤◌, ◌<◌, ◌≡◌, refl, sym, ap, ap₂, ◌∙◌, arith, List, [], ◌∷◌, ◌++◌,
  append-nil, append_assoc, Option, none, some, false, if◌then◌else◌, length, length-append,
  take-append, drop-append, le_bytes, le_value, le_value-le_bytes2, le_value-le_bytes4, All,
  ==_of_eq, ◌⊎◌, inl, inr,
}
use cellorigin.Cellnet.Event.{Event, Result, fine}
use cellorigin.Cellnet.Chain.{Handler, call_list, ◌>>=◌}
use cellorigin.Cellnet.Chain.Runs.{call_list_goes_on, call_list_nil}
use cellorigin.Cellnet.Frame.{
  Socket, read_full, binary_read, write_full, fixed_length_frame_reader, private_packet_reader,
  got_header, got_body, got_size, got_id, got_ser, too_large, crack, wrote, private_packet_writer,
  fixed_length_frame_writer, read_chain, write_chain,
}

-- The header of a packet, and the packet.
abbrev pub head : ℕ → ℕ → ℕ → List ℕ
head ser id size = le_bytes 2 ser ++ le_bytes 4 id ++ le_bytes 4 size

read_full-append : (n : ℕ) (a b : List ℕ) → length a ≡ n → read_full n (a ++ b) ≡ (some a, b)
unfolding read_full
read_full-append n a b h =
    ground (arith, length-append a b, take-append n a b h, drop-append n a b h)

binary_read-append :
    (n : ℕ) (a b : List ℕ) → length a ≡ n → binary_read n (a ++ b) ≡ some (le_value a, b)
unfolding binary_read
binary_read-append n a b h =
    ground (arith, length-append a b, take-append n a b h, drop-append n a b h)

-- A packet that fits: its id is a uint32, its size too, and it is not above the limit.
abbrev pub Fits : ℕ → ℕ × List ℕ → Type 0
Fits max (id, bytes) = (id < 2 ^ 32) × (length bytes < 2 ^ 32) × ((max ≡ 0) ⊎ (length bytes ≤ max))

not-too_large : (max size : ℕ) → (max ≡ 0) ⊎ (size ≤ max) → too_large max size ≡ false
unfolding too_large
not-too_large max size (inl e) = ground arith
not-too_large max size (inr l) = ground arith

module _ {Obj : Type 0} (ev : Event Obj) (w : Socket) where
  frame_reader-head :
      (ser id size : ℕ) (rest : List ℕ)
      → w.input ≡ head ser id size ++ rest
      → fixed_length_frame_reader 10 ev w
        ≡ some (record ev { body = head ser id size }, record w { input = rest })
  unfolding fixed_length_frame_reader got_header
  frame_reader-head ser id size rest e =
      ap (λ r. got_header r ev w)
        (ap (read_full 10) e ∙ read_full-append 10 (head ser id size) rest refl)

  got_size-fits :
      (body rest s : List ℕ)
      → w.input ≡ body ++ rest
      → (w.max_packet_size ≡ 0) ⊎ (length body ≤ w.max_packet_size)
      → got_size w.recvser (some (length body, s)) ev w
        ≡ some (
          record ev { body = body },
          record w { input = rest; recvser = (w.recvser + 1) % 2 ^ 16 },
        )
  unfolding got_size got_body
  got_size-fits body rest s e f = rw (not-too_large w.max_packet_size (length body) f) (
      ap (λ b. if b then got_body (read_full (length body) w.input) ev w else crack ev w)
        (==_of_eq w.recvser w.recvser refl)
      ∙ ap (λ r. got_body r ev w)
          (ap (read_full (length body)) e ∙ read_full-append (length body) body rest refl))

  packet_reader-head :
      (ser id size : ℕ)
      → ser < 2 ^ 16
      → id < 2 ^ 32
      → size < 2 ^ 32
      → ev.body ≡ head ser id size
      → private_packet_reader ev w ≡ got_size ser (some (size, [])) (record ev { msg_id = id }) w
  unfolding private_packet_reader got_ser got_id
  packet_reader-head ser id size a b c e =
      ap (λ r. got_ser r ev w)
        (ap (binary_read 2) e
          ∙ (binary_read-append 2 (le_bytes 2 ser) (le_bytes 4 id ++ le_bytes 4 size) refl
              ∙ ap (λ v. some (v, le_bytes 4 id ++ le_bytes 4 size)) (le_value-le_bytes2 ser a)))
      ∙ (ap (λ r. got_id ser r ev w)
            (binary_read-append 4 (le_bytes 4 id) (le_bytes 4 size) refl
              ∙ ap (λ v. some (v, le_bytes 4 size)) (le_value-le_bytes4 id b))
          ∙ ap (λ r. got_size ser r (record ev { msg_id = id }) w)
              (binary_read-append 4 (le_bytes 4 size) [] refl
                ∙ ap (λ v. some (v, [])) (le_value-le_bytes4 size c)))

  packet_writer-head :
      length ev.body < 2 ^ 32
      → private_packet_writer ev w
        ≡ some (
          record ev { body = head w.sendser ev.msg_id (length ev.body) ++ ev.body },
          record w { sendser = (w.sendser + 1) % 2 ^ 16 },
        )
  unfolding private_packet_writer
  packet_writer-head b =
      let same : length ev.body % 2 ^ 32 ≡ length ev.body = omega arith in
      ap
        (λ n. some (
          record ev { body = head w.sendser ev.msg_id n ++ ev.body },
          record w { sendser = (w.sendser + 1) % 2 ^ 16 },
        ))
        same

  frame_writer-body :
      w.accepts ≡ []
      → fixed_length_frame_writer ev w
        ≡ some (ev, record w { output = w.output ++ ev.body; accepts = [] })
  unfolding fixed_length_frame_writer wrote write_full
  frame_writer-body a =
      ap (λ r. wrote r ev w) (ap (λ l. write_full l ev.body (length ev.body) w.output) a)

-- Two handlers that both go on.
two :
    {Obj : Type 0} (h k : Handler Obj Socket) (ev ev1 ev2 : Event Obj) (w w1 w2 : Socket)
    → h ev w ≡ some (ev1, w1)
    → ev1.r ≡ fine
    → k ev1 w1 ≡ some (ev2, w2)
    → ev2.r ≡ fine
    → call_list (h ∷ k ∷ []) ev w ≡ some (ev2, w2)
two h k ev ev1 ev2 w w1 w2 a b c d =
    call_list_goes_on h (k ∷ []) ev ev1 w w1 a b
    ∙ (call_list_goes_on k [] ev1 ev2 w1 w2 c d ∙ call_list_nil ev2 w2)

module _ {Obj : Type 0} (ev : Event Obj) (w : Socket) where
  -- One call of each chain.
  read_chain-packet :
      (id : ℕ) (body rest : List ℕ)
      → ev.r ≡ fine
      → w.recvser < 2 ^ 16
      → Fits w.max_packet_size (id, body)
      → w.input ≡ head w.recvser id (length body) ++ (body ++ rest)
      → call_list read_chain ev w
        ≡ some (
          record ev { msg_id = id; body = body },
          record w { input = rest; recvser = (w.recvser + 1) % 2 ^ 16 },
        )
  unfolding read_chain
  read_chain-packet id body rest fresh s (a, b, f) e =
      let ev1 = record ev { body = head w.recvser id (length body) } in
      let w1 = record w { input = body ++ rest } in
      two (fixed_length_frame_reader 10) private_packet_reader ev ev1 _ w w1 _
        (frame_reader-head ev w w.recvser id (length body) (body ++ rest) e) fresh
        (packet_reader-head ev1 w1 w.recvser id (length body) s a b refl
          ∙ got_size-fits (record ev1 { msg_id = id }) w1 body rest [] refl f)
        fresh

  write_chain-packet :
      ev.r ≡ fine
      → w.accepts ≡ []
      → length ev.body < 2 ^ 32
      → call_list write_chain ev w
        ≡ some (
          record ev { body = head w.sendser ev.msg_id (length ev.body) ++ ev.body },
          record w {
            output = w.output ++ (head w.sendser ev.msg_id (length ev.body) ++ ev.body);
            sendser = (w.sendser + 1) % 2 ^ 16;
            accepts = [];
          },
        )
  unfolding write_chain
  write_chain-packet fresh a b =
      let ev1 = record ev { body = head w.sendser ev.msg_id (length ev.body) ++ ev.body } in
      let w1 = record w { sendser = (w.sendser + 1) % 2 ^ 16 } in
      two private_packet_writer fixed_length_frame_writer ev ev1 ev1 w w1 _
        (packet_writer-head ev w b) fresh (frame_writer-body ev1 w1 a) fresh

-- The bytes of packets whose serial numbers start with `ser`, and the number after them.
abbrev pub stream : ℕ → List (ℕ × List ℕ) → List ℕ
stream ser [] = []
stream ser ((id, body) ∷ ps) = head ser id (length body) ++ (body ++ stream ((ser + 1) % 2 ^ 16) ps)

abbrev pub ser_after : ℕ → List (ℕ × List ℕ) → ℕ
ser_after ser [] = ser
ser_after ser (p ∷ ps) = ser_after ((ser + 1) % 2 ^ 16) ps

next_ser-lt : (ser : ℕ) → (ser + 1) % 2 ^ 16 < 2 ^ 16
next_ser-lt ser = omega arith

-- A result that is not `Result_OK` ends the loop.
abbrev pub if_fine : {A : Type 0} → Result → Option A → Option A
if_fine fine o = o
if_fine _ o = none

module _ {Obj : Type 0} (fresh : Event Obj) (clean : fresh.r ≡ fine) where
  -- The packets go through the write chain, one event each, with its id and its data.
  abbrev pub transmit : List (ℕ × List ℕ) → Socket → Option Socket
  transmit [] w = some w
  transmit ((id, body) ∷ ps) w =
      call_list write_chain (record fresh { msg_id = id; body = body }) w >>= λ p. transmit ps p.1

  -- So many packets come through the read chain, each with the result `Result_OK`.
  abbrev pub receive : ℕ → Socket → Option (List (ℕ × List ℕ) × Socket)
  receive zero w = some ([], w)
  receive (suc n) w = call_list read_chain fresh w >>= λ p.
      if_fine p.0.r (receive n p.1 >>= λ q. some ((p.0.msg_id, p.0.body) ∷ q.0, q.1))

  transmit-stream :
      (max : ℕ) (ps : List (ℕ × List ℕ)) (w : Socket)
      → All (Fits max) ps
      → w.accepts ≡ []
      → transmit ps w
        ≡ some (record w {
          output = w.output ++ stream w.sendser ps;
          sendser = ser_after w.sendser ps;
          accepts = [];
        })
  transmit-stream max [] w fits a =
      ap₂ (λ o l. some (record w { output = o; accepts = l })) (sym (append-nil w.output)) a
  transmit-stream max ((id, body) ∷ ps) w (fit, fits) a =
      let ser = (w.sendser + 1) % 2 ^ 16 in
      let packet = head w.sendser id (length body) ++ body in
      let w1 = record w { output = w.output ++ packet; sendser = ser; accepts = [] } in
      ap (λ o. o >>= λ p. transmit ps p.1)
        (write_chain-packet (record fresh { msg_id = id; body = body }) w clean a fit.1)
      ∙ (transmit-stream max ps w1 fits refl
          ∙ ap (λ o. some (record w { output = o; sendser = ser_after ser ps; accepts = [] }))
              (append_assoc w.output packet (stream ser ps)))

  receive-stream :
      (ps : List (ℕ × List ℕ)) (rest : List ℕ) (w : Socket)
      → All (Fits w.max_packet_size) ps
      → w.recvser < 2 ^ 16
      → w.input ≡ stream w.recvser ps ++ rest
      → receive (length ps) w
        ≡ some (ps, record w { input = rest; recvser = ser_after w.recvser ps })
  receive-stream [] rest w fits s e = ap (λ i. some ([], record w { input = i })) e
  receive-stream ((id, body) ∷ ps) rest w (fit, fits) s e =
      let ser = (w.recvser + 1) % 2 ^ 16 in
      let w1 = record w { input = stream ser ps ++ rest; recvser = ser } in
      let again =
        λ (o : Option (List (ℕ × List ℕ) × Socket)). o >>= λ q. some ((id, body) ∷ q.0, q.1) in
      ap
        (λ o. o >>= λ p.
          if_fine p.0.r (receive (length ps) p.1 >>= λ q. some ((p.0.msg_id, p.0.body) ∷ q.0, q.1)))
        (read_chain-packet fresh w id body (stream ser ps ++ rest) clean s fit (
          e
          ∙ ap (λ l. head w.recvser id (length body) ++ l)
              (append_assoc body (stream ser ps) rest)))
      ∙ (ap (λ r. if_fine r (again (receive (length ps) w1))) clean
          ∙ ap again (receive-stream ps rest w1 fits (next_ser-lt w.recvser) refl))

  -- Packets that fit, sent on a connection that takes what is written, are received at the other
  -- end in their order, with their ids and data, and the bytes behind them are left: if both ends
  -- start with the same serial number, they end with the same, also where it wraps around.
  pub receive-transmit :
      (ps : List (ℕ × List ℕ)) (w r : Socket) (rest : List ℕ)
      → All (Fits r.max_packet_size) ps
      → w.accepts ≡ []
      → w.output ≡ []
      → w.sendser < 2 ^ 16
      → r.recvser ≡ w.sendser
      → (w' : Socket) × (transmit ps w ≡ some w')
        × (r.input ≡ w'.output ++ rest
            → (r' : Socket) × (receive (length ps) r ≡ some (ps, r'))
              × (r'.input ≡ rest)
              × (r'.recvser ≡ w'.sendser))
  receive-transmit ps w r rest fits a o s same = (
    _,
    transmit-stream r.max_packet_size ps w fits a,
    λ e. (
      _,
      receive-stream ps rest r fits (omega arith)
          (e ∙ ap₂ (λ x k. (x ++ stream k ps) ++ rest) o (sym same)),
      refl,
      ap (λ k. ser_after k ps) same,
    ),
  )
