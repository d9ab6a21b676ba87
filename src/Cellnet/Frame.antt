-- ===== src/Cellnet/Frame.antt =====
-- cellnet/handler_fixedlenframe.go and socket/handler_privatepkt.go: the frames on a connection.
-- A packet is sent as serial number (2 bytes), message id (4), size (4), all little-endian, and data.
-- The four handlers work on `Socket`: the connection and the fields of the handlers. Reads of
-- `io.ReadFull` and `binary.Read` are those of Go's documentation: all the bytes or an error.
pub mod Packets
use cellorigin.Base.{
  ℕ, ◌+◌, ◌-◌, ◌*◌, ◌%◌, ◌^◌, List, [], ◌∷◌, ◌++◌, Option, none, some, Bool, true, false, ltb, leb,
  ◌==◌, ◌&&◌, if◌then◌else◌, length, take, drop, le_bytes, le_value,
}
use cellorigin.Cellnet.Event.{Event, Result, socket_error, package_crack, set_result}
use cellorigin.Cellnet.Chain.{Handler}

pub record Socket : Type 0 where
  pub input : List ℕ
  pub output : List ℕ
  -- What the next calls of `Write` take at most; one that takes less than it got reports an error, as
  -- the documentation of `io.Writer` says, and so does `none`. When the list is used up, all bytes.
  pub accepts : List (Option ℕ)
  pub recvser : ℕ
  pub sendser : ℕ
  -- `MaxPacketSize()`; no limit if it is 0.
  pub max_packet_size : ℕ

-- The data, if there are `n` bytes, and what is left of the input.
unfoldable pub read_full : ℕ → List ℕ → Option (List ℕ) × List ℕ
read_full n s = if leb n (length s) then (some (take n s), drop n s) else (none, [])

unfoldable pub binary_read : ℕ → List ℕ → Option (ℕ × List ℕ)
binary_read n s = if leb n (length s) then some (le_value (take n s), drop n s) else none

-- `copy(p[0:size-n], p[n:size])`
unfoldable pub shift_left : ℕ → ℕ → List ℕ → List ℕ
shift_left n size p = take (size - n) (drop n p) ++ drop (size - n) p

-- The loop of `writeFull`: whether it ends without an error, the output, the calls left. A call of
-- `Write` that reports no error took the whole of `p`.
unfoldable pub write_full : List (Option ℕ) → List ℕ → ℕ → List ℕ → Bool × List ℕ × List (Option ℕ)
unfolding shift_left
write_full [] p size out = (true, out ++ p, [])
write_full (none ∷ accepts) p size out = (false, out, accepts)
write_full (some n ∷ accepts) p size out =
    let all = length p in
    let rest = write_full accepts (shift_left all size p) (size - all) (out ++ p) in
    if ltb n all
    then (false, out ++ take n p, accepts)
    else if leb size all
    then (true, out ++ p, accepts)
    else rest

-- The check of the size.
unfoldable pub too_large : ℕ → ℕ → Bool
too_large max size = ltb 0 max && ltb max size

module _ {Obj : Type 0} where
  unfoldable pub got_header : Option (List ℕ) × List ℕ → Handler Obj Socket
  unfolding set_result
  got_header (none, rest) ev w = some (set_result socket_error ev, record w { input = rest })
  got_header (some header, rest) ev w =
      some (record ev { body = header }, record w { input = rest })

  -- `FixedLengthFrameReader.Call`
  unfoldable pub fixed_length_frame_reader : ℕ → Handler Obj Socket
  unfolding read_full got_header
  fixed_length_frame_reader size ev w = got_header (read_full size w.input) ev w

  unfoldable pub crack : Handler Obj Socket
  unfolding set_result
  crack ev w = some (set_result package_crack ev, w)

  -- The parts of `PrivatePacketReader.Call`, each with the result of the read before it.
  unfoldable pub got_body : Option (List ℕ) × List ℕ → Handler Obj Socket
  unfolding crack
  got_body (none, rest) ev w = crack ev (record w { input = rest })
  got_body (some body, rest) ev w =
      some
        (record ev { body = body }, record w { input = rest; recvser = (w.recvser + 1) % 2 ^ 16 })

  unfoldable pub got_size : ℕ → Option (ℕ × List ℕ) → Handler Obj Socket
  unfolding read_full crack got_body too_large
  got_size ser none ev w = crack ev w
  got_size ser (some (body_size, _)) ev w =
      if too_large w.max_packet_size body_size
      then crack ev w
      else if w.recvser == ser
      then got_body (read_full body_size w.input) ev w
      else crack ev w

  unfoldable pub got_id : ℕ → Option (ℕ × List ℕ) → Handler Obj Socket
  unfolding binary_read got_size crack
  got_id ser none ev w = crack ev w
  got_id ser (some (id, s)) ev w = got_size ser (binary_read 4 s) (record ev { msg_id = id }) w

  unfoldable pub got_ser : Option (ℕ × List ℕ) → Handler Obj Socket
  unfolding binary_read got_id crack
  got_ser none ev w = crack ev w
  got_ser (some (ser, s)) ev w = got_id ser (binary_read 4 s) ev w

  -- `PrivatePacketReader.Call`
  unfoldable pub private_packet_reader : Handler Obj Socket
  unfolding binary_read got_ser
  private_packet_reader ev w = got_ser (binary_read 2 ev.body) ev w

  -- `PrivatePacketWriter.Call`; a write into a `bytes.Buffer` has no error.
  unfoldable pub private_packet_writer : Handler Obj Socket
  private_packet_writer ev w = some (
    record ev {
      body =
          le_bytes 2 w.sendser
          ++ le_bytes 4 ev.msg_id
          ++ le_bytes 4 (length ev.body % 2 ^ 32)
          ++ ev.body;
    },
    record w { sendser = (w.sendser + 1) % 2 ^ 16 },
  )

  unfoldable pub wrote : Bool × List ℕ × List (Option ℕ) → Handler Obj Socket
  unfolding set_result
  wrote (true, out, rest) ev w = some (ev, record w { output = out; accepts = rest })
  wrote (false, out, rest) ev w =
      some (set_result package_crack ev, record w { output = out; accepts = rest })

  -- `FixedLengthFrameWriter.Call`
  unfoldable pub fixed_length_frame_writer : Handler Obj Socket
  unfolding write_full wrote
  fixed_length_frame_writer ev w =
      wrote (write_full w.accepts ev.body (length ev.body) w.output) ev w

  -- The chains that `newSocketPeer` sets.
  unfoldable pub read_chain : List (Handler Obj Socket)
  read_chain = fixed_length_frame_reader 10 ∷ private_packet_reader ∷ []

  unfoldable pub write_chain : List (Handler Obj Socket)
  write_chain = private_packet_writer ∷ fixed_length_frame_writer ∷ []
