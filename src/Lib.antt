-- ===== src/Lib.antt =====
-- The Go server of this repository, under server/src: the library github.com/davyxu/cellnet, which
-- carries messages between peers over sockets, and github.com/davyxu/gosproto, whose packing of
-- bytes it uses for sproto messages. github.com/davyxu/golexer is the lexer of the .sp files.
--
-- How a message travels. `RegisterMessageMeta` (cellnet/msgmeta.go) puts a message under its name,
-- id and type, with its codec. A peer has receive chains, kept by a chain manager
-- (cellnet/handlerchainmgr.go), which `RegisterHandler` (cellnet/handler_callback.go) fills; a chain
-- (cellnet/handlerchain.go) matches the message id, decodes and calls the user's handlers. A
-- session (cellnet/socket/session.go) is known to the session manager (cellnet/sesmgr.go); what is
-- sent goes through the send chain to the list of events (cellnet/socket/evtlist.go), and from
-- there through the write chain, which frames it (cellnet/socket/handler_privatepkt.go,
-- cellnet/handler_fixedlenframe.go). The read chain at the other end takes the frames apart.
--
-- Files:
--   Base, Base/*: conditionals, lists and maps over native numbers, results, bytes.
--   Gosproto/Words: the words of gosproto/encode.go and decode.go.
--   Gosproto/Meta: gosproto/meta.go; Sorted, Loops, Frame and Made follow a type through
--     its making, Choice and Total show that it ends.
--   Gosproto/Types, Encode, Decode: gosproto/encode.go, decode.go and what they read of meta.go.
--     Encode/Buffers, Encode/Width and Decode/Slices are the buffers of the coders; Layout and its children a
--     message as a list of entries; RoundTrip and its children the values that a message carries.
--   Gosproto/Packed: `EncodePacked` and `DecodePacked` of gosproto/sproto.go.
--   Gosproto/Pack and its children: gosproto/pack.go. Format is the packed format by itself;
--     Segment, Flush, Steps, Rounds, Invariant and Loop carry the invariant of `Pack`, Whole and
--     Total conclude.
--   Cellnet/Event, Meta, Chain, Handlers, ChainMgr, Session, Frame, EventList: the files of cellnet
--     named at their top, and the children with what holds of them.
--   Cellnet/Socket: cellnet/socket/session.go; Threads has the interleavings of its threads
--     and Sound what they keep.
--   Cellnet/Peer: cellnet/peerprofile.go, socket/options.go and the stopping state of
--     socket/base.go. Cellnet/Queue: cellnet/queue.go. Cellnet/Reply: the methods of
--     cellnet/event.go that use the session, such as Send.
--   Golexer/Tokenizer, Matchers, Quoted, Lexer: the tokenizer, the matchers and the lexer of golexer.
--   Gosproto/Examples, CodecExamples and MetaExamples, Cellnet/Examples/*, Golexer/Examples: the
--     theorems at concrete inputs.
--
-- Conventions. Fields and functions keep the names of the source, in snake case; a method is a
-- function from the old state to the new. A panic is `none` or `panic`. A byte slice is a list of
-- numbers; widths are written out (`% 2 ^ 16`). Maps are association lists. The order of the range
-- over the receive chains is a parameter. A critical section is one step, and so is a turn of a
-- thread. Pointers are references (numbers).
--
-- Fuel. `pack_loop` and `unpack_loop` get the length of the input, which is enough because a round
-- takes a byte at least; without fuel they panic, and the theorems show that they do not.
-- `get_locked` needs one more than the number of struct types, since it makes each of them once.
-- The loops of the matchers get one more than the length of the source, for they end behind it;
-- the rounds of the lexer's `read` are left open, since the code can run for ever there.
-- `decode_message` gets one more than the length, since a nested message is shorter than its parent.
--
-- Parameters. The codecs (protobuf, json, sproto) are records of functions in the registry; the
-- type of an object is a function; the handlers of the user are functions on events and a world.
-- Go's io.ReadFull, io.Writer and encoding/binary are those of Go's documentation. What a write chain
-- does with an event is a function, which may also not come back.
--
-- Not modelled: the Unity client (C#), the websocket peer, the loggers, the code generators, rpc
-- and timers, the parsers of golexer, acceptor and connector.
pub mod Base
pub mod Cellnet
pub mod Gosproto
pub mod Golexer
