-- ===== src/Cellnet.antt =====
-- The package server/src/github.com/davyxu/cellnet and its child socket: events, handler chains,
-- the registry of messages, sessions, framing.
pub mod Event
pub mod Meta
pub mod Handlers
pub mod Chain
pub mod ChainMgr
pub mod Session
pub mod Frame
pub mod EventList
pub mod Socket
pub mod Peer
pub mod Queue
pub mod Reply
mod Examples
