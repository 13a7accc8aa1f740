-- ===== src/Ws.antt =====
-- src/ws.rs: the events and messages of a WebSocket connection. The children model the validation
-- of what the application sends (`Parse`) and the driver of one connection (`Driver`).
pub mod Parse
pub mod Driver
pub mod Sequence
pub mod DriverLaws
pub mod Inputs
pub mod TransferLaws
pub mod ExchangeLaws
pub mod FinishLaws
pub mod Upgraded
pub mod UpgradedLaws
pub mod ParseLaws
use rustasgi.Base.{ℕ, List, Option, Bool}

-- Strings are their UTF-8 bytes.
pub data WsEvent : Type 0 where
  accept : WsEvent
  send_text : List ℕ → WsEvent
  send_bytes : List ℕ → WsEvent
  close : (code : ℕ) (reason : List ℕ) → WsEvent

-- A frame that the driver hands to the transport.
pub data Frame : Type 0 where
  text : List ℕ → Frame
  binary : List ℕ → Frame
  pong : List ℕ → Frame
  close : (code : ℕ) (reason : List ℕ) → Frame

-- `WsInbound`: a message that is put into the application's queue.
pub data WsInbound : Type 0 where
  connect : WsInbound
  text : List ℕ → WsInbound
  bytes : List ℕ → WsInbound
  disconnect : (code : ℕ) (reason : List ℕ) → WsInbound

-- What `ws.next()` gives: a message, or the end of the stream or an error (`gone`).
pub data ClientMessage : Type 0 where
  text : List ℕ → ClientMessage
  binary : List ℕ → ClientMessage
  ping : List ℕ → ClientMessage
  pong : List ℕ → ClientMessage
  close : Option (ℕ × List ℕ) → ClientMessage
  frame : ClientMessage
  gone : ClientMessage
