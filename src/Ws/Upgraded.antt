-- ===== src/Ws/Upgraded.antt =====
-- src/ws.rs: `TokioUpgraded`, which gives a hyper stream as a Tokio stream.
use rustasgi.Base.{ℕ, ◌-◌, List, ◌++◌, length}

-- A poll that is ready with a value or an error, or is pending.
pub data Poll (A : Type 0) : Type 0 where
  ready : A → Poll A
  failed : Poll A
  pending : Poll A

-- `tokio::io::ReadBuf`: the bytes read so far, and the room for all.
pub record ReadBuf : Type 0 where
  pub filled : List ℕ
  pub capacity : ℕ

abbrev pub remaining : ReadBuf → ℕ
remaining buf = buf.capacity - length buf.filled

-- The calls of hyper's stream: a read gets the room that is left and gives the bytes that it put
-- there, a write the number of bytes that it took.
pub record HyperIo : Type 0 where
  pub poll_read : ℕ → Poll (List ℕ)
  pub poll_write : List ℕ → Poll ℕ
  pub poll_flush : Poll (Unit {0})
  pub poll_shutdown : Poll (Unit {0})

-- `buf.advance(n)` behind what hyper wrote into the unfilled part.
abbrev pub advanced : ReadBuf → Poll (List ℕ) → ReadBuf × Poll (Unit {0})
advanced buf (ready bytes) = (record buf { filled = buf.filled ++ bytes }, ready tt)
advanced buf failed = (buf, failed)
advanced buf pending = (buf, pending)

unfoldable pub poll_read : HyperIo → ReadBuf → ReadBuf × Poll (Unit {0})
poll_read io buf = advanced buf (io.poll_read (remaining buf))

unfoldable pub poll_write : HyperIo → List ℕ → Poll ℕ
poll_write io bytes = io.poll_write bytes

unfoldable pub poll_flush : HyperIo → Poll (Unit {0})
poll_flush io = io.poll_flush

unfoldable pub poll_shutdown : HyperIo → Poll (Unit {0})
poll_shutdown io = io.poll_shutdown
