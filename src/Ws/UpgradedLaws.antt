-- ===== src/Ws/UpgradedLaws.antt =====
-- Nothing is lost between hyper's stream and Tokio's (src/ws.rs).
use mathlib.Core.List.{append-nil, append_assoc}
use rustasgi.Base.{
  ℕ, ◌-◌, ◌≤◌, ◌≡◌, refl, sym, ap, ◌∙◌, List, [], ◌∷◌, ◌++◌, All, length, length-append, arith,
}
use rustasgi.Ws.Upgraded.{
  Poll, ready, failed, pending, ReadBuf, remaining, HyperIo, advanced, poll_read,
}

-- Polls of a read one after another, each of the stream as it is then.
unfoldable pub read_all : List HyperIo → ReadBuf → ReadBuf
read_all [] buf = buf
read_all (io ∷ ios) buf = read_all ios (poll_read io buf).0

-- hyper gives at most as many bytes as it has room for.
abbrev pub GivesRoom : HyperIo → Type 0
GivesRoom io = (n : ℕ) (bytes : List ℕ) → io.poll_read n ≡ ready bytes → length bytes ≤ n

-- The bytes that a read of a stream gives.
abbrev pub bytes_of : Poll (List ℕ) → List ℕ
bytes_of (ready bytes) = bytes
bytes_of failed = []
bytes_of pending = []

-- What a list of streams gives to a buffer with this much room.
unfoldable pub stream : List HyperIo → ℕ → List ℕ
stream [] n = []
stream (io ∷ ios) n =
    let bytes = bytes_of (io.poll_read n) in
    let rest = stream ios (n - length bytes) in bytes ++ rest

advanced-filled :
    (buf : ReadBuf) (p : Poll (List ℕ))
    → ((advanced buf p).0.filled ≡ buf.filled ++ bytes_of p)
      × ((advanced buf p).0.capacity ≡ buf.capacity)
advanced-filled buf (ready bytes) = (refl, refl)
advanced-filled buf failed = (sym (append-nil buf.filled), refl)
advanced-filled buf pending = (sym (append-nil buf.filled), refl)

poll_read-filled :
    (io : HyperIo) (buf : ReadBuf)
    → ((poll_read io buf).0.filled ≡ buf.filled ++ bytes_of (io.poll_read (remaining buf)))
      × ((poll_read io buf).0.capacity ≡ buf.capacity)
unfolding poll_read
poll_read-filled io buf = advanced-filled buf (io.poll_read (remaining buf))

bytes_of-fits :
    (n : ℕ) (p : Poll (List ℕ))
    → ((bytes : List ℕ) → p ≡ ready bytes → length bytes ≤ n)
    → length (bytes_of p) ≤ n
bytes_of-fits n (ready bytes) h = h bytes refl
bytes_of-fits n failed h = omega arith
bytes_of-fits n pending h = omega arith

-- However many polls it takes, a buffer gets the bytes of hyper's stream in their order, each once,
-- and no more than it has room for.
read_all-stream :
    (ios : List HyperIo) (buf : ReadBuf)
    → All GivesRoom ios
    → length buf.filled ≤ buf.capacity
    → ((read_all ios buf).filled ≡ buf.filled ++ stream ios (remaining buf))
      × (length (read_all ios buf).filled ≤ buf.capacity)
unfolding read_all stream
read_all-stream [] buf h fits = (sym (append-nil buf.filled), fits)
read_all-stream (io ∷ ios) buf (h, hs) fits =
    let next = (poll_read io buf).0 in
    let (f, c) = poll_read-filled io buf in
    let bytes = bytes_of (io.poll_read (remaining buf)) in
    let small = bytes_of-fits (remaining buf) (io.poll_read (remaining buf)) (h (remaining buf)) in
    let sum = ap length f ∙ length-append buf.filled bytes in
    let room : remaining next ≡ remaining buf - length bytes = omega (arith, c, sum) in
    let (got, within) = read_all-stream ios next hs (omega (arith, c, sum, small)) in
    (
      got
          ∙ ap (λ n. next.filled ++ stream ios n) room
          ∙ ap (λ l. l ++ stream ios (remaining buf - length bytes)) f
          ∙ append_assoc buf.filled bytes (stream ios (remaining buf - length bytes)),
      omega (arith, c, within),
    )
