-- ===== src/Ws/Sequence.antt =====
-- The orders of frames and messages that a WebSocket connection of src/ws.rs may show.
use rustasgi.Base.{ℕ, ◌≡◌, refl, Bool, true, false, not, ◌&&◌, List, [], ◌∷◌, ◌++◌, arith}
use rustasgi.Ws.{Frame, WsInbound}

-- The frames of a connection, read from one of which the server has sent its close frame or not:
-- no text, binary or second close frame follows a close frame.
abbrev pub is_legal : Bool → List Frame → Bool
is_legal closed [] = true
is_legal closed (Frame.pong _ ∷ fs) = is_legal closed fs
is_legal closed (Frame.text _ ∷ fs) = not closed && is_legal closed fs
is_legal closed (Frame.binary _ ∷ fs) = not closed && is_legal closed fs
is_legal closed (Frame.close _ _ ∷ fs) = not closed && is_legal true fs

abbrev pub is_closed : Bool → List Frame → Bool
is_closed closed [] = closed
is_closed closed (Frame.close _ _ ∷ fs) = is_closed true fs
is_closed closed (_ ∷ fs) = is_closed closed fs

pub is_legal-append :
    (c : Bool) (fs gs : List Frame)
    → is_legal c (fs ++ gs) ≡ (is_legal c fs && is_legal (is_closed c fs) gs)
is_legal-append c [] gs = refl
is_legal-append c (Frame.pong p ∷ fs) gs = is_legal-append c fs gs
is_legal-append c (Frame.text s ∷ fs) gs = ground (arith, is_legal-append c fs gs)
is_legal-append c (Frame.binary b ∷ fs) gs = ground (arith, is_legal-append c fs gs)
is_legal-append c (Frame.close n s ∷ fs) gs = ground (arith, is_legal-append true fs gs)

pub is_closed-append :
    (c : Bool) (fs gs : List Frame) → is_closed c (fs ++ gs) ≡ is_closed (is_closed c fs) gs
is_closed-append c [] gs = refl
is_closed-append c (Frame.pong p ∷ fs) gs = is_closed-append c fs gs
is_closed-append c (Frame.text s ∷ fs) gs = is_closed-append c fs gs
is_closed-append c (Frame.binary b ∷ fs) gs = is_closed-append c fs gs
is_closed-append c (Frame.close n s ∷ fs) gs = is_closed-append true fs gs

abbrev pub is_data : WsInbound → Bool
is_data (WsInbound.text _) = true
is_data (WsInbound.bytes _) = true
is_data _ = false

-- Data messages, then perhaps a disconnect, which is the last.
abbrev pub is_tail : List WsInbound → Bool
is_tail [] = true
is_tail (WsInbound.disconnect _ _ ∷ []) = true
is_tail (m ∷ ms) = is_data m && is_tail ms

-- The order that ASGI promises to the application: one connect first.
abbrev pub is_session : List WsInbound → Bool
is_session (WsInbound.connect ∷ ms) = is_tail ms
is_session _ = false

abbrev pub all_data : List WsInbound → Bool
all_data [] = true
all_data (m ∷ ms) = is_data m && all_data ms

abbrev pub is_running : List WsInbound → Bool
is_running (WsInbound.connect ∷ ms) = all_data ms
is_running _ = false

all_data-data :
    (ms : List WsInbound) (m : WsInbound)
    → all_data ms ≡ true
    → is_data m ≡ true
    → all_data (ms ++ m ∷ []) ≡ true
all_data-data [] m h d = ground arith
all_data-data (n ∷ ms) m h d = ground (arith, all_data-data ms m)

is_tail-disconnect :
    (ms : List WsInbound) (code : ℕ) (reason : List ℕ)
    → all_data ms ≡ true
    → is_tail (ms ++ WsInbound.disconnect code reason ∷ []) ≡ true
is_tail-disconnect [] code reason h = refl
is_tail-disconnect (WsInbound.text s ∷ ms) code reason h = is_tail-disconnect ms code reason h
is_tail-disconnect (WsInbound.bytes s ∷ ms) code reason h = is_tail-disconnect ms code reason h
is_tail-disconnect (WsInbound.connect ∷ ms) code reason h = cc
is_tail-disconnect (WsInbound.disconnect n s ∷ ms) code reason h = cc

is_tail-data : (ms : List WsInbound) → all_data ms ≡ true → is_tail ms ≡ true
is_tail-data [] h = refl
is_tail-data (WsInbound.text s ∷ ms) h = is_tail-data ms h
is_tail-data (WsInbound.bytes s ∷ ms) h = is_tail-data ms h
is_tail-data (WsInbound.connect ∷ ms) h = cc
is_tail-data (WsInbound.disconnect n s ∷ ms) h = cc

pub is_running-data :
    (ms : List WsInbound) (m : WsInbound)
    → is_running ms ≡ true
    → is_data m ≡ true
    → is_running (ms ++ m ∷ []) ≡ true
is_running-data (WsInbound.connect ∷ ms) m h d = all_data-data ms m h d
is_running-data [] m h d = cc
is_running-data (n ∷ ms) m h d = ground arith

pub is_session-running : (ms : List WsInbound) → is_running ms ≡ true → is_session ms ≡ true
is_session-running (WsInbound.connect ∷ ms) h = is_tail-data ms h
is_session-running [] h = cc
is_session-running (n ∷ ms) h = ground arith

pub is_session-disconnect :
    (ms : List WsInbound) (code : ℕ) (reason : List ℕ)
    → is_running ms ≡ true
    → is_session (ms ++ WsInbound.disconnect code reason ∷ []) ≡ true
is_session-disconnect (WsInbound.connect ∷ ms) code reason h = is_tail-disconnect ms code reason h
is_session-disconnect [] code reason h = cc
is_session-disconnect (n ∷ ms) code reason h = ground arith
