-- ===== src/Call/Bridge.antt =====
-- src/asgi.rs: `Bridge` and `Bridge::install`, over the module that its Python text gives.
use rustasgi.Base.{
  ℕ, Result, ok, ◌>>=◌, ◌>>◌, guard, ok_or, Bool, ◌&&◌, ◌||◌, Option, ltb, leb, ◌==◌,
}
use rustasgi.Message.{get_or}
use rustasgi.Python.{PyErr, raised}
use Prim.Native.String.{String}

pub record Bridge (Obj : Type 0) : Type 0 where
  pub recv_cls : Obj
  pub send_cls : Obj
  pub init_http_fn : Obj
  pub init_lifespan_fn : Obj
  pub init_ws_fn : Obj
  pub put_nowait_fn : Obj
  pub call_app_fn : Obj
  pub terminal_msg : Obj
  pub streaming_sentinel : Obj
  pub direct_queue : Bool

-- `version >= (3, 10)`.
abbrev pub at_least_3_10 : ℕ × ℕ → Bool
at_least_3_10 (major, minor) = ltb 3 major || (major == 3 && leb 10 minor)

-- `(..)().unwrap_or((3, 8))`, for the two numbers of `sys.version_info` if they can be read.
abbrev pub version : Option (ℕ × ℕ) → ℕ × ℕ
version info = get_or info (3, 8)

-- What the interpreter gives: the module of the Python text, whether `sys` is imported, the two
-- numbers of its `version_info` if they can be read, and the module's attributes.
pub record Interpreter (Obj : Type 0) : Type 0 where
  pub from_code : Bool
  pub import_sys : Bool
  pub version_info : Option (ℕ × ℕ)
  pub getattr : String → Option Obj

unfoldable pub install : {Obj : Type 0} → Interpreter Obj → Result PyErr (Bridge Obj)
install i = do
  guard i.from_code raised
  guard i.import_sys raised
  recv ← ok_or (i.getattr "_Receive") raised
  send ← ok_or (i.getattr "_Sender") raised
  init_http ← ok_or (i.getattr "_init_http_channel") raised
  init_lifespan ← ok_or (i.getattr "_init_lifespan_channel") raised
  init_ws ← ok_or (i.getattr "_init_ws_channel") raised
  put_nowait ← ok_or (i.getattr "_put_nowait") raised
  call_app ← ok_or (i.getattr "_call_app") raised
  terminal ← ok_or (i.getattr "_TERMINAL") raised
  streaming ← ok_or (i.getattr "_STREAMING") raised
  ok (record {
    recv_cls = recv;
    send_cls = send;
    init_http_fn = init_http;
    init_lifespan_fn = init_lifespan;
    init_ws_fn = init_ws;
    put_nowait_fn = put_nowait;
    call_app_fn = call_app;
    terminal_msg = terminal;
    streaming_sentinel = streaming;
    direct_queue = at_least_3_10 (version i.version_info);
  })
