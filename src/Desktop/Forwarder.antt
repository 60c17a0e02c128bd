-- ===== src/Desktop/Forwarder.antt =====
-- Forwarder.cpp: one stream between the server and a local service. A reply or a socket of Qt is what its
-- signals bring: each handler is given what it reads of them. A handler returns the new state and the
-- signals that the forwarder emits, in their order.
pub mod Writes
use samryetha_tunnel.Base.{
  ℕ, zero, suc, ◌+◌, Bool, true, false, not, ◌&&◌, ◌||◌, Option, none, some, List, [], ◌∷◌, ◌++◌,
  if◌then◌else◌, drop, take,
}
use samryetha_tunnel.Base.Dict.{Dict, insert}
use samryetha_tunnel.Base.Int.{ℤ, pos}
use samryetha_tunnel.Base.Order.{bytes_order}
use samryetha_tunnel.Base.Text.{Bytes, codes, bytes_eq, is_empty, rfind_byte, to_lower}
use samryetha_tunnel.Desktop.Qt.{Qt}
use samryetha_tunnel.Desktop.Protocol.{OpenStreamMsg}

-- The signals of a forwarder; each also carries the id of its stream.
pub data Signal : Type 0 where
  head : ℤ → Dict Bytes Bytes → Signal
  chunk : Bytes → Signal
  finished : Signal
  failed : Bytes → Signal

-- What a handler reads of `reply_`: the status if it is valid, the headers, whether `error()` is not
-- NoError, `errorString()`, and what `readAll()` returns.
pub record Reply : Type 0 where
  pub status : Option ℤ
  pub raw_headers : List (Bytes × Bytes)
  pub has_error : Bool
  pub error_string : Bytes
  pub available : Bytes

-- The request that `startHttp` sends.
pub record Request : Type 0 where
  pub url : Bytes
  pub method : Bytes
  pub headers : List (Bytes × Bytes)
  pub body : Bytes

-- `reply` and `socket` say what was started, with what; `written` is what the socket was given.
pub record Forwarder : Type 0 where
  pub req : OpenStreamMsg
  pub local_addr : Bytes
  pub reply : Option Request
  pub socket : Option (Bytes × ℕ)
  pub pending_remote : Bytes
  pub headers_sent : Bool
  pub ended : Bool
  pub written : Bytes
  pub disconnecting : Bool

unfoldable pub new_forwarder : OpenStreamMsg → Bytes → Forwarder
new_forwarder req local_addr = record {
  req = req;
  local_addr = local_addr;
  reply = none;
  socket = none;
  pending_remote = [];
  headers_sent = false;
  ended = false;
  written = [];
  disconnecting = false;
}

unfoldable pub finish_once : Forwarder → Forwarder × List Signal
finish_once f = if f.ended then (f, []) else (record f { ended = true }, Signal.finished ∷ [])

-- `before`, and then what `finishOnce` emits.
unfoldable pub then_finish : Forwarder → List Signal → Forwarder × List Signal
unfolding finish_once
then_finish f before = ((finish_once f).0, before ++ (finish_once f).1)

-- `if (!data.isEmpty()) emit chunk(...)`
unfoldable pub chunk_of : Bytes → List Signal
chunk_of [] = []
chunk_of (c ∷ cs) = Signal.chunk (c ∷ cs) ∷ []

-- Headers of the request that are not passed on.
unfoldable pub skipped_request : Bytes → Bool
unfolding bytes_eq to_lower
skipped_request key =
    let k = to_lower key in
    bytes_eq k (codes "host")
    || (bytes_eq k (codes "content-length")
        || (bytes_eq k (codes "connection") || bytes_eq k (codes "accept-encoding")))

unfoldable pub request_headers : Dict Bytes Bytes → List (Bytes × Bytes)
unfolding skipped_request
request_headers [] = []
request_headers ((k, v) ∷ h) =
    let rest = request_headers h in if skipped_request k then rest else (k, v) ∷ rest

unfoldable pub skipped_reply : Bytes → Bool
unfolding bytes_eq to_lower
skipped_reply key =
    let k = to_lower key in
    bytes_eq k (codes "content-length")
    || (bytes_eq k (codes "connection") || bytes_eq k (codes "transfer-encoding"))

unfoldable pub reply_headers : List (Bytes × Bytes) → Dict Bytes Bytes → Dict Bytes Bytes
unfolding skipped_reply insert
reply_headers [] h = h
reply_headers ((k, v) ∷ rest) h = reply_headers rest (if skipped_reply k then h else insert k v h)

unfoldable pub head_of : Reply → Signal
unfolding reply_headers
head_of r =
    Signal.head (elim r.status [ none ↦ pos 200 | some s ↦ s ]) (reply_headers r.raw_headers [])

unfoldable pub start_http : Forwarder → Forwarder × List Signal
unfolding request_headers is_empty
start_http f =
    let path = if is_empty f.req.path then codes "/" else f.req.path in
    let method = if is_empty f.req.method then codes "GET" else f.req.method in
    (
      record f {
        reply = some (record {
          url = codes "http://" ++ (f.local_addr ++ path);
          method = method;
          headers = request_headers f.req.headers;
          body = f.req.body;
        });
      },
      [],
    )

-- The handlers of `metaDataChanged`, `readyRead` and `finished`.
unfoldable pub on_meta_data : Reply → Forwarder → Forwarder × List Signal
unfolding head_of
on_meta_data r f =
    if f.headers_sent then (f, []) else (record f { headers_sent = true }, head_of r ∷ [])

unfoldable pub on_reply_read : Reply → Forwarder → Forwarder × List Signal
unfolding chunk_of
on_reply_read r f = (f, chunk_of r.available)

unfoldable pub is_none : Option ℤ → Bool
is_none none = true
is_none (some s) = false

unfoldable pub on_reply_finished : Reply → Forwarder → Forwarder × List Signal
unfolding head_of chunk_of then_finish is_none
on_reply_finished r f =
    if f.headers_sent
    then then_finish f (chunk_of r.available)
    else if is_none r.status && r.has_error
    then then_finish f (Signal.failed r.error_string ∷ [])
    else then_finish (record f { headers_sent = true }) (head_of r ∷ chunk_of r.available)

-- `localAddr_.lastIndexOf(':')`, and what stands around it.
unfoldable pub start_tcp : Qt → Forwarder → Forwarder × List Signal
unfolding rfind_byte
start_tcp q f =
    let illegal : Forwarder × List Signal =
      (f, Signal.failed (codes "本地地址非法: " ++ f.local_addr) ∷ []) in
    elim (rfind_byte b':' f.local_addr) [
      | none ↦ illegal
      | some zero ↦ illegal
      | some (suc colon) ↦ (
        record f {
          socket =
              some (take (suc colon) f.local_addr, q.to_ushort (drop (suc colon + 1) f.local_addr));
        },
        [],
      )
    ]

unfoldable pub start : Qt → Forwarder → Forwarder × List Signal
unfolding bytes_eq start_tcp start_http
start q f = if bytes_eq f.req.proto (codes "tcp") then start_tcp q f else start_http f

-- The handlers of the socket's signals.
unfoldable pub on_connected : Forwarder → Forwarder × List Signal
on_connected f = (record f { written = f.written ++ f.pending_remote; pending_remote = [] }, [])

unfoldable pub on_socket_read : Bytes → Forwarder → Forwarder × List Signal
unfolding chunk_of
on_socket_read bytes f = (f, chunk_of bytes)

-- `remote_closed`: the error is RemoteHostClosedError.
unfoldable pub on_socket_error : Bool → Bytes → Forwarder → Forwarder × List Signal
unfolding then_finish
on_socket_error remote_closed text f =
    then_finish f (if remote_closed || f.ended then [] else Signal.failed text ∷ [])

-- `connected`: the socket's state is ConnectedState.
unfoldable pub write_from_remote : Bool → Bytes → Forwarder → Forwarder
write_from_remote connected bytes f = elim f.socket [
  | none ↦ f
  | some address ↦
      if connected
      then record f { written = f.written ++ bytes }
      else record f { pending_remote = f.pending_remote ++ bytes }
]

-- `aborted` is what the handler of `finished` reads if `abort()` raises that signal.
unfoldable pub close_reply : Option Reply → Forwarder → Forwarder × List Signal
unfolding on_reply_finished then_finish
close_reply none f = then_finish f []
close_reply (some r) f = then_finish (on_reply_finished r f).0 (on_reply_finished r f).1

unfoldable pub close_from_remote : Option Reply → Forwarder → Forwarder × List Signal
unfolding close_reply
close_from_remote aborted f = elim f.socket [
  | some address ↦ (record f { disconnecting = true }, [])
  | none ↦ elim f.reply [ none ↦ (f, []) | some request ↦ close_reply aborted f ]
]

-- A signal of the reply or of the socket.
pub data Event : Type 0 where
  meta_data_changed reply_ready_read reply_finished : Reply → Event
  connected disconnected : Event
  ready_read : Bytes → Event
  error_occurred : Bool → Bytes → Event

unfoldable pub on_reply : Event → Forwarder → Forwarder × List Signal
unfolding on_meta_data on_reply_read on_reply_finished
on_reply (Event.meta_data_changed r) f = on_meta_data r f
on_reply (Event.reply_ready_read r) f = on_reply_read r f
on_reply (Event.reply_finished r) f = on_reply_finished r f
on_reply other f = (f, [])

unfoldable pub on_socket : Event → Forwarder → Forwarder × List Signal
unfolding on_connected on_socket_read on_socket_error finish_once
on_socket Event.connected f = on_connected f
on_socket Event.disconnected f = finish_once f
on_socket (Event.ready_read bytes) f = on_socket_read bytes f
on_socket (Event.error_occurred remote_closed text) f = on_socket_error remote_closed text f
on_socket other f = (f, [])

-- Only what was started raises signals.
unfoldable pub fire : Event → Forwarder → Forwarder × List Signal
unfolding on_reply on_socket
fire e f = elim f.socket [
  | some address ↦ on_socket e f
  | none ↦ elim f.reply [ none ↦ (f, []) | some request ↦ on_reply e f ]
]
