-- ===== src/Desktop/Session.antt =====
-- The part of Client.cpp that handles streams, messages and management requests, and the client as a machine
-- over the events of Qt's loop.
pub mod Maps
pub mod Pending
pub mod Good
pub mod Opening
pub mod Request
pub mod Slots
pub mod Handlers
pub mod Order
pub mod Reconnect
pub mod Ledger
pub mod Callbacks
use samryetha_tunnel.Base.{
  ℕ, zero, suc, ◌+◌, ◌*◌, ◌%◌, ◌^◌, Bool, true, false, not, ◌&&◌, ◌||◌, Option, none, some, List,
  [], ◌∷◌, ◌++◌, if◌then◌else◌, ltb, length, min,
}
use samryetha_tunnel.Base.Dict.{Dict, lookup, insert, erase}
use samryetha_tunnel.Base.Int.{ℤ, pos, negsuc}
use samryetha_tunnel.Base.Order.{nat_order, bytes_order}
use samryetha_tunnel.Base.Text.{Bytes, codes, is_empty}
use samryetha_tunnel.Desktop.Qt.{Qt}
use samryetha_tunnel.Desktop.Protocol.{
  TunnelDef, EffectiveTunnel, OpenStreamMsg, MsgType, ParsedMsg, Frame, parse_server_message,
}
use samryetha_tunnel.Desktop.Config.{ClientConfig, map_of}
use samryetha_tunnel.Desktop.Forwarder.{
  Signal, Reply, Forwarder, Event, new_forwarder, start, write_from_remote, close_from_remote, fire,
}
use samryetha_tunnel.Desktop.Client.{
  StreamState, Object, Out, Client, emit, send_text, set_config, open_connection, start_client,
  stop_client, schedule_reconnect, detach, cleanup_stream, cleanup_all, on_ws_connected,
  on_ws_disconnected, new_client,
}

-- `it->status = status`, where the stream is found
unfoldable pub change : ℕ → (StreamState → StreamState) → Client → Client
unfolding lookup insert
change id f c = elim (lookup id c.streams) [
  | none ↦ c
  | some st ↦ record c { streams = insert id (f st) c.streams }
]

unfoldable pub finish_stream : ℕ → ℕ → Client → Client
unfolding lookup send_text emit cleanup_stream
finish_stream id elapsed c = elim (lookup id c.streams) [
  | none ↦ c
  | some st ↦ cleanup_stream id (
      emit (Out.request_finished st.tunnel_id st.status st.bytes elapsed)
        (send_text (Frame.end id) c))
]

-- The four slots that `onOpenStream` connects.
unfoldable pub slot : ℕ → ℕ → Signal → Client → Client
unfolding change send_text cleanup_stream finish_stream
slot id elapsed (Signal.head status headers) c =
    send_text (Frame.response_head id status headers)
      (change id (λ st. record st { status = status }) c)
slot id elapsed (Signal.chunk bytes) c =
    send_text (Frame.chunk id bytes)
      (change id (λ st. record st { bytes = st.bytes + length bytes }) c)
slot id elapsed Signal.finished c = finish_stream id elapsed c
slot id elapsed (Signal.failed reason) c = cleanup_stream id (send_text (Frame.abort id reason) c)

unfoldable pub is_attached : ℕ → Client → Bool
unfolding lookup
is_attached h c = elim (lookup h c.objects) [ none ↦ false | some o ↦ o.attached ]

-- The signals of forwarder `h` reach the client while its slots are connected.
unfoldable pub deliver : ℕ → ℕ → ℕ → List Signal → Client → Client
unfolding slot is_attached
deliver h id elapsed [] c = c
deliver h id elapsed (s ∷ ss) c =
    deliver h id elapsed ss (if is_attached h c then slot id elapsed s c else c)

-- Forwarder `h` is now `f`, and emits `signals`.
unfoldable pub update : ℕ → ℕ → Bool → Forwarder × List Signal → Client → Client
unfolding insert deliver
update h elapsed attached (f, signals) c =
    deliver h f.req.stream_id elapsed signals
      (record c { objects = insert h (record { attached = attached; fwd = f }) c.objects })

unfoldable pub local_of : Bytes → Client → Bytes
unfolding lookup
local_of tunnel_id c = elim (lookup tunnel_id c.local_map) [ none ↦ [] | some a ↦ a ]

unfoldable pub open_forwarder : Qt → OpenStreamMsg → Bytes → ℕ → Client → Client
unfolding insert update new_forwarder start
open_forwarder q os local elapsed c =
    let st : StreamState = record {
      fwd = c.next_object;
      tunnel_id = os.tunnel_id;
      bytes = 0;
      status = pos 0;
    } in
    update c.next_object elapsed true (start q (new_forwarder os local))
      (record c { streams = insert os.stream_id st c.streams; next_object = suc c.next_object })

unfoldable pub on_open_stream : Qt → OpenStreamMsg → ℕ → Client → Client
unfolding is_empty local_of send_text open_forwarder
on_open_stream q os elapsed c =
    let local = local_of os.tunnel_id c in
    if is_empty local
    then send_text (Frame.abort os.stream_id (codes "unknown tunnel " ++ os.tunnel_id)) c
    else open_forwarder q os local elapsed c

-- What the handlers read of Qt's objects besides the message: whether the stream's socket is connected, what
-- `abort()` raises, and the stream's timer.
pub record Readings : Type 0 where
  pub socket_connected : Bool
  pub aborted : Option Reply
  pub elapsed : ℕ

-- The forwarder of a stream does `f`.
unfoldable pub with_stream : ℕ → ℕ → (Forwarder → Forwarder × List Signal) → Client → Client
unfolding lookup update
with_stream id elapsed f c = elim (lookup id c.streams) [
  | none ↦ c
  | some st ↦ elim (lookup st.fwd c.objects) [
    | none ↦ c
    | some o ↦ update st.fwd elapsed o.attached (f o.fwd) c
  ]
]

-- `m.status < 400` of an int
unfoldable pub is_ok : ℤ → Bool
is_ok (pos n) = ltb n 400
is_ok (negsuc n) = true

unfoldable pub mgmt_error : Qt → ParsedMsg → Bytes
unfolding is_ok
mgmt_error q m =
    let body : q.Object = elim (q.object_of m.resp_body) [ none ↦ q.empty | some o ↦ o ] in
    if is_ok m.status
    then []
    else q.to_text_or (codes "HTTP " ++ q.show_number m.status) (q.value body (codes "error"))

-- `mgmtPending_.take(m.reqId)`, and the call of what it gives
unfoldable pub on_mgmt_resp : Qt → ParsedMsg → Client → Client
unfolding lookup erase emit is_ok mgmt_error
on_mgmt_resp q m c = elim (lookup m.req_id c.mgmt_pending) [
  | none ↦ c
  | some cb ↦
      emit (Out.call cb (is_ok m.status) m.resp_body (mgmt_error q m))
        (record c { mgmt_pending = erase m.req_id c.mgmt_pending })
]

unfoldable pub on_message : Qt → Readings → ParsedMsg → MsgType → Client → Client
unfolding emit send_text on_open_stream with_stream on_mgmt_resp write_from_remote close_from_remote
on_message q r m MsgType.register_ack c = emit (Out.ack m.ack_ok m.ack_error m.tunnels) c
on_message q r m MsgType.ping c = send_text Frame.pong c
on_message q r m MsgType.open_stream c = on_open_stream q m.opened r.elapsed c
on_message q r m MsgType.server_chunk c =
    with_stream m.stream_id r.elapsed (λ f. (write_from_remote r.socket_connected m.chunk f, [])) c
on_message q r m MsgType.mgmt_resp c = on_mgmt_resp q m c
on_message q r m MsgType.close_stream c =
    with_stream m.stream_id r.elapsed (close_from_remote r.aborted) c
on_message q r m other c = c

unfoldable pub handle_message : (q : Qt) → Readings → q.Document → Client → Client
unfolding on_message parse_server_message
handle_message q r json c = let m = parse_server_message q json in on_message q r m m.type c

-- `++nextMgmtId_` of a quint64
unfoldable pub mgmt_request : Qt → Bytes → Bytes → Bytes → ℕ → Client → Client
unfolding emit send_text insert
mgmt_request q method path payload cb c =
    if c.connected && (c.has_ws && c.live)
    then (let id = (c.next_mgmt_id + 1) % 2 ^ 64 in
        send_text (Frame.mgmt id (q.to_upper method) path payload)
          (record c { next_mgmt_id = id; mgmt_pending = insert id cb c.mgmt_pending }))
    else emit (Out.call cb false [] (codes "控制通道未连接")) c

-- `body.isEmpty() ? QByteArray() : QJsonDocument(body).toJson(Compact)`
unfoldable pub payload_of : (q : Qt) → q.Object → Bytes
payload_of q body = if q.is_empty_object body then [] else q.bytes_of body

-- An event of the forwarder's reply or socket.
unfoldable pub on_forwarder : ℕ → ℕ → Event → Client → Client
unfolding lookup update fire
on_forwarder h elapsed e c = elim (lookup h c.objects) [
  | none ↦ c
  | some o ↦ update h elapsed o.attached (fire e o.fwd) c
]

-- What the armed timer does when it fires.
unfoldable pub fired : Option ℕ → Client → Client
unfolding open_connection
fired none c = c
fired (some wait) c = open_connection (record c { timer = none })

unfoldable pub on_timeout : Client → Client
unfolding fired
on_timeout c = fired c.timer c

module _ (q : Qt) where
  -- What may happen next.
  pub data Step : Type 0 where
    configure : ClientConfig → Step
    run_client halt timeout ws_connected ws_disconnected : Step
    ws_live : Bool → Step
    text_received : Readings → q.Document → Step
    request : Bytes → Bytes → q.Object → ℕ → Step
    forwarder : ℕ → ℕ → Event → Step

  unfoldable pub step : Step → Client → Client
  unfolding set_config start_client stop_client on_timeout on_ws_connected on_ws_disconnected
      handle_message mgmt_request payload_of on_forwarder
  step (Step.configure cfg) c = set_config cfg c
  step Step.run_client c = start_client c
  step Step.halt c = stop_client c
  step Step.timeout c = on_timeout c
  step Step.ws_connected c = on_ws_connected c
  step Step.ws_disconnected c = on_ws_disconnected c
  step (Step.ws_live b) c = record c { live = b }
  step (Step.text_received r json) c = handle_message q r json c
  step (Step.request method path body cb) c = mgmt_request q method path (payload_of q body) cb c
  step (Step.forwarder h elapsed e) c = on_forwarder h elapsed e c

  unfoldable pub run : List Step → Client → Client
  unfolding step
  run [] c = c
  run (e ∷ es) c = run es (step e c)
