-- ===== src/Desktop/Session/Ledger.antt =====
-- What the client keeps of its management requests, and the handlers that leave it.
use samryetha_tunnel.Base.{
  ℕ, suc, ◌+◌, ◌≡◌, ◌≢◌, refl, ap, ◌∙◌, Bool, true, false, Bool-cases, ◌&&◌, inl, inr, Option,
  Option-cases, none, some, List, [], ◌∷◌, ◌++◌, if◌then◌else◌, length,
}
use samryetha_tunnel.Base.Dict.{Dict, lookup, insert}
use samryetha_tunnel.Base.Int.{pos}
use samryetha_tunnel.Base.Order.{nat_order}
use samryetha_tunnel.Base.Text.{codes, is_empty}
use samryetha_tunnel.Desktop.Qt.{Qt}
use samryetha_tunnel.Desktop.Protocol.{OpenStreamMsg, MsgType, ParsedMsg, Frame}
use samryetha_tunnel.Desktop.Forwarder.{
  Signal, Forwarder, Event, new_forwarder, start, write_from_remote, close_from_remote, fire,
}
use samryetha_tunnel.Desktop.Client.{
  StreamState, Out, Client, emit, send_text, open_connection, start_client, stop_client,
  schedule_reconnect, cleanup_stream, cleanup_all, on_ws_connected, on_ws_disconnected,
}
use samryetha_tunnel.Desktop.Session.{
  change, finish_stream, slot, is_attached, deliver, update, local_of, open_forwarder,
  on_open_stream, Readings, with_stream, on_message, on_forwarder, fired, on_timeout,
}
use samryetha_tunnel.Desktop.Session.Slots.{
  send_text-cases, change-some, cleanup_stream-some, cleanup_stream-none, finish_stream-some,
}
use samryetha_tunnel.Desktop.Session.Reconnect.{cleanup_all-frame}

-- The callbacks that were called, the newest first.
unfoldable pub calls : List Out → List ℕ
calls [] = []
calls (Out.call cb ok body error ∷ out) = cb ∷ calls out
calls (o ∷ out) = calls out

-- The callbacks that wait, the last id, and the calls.
unfoldable pub ledger : Client → Dict ℕ ℕ × (ℕ × List ℕ)
unfolding calls
ledger c = (c.mgmt_pending, (c.next_mgmt_id, calls c.out))

pub send_text-ledger : (f : Frame) (c : Client) → ledger (send_text f c) ≡ ledger c
send_text-ledger f c = send_text-cases (λ d. ledger d ≡ ledger c) f c refl (unfold ledger in refl)

cleanup_stream-ledger : (id : ℕ) (c : Client) → ledger (cleanup_stream id c) ≡ ledger c
unfolding ledger
cleanup_stream-ledger id c = elim (Option-cases (lookup id c.streams)) [
  | inl n ↦ rw (cleanup_stream-none id c n) refl
  | inr (st, n) ↦ rw (cleanup_stream-some id c st n) refl
]

change-ledger :
    (id : ℕ) (f : StreamState → StreamState) (c : Client) → ledger (change id f c) ≡ ledger c
unfolding ledger
change-ledger id f c = elim (Option-cases (lookup id c.streams)) [
  | inl l ↦ unfold change in rw (l, change) refl
  | inr (st, l) ↦ rw (change-some id f c st l) refl
]

finish_stream-ledger :
    (id elapsed : ℕ) (c : Client) → ledger (finish_stream id elapsed c) ≡ ledger c
unfolding emit ledger calls
finish_stream-ledger id elapsed c = elim (Option-cases (lookup id c.streams)) [
  | inl l ↦ unfold finish_stream in rw (l, finish_stream) refl
  | inr (st, l) ↦
      let o = Out.request_finished st.tunnel_id st.status st.bytes elapsed in
      ap ledger (finish_stream-some id elapsed c st l)
      ∙ cleanup_stream-ledger id (emit o (send_text (Frame.end id) c))
      ∙ send_text-ledger (Frame.end id) c
]

slot-ledger : (id elapsed : ℕ) (s : Signal) (c : Client) → ledger (slot id elapsed s c) ≡ ledger c
unfolding slot
slot-ledger id elapsed (Signal.head status headers) c =
    let f = λ (st : StreamState). record st { status = status } in
    send_text-ledger (Frame.response_head id status headers) (change id f c) ∙ change-ledger id f c
slot-ledger id elapsed (Signal.chunk bytes) c =
    let f = λ (st : StreamState). record st { bytes = st.bytes + length bytes } in
    send_text-ledger (Frame.chunk id bytes) (change id f c) ∙ change-ledger id f c
slot-ledger id elapsed Signal.finished c = finish_stream-ledger id elapsed c
slot-ledger id elapsed (Signal.failed reason) c =
    cleanup_stream-ledger id (send_text (Frame.abort id reason) c)
    ∙ send_text-ledger (Frame.abort id reason) c

deliver-ledger :
    (h id elapsed : ℕ) (signals : List Signal) (c : Client)
    → ledger (deliver h id elapsed signals c) ≡ ledger c
unfolding deliver
deliver-ledger h id elapsed [] c = refl
deliver-ledger h id elapsed (s ∷ ss) c = elim (Bool-cases (is_attached h c)) [
  | inl a ↦
      rw (a, deliver)
        (deliver-ledger h id elapsed ss (slot id elapsed s c) ∙ slot-ledger id elapsed s c)
  | inr a ↦ rw (a, deliver) (deliver-ledger h id elapsed ss c)
]

update-ledger :
    (h elapsed : ℕ) (attached : Bool) (r : Forwarder × List Signal) (c : Client)
    → ledger (update h elapsed attached r c) ≡ ledger c
unfolding update ledger
update-ledger h elapsed attached (f, signals) c =
    deliver-ledger h f.req.stream_id elapsed signals
      (record c { objects = insert h (record { attached = attached; fwd = f }) c.objects })

with_stream-ledger :
    (id elapsed : ℕ) (f : Forwarder → Forwarder × List Signal) (c : Client)
    → ledger (with_stream id elapsed f c) ≡ ledger c
unfolding with_stream
with_stream-ledger id elapsed f c = elim (Option-cases (lookup id c.streams)) [
  | inl l ↦ rw (l, with_stream) refl
  | inr (st, l) ↦ elim (Option-cases (lookup st.fwd c.objects)) [
    | inl m ↦ rw (l, with_stream) (rw m refl)
    | inr (o, m) ↦ rw (l, with_stream) (rw m (update-ledger st.fwd elapsed o.attached (f o.fwd) c))
  ]
]

pub on_forwarder-ledger :
    (h elapsed : ℕ) (e : Event) (c : Client) → ledger (on_forwarder h elapsed e c) ≡ ledger c
unfolding on_forwarder
on_forwarder-ledger h elapsed e c = elim (Option-cases (lookup h c.objects)) [
  | inl l ↦ rw (l, on_forwarder) refl
  | inr (o, l) ↦ rw (l, on_forwarder) (update-ledger h elapsed o.attached (fire e o.fwd) c)
]

on_open_stream-ledger :
    (q : Qt) (os : OpenStreamMsg) (elapsed : ℕ) (c : Client)
    → ledger (on_open_stream q os elapsed c) ≡ ledger c
unfolding on_open_stream open_forwarder ledger
on_open_stream-ledger q os elapsed c = elim (Bool-cases (is_empty (local_of os.tunnel_id c))) [
  | inl e ↦
      rw (e, on_open_stream)
        (send_text-ledger (Frame.abort os.stream_id (codes "unknown tunnel " ++ os.tunnel_id)) c)
  | inr e ↦
      let local = local_of os.tunnel_id c in
      let st : StreamState = record {
        fwd = c.next_object;
        tunnel_id = os.tunnel_id;
        bytes = 0;
        status = pos 0;
      } in
      rw (e, on_open_stream)
        (update-ledger c.next_object elapsed true (start q (new_forwarder os local)) (record c {
          streams = insert os.stream_id st c.streams;
          next_object = suc c.next_object;
        }))
]

-- A message other than a management response.
pub on_message-ledger :
    (q : Qt) (r : Readings) (m : ParsedMsg) (t : MsgType) (c : Client)
    → t ≢ MsgType.mgmt_resp
    → ledger (on_message q r m t c) ≡ ledger c
unfolding on_message emit ledger calls
on_message-ledger q r m MsgType.unknown c h = refl
on_message-ledger q r m MsgType.register_ack c h = refl
on_message-ledger q r m MsgType.ping c h = send_text-ledger Frame.pong c
on_message-ledger q r m MsgType.open_stream c h = on_open_stream-ledger q m.opened r.elapsed c
on_message-ledger q r m MsgType.close_stream c h =
    with_stream-ledger m.stream_id r.elapsed (close_from_remote r.aborted) c
on_message-ledger q r m MsgType.server_chunk c h =
    with_stream-ledger m.stream_id r.elapsed
      (λ f. (write_from_remote r.socket_connected m.chunk f, [])) c
on_message-ledger q r m MsgType.register c h = refl
on_message-ledger q r m MsgType.pong c h = refl
on_message-ledger q r m MsgType.response_head c h = refl
on_message-ledger q r m MsgType.client_chunk c h = refl
on_message-ledger q r m MsgType.end c h = refl
on_message-ledger q r m MsgType.abort c h = refl
on_message-ledger q r m MsgType.mgmt_resp c h = absurd (h refl)

-- The events of the channel.
if-ledger :
    (b : Bool) (c d e : Client)
    → ledger c ≡ ledger e
    → ledger d ≡ ledger e
    → ledger (if b then c else d) ≡ ledger e
if-ledger true c d e p q = p
if-ledger false c d e p q = q

open_connection-ledger : (c : Client) → ledger (open_connection c) ≡ ledger c
unfolding open_connection emit ledger calls
open_connection-ledger c = if-ledger c.running _ c c refl refl

pub start_client-ledger : (c : Client) → ledger (start_client c) ≡ ledger c
unfolding start_client ledger
start_client-ledger c =
    let up = record c { running = true; backoff_sec = 1 } in
    if-ledger c.running c (open_connection up) c refl (open_connection-ledger up)

pub stop_client-ledger : (c : Client) → ledger (stop_client c) ≡ ledger c
unfolding stop_client emit ledger calls
stop_client-ledger c = if-ledger c.has_ws _ (record c { running = false; timer = none }) c refl refl

fired-ledger : (t : Option ℕ) (c : Client) → ledger (fired t c) ≡ ledger c
unfolding fired ledger
fired-ledger none c = refl
fired-ledger (some w) c = open_connection-ledger (record c { timer = none })

pub on_timeout-ledger : (c : Client) → ledger (on_timeout c) ≡ ledger c
unfolding on_timeout
on_timeout-ledger c = fired-ledger c.timer c

pub on_ws_connected-ledger : (c : Client) → ledger (on_ws_connected c) ≡ ledger c
unfolding on_ws_connected emit ledger calls
on_ws_connected-ledger c = send_text-ledger (Frame.register c.cfg.client_id c.cfg.tunnels) (
    emit (Out.state_changed (codes "connected"))
      (record c { connected = true; live = true; backoff_sec = 1 }))

pub on_ws_disconnected-ledger : (c : Client) → ledger (on_ws_disconnected c) ≡ ledger c
unfolding on_ws_disconnected emit schedule_reconnect ledger calls
on_ws_disconnected-ledger c =
    let down =
      emit (Out.state_changed (codes "disconnected"))
        (record c { connected = false; live = false }) in
    let (o, s, e) = cleanup_all-frame c.streams down in
    let clean : ledger (cleanup_all c.streams down) ≡ ledger c = ap ledger e in
    if-ledger (c.running && c.cfg.auto_reconnect) _ _ c clean clean
