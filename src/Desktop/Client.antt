-- ===== src/Desktop/Client.antt =====
-- Client.hpp and the part of Client.cpp that keeps the control channel. `live` is that `ws_->state()` is
-- ConnectedState. Forwarders are objects: `streams_` holds the number of one, and `attached` is that the
-- client's slots are connected to it.
use samryetha_tunnel.Base.{
  ℕ, ◌*◌, Bool, true, false, ◌&&◌, Option, none, some, List, [], ◌∷◌, ◌++◌, if◌then◌else◌, min,
}
use samryetha_tunnel.Base.Dict.{Dict, lookup, insert, erase}
use samryetha_tunnel.Base.Int.{ℤ}
use samryetha_tunnel.Base.Order.{nat_order, bytes_order}
use samryetha_tunnel.Base.Text.{Bytes, codes}
use samryetha_tunnel.Desktop.Protocol.{EffectiveTunnel, Frame}
use samryetha_tunnel.Desktop.Config.{ClientConfig, map_of}
use samryetha_tunnel.Desktop.Forwarder.{Forwarder}

-- struct StreamState, without its timer
pub record StreamState : Type 0 where
  pub fwd : ℕ
  pub tunnel_id : Bytes
  pub bytes : ℕ
  pub status : ℤ

pub record Object : Type 0 where
  pub attached : Bool
  pub fwd : Forwarder

-- What the client does to the outside, its logs left out. A callback is known by a number,
-- and is called with the result, the body whose object it is given, and the error.
pub data Out : Type 0 where
  state_changed : Bytes → Out
  ack : Bool → Bytes → List EffectiveTunnel → Out
  request_finished : Bytes → ℤ → ℕ → ℕ → Out
  open_socket : Bytes → Bytes → Out
  close_socket : Out
  call : ℕ → Bool → Bytes → Bytes → Out

-- `sent` are the messages given to `sendTextMessage`, and `out` the rest, the newest first.
pub record Client : Type 0 where
  pub cfg : ClientConfig
  pub has_ws : Bool
  pub live : Bool
  pub timer : Option ℕ
  pub backoff_sec : ℕ
  pub running : Bool
  pub connected : Bool
  pub local_map : Dict Bytes Bytes
  pub streams : Dict ℕ StreamState
  pub next_mgmt_id : ℕ
  pub mgmt_pending : Dict ℕ ℕ
  pub objects : Dict ℕ Object
  pub next_object : ℕ
  pub sent : List Frame
  pub out : List Out

unfoldable pub emit : Out → Client → Client
emit o c = record c { out = o ∷ c.out }

unfoldable pub send_text : Frame → Client → Client
send_text f c = if c.has_ws && c.live then record c { sent = f ∷ c.sent } else c

unfoldable pub set_config : ClientConfig → Client → Client
unfolding map_of
set_config cfg c = record c { cfg = cfg; local_map = map_of cfg.tunnels [] }

unfoldable pub open_connection : Client → Client
unfolding emit
open_connection c =
    if c.running
    then emit (Out.open_socket c.cfg.server_url (codes "Bearer " ++ c.cfg.api_token))
        (emit (Out.state_changed (codes "connecting")) (record c { has_ws = true }))
    else c

unfoldable pub start_client : Client → Client
unfolding open_connection
start_client c =
    if c.running then c else open_connection (record c { running = true; backoff_sec = 1 })

-- `close()` leaves the connected state.
unfoldable pub stop_client : Client → Client
unfolding emit
stop_client c =
    let stopped = record c { running = false; timer = none } in
    if c.has_ws then emit Out.close_socket (record stopped { live = false }) else stopped

unfoldable pub schedule_reconnect : Client → Client
schedule_reconnect c = record c {
  timer = some c.backoff_sec;
  backoff_sec = min (c.backoff_sec * 2) 30;
}

-- `fwd->disconnect(this); fwd->deleteLater();`
unfoldable pub detach : ℕ → Dict ℕ Object → Dict ℕ Object
unfolding lookup insert
detach h objects = elim (lookup h objects) [
  | none ↦ objects
  | some o ↦ insert h (record o { attached = false }) objects
]

unfoldable pub cleanup_stream : ℕ → Client → Client
unfolding lookup erase detach
cleanup_stream id c = elim (lookup id c.streams) [
  | none ↦ c
  | some st ↦ record c { objects = detach st.fwd c.objects; streams = erase id c.streams }
]

-- `for (quint64 id : ids) cleanupStream(id);`
unfoldable pub cleanup_all : Dict ℕ StreamState → Client → Client
unfolding cleanup_stream
cleanup_all [] c = c
cleanup_all ((id, st) ∷ ids) c = cleanup_all ids (cleanup_stream id c)

-- The slots of `connected` and `disconnected`.
unfoldable pub on_ws_connected : Client → Client
unfolding emit send_text
on_ws_connected c =
    let up = record c { connected = true; live = true; backoff_sec = 1 } in
    send_text (Frame.register c.cfg.client_id c.cfg.tunnels)
      (emit (Out.state_changed (codes "connected")) up)

unfoldable pub on_ws_disconnected : Client → Client
unfolding emit cleanup_all schedule_reconnect
on_ws_disconnected c =
    let down = record c { connected = false; live = false } in
    let clean = cleanup_all c.streams (emit (Out.state_changed (codes "disconnected")) down) in
    if c.running && c.cfg.auto_reconnect then schedule_reconnect clean else clean

-- `Client()`
unfoldable pub new_client : ClientConfig → Client
new_client cfg = record {
  cfg = cfg;
  has_ws = false;
  live = false;
  timer = none;
  backoff_sec = 1;
  running = false;
  connected = false;
  local_map = [];
  streams = [];
  next_mgmt_id = 0;
  mgmt_pending = [];
  objects = [];
  next_object = 0;
  sent = [];
  out = [];
}
