-- ===== src/Desktop/Protocol.antt =====
-- Protocol.cpp: the messages of the Qt client as JSON.
pub mod RoundTrip
use samryetha_tunnel.Base.{
  ℕ, Bool, true, false, not, ◌&&◌, none, some, List, [], ◌∷◌, map, if◌then◌else◌,
}
use samryetha_tunnel.Base.Dict.{Dict, insert_all}
use samryetha_tunnel.Base.Int.{ℤ, pos}
use samryetha_tunnel.Base.Order.{bytes_order}
use samryetha_tunnel.Base.Text.{Bytes, codes, bytes_eq, is_empty}
use samryetha_tunnel.Desktop.Qt.{Qt}

pub record TunnelDef : Type 0 where
  pub tunnel_id : Bytes
  pub proto : Bytes
  pub subdomain : Bytes
  pub path_prefix : Bytes
  pub local_addr : Bytes

pub record EffectiveTunnel : Type 0 where
  pub tunnel_id : Bytes
  pub proto : Bytes
  pub public_url : Bytes
  pub public_port : ℤ

pub record OpenStreamMsg : Type 0 where
  pub stream_id : ℕ
  pub tunnel_id : Bytes
  pub proto : Bytes
  pub method : Bytes
  pub path : Bytes
  pub headers : Dict Bytes Bytes
  pub body : Bytes

-- enum class MsgType
pub data MsgType : Type 0 where
  unknown register_ack ping open_stream close_stream server_chunk : MsgType
  register pong response_head client_chunk end abort mgmt_resp : MsgType

pub record ParsedMsg : Type 0 where
  pub type : MsgType
  pub ack_ok : Bool
  pub ack_error : Bytes
  pub tunnels : List EffectiveTunnel
  pub opened : OpenStreamMsg
  pub stream_id : ℕ
  pub chunk : Bytes
  pub req_id : ℕ
  pub status : ℤ
  pub resp_body : Bytes

abbrev pub no_stream : OpenStreamMsg
no_stream = record {
  stream_id = 0;
  tunnel_id = [];
  proto = [];
  method = [];
  path = [];
  headers = [];
  body = [];
}

-- `ParsedMsg m;`
abbrev pub no_message : ParsedMsg
no_message = record {
  type = MsgType.unknown;
  ack_ok = false;
  ack_error = [];
  tunnels = [];
  opened = no_stream;
  stream_id = 0;
  chunk = [];
  req_id = 0;
  status = pos 0;
  resp_body = [];
}

-- What the client sends: a constructor for each `build` function, with its arguments.
pub data Frame : Type 0 where
  register : Bytes → List TunnelDef → Frame
  pong : Frame
  response_head : ℕ → ℤ → Dict Bytes Bytes → Frame
  chunk : ℕ → Bytes → Frame
  end : ℕ → Frame
  abort : ℕ → Bytes → Frame
  mgmt : ℕ → Bytes → Bytes → Bytes → Frame

module _ (q : Qt) where
  open q use {Value, Object, Document, of_text, of_uint, of_int, of_object, of_array}

  -- `if (!s.isEmpty()) o[k] = s;`
  unfoldable pub put_given : Bytes → Bytes → Object → Object
  unfolding is_empty
  put_given k s o = if is_empty s then o else q.put k (of_text s) o

  unfoldable pub tunnel_object : TunnelDef → Object
  unfolding put_given is_empty
  tunnel_object t = put_given (codes "local_addr") t.local_addr (
      put_given (codes "path_prefix") t.path_prefix (
        put_given (codes "subdomain") t.subdomain (
          q.put (codes "proto") (of_text (if is_empty t.proto then codes "http" else t.proto))
            (q.put (codes "tunnel_id") (of_text t.tunnel_id) q.empty))))

  unfoldable pub headers_object : Dict Bytes Bytes → Object → Object
  headers_object [] o = o
  headers_object ((k, v) ∷ h) o = headers_object h (q.put k (of_text v) o)

  unfoldable pub build_object : Frame → Object
  unfolding tunnel_object headers_object
  build_object (Frame.register client_id tunnels) =
      q.put (codes "tunnels") (of_array (map (λ t. of_object (tunnel_object t)) tunnels)) (
        q.put (codes "client_id") (of_text client_id)
          (q.put (codes "type") (of_text (codes "register")) q.empty))
  build_object Frame.pong = q.put (codes "type") (of_text (codes "pong")) q.empty
  build_object (Frame.response_head stream_id status headers) =
      q.put (codes "headers") (of_object (headers_object headers q.empty)) (
        q.put (codes "status") (of_int status) (
          q.put (codes "stream_id") (of_uint stream_id)
            (q.put (codes "type") (of_text (codes "response_head")) q.empty)))
  build_object (Frame.chunk stream_id bytes) =
      q.put (codes "data_b64") (of_text (q.to_base64 bytes)) (
        q.put (codes "stream_id") (of_uint stream_id)
          (q.put (codes "type") (of_text (codes "chunk")) q.empty))
  build_object (Frame.end stream_id) =
      q.put (codes "stream_id") (of_uint stream_id)
        (q.put (codes "type") (of_text (codes "end")) q.empty)
  build_object (Frame.abort stream_id reason) = q.put (codes "reason") (of_text reason) (
      q.put (codes "stream_id") (of_uint stream_id)
        (q.put (codes "type") (of_text (codes "abort")) q.empty))
  build_object (Frame.mgmt req_id method path body) =
      q.put (codes "body_b64") (of_text (q.to_base64 body)) (
        q.put (codes "path") (of_text path) (
          q.put (codes "method") (of_text method) (
            q.put (codes "req_id") (of_uint req_id)
              (q.put (codes "type") (of_text (codes "mgmt")) q.empty))))

  unfoldable pub build : Frame → Document
  unfolding build_object
  build f = q.to_json (build_object f)

  -- `o.value(k).toString()` and the number of a stream
  unfoldable pub text_at : Object → Bytes → Bytes
  text_at o k = q.to_text (q.value o k)

  unfoldable pub uint_at : Object → Bytes → ℕ
  uint_at o k = q.to_uint (q.value o k)

  -- `readHeaders`
  unfoldable pub read_headers : Dict Bytes Value → Dict Bytes Bytes
  unfolding insert_all
  read_headers m = insert_all [] (map (λ p. (p.0, q.to_text p.1)) m)

  unfoldable pub read_tunnel : Value → EffectiveTunnel
  unfolding text_at
  read_tunnel v =
      let t = q.to_object v in
      record {
        tunnel_id = text_at t (codes "tunnel_id");
        proto = text_at t (codes "proto");
        public_url = text_at t (codes "public_url");
        public_port = q.to_int (q.value t (codes "public_port"));
      }

  unfoldable pub read_stream : Object → OpenStreamMsg
  unfolding text_at uint_at read_headers is_empty
  read_stream o =
      let body = text_at o (codes "body_b64") in
      record {
        stream_id = uint_at o (codes "stream_id");
        tunnel_id = text_at o (codes "tunnel_id");
        proto = text_at o (codes "proto");
        method = text_at o (codes "method");
        path = text_at o (codes "path");
        headers = read_headers (q.members (q.to_object (q.value o (codes "headers"))));
        body = if is_empty body then [] else q.from_base64 body;
      }

  -- The chain of tests on `type`.
  unfoldable pub parse_typed : Bytes → Object → ParsedMsg
  unfolding text_at uint_at read_tunnel read_stream bytes_eq
  parse_typed type o =
      let id = uint_at o (codes "stream_id") in
      if bytes_eq type (codes "register_ack")
      then record no_message {
        type = MsgType.register_ack;
        ack_ok = q.to_bool (q.value o (codes "ok"));
        ack_error =
            if q.contains o (codes "error") && not (q.is_null (q.value o (codes "error")))
            then text_at o (codes "error")
            else [];
        tunnels = map read_tunnel (q.to_array (q.value o (codes "tunnels")));
      }
      else if bytes_eq type (codes "ping")
      then record no_message { type = MsgType.ping }
      else if bytes_eq type (codes "open_stream")
      then record no_message { type = MsgType.open_stream; opened = read_stream o; stream_id = id }
      else if bytes_eq type (codes "close_stream")
      then record no_message { type = MsgType.close_stream; stream_id = id }
      else if bytes_eq type (codes "chunk")
      then record no_message {
        type = MsgType.server_chunk;
        stream_id = id;
        chunk = q.from_base64 (text_at o (codes "data_b64"));
      }
      else if bytes_eq type (codes "register")
      then record no_message { type = MsgType.register }
      else if bytes_eq type (codes "pong")
      then record no_message { type = MsgType.pong }
      else if bytes_eq type (codes "response_head")
      then record no_message { type = MsgType.response_head }
      else if bytes_eq type (codes "end")
      then record no_message { type = MsgType.end; stream_id = id }
      else if bytes_eq type (codes "mgmt_resp")
      then record no_message {
        type = MsgType.mgmt_resp;
        req_id = uint_at o (codes "req_id");
        status = q.to_int (q.value o (codes "status"));
        resp_body = q.from_base64 (text_at o (codes "body_b64"));
      }
      else if bytes_eq type (codes "abort")
      then record no_message { type = MsgType.abort; stream_id = id }
      else no_message

  unfoldable pub parse_server_message : Document → ParsedMsg
  unfolding text_at parse_typed
  parse_server_message d = elim (q.from_json d) [
    | none ↦ no_message
    | some o ↦ parse_typed (text_at o (codes "type")) o
  ]
