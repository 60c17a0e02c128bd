-- ===== src/Codec/Decode.antt =====
-- What the client receives: codec.hpp, decServer.
use samryetha_tunnel.Base.{ℕ, zero, suc, false, not, List, [], ◌∷◌, ◌==◌, if◌then◌else◌}
use samryetha_tunnel.Base.Dict.{Dict, insert}
use samryetha_tunnel.Base.Int.{pos}
use samryetha_tunnel.Base.Order.{bytes_order}
use samryetha_tunnel.Base.Text.{Bytes, codes, bytes_eq}
use samryetha_tunnel.Base64.{b64decode}
use samryetha_tunnel.Json.Number.{Doubles}
use samryetha_tunnel.Json.Value.{
  J, Items, Fields, nil, item, end, member, at, has, str, numv, bool_at, items_of, fields_of,
  string_of,
}
use samryetha_tunnel.Json.Parse.{parse}
use samryetha_tunnel.Wire.Reader
use samryetha_tunnel.Wire.Reader.{Read, ◌>>=◌, pure}
use samryetha_tunnel.Wire.Result.{Result, ok, err}
use samryetha_tunnel.Codec.Types.{
  Mode, json, binary, EffectiveT, OpenStream, InMsg, blank, t_register_ack, t_ping, t_open_stream,
  t_chunk, t_close_stream, t_mgmt_resp,
}

unfoldable pub u8_proto : ℕ → Bytes
u8_proto b = if b == 1 then codes "tcp" else codes "http"

unfoldable pub message_of : Result (InMsg × ℕ) → Result InMsg
message_of (ok (m, i)) = ok m
message_of (err e) = err e

module _ (d : Bytes) where
  unfoldable pub read_tunnel : Read EffectiveT
  unfolding u8_proto
  read_tunnel = do
    id ← Reader.str d
    b ← Reader.u8 d
    url ← Reader.str d
    port ← Reader.u16 d
    pure (record { id = id; proto = u8_proto b; url = url; port = pos port })

  unfoldable pub read_tunnels : ℕ → Read (List EffectiveT)
  read_tunnels zero = pure []
  read_tunnels (suc k) = do e ← read_tunnel; es ← read_tunnels k; pure (e ∷ es)

  unfoldable pub read_register_ack : Read InMsg
  read_register_ack = do
    b ← Reader.u8 d
    error ← Reader.str d
    k ← Reader.u16 d
    ts ← read_tunnels k
    pure (record blank {
      type = codes "register_ack";
      ack_ok = not (b == 0);
      ack_error = error;
      tunnels = ts;
    })

  unfoldable pub read_open_stream : Read InMsg
  unfolding u8_proto
  read_open_stream = do
    sid ← Reader.varint d
    tunnel ← Reader.str d
    b ← Reader.u8 d
    method ← Reader.str d
    path ← Reader.str d
    headers ← Reader.headers d
    body ← Reader.bytes d
    let stream : OpenStream = record {
      stream_id = sid;
      tunnel_id = tunnel;
      proto = u8_proto b;
      method = method;
      path = path;
      headers = headers;
      body = body;
    }
    pure (record blank { type = codes "open_stream"; os = stream; stream_id = sid })

  unfoldable pub read_close_stream : Read InMsg
  read_close_stream = do
    sid ← Reader.varint d
    pure (record blank { type = codes "close_stream"; stream_id = sid })

  unfoldable pub read_chunk : Read InMsg
  read_chunk = do
    sid ← Reader.varint d
    chunk ← Reader.bytes d
    pure (record blank { type = codes "chunk"; stream_id = sid; payload = chunk })

  unfoldable pub read_mgmt_resp : Read InMsg
  read_mgmt_resp = do
    req ← Reader.varint d
    status ← Reader.u16 d
    body ← Reader.bytes d
    pure (record blank {
      type = codes "mgmt_resp";
      req_id = req;
      status = pos status;
      resp_body = body;
    })

  -- The switch on the type byte.
  unfoldable pub read_body : ℕ → Read InMsg
  read_body t =
      if t == t_register_ack
      then read_register_ack
      else if t == t_ping
      then pure (record blank { type = codes "ping" })
      else if t == t_open_stream
      then read_open_stream
      else if t == t_close_stream
      then read_close_stream
      else if t == t_chunk
      then read_chunk
      else if t == t_mgmt_resp
      then read_mgmt_resp
      else pure (record blank { type = codes "unknown" })

  unfoldable pub read_frame : Read InMsg
  read_frame = Reader.u8 d >>= read_body

  -- Bytes behind the last field are ignored.
  unfoldable pub dec_binary : Result InMsg
  dec_binary = message_of (read_frame 0)

module _ (n : Doubles) where
  open n use {Double, of_int, to_uint, to_int}

  abbrev text_at : Bytes → J Double → Bytes
  text_at k j = str k [] j

  abbrev number_at : Bytes → J Double → Double
  number_at k j = numv k (of_int (pos 0)) j

  unfoldable pub json_tunnels : Items Double → List EffectiveT
  json_tunnels nil = []
  json_tunnels (item t ts) =
      record {
        id = text_at (codes "tunnel_id") t;
        proto = text_at (codes "proto") t;
        url = text_at (codes "public_url") t;
        port = to_int (number_at (codes "public_port") t);
      }
      ∷ json_tunnels ts

  -- `for (kv : o) headers[kv.first] = kv.second.s;`
  unfoldable pub json_headers : Dict Bytes Bytes → Fields Double → Dict Bytes Bytes
  json_headers h end = h
  json_headers h (member k v m) = json_headers (insert k (string_of v []) h) m

  unfoldable pub json_stream : J Double → OpenStream
  unfolding json_headers
  json_stream j = record {
    stream_id = to_uint (number_at (codes "stream_id") j);
    tunnel_id = text_at (codes "tunnel_id") j;
    proto = str (codes "proto") (codes "http") j;
    method = str (codes "method") (codes "GET") j;
    path = str (codes "path") (codes "/") j;
    headers =
        if has (codes "headers") j
        then json_headers [] (fields_of (at (codes "headers") j))
        else [];
    body = b64decode (text_at (codes "body_b64") j);
  }

  unfoldable pub json_message : Bytes → J Double → InMsg
  unfolding json_tunnels json_stream
  json_message type j =
      if bytes_eq type (codes "register_ack")
      then record blank {
        type = type;
        ack_ok = bool_at (codes "ok") false j;
        ack_error = text_at (codes "error") j;
        tunnels = json_tunnels (items_of (at (codes "tunnels") j));
      }
      else if bytes_eq type (codes "open_stream")
      then record blank { type = type; os = json_stream j; stream_id = (json_stream j).stream_id }
      else if bytes_eq type (codes "close_stream")
      then record blank { type = type; stream_id = to_uint (number_at (codes "stream_id") j) }
      else if bytes_eq type (codes "chunk")
      then record blank {
        type = type;
        stream_id = to_uint (number_at (codes "stream_id") j);
        payload = b64decode (text_at (codes "data_b64") j);
      }
      else if bytes_eq type (codes "mgmt_resp")
      then record blank {
        type = type;
        req_id = to_uint (number_at (codes "req_id") j);
        status = to_int (number_at (codes "status") j);
        resp_body = b64decode (text_at (codes "body_b64") j);
      }
      else record blank { type = type }

  unfoldable pub dec_server : Mode → Bytes → Result InMsg
  unfolding json_message dec_binary
  dec_server binary raw = dec_binary raw
  dec_server json raw = let j = parse n raw in ok (json_message (text_at (codes "type") j) j)
