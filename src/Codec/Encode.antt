-- ===== src/Codec/Encode.antt =====
-- What the client sends: codec.hpp, encRegister to encMgmt.
use samryetha_tunnel.Base.{ℕ, ◌%◌, ◌^◌, List, [], ◌∷◌, ◌++◌, length, if◌then◌else◌}
use samryetha_tunnel.Base.Dict.{Dict}
use samryetha_tunnel.Base.Int.{ℤ, pos, to_u16}
use samryetha_tunnel.Base.Text.{Bytes, codes, bytes_eq, is_empty}
use samryetha_tunnel.Base64.{b64encode}
use samryetha_tunnel.Json.Number.{Doubles}
use samryetha_tunnel.Json.Value.{J, number, string, array, object, nil, end, set, push}
use samryetha_tunnel.Json.Print.{dump}
use samryetha_tunnel.Wire.Writer
use samryetha_tunnel.Codec.Types.{
  Mode, json, binary, TunnelCfg, t_register, t_pong, t_response_head, t_chunk, t_end, t_abort,
  t_mgmt,
}

unfoldable pub proto_u8 : Bytes → ℕ
proto_u8 p = if bytes_eq p (codes "tcp") then 1 else 0

-- `t.proto.empty() ? "http" : t.proto`
unfoldable pub proto_or_http : Bytes → Bytes
proto_or_http p = if is_empty p then codes "http" else p

unfoldable pub tunnel_fields : TunnelCfg → Bytes
unfolding proto_u8 proto_or_http
tunnel_fields t =
    Writer.str t.id
    ++ (Writer.u8 (proto_u8 (proto_or_http t.proto))
        ++ (Writer.str t.sub ++ (Writer.str t.path ++ Writer.str t.local)))

unfoldable pub tunnel_list : List TunnelCfg → Bytes
unfolding tunnel_fields
tunnel_list [] = []
tunnel_list (t ∷ ts) = tunnel_fields t ++ tunnel_list ts

module _ (n : Doubles) where
  open n use {Double, of_int}

  -- `if (!v.empty()) o.set(k, J::S(v));`
  set_unless_empty : Bytes → Bytes → J Double → J Double
  set_unless_empty k v o = if is_empty v then o else set k (string v) o

  unfoldable pub tunnel_object : TunnelCfg → J Double
  unfolding set_unless_empty proto_or_http
  tunnel_object t =
      let o = set (codes "tunnel_id") (string t.id) (object end) in
      let o1 = set (codes "proto") (string (proto_or_http t.proto)) o in
      let o2 = set_unless_empty (codes "subdomain") t.sub o1 in
      let o3 = set_unless_empty (codes "path_prefix") t.path o2 in
      set_unless_empty (codes "local_addr") t.local o3

  unfoldable pub tunnel_array : J Double → List TunnelCfg → J Double
  unfolding tunnel_object
  tunnel_array arr [] = arr
  tunnel_array arr (t ∷ ts) = tunnel_array (push (tunnel_object t) arr) ts

  unfoldable pub header_object : J Double → Dict Bytes Bytes → J Double
  header_object h [] = h
  header_object h ((k, v) ∷ kvs) = header_object (set k (string v) h) kvs

  -- `J::N((double)id)`
  id_number : ℕ → J Double
  id_number sid = number (of_int (pos sid))

  -- `J::O()` with the member `type`.
  typed : Bytes → J Double
  typed t = set (codes "type") (string t) (object end)

  unfoldable pub enc_register : Mode → Bytes → List TunnelCfg → Bytes
  unfolding tunnel_list tunnel_array typed
  enc_register binary client_id ts =
      Writer.u8 t_register
      ++ (Writer.str client_id ++ (Writer.u16 (length ts % 2 ^ 16) ++ tunnel_list ts))
  enc_register json client_id ts =
      let root = set (codes "client_id") (string client_id) (typed (codes "register")) in
      dump n (set (codes "tunnels") (tunnel_array (array nil) ts) root)

  unfoldable pub enc_pong : Mode → Bytes
  unfolding typed
  enc_pong binary = Writer.u8 t_pong
  enc_pong json = dump n (typed (codes "pong"))

  unfoldable pub enc_head : Mode → ℕ → ℤ → Dict Bytes Bytes → Bytes
  unfolding header_object id_number typed
  enc_head binary sid status headers =
      Writer.u8 t_response_head
      ++ (Writer.varint sid ++ (Writer.u16 (to_u16 status) ++ Writer.headers headers))
  enc_head json sid status headers =
      let o = set (codes "stream_id") (id_number sid) (typed (codes "response_head")) in
      let o1 = set (codes "status") (number (of_int status)) o in
      dump n (set (codes "headers") (header_object (object end) headers) o1)

  unfoldable pub enc_chunk : Mode → ℕ → Bytes → Bytes
  unfolding id_number typed
  enc_chunk binary sid chunk = Writer.u8 t_chunk ++ (Writer.varint sid ++ Writer.bytes chunk)
  enc_chunk json sid chunk =
      let o = set (codes "stream_id") (id_number sid) (typed (codes "chunk")) in
      dump n (set (codes "data_b64") (string (b64encode chunk)) o)

  unfoldable pub enc_end : Mode → ℕ → Bytes
  unfolding id_number typed
  enc_end binary sid = Writer.u8 t_end ++ Writer.varint sid
  enc_end json sid = dump n (set (codes "stream_id") (id_number sid) (typed (codes "end")))

  unfoldable pub enc_abort : Mode → ℕ → Bytes → Bytes
  unfolding id_number typed
  enc_abort binary sid reason = Writer.u8 t_abort ++ (Writer.varint sid ++ Writer.str reason)
  enc_abort json sid reason =
      let o = set (codes "stream_id") (id_number sid) (typed (codes "abort")) in
      dump n (set (codes "reason") (string reason) o)

  unfoldable pub enc_mgmt : Mode → ℕ → Bytes → Bytes → Bytes → Bytes
  unfolding id_number typed
  enc_mgmt binary req_id method path body =
      Writer.u8 t_mgmt
      ++ (Writer.varint req_id ++ (Writer.str method ++ (Writer.str path ++ Writer.bytes body)))
  enc_mgmt json req_id method path body =
      let o = set (codes "req_id") (id_number req_id) (typed (codes "mgmt")) in
      let o1 = set (codes "method") (string method) o in
      let o2 = set (codes "path") (string path) o1 in
      dump n (set (codes "body_b64") (string (b64encode body)) o2)
