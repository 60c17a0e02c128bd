-- ===== src/Codec/Server.antt =====
-- The other end: tunnel-server/src/binproto.rs, encode_server, over tunnel-server/src/protocol.rs.
-- Its struct W writes the bytes that W of codec.hpp writes. A hash map is the list of its entries in
-- the order in which it is walked.
use samryetha_tunnel.Base.{
  ℕ, ◌%◌, ◌^◌, Bool, Option, none, some, List, [], ◌∷◌, ◌++◌, length, if◌then◌else◌,
}
use samryetha_tunnel.Base.Dict.{Dict}
use samryetha_tunnel.Base.Text.{Bytes, codes, bytes_eq}
use samryetha_tunnel.Wire.Writer
use samryetha_tunnel.Codec.Types.{
  t_register_ack, t_ping, t_open_stream, t_chunk, t_close_stream, t_mgmt_resp,
}

pub record EffectiveTunnel : Type 0 where
  pub tunnel_id : Bytes
  pub proto : Bytes
  pub public_url : Bytes
  pub public_port : Option ℕ

pub data ServerMsg : Type 0 where
  register_ack : Bool → Option Bytes → List EffectiveTunnel → ServerMsg
  ping : ServerMsg
  open_stream : ℕ → Bytes → Bytes → Bytes → Bytes → Dict Bytes Bytes → Bytes → ServerMsg
  close_stream : ℕ → ServerMsg
  chunk : ℕ → Bytes → ServerMsg
  mgmt_resp : ℕ → ℕ → Bytes → ServerMsg

unfoldable pub proto_to_u8 : Bytes → ℕ
proto_to_u8 p = if bytes_eq p (codes "tcp") then 1 else 0

unfoldable pub or_empty : Option Bytes → Bytes
or_empty none = []
or_empty (some s) = s

unfoldable pub or_zero : Option ℕ → ℕ
or_zero none = 0
or_zero (some p) = p

unfoldable pub encode_tunnels : List EffectiveTunnel → Bytes
encode_tunnels [] = []
encode_tunnels (t ∷ ts) =
    (Writer.str t.tunnel_id
      ++ (Writer.u8 (proto_to_u8 t.proto)
          ++ (Writer.str t.public_url ++ Writer.u16 (or_zero t.public_port))))
    ++ encode_tunnels ts

unfoldable pub encode_server : ServerMsg → Bytes
encode_server (register_ack ok error tunnels) =
    Writer.u8 t_register_ack
    ++ (Writer.u8 (if ok then 1 else 0)
        ++ (Writer.str (or_empty error)
            ++ (Writer.u16 (length tunnels % 2 ^ 16) ++ encode_tunnels tunnels)))
encode_server ping = Writer.u8 t_ping
encode_server (open_stream sid tunnel proto method path headers body) =
    Writer.u8 t_open_stream
    ++ (Writer.varint sid
        ++ (Writer.str tunnel
            ++ (Writer.u8 (proto_to_u8 proto)
                ++ (Writer.str method
                    ++ (Writer.str path ++ (Writer.headers headers ++ Writer.bytes body))))))
encode_server (close_stream sid) = Writer.u8 t_close_stream ++ Writer.varint sid
encode_server (chunk sid bytes) = Writer.u8 t_chunk ++ (Writer.varint sid ++ Writer.bytes bytes)
encode_server (mgmt_resp req status body) =
    Writer.u8 t_mgmt_resp ++ (Writer.varint req ++ (Writer.u16 status ++ Writer.bytes body))
