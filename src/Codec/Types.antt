-- ===== src/Codec/Types.antt =====
-- The structs of codec.hpp, and the type bytes of the binary frames.
use samryetha_tunnel.Base.{ℕ, Bool, false, List, []}
use samryetha_tunnel.Base.Dict.{Dict}
use samryetha_tunnel.Base.Int.{ℤ, pos}
use samryetha_tunnel.Base.Text.{Bytes}

pub data Mode : Type 0 where
  json binary : Mode

pub record TunnelCfg : Type 0 where
  pub id : Bytes
  pub proto : Bytes
  pub sub : Bytes
  pub path : Bytes
  pub local : Bytes
  pub conn : Bytes

pub record EffectiveT : Type 0 where
  pub id : Bytes
  pub proto : Bytes
  pub url : Bytes
  pub port : ℤ

pub record OpenStream : Type 0 where
  pub stream_id : ℕ
  pub tunnel_id : Bytes
  pub proto : Bytes
  pub method : Bytes
  pub path : Bytes
  pub headers : Dict Bytes Bytes
  pub body : Bytes

abbrev pub no_stream : OpenStream
no_stream = record {
  stream_id = 0;
  tunnel_id = [];
  proto = [];
  method = [];
  path = [];
  headers = [];
  body = [];
}

-- `payload` is the field `data` of the struct.
pub record InMsg : Type 0 where
  pub type : Bytes
  pub ack_ok : Bool
  pub ack_error : Bytes
  pub tunnels : List EffectiveT
  pub os : OpenStream
  pub stream_id : ℕ
  pub payload : Bytes
  pub req_id : ℕ
  pub status : ℤ
  pub resp_body : Bytes

abbrev pub blank : InMsg
blank = record {
  type = [];
  ack_ok = false;
  ack_error = [];
  tunnels = [];
  os = no_stream;
  stream_id = 0;
  payload = [];
  req_id = 0;
  status = pos 0;
  resp_body = [];
}

abbrev pub t_register : ℕ
t_register = 0x01

abbrev pub t_register_ack : ℕ
t_register_ack = 0x02

abbrev pub t_ping : ℕ
t_ping = 0x03

abbrev pub t_pong : ℕ
t_pong = 0x04

abbrev pub t_open_stream : ℕ
t_open_stream = 0x05

abbrev pub t_response_head : ℕ
t_response_head = 0x06

abbrev pub t_chunk : ℕ
t_chunk = 0x07

abbrev pub t_end : ℕ
t_end = 0x08

abbrev pub t_abort : ℕ
t_abort = 0x09

abbrev pub t_close_stream : ℕ
t_close_stream = 0x0A

abbrev pub t_mgmt : ℕ
t_mgmt = 0x0B

abbrev pub t_mgmt_resp : ℕ
t_mgmt_resp = 0x0C
