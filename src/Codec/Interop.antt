-- ===== src/Codec/Interop.antt =====
-- The client reads what the server writes.
use samryetha_tunnel.Base.{
  ℕ, ◌%◌, ◌^◌, ◌<◌, ◌≡◌, refl, sym, Bool, true, false, Option, List, [], ◌∷◌, ◌++◌, length, All,
  arith, append-nil, if◌then◌else◌, map, not, ◌==◌,
}
use samryetha_tunnel.Base.Dict.{Dict, insert_all}
use samryetha_tunnel.Base.Int.{pos}
use samryetha_tunnel.Base.Order.{bytes_order}
use samryetha_tunnel.Base.Text.{Bytes, codes, bytes_eq}
use samryetha_tunnel.Wire.Laws.{
  Reads, Reads-pure, Reads->>=, Short, u8-Reads, u16-Reads, varint-Reads, str-Reads, bytes-Reads,
  header_list-Reads,
}
use samryetha_tunnel.Wire.Reader
use samryetha_tunnel.Wire.Reader.{Read, ◌>>=◌, pure}
use samryetha_tunnel.Wire.Writer
use samryetha_tunnel.Wire.Result.{ok}
use samryetha_tunnel.Codec.Types.{
  InMsg, EffectiveT, blank, t_register_ack, t_ping, t_open_stream, t_close_stream, t_chunk,
  t_mgmt_resp,
}
use samryetha_tunnel.Codec.Decode.{
  u8_proto, read_tunnel, read_tunnels, read_register_ack, read_open_stream, read_close_stream,
  read_chunk, read_mgmt_resp, read_body, read_frame, message_of, dec_binary,
}
use samryetha_tunnel.Codec.Server.{
  EffectiveTunnel, ServerMsg, register_ack, ping, open_stream, close_stream, chunk, mgmt_resp,
  proto_to_u8, or_empty, or_zero, encode_tunnels, encode_server,
}

-- The byte for the protocol knows two of them: all but "tcp" is read as "http".
unfoldable pub tcp_or_http : Bytes → Bytes
tcp_or_http p = if bytes_eq p (codes "tcp") then codes "tcp" else codes "http"

pub tunnel_view : EffectiveTunnel → EffectiveT
tunnel_view t = record {
  id = t.tunnel_id;
  proto = tcp_or_http t.proto;
  url = t.public_url;
  port = pos (or_zero t.public_port);
}

-- The message that the server means, as the client holds it.
unfoldable pub view : ServerMsg → InMsg
view (register_ack good error tunnels) = record blank {
  type = codes "register_ack";
  ack_ok = good;
  ack_error = or_empty error;
  tunnels = map tunnel_view tunnels;
}
view ping = record blank { type = codes "ping" }
view (open_stream sid tunnel proto method path headers body) = record blank {
  type = codes "open_stream";
  os = record {
    stream_id = sid;
    tunnel_id = tunnel;
    proto = tcp_or_http proto;
    method = method;
    path = path;
    headers = insert_all [] headers;
    body = body;
  };
  stream_id = sid;
}
view (close_stream sid) = record blank { type = codes "close_stream"; stream_id = sid }
view (chunk sid bytes) = record blank { type = codes "chunk"; stream_id = sid; payload = bytes }
view (mgmt_resp req status body) = record blank {
  type = codes "mgmt_resp";
  req_id = req;
  status = pos status;
  resp_body = body;
}

abbrev TunnelFits : EffectiveTunnel → Type 0
TunnelFits t =
    (length t.tunnel_id < 2 ^ 64)
    × (length t.public_url < 2 ^ 64)
    × (or_zero t.public_port < 2 ^ 16)

-- The numbers fit their types, and the lists their counts.
abbrev pub Fits : ServerMsg → Type 0
Fits (register_ack good error tunnels) =
    (length (or_empty error) < 2 ^ 64) × (length tunnels < 2 ^ 16) × All TunnelFits tunnels
Fits ping = Unit
Fits (open_stream sid tunnel proto method path headers body) =
    (sid < 2 ^ 64)
    × (length tunnel < 2 ^ 64)
    × (length method < 2 ^ 64)
    × (length path < 2 ^ 64)
    × (length headers < 2 ^ 16)
    × All Short headers
    × (length body < 2 ^ 64)
Fits (close_stream sid) = sid < 2 ^ 64
Fits (chunk sid bytes) = (sid < 2 ^ 64) × (length bytes < 2 ^ 64)
Fits (mgmt_resp req status body) = (req < 2 ^ 64) × (status < 2 ^ 16) × (length body < 2 ^ 64)

u8_proto-proto_to_u8 : (p : Bytes) → u8_proto (proto_to_u8 p) ≡ tcp_or_http p
unfolding u8_proto proto_to_u8 tcp_or_http
u8_proto-proto_to_u8 p = ground arith

proto_to_u8-lt : (p : Bytes) → proto_to_u8 p < 2 ^ 8
unfolding proto_to_u8
proto_to_u8-lt p = ground arith

module _ (d : Bytes) (small : length d < 2 ^ 63) where
  -- One field, and what reads the others.
  str_then :
      {B : Type 0} (s : Bytes) (f : Bytes → Read B) (b : B) (e : Bytes)
      → length s < 2 ^ 64
      → Reads d small (f s) b e
      → Reads d small (Reader.str d >>= f) b (Writer.str s ++ e)
  str_then s f b e h =
      Reads->>= d small (Reader.str d) f s b (Writer.str s) e (str-Reads d small s h)

  u8_then :
      {B : Type 0} (v : ℕ) (f : ℕ → Read B) (b : B) (e : Bytes)
      → v < 2 ^ 8
      → Reads d small (f v) b e
      → Reads d small (Reader.u8 d >>= f) b (Writer.u8 v ++ e)
  u8_then v f b e h = Reads->>= d small (Reader.u8 d) f v b (Writer.u8 v) e (u8-Reads d small v h)

  u16_then :
      {B : Type 0} (v : ℕ) (f : ℕ → Read B) (b : B) (e : Bytes)
      → v < 2 ^ 16
      → Reads d small (f v) b e
      → Reads d small (Reader.u16 d >>= f) b (Writer.u16 v ++ e)
  u16_then v f b e h =
      Reads->>= d small (Reader.u16 d) f v b (Writer.u16 v) e (u16-Reads d small v h)

  varint_then :
      {B : Type 0} (v : ℕ) (f : ℕ → Read B) (b : B) (e : Bytes)
      → v < 2 ^ 64
      → Reads d small (f v) b e
      → Reads d small (Reader.varint d >>= f) b (Writer.varint v ++ e)
  varint_then v f b e h =
      Reads->>= d small (Reader.varint d) f v b (Writer.varint v) e (varint-Reads d small v h)

  -- The last field, and the value made of it.
  pub last_field :
      {A B : Type 0} (m : Read A) (f : A → B) (a : A) (e : Bytes)
      → Reads d small m a e
      → Reads d small (m >>= λ x. pure (f x)) (f a) e
  last_field m f a e h =
      rw append-nil at
        (Reads->>= d small m (λ x. pure (f x)) a (f a) e [] h (Reads-pure d small (f a)))

  read_tunnel-Reads :
      (t : EffectiveTunnel)
      → TunnelFits t
      → Reads d small (read_tunnel d) (tunnel_view t) (
          Writer.str t.tunnel_id
          ++ (Writer.u8 (proto_to_u8 t.proto)
              ++ (Writer.str t.public_url ++ Writer.u16 (or_zero t.public_port))))
  unfolding read_tunnel tunnel_view
  read_tunnel-Reads t h = rw (sym (u8_proto-proto_to_u8 t.proto)) (
      str_then t.tunnel_id _ _ _ h.0 (
        u8_then (proto_to_u8 t.proto) _ _ _ (proto_to_u8-lt t.proto) (
          str_then t.public_url _ _ _ h.1 (
            last_field (Reader.u16 d) _ (or_zero t.public_port) _
              (u16-Reads d small (or_zero t.public_port) h.2)))))

  read_tunnels-Reads :
      (ts : List EffectiveTunnel)
      → All TunnelFits ts
      → Reads d small (read_tunnels d (length ts)) (map tunnel_view ts) (encode_tunnels ts)
  unfolding read_tunnels encode_tunnels
  read_tunnels-Reads [] h = Reads-pure d small []
  read_tunnels-Reads (t ∷ ts) h =
      Reads->>= d small (read_tunnel d) _ (tunnel_view t) _ _ _ (read_tunnel-Reads t h.0) (
        last_field (read_tunnels d (length ts)) (λ es. tunnel_view t ∷ es) (map tunnel_view ts) _
          (read_tunnels-Reads ts h.1))

  flagged-Reads :
      (b : ℕ) (error : Option Bytes) (tunnels : List EffectiveTunnel)
      → b < 2 ^ 8
      → Fits (register_ack (not (b == 0)) error tunnels)
      → Reads d small (read_register_ack d) (view (register_ack (not (b == 0)) error tunnels)) (
          Writer.u8 b
          ++ (Writer.str (or_empty error)
              ++ (Writer.u16 (length tunnels % 2 ^ 16) ++ encode_tunnels tunnels)))
  unfolding read_register_ack view
  flagged-Reads b error tunnels byte h =
      let n : length tunnels % 2 ^ 16 ≡ length tunnels = omega arith in
      rw n (
        u8_then b _ _ _ byte (
          str_then (or_empty error) _ _ _ h.0 (
            u16_then (length tunnels) _ _ _ h.1 (
              last_field (read_tunnels d (length tunnels)) _ (map tunnel_view tunnels) _
                (read_tunnels-Reads tunnels h.2)))))

  register_ack-Reads :
      (good : Bool) (error : Option Bytes) (tunnels : List EffectiveTunnel)
      → Fits (register_ack good error tunnels)
      → Reads d small (read_register_ack d) (view (register_ack good error tunnels)) (
          Writer.u8 (if good then 1 else 0)
          ++ (Writer.str (or_empty error)
              ++ (Writer.u16 (length tunnels % 2 ^ 16) ++ encode_tunnels tunnels)))
  register_ack-Reads true error tunnels h = flagged-Reads 1 error tunnels (omega arith) h
  register_ack-Reads false error tunnels h = flagged-Reads 0 error tunnels (omega arith) h

  open_stream-Reads :
      (sid : ℕ) (tunnel proto method path : Bytes) (headers : Dict Bytes Bytes) (body : Bytes)
      → Fits (open_stream sid tunnel proto method path headers body)
      → Reads d small
          (read_open_stream d)
          (view (open_stream sid tunnel proto method path headers body))
          (Writer.varint sid
            ++ (Writer.str tunnel
                ++ (Writer.u8 (proto_to_u8 proto)
                    ++ (Writer.str method
                        ++ (Writer.str path ++ (Writer.headers headers ++ Writer.bytes body))))))
  unfolding read_open_stream view
  open_stream-Reads sid tunnel proto method path headers body h =
      rw (sym (u8_proto-proto_to_u8 proto)) (
        varint_then sid _ _ _ h.0 (
          str_then tunnel _ _ _ h.1 (
            u8_then (proto_to_u8 proto) _ _ _ (proto_to_u8-lt proto) (
              str_then method _ _ _ h.2 (
                str_then path _ _ _ h.3 (
                  Reads->>= d small (Reader.headers d) _ (insert_all [] headers) _ _ _
                    (header_list-Reads d small headers h.4 h.5)
                    (last_field (Reader.bytes d) _ body _ (bytes-Reads d small body h.6))))))))

  -- The message behind the type byte.
  read_body-Reads :
      (m : ServerMsg)
      → Fits m
      → (t : ℕ) × (e : Bytes) × (t < 2 ^ 8)
        × (encode_server m ≡ Writer.u8 t ++ e)
        × Reads d small (read_body d t) (view m) e
  unfolding encode_server read_body view
  read_body-Reads (register_ack good error tunnels) h =
      (t_register_ack, _, omega arith, refl, register_ack-Reads good error tunnels h)
  read_body-Reads ping h = (t_ping, [], omega arith, sym (append-nil _), Reads-pure d small _)
  read_body-Reads (open_stream sid tunnel proto method path headers body) h = (
    t_open_stream,
    _,
    omega arith,
    refl,
    open_stream-Reads sid tunnel proto method path headers body h,
  )
  read_body-Reads (close_stream sid) h = (
    t_close_stream,
    _,
    omega arith,
    refl,
    unfold read_close_stream in last_field (Reader.varint d) _ sid _ (varint-Reads d small sid h),
  )
  read_body-Reads (chunk sid bytes) h = (
    t_chunk,
    _,
    omega arith,
    refl,
    unfold read_chunk in
        varint_then sid _ _ _ h.0
          (last_field (Reader.bytes d) _ bytes _ (bytes-Reads d small bytes h.1)),
  )
  read_body-Reads (mgmt_resp req status body) h = (
    t_mgmt_resp,
    _,
    omega arith,
    refl,
    unfold read_mgmt_resp in
        varint_then req _ _ _ h.0 (
          u16_then status _ _ _ h.1
            (last_field (Reader.bytes d) _ body _ (bytes-Reads d small body h.2))),
  )

-- What the server encodes, with numbers, counts and lengths that fit their types and a frame below 2 ^ 63
-- bytes, `decServer` decodes to the message that it meant: same kind, same fields, the headers as a map, and
-- any protocol but "tcp" as "http".
pub dec_binary-encode_server :
    (m : ServerMsg)
    → Fits m
    → length (encode_server m) < 2 ^ 63
    → dec_binary (encode_server m) ≡ ok (view m)
unfolding dec_binary read_frame message_of
dec_binary-encode_server m fits small =
    let (t, e, byte, enc, reads) = read_body-Reads (encode_server m) small m fits in
    let whole =
      u8_then (encode_server m) small t (read_body (encode_server m)) (view m) e byte reads 0 []
        (rw append-nil enc, omega arith) in
    rw (whole.1, read_frame)
