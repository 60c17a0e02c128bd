-- ===== src/Codec/Bounds.antt =====
-- decServer on any binary frame, well formed or not.
use samryetha_tunnel.Base.{
  ℕ, Bool, true, false, zero, suc, ◌^◌, ◌<◌, ◌≤◌, length, arith, ◌==◌, if◌then◌else◌,
}
use samryetha_tunnel.Base.Text.{Bytes}
use samryetha_tunnel.Wire.Bounds.{
  IsThrown, Ends, Stays, >>=-Stays, u8-Stays, u16-Stays, varint-Stays, str-Stays, headers-Stays,
}
use samryetha_tunnel.Wire.Reader
use samryetha_tunnel.Wire.Reader.{Read, ◌>>=◌, pure}
use samryetha_tunnel.Wire.Result.{Result, ok, err}
use samryetha_tunnel.Codec.Types.{
  InMsg, t_register_ack, t_ping, t_open_stream, t_close_stream, t_chunk, t_mgmt_resp,
}
use samryetha_tunnel.Codec.Decode.{
  read_tunnel, read_tunnels, read_register_ack, read_open_stream, read_close_stream, read_chunk,
  read_mgmt_resp, read_body, read_frame, message_of, dec_binary,
}

-- A message, or an exception of R itself: no read past the end, and no loop cut short.
abbrev pub Decoded : Result InMsg → Type 0
Decoded (ok m) = Unit {0}
Decoded (err e) = IsThrown e

module _ (d : Bytes) (small : length d < 2 ^ 63) where
  either :
      (b : Bool) (m m' : Read InMsg)
      → Stays d small m
      → Stays d small m'
      → Stays d small (if b then m else m')
  either true m m' h h' = h
  either false m m' h h' = h'

  seq :
      {A B : Type 0} (m : Read A) (f : A → Read B)
      → Stays d small m
      → ((a : A) → Stays d small (f a))
      → Stays d small (m >>= f)
  seq = >>=-Stays d small

  str_then :
      {B : Type 0} (f : Bytes → Read B)
      → ((s : Bytes) → Stays d small (f s))
      → Stays d small (Reader.str d >>= f)
  str_then f = seq (Reader.str d) f (str-Stays d small)

  u8_then :
      {B : Type 0} (f : ℕ → Read B)
      → ((s : ℕ) → Stays d small (f s))
      → Stays d small (Reader.u8 d >>= f)
  u8_then f = seq (Reader.u8 d) f (u8-Stays d small)

  u16_then :
      {B : Type 0} (f : ℕ → Read B)
      → ((s : ℕ) → Stays d small (f s))
      → Stays d small (Reader.u16 d >>= f)
  u16_then f = seq (Reader.u16 d) f (u16-Stays d small)

  varint_then :
      {B : Type 0} (f : ℕ → Read B)
      → ((s : ℕ) → Stays d small (f s))
      → Stays d small (Reader.varint d >>= f)
  varint_then f = seq (Reader.varint d) f (varint-Stays d small)

  bytes_then :
      {B : Type 0} (f : Bytes → Read B)
      → ((s : Bytes) → Stays d small (f s))
      → Stays d small (Reader.bytes d >>= f)
  unfolding Reader.bytes
  bytes_then f = str_then f

  read_tunnels-Stays : (k : ℕ) → Stays d small (read_tunnels d k)
  unfolding read_tunnels read_tunnel
  read_tunnels-Stays zero = λ i h. h
  read_tunnels-Stays (suc k) =
      seq (read_tunnel d) _
        (str_then _ λ id. u8_then _ λ b. str_then _ λ url. u16_then _ λ port. λ i h. h)
        λ e. seq (read_tunnels d k) _ (read_tunnels-Stays k) λ es. λ i h. h

  read_register_ack-Stays : Stays d small (read_register_ack d)
  unfolding read_register_ack
  read_register_ack-Stays = u8_then _ λ b.
      str_then _
        λ error. u16_then _ λ k. seq (read_tunnels d k) _ (read_tunnels-Stays k) λ ts. λ i h. h

  read_open_stream-Stays : Stays d small (read_open_stream d)
  unfolding read_open_stream
  read_open_stream-Stays = varint_then _ λ sid. str_then _ λ tunnel. u8_then _ λ b.
      str_then _ λ method.
        str_then _ λ path.
          seq (Reader.headers d) _ (headers-Stays d small) λ h. bytes_then _ λ body. λ i h. h

  read_body-Stays : (t : ℕ) → Stays d small (read_body d t)
  unfolding read_body read_close_stream read_chunk read_mgmt_resp
  read_body-Stays t = either (t == t_register_ack) _ _ read_register_ack-Stays (
      either (t == t_ping) _ _ (λ i h. h)
        (either (t == t_open_stream) _ _ read_open_stream-Stays (
          either (t == t_close_stream) _ _ (varint_then _ λ sid. λ i h. h) (
            either (t == t_chunk) _ _ (varint_then _ λ sid. bytes_then _ λ s. λ i h. h) (
              either (t == t_mgmt_resp) _ _
                (varint_then _ λ req. u16_then _ λ status. bytes_then _ λ s. λ i h. h)
                (λ i h. h))))))

  read_frame-Stays : Stays d small (read_frame d)
  unfolding read_frame
  read_frame-Stays = u8_then _ read_body-Stays

  message_of-Decoded :
      (r : Result (InMsg × ℕ)) → Ends (λ m j. j ≤ length d) r → Decoded (message_of r)
  unfolding message_of
  message_of-Decoded (ok (m, i)) h = tt
  message_of-Decoded (err e) h = h

  -- Whatever a frame below 2 ^ 63 bytes holds, decServer returns a message or throws `truncated` or
  -- `varint_overflow`: it reads no byte outside the frame, and no `substr` fails.
  pub dec_binary-Decoded : Decoded (dec_binary d)
  unfolding dec_binary
  dec_binary-Decoded = message_of-Decoded (read_frame d 0) (read_frame-Stays 0 (omega arith))
