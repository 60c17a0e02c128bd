-- ===== src/Wire/RoundTrip.antt =====
-- What stands at the front of a frame is read back.
use samryetha_tunnel.Base.{ℕ, ◌^◌, ◌<◌, ◌≡◌, refl, ◌++◌, length, drop, All, arith}
use samryetha_tunnel.Base.Dict.{Dict, Sorted}
use samryetha_tunnel.Base.Order.{bytes_order}
use samryetha_tunnel.Base.Text.{Bytes}
use samryetha_tunnel.Wire.Laws.{Short, varint-Reads, headers-Reads}
use samryetha_tunnel.Wire.Reader
use samryetha_tunnel.Wire.Result.{ok}
use samryetha_tunnel.Wire.Writer

-- A number below 2 ^ 64 at the front of a frame below 2 ^ 63 bytes is read back from its varint, and what
-- follows it is left to be read.
pub varint_read_back :
    (v : ℕ) (r : Bytes)
    → v < 2 ^ 64
    → length (Writer.varint v ++ r) < 2 ^ 63
    → (j : ℕ) × (Reader.varint (Writer.varint v ++ r) 0 ≡ ok (v, j))
      × (drop j (Writer.varint v ++ r) ≡ r)
varint_read_back v r h small =
    let (j, p, k) = varint-Reads (Writer.varint v ++ r) small v h 0 r (refl, omega arith) in
    (j, p, k.0)

-- A map of fewer than 2 ^ 16 headers, in the order of their names, each name and value below 2 ^ 64 bytes,
-- at the front of a frame below 2 ^ 63 bytes, is read back, and what follows it is left to be read.
pub headers_read_back :
    (h : Dict Bytes Bytes) (r : Bytes)
    → Sorted h
    → length h < 2 ^ 16
    → All Short h
    → length (Writer.headers h ++ r) < 2 ^ 63
    → (j : ℕ) × (Reader.headers (Writer.headers h ++ r) 0 ≡ ok (h, j))
      × (drop j (Writer.headers h ++ r) ≡ r)
headers_read_back h r sorted few short small =
    let (j, p, k) =
      headers-Reads (Writer.headers h ++ r) small h sorted few short 0 r (refl, omega arith) in
    (j, p, k.0)
