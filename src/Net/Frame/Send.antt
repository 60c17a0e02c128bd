-- ===== src/Net/Frame/Send.antt =====
-- WebSocket::sendFrame: the bytes of a frame. The random bytes of its mask are an argument.
use Prim.Native.Nat.{bit_or}
use samryetha_tunnel.Base.{
  ℕ, zero, suc, ◌*◌, ◌/◌, ◌%◌, ◌^◌, [], ◌∷◌, ◌++◌, length, take, ltb, leb, if◌then◌else◌,
}
use samryetha_tunnel.Base.Text.{Bytes}
use samryetha_tunnel.Base64.{b64encode}
use samryetha_tunnel.Net.Frame.Mask.{mask_payload}

-- `for (i = 7; i >= 0; --i) frame += (len >> (i * 8)) & 0xFF`, for the last `k` values of `i`.
unfoldable pub big_endian : ℕ → ℕ → Bytes
big_endian zero len = []
big_endian (suc k) len = (len / 2 ^ (k * 8) % 2 ^ 8) ∷ big_endian k len

-- The second byte, with the bit MASK, and the length bytes behind it.
unfoldable pub length_bytes : ℕ → Bytes
unfolding big_endian
length_bytes len =
    if ltb len 126
    then bit_or len 0x80 ∷ []
    else if leb len 0xFFFF
    then bit_or 126 0x80 ∷ (len / 2 ^ 8 % 2 ^ 8) ∷ (len % 2 ^ 8) ∷ []
    else bit_or 127 0x80 ∷ big_endian 8 len

-- The first four characters of `randomB64(4)`, for the four bytes that it drew.
unfoldable pub mask_of : Bytes → Bytes
mask_of random = take 4 (b64encode random)

unfoldable pub send_frame : ℕ → Bytes → Bytes → Bytes
send_frame opcode random payload =
    bit_or opcode 0x80
    ∷ (length_bytes (length payload) ++ (mask_of random ++ mask_payload (mask_of random) payload))
