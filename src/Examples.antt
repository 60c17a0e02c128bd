-- ===== src/Examples.antt =====
-- The theorems at work on small inputs.
use Prim.Native.Nat.{bit_xor}
use samryetha_tunnel.Base.{
  ◌%◌, ℕ, ◌+◌, ◌*◌, ◌/◌, ◌≡◌, refl, true, false, none, some, List, [], ◌∷◌, ◌++◌, drop, length,
  arith,
}
use samryetha_tunnel.Base.Dict.{Dict}
use samryetha_tunnel.Base.Order.{nat_order, bytes_order, bytes_less}
use samryetha_tunnel.Base.Int.{pos}
use samryetha_tunnel.Base.Text.{Bytes, codes, starts_with, find_bytes, contains}
use samryetha_tunnel.Base64.{b64encode, b64decode}
use samryetha_tunnel.Base64.Laws.{
  b64decode-b64encode, length-b64encode, in_alphabet, b64decode-in_alphabet,
}
use samryetha_tunnel.Wire.Reader
use samryetha_tunnel.Wire.Writer
use samryetha_tunnel.Wire.Result.{ok}
use samryetha_tunnel.Wire.RoundTrip.{varint_read_back, headers_read_back}
use samryetha_tunnel.Codec.Decode.{dec_binary}
use samryetha_tunnel.Codec.Bounds.{Decoded, dec_binary-Decoded}
use samryetha_tunnel.Codec.Server.{ServerMsg, mgmt_resp, encode_server}
use samryetha_tunnel.Codec.Interop.{view, dec_binary-encode_server}
use samryetha_tunnel.Net.Socket.{arrive, timeout, read_exact}
use samryetha_tunnel.Net.Socket.Laws.{incoming, read_plain, flat, read_exact-flat}
use samryetha_tunnel.Net.Url.{Url}
use samryetha_tunnel.Net.Handshake.{Transport}
use samryetha_tunnel.Net.Frame.Mask.{nth, mask_payload, nth-mask_payload}
use samryetha_tunnel.Net.Frame.Send.{send_frame}
use samryetha_tunnel.Net.Frame.Receive.{Progress, received, recv_message, read_frame}
use samryetha_tunnel.Net.Frame.RoundTrip.{read_frame-send_frame}
use samryetha_tunnel.Net.Frame.Reassemble.{Sent, wire, wires, ahead}
use samryetha_tunnel.Net.Frame.Chunks.{plain_outcome, recv_message-events}

-- Base64.
b64decode-b64encode_example : b64decode (b64encode (1 ∷ 2 ∷ 255 ∷ 0 ∷ [])) ≡ 1 ∷ 2 ∷ 255 ∷ 0 ∷ []
b64decode-b64encode_example = b64decode-b64encode (1 ∷ 2 ∷ 255 ∷ 0 ∷ []) (ground arith)

length-b64encode_example : length (b64encode (codes "four")) ≡ (length (codes "four") + 2) / 3 * 4
length-b64encode_example = length-b64encode (codes "four")

b64decode-in_alphabet_example :
    b64decode (codes "aG\nk=") ≡ b64decode (in_alphabet (codes "aG\nk="))
b64decode-in_alphabet_example = b64decode-in_alphabet (codes "aG\nk=")

-- The wire.
varint_read_back_example :
    (j : ℕ) × (Reader.varint (Writer.varint 300 ++ 7 ∷ []) 0 ≡ ok (300, j))
    × (drop j (Writer.varint 300 ++ 7 ∷ []) ≡ 7 ∷ [])
unfolding Writer.varint
varint_read_back_example = varint_read_back 300 (7 ∷ []) (omega arith) (omega arith)

abbrev two_headers : Dict Bytes Bytes
two_headers = (codes "a", codes "1") ∷ (codes "b", []) ∷ []

headers_read_back_example :
    (j : ℕ) × (Reader.headers (Writer.headers two_headers ++ 9 ∷ []) 0 ≡ ok (two_headers, j))
    × (drop j (Writer.headers two_headers ++ 9 ∷ []) ≡ 9 ∷ [])
unfolding Writer.headers Writer.varint bytes_less Writer.u16 Writer.str
headers_read_back_example =
    headers_read_back two_headers (9 ∷ []) ((refl, tt), (tt, tt)) (omega arith) (ground arith)
      (omega arith)

-- The frames of the server.
abbrev an_answer : ServerMsg
an_answer = mgmt_resp 300 404 (codes "no")

dec_binary-encode_server_example : dec_binary (encode_server an_answer) ≡ ok (view an_answer)
unfolding encode_server Writer.varint Writer.u8 Writer.u16 Writer.bytes
dec_binary-encode_server_example = dec_binary-encode_server an_answer (ground arith) (omega arith)

dec_binary-Decoded_example : Decoded (dec_binary (0x13 ∷ 0x80 ∷ []))
dec_binary-Decoded_example = dec_binary-Decoded (0x13 ∷ 0x80 ∷ []) (omega arith)

-- WebSocket frames.
nth-mask_payload_example :
    (length (mask_payload (1 ∷ 2 ∷ 3 ∷ 4 ∷ []) (codes "hello")) ≡ 5)
    × (nth (mask_payload (1 ∷ 2 ∷ 3 ∷ 4 ∷ []) (codes "hello")) 4
        ≡ bit_xor (nth (codes "hello") 4) (nth (1 ∷ 2 ∷ 3 ∷ 4 ∷ []) (4 % 4)))
nth-mask_payload_example = nth-mask_payload (1 ∷ 2 ∷ 3 ∷ 4 ∷ []) (codes "hello") 4 (omega arith)

read_exact-flat_example :
    flat (read_exact 3 (arrive (1 ∷ 2 ∷ []) ∷ timeout false ∷ arrive (3 ∷ 4 ∷ []) ∷ []))
    ≡ read_plain 3 (incoming (arrive (1 ∷ 2 ∷ []) ∷ timeout false ∷ arrive (3 ∷ 4 ∷ []) ∷ []))
read_exact-flat_example =
    read_exact-flat 3 (arrive (1 ∷ 2 ∷ []) ∷ timeout false ∷ arrive (3 ∷ 4 ∷ []) ∷ [])

read_frame-send_frame_example :
    read_frame read_plain (send_frame 2 (9 ∷ 8 ∷ 7 ∷ 6 ∷ []) (codes "hi") ++ 5 ∷ [])
    ≡ some (
      record {
        fin = true;
        opcode = 2;
        payload = codes "hi";
        size = length (send_frame 2 (9 ∷ 8 ∷ 7 ∷ 6 ∷ []) (codes "hi"));
      },
      5 ∷ [],
    )
read_frame-send_frame_example =
    read_frame-send_frame 2 9 8 7 6 (codes "hi") (5 ∷ []) (omega arith) (ground arith) (omega arith)

abbrev fresh_start : Progress
fresh_start = record { message = []; is_bin = false; have_op = false; pongs = []; rx_bytes = 0 }

-- A fragment and a ping; the end of the message.
abbrev first_part : List Sent
first_part =
    record { fin = false; opcode = 2; payload = codes "he" }
    ∷ record { fin = true; opcode = 9; payload = codes "p" }
    ∷ []

abbrev last_part : Sent
last_part = record { fin = true; opcode = 0; payload = codes "y" }

recv_message-events_example :
    plain_outcome (
      recv_message read_exact 3 fresh_start (
        arrive (2 ∷ [])
        ∷ timeout false
        ∷ arrive (drop 1 (wires (first_part ++ last_part ∷ [])))
        ∷ []))
    ≡ received (ahead fresh_start (first_part ++ last_part ∷ [])) []
unfolding wires wire
recv_message-events_example =
    recv_message-events first_part 3 fresh_start last_part []
      (arrive (2 ∷ [])
        ∷ timeout false
        ∷ arrive (drop 1 (wires (first_part ++ last_part ∷ [])))
        ∷ [])
      refl (ground arith) (ground arith) (ground arith) refl refl (omega arith)

-- A server that refuses the handshake, of whose answer the length is 101.
abbrev refusal : Bytes
refusal =
    codes "HTTP/1.1 403 No" ++ (13 ∷ 10 ∷ (codes "Content-Length: 101" ++ (13 ∷ 10 ∷ 13 ∷ 10 ∷ [])))

abbrev working : Transport
working = record {
  connect_to = λ host port. none;
  start_tls = λ host. none;
  write_all = λ text. true;
}

abbrev server : Url
server = record { tls = false; host = codes "h"; port = pos 80; path = codes "/" }

-- It is taken for a connection.
refusal_test : contains (codes " 101") refusal ≡ true
unfolding contains find_bytes starts_with
refusal_test = refl
