-- ===== src/Net/Handshake.antt =====
-- WebSocket::connect, over any way to read exactly `n` bytes.
pub mod Answer
use samryetha_tunnel.Base.{
  ℕ, zero, suc, ◌-◌, Bool, true, false, ◌&&◌, Option, none, some, [], ◌∷◌, ◌++◌, if◌then◌else◌, leb,
  length, take, drop,
}
use samryetha_tunnel.Base.Int.{ℤ, show_ℤ}
use samryetha_tunnel.Base.Text.{Bytes, codes, bytes_eq, is_empty, find_bytes, contains}
use samryetha_tunnel.Net.Url.{Url, parse_ws_url}

abbrev crlf : Bytes
crlf = 13 ∷ 10 ∷ []

-- The error of each call, `none` where it succeeds, and whether `writeAll` does.
pub record Transport : Type 0 where
  pub connect_to : Bytes → ℤ → Option Bytes
  pub start_tls : Bytes → Option Bytes
  pub write_all : Bytes → Bool

-- The error; or the connection is open, with what is left to read, `none` where reading has failed.
pub data Outcome (S : Type 0) : Type 0 where
  failed : Bytes → Outcome S
  opened : Option S → Outcome S

unfoldable pub handshake_text : Bytes → Bytes → Url → Bytes
unfolding is_empty show_ℤ
handshake_text key token u =
    codes "GET "
    ++ (u.path
        ++ (codes " HTTP/1.1"
            ++ (crlf
                ++ (codes "Host: "
                    ++ (u.host
                        ++ (codes ":"
                            ++ (show_ℤ u.port
                                ++ (crlf
                                    ++ (codes "Upgrade: websocket"
                                        ++ (crlf
                                            ++ (codes "Connection: Upgrade"
                                                ++ (crlf
                                                    ++ (codes "Sec-WebSocket-Key: "
                                                        ++ (key
                                                            ++ (crlf
                                                            ++ (codes "Sec-WebSocket-Version: 13"
                                                            ++ (crlf
                                                            ++ ((if is_empty token
                                                            then []
                                                            else codes "Authorization: Bearer "
                                                            ++ (token ++ crlf))
                                                            ++ crlf))))))))))))))))))

-- `head.size() >= 4 && head.compare(head.size() - 4, 4, "\r\n\r\n") == 0`
unfoldable pub is_whole_head : Bytes → Bool
unfolding bytes_eq
is_whole_head head = leb 4 (length head) && bytes_eq (drop (length head - 4) head) (crlf ++ crlf)

-- `head.substr(0, head.find("\r\n"))`
unfoldable pub first_line : Bytes → Bytes
unfolding find_bytes
first_line head = elim (find_bytes crlf head) [ none ↦ head | some i ↦ take i head ]

module _ {S : Type 0} (read : ℕ → S → Option (Bytes × S)) where
  -- The loop for the head, with the room left: 16384 bytes at first.
  unfoldable pub read_head : ℕ → Bytes → S → Bytes × Option S
  unfolding is_whole_head
  read_head zero head s = (head, some s)
  read_head (suc room) head s = elim (read 1 s) [
    | none ↦ (head, none)
    | some (c, t) ↦ elim (is_whole_head (head ++ c)) [
      | true ↦ (head ++ c, some t)
      | false ↦ read_head room (head ++ c) t
    ]
  ]

  unfoldable pub judge : Bytes × Option S → Outcome S
  unfolding contains first_line
  judge (head, rest) =
      if contains (codes " 101") head
      then Outcome.opened rest
      else Outcome.failed (codes "握手失败: " ++ first_line head)

  unfoldable pub shake_hands : Transport → Bytes → Url → S → Outcome S
  unfolding handshake_text read_head judge
  shake_hands net request u s =
      if net.write_all request
      then judge (read_head 16384 [] s)
      else Outcome.failed (codes "发送握手失败")

  unfoldable pub begin_tls : Transport → Bytes → Url → S → Outcome S
  unfolding shake_hands
  begin_tls net request u s =
      if u.tls
      then elim (net.start_tls u.host) [
        | some e ↦ Outcome.failed e
        | none ↦ shake_hands net request u s
      ]
      else shake_hands net request u s

  -- `key` is the random key, and `s` what the server sends.
  unfoldable pub connect : Transport → Bytes → Bytes → Bytes → S → Outcome S
  unfolding parse_ws_url handshake_text begin_tls
  connect net key url token s = elim (parse_ws_url url) [
    | none ↦ Outcome.failed (codes "URL 非法: " ++ url)
    | some u ↦ elim (net.connect_to u.host u.port) [
      | some e ↦ Outcome.failed e
      | none ↦ begin_tls net (handshake_text key token u) u s
    ]
  ]
