-- ===== src/Net/Url.antt =====
-- Addresses (`parseWsUrl`, and the start of `httpRequest`).
use samryetha_tunnel.Base.{ℕ, suc, Bool, true, false, if◌then◌else◌, Option, none, some, take, drop}
use samryetha_tunnel.Base.Int.{ℤ, pos, atoi}
use samryetha_tunnel.Base.Text.{Bytes, codes, is_empty, find_byte, rfind_byte, starts_with}

pub record Url : Type 0 where
  pub tls : Bool
  pub host : Bytes
  pub port : ℤ
  pub path : Bytes

-- What stands before the path, and the path.
unfoldable pub split_path : Bytes → Bytes × Bytes
split_path rest = elim (find_byte b'/' rest) [
  | none ↦ (rest, codes "/")
  | some slash ↦ (take slash rest, drop slash rest)
]

-- The host and the port, which is `port` where none is named.
unfoldable pub split_host : ℤ → Bytes → Bytes × ℤ
split_host port hp = elim (rfind_byte b':' hp) [
  | none ↦ (hp, port)
  | some colon ↦ (take colon hp, atoi (drop (suc colon) hp))
]

-- The address behind its scheme.
unfoldable pub after_scheme : Bool → ℕ → Bytes → Url
unfolding split_path split_host
after_scheme tls port rest =
    let parts = split_path rest in
    let place = split_host (pos port) parts.0 in
    record { tls = tls; host = place.0; port = place.1; path = parts.1 }

unfoldable pub parse_ws_url : Bytes → Option Url
unfolding after_scheme
parse_ws_url url =
    let found =
      if starts_with (codes "wss://") url
      then some (after_scheme true 443 (drop 6 url))
      else if starts_with (codes "ws://") url
      then some (after_scheme false 80 (drop 5 url))
      else none in
    elim found [ none ↦ none | some u ↦ if is_empty u.host then none else some u ]

unfoldable pub parse_http_url : Bytes → Option Url
unfolding after_scheme
parse_http_url url =
    if starts_with (codes "https://") url
    then some (after_scheme true 443 (drop 8 url))
    else if starts_with (codes "http://") url
    then some (after_scheme false 80 (drop 7 url))
    else none
