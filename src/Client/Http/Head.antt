-- ===== src/Client/Http/Head.antt =====
-- The text of the request, and what `runHttpOnce` reads in the head of the response.
use samryetha_tunnel.Base.{
  min, ◌^◌, ◌-◌, ℕ, zero, suc, ◌+◌, ◌==◌, Bool, true, false, not, ◌&&◌, ◌||◌, if◌then◌else◌, none,
  some, List, [], ◌∷◌, ◌++◌, take, drop, length,
}
use samryetha_tunnel.Base.Dict.{Dict, insert}
use samryetha_tunnel.Base.Order.{bytes_order}
use samryetha_tunnel.Base.Int.{ℤ, pos, negsuc, atoi, show_ℕ, is_space}
use samryetha_tunnel.Base.Text.{
  Bytes, codes, bytes_eq, is_empty, find_byte, find_bytes, starts_with, contains, to_lower,
}
use samryetha_tunnel.Codec.Types.{OpenStream}
use samryetha_tunnel.Client.Options.{is_one_of}

abbrev pub crlf : Bytes
crlf = 13 ∷ 10 ∷ []

-- The headers that the client writes itself or does not pass on.
unfoldable pub is_own : Bytes → Bool
unfolding is_one_of to_lower
is_own k = is_one_of (to_lower k) (
    codes "host"
    ∷ codes "content-length"
    ∷ codes "connection"
    ∷ codes "transfer-encoding"
    ∷ codes "accept-encoding"
    ∷ [])

unfoldable pub header_lines : List (Bytes × Bytes) → Bytes
unfolding is_own
header_lines [] = []
header_lines ((k, v) ∷ kvs) =
    let rest = header_lines kvs in
    if is_own k then rest else k ++ (codes ": " ++ (v ++ (crlf ++ rest)))

unfoldable pub request_text : Bytes → OpenStream → Bytes
unfolding header_lines
request_text addr req =
    req.method
    ++ (codes " "
        ++ (req.path
            ++ (codes " HTTP/1.1"
                ++ (crlf
                    ++ (codes "Host: "
                        ++ (addr
                            ++ (crlf
                                ++ (codes "Connection: keep-alive"
                                    ++ (crlf
                                        ++ (header_lines req.headers
                                            ++ ((if is_empty req.body
                                                  then []
                                                  else codes "Content-Length: "
                                                    ++ (show_ℕ (length req.body) ++ crlf))
                                                ++ (crlf ++ req.body))))))))))))

-- What the loop over the header lines keeps.
pub record HeadInfo : Type 0 where
  pub headers : Dict Bytes Bytes
  pub chunked : Bool
  pub conn_close : Bool
  pub explicit_keep_alive : Bool
  pub content_length : ℤ

abbrev pub no_info : HeadInfo
no_info = record {
  headers = [];
  chunked = false;
  conn_close = false;
  explicit_keep_alive = false;
  content_length = negsuc 0;
}

unfoldable pub skip_blanks : Bytes → Bytes
skip_blanks [] = []
skip_blanks (c ∷ cs) = let rest = skip_blanks cs in if c == 32 || c == 9 then rest else c ∷ cs

-- One header, its name also in lower case.
unfoldable pub on_header : Bytes → Bytes → Bytes → HeadInfo → HeadInfo
on_header k lk v i = record {
  headers =
      if is_one_of lk (codes "content-length" ∷ codes "connection" ∷ codes "transfer-encoding" ∷ [])
      then i.headers
      else insert k v i.headers;
  chunked = i.chunked || (bytes_eq lk (codes "transfer-encoding") && contains (codes "chunked") v);
  conn_close = i.conn_close || (bytes_eq lk (codes "connection") && contains (codes "close") v);
  explicit_keep_alive =
      i.explicit_keep_alive
      || (bytes_eq lk (codes "connection") && contains (codes "keep-alive") v);
  content_length = if bytes_eq lk (codes "content-length") then atoi v else i.content_length;
}

unfoldable pub on_line : Bytes → HeadInfo → HeadInfo
unfolding on_header skip_blanks
on_line line i = elim (find_byte b':' line) [
  | none ↦ i
  | some colon ↦
      let k = take colon line in on_header k (to_lower k) (skip_blanks (drop (suc colon) line)) i
]

-- The lines behind the status line, on fuel for them.
unfoldable pub on_lines : ℕ → Bytes → HeadInfo → HeadInfo
unfolding on_line
on_lines zero text i = i
on_lines (suc fuel) text i = elim (find_bytes crlf text) [
  | none ↦ i
  | some zero ↦ i
  | some (suc e) ↦ on_lines fuel (drop (suc e + 2) text) (on_line (take (suc e) text) i)
]

-- `ls >> http`: the word, and what follows it.
unfoldable pub word : Bytes → Bytes × Bytes
word [] = ([], [])
word (c ∷ cs) = let rest = word cs in if is_space c then ([], c ∷ cs) else (c ∷ rest.0, rest.1)

unfoldable pub skip_spaces : Bytes → Bytes
skip_spaces [] = []
skip_spaces (c ∷ cs) = let rest = skip_spaces cs in if is_space c then rest else c ∷ cs

pub record Response : Type 0 where
  pub http : Bytes
  pub status : ℤ
  pub info : HeadInfo

-- What `>>` leaves in an int: numbers outside its range become the last one within it.
unfoldable pub within_int : ℤ → ℤ
within_int (pos n) = pos (min n (2 ^ 31 - 1))
within_int (negsuc n) = negsuc (min n (2 ^ 31 - 1))

unfoldable pub parse_head : Bytes → Response
unfolding on_lines word skip_spaces within_int
parse_head head = elim (find_bytes crlf head) [
  | none ↦ record { http = []; status = pos 0; info = no_info }
  | some e ↦
      let first = word (skip_spaces (take e head)) in
      record {
        http = first.0;
        status = within_int (atoi first.1);
        info = on_lines (length head) (drop (e + 2) head) no_info;
      }
]

-- The end of the message can be told, and the service keeps the connection.
unfoldable pub keeps_alive : Response → Bool
keeps_alive r =
    not r.info.conn_close
    && ((r.info.chunked || elim r.info.content_length [ pos n ↦ true | negsuc n ↦ false ])
        && (starts_with (codes "HTTP/1.1") r.http || r.info.explicit_keep_alive))
