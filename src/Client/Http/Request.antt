-- ===== src/Client/Http/Request.antt =====
-- `httpHeader` and `httpRequest`.
use samryetha_tunnel.Base.{
  ℕ, zero, suc, ◌+◌, ◌-◌, ◌==◌, true, false, ◌||◌, if◌then◌else◌, Option, none, some, List, [], ◌∷◌,
  ◌++◌, take, drop, length,
}
use samryetha_tunnel.Base.Int.{ℤ, pos, negsuc, atoi, show_ℕ, is_digit}
use samryetha_tunnel.Base.Text.{Bytes, codes, bytes_eq, is_empty, find_byte, find_bytes, to_lower}
use samryetha_tunnel.Net.Url.{Url, parse_http_url}
use samryetha_tunnel.Client.Http.Input.{Input, read_some, calls, blank_line, ends_with}
use samryetha_tunnel.Client.Http.Head.{crlf, skip_blanks, skip_spaces, word}

pub record HttpResponse : Type 0 where
  pub status : ℤ
  pub reason : Bytes
  pub headers : List (Bytes × Bytes)
  pub body : Bytes

-- The value of the first header of that name, in any case, or nothing.
unfoldable pub http_header : List (Bytes × Bytes) → Bytes → Bytes
unfolding to_lower
http_header [] name = []
http_header ((k, v) ∷ hs) name =
    if bytes_eq (to_lower k) (to_lower name) then v else http_header hs name

unfoldable pub all_lines : List (Bytes × Bytes) → Bytes
all_lines [] = []
all_lines ((k, v) ∷ hs) = k ++ (codes ": " ++ (v ++ (crlf ++ all_lines hs)))

unfoldable pub own_request : Url → Bytes → List (Bytes × Bytes) → Bytes → Bytes
unfolding all_lines
own_request url method hs body =
    method
    ++ (codes " "
        ++ (url.path
            ++ (codes " HTTP/1.1"
                ++ (crlf
                    ++ (codes "Host: "
                        ++ (url.host
                            ++ (crlf
                                ++ (codes "Connection: close"
                                    ++ (crlf
                                        ++ (all_lines hs
                                            ++ ((if is_empty body
                                                  then []
                                                  else codes "Content-Length: "
                                                    ++ (show_ℕ (length body) ++ crlf))
                                                ++ (crlf ++ body))))))))))))

-- The head as far as it comes, with the room left: 65536 bytes at first.
unfoldable pub read_own_head : ℕ → Bytes → Input → Bytes × Input
unfolding read_some ends_with
read_own_head zero head s = (head, s)
read_own_head (suc room) head s = elim (read_some 1 s).0 [
  | [] ↦ (head, (read_some 1 s).1)
  | c ∷ cs ↦ elim (ends_with blank_line (head ++ c ∷ [])) [
    | true ↦ (head ++ c ∷ [], (read_some 1 s).1)
    | false ↦ read_own_head room (head ++ c ∷ []) (read_some 1 s).1
  ]
]

unfoldable pub skip_digits : Bytes → Bytes
skip_digits [] = []
skip_digits (c ∷ cs) = let rest = skip_digits cs in if is_digit c then rest else c ∷ cs

-- `std::getline(ls, out.reason)` behind the status, without its first space. Where no number stands, the
-- stream has failed and the line stays empty.
unfoldable pub reason_of : Bytes → Bytes
unfolding skip_digits skip_spaces
reason_of text =
    let number = skip_spaces text in
    let digits : Bytes = elim number [
      | [] ↦ []
      | c ∷ cs ↦ if c == b'-' || c == b'+' then cs else c ∷ cs
    ] in
    elim digits [
      | [] ↦ []
      | c ∷ cs ↦
          if is_digit c
          then elim (skip_digits cs) [ [] ↦ [] | d ∷ ds ↦ if d == 32 then ds else d ∷ ds ]
          else []
    ]

unfoldable pub header_of : Bytes → List (Bytes × Bytes)
unfolding skip_blanks
header_of line = elim (find_byte b':' line) [
  | none ↦ []
  | some colon ↦ (take colon line, skip_blanks (drop (suc colon) line)) ∷ []
]

-- The header lines, on fuel for them.
unfoldable pub headers_of : ℕ → Bytes → List (Bytes × Bytes)
unfolding header_of
headers_of zero text = []
headers_of (suc fuel) text = elim (find_bytes crlf text) [
  | none ↦ []
  | some zero ↦ []
  | some (suc e) ↦ header_of (take (suc e) text) ++ headers_of fuel (drop (suc e + 2) text)
]

-- Up to `left` bytes in one buffer, fuel for the calls.
unfoldable pub read_into : ℕ → ℕ → Input → Bytes
unfolding read_some
read_into zero left s = []
read_into (suc fuel) zero s = []
read_into (suc fuel) (suc left) s = elim (read_some (suc left) s).0 [
  | [] ↦ []
  | c ∷ cs ↦ (c ∷ cs) ++ read_into fuel (suc left - length (c ∷ cs)) (read_some (suc left) s).1
]

unfoldable pub read_to_end : ℕ → Input → Bytes
unfolding read_some
read_to_end zero s = []
read_to_end (suc fuel) s = elim (read_some 4096 s).0 [
  | [] ↦ []
  | c ∷ cs ↦ (c ∷ cs) ++ read_to_end fuel (read_some 4096 s).1
]

-- `failed`: `false` is returned. `thrown`: a negative length, which `resize` refuses.
pub data Requested : Type 0 where
  failed thrown : Requested
  responded : HttpResponse → Requested

unfoldable pub read_response : Input → Requested
unfolding read_own_head reason_of headers_of http_header read_into read_to_end word skip_spaces
read_response input =
    let text = read_own_head 65536 [] input in
    elim (find_bytes crlf text.0) [
      | none ↦ failed
      | some e ↦
          let first = word (skip_spaces (take e text.0)) in
          let hs = headers_of (length text.0) (drop (e + 2) text.0) in
          let size = http_header hs (codes "Content-Length") in
          let response : Bytes → HttpResponse = λ body. record {
            status = atoi first.1;
            reason = reason_of first.1;
            headers = hs;
            body = body;
          } in
          if is_empty size
          then responded (response (read_to_end (suc (calls text.1)) text.1))
          else elim (atoi size) [
            | pos n ↦ responded (response (read_into (suc n) n text.1))
            | negsuc n ↦ thrown
          ]
    ]

-- The network: the connection to a host, encrypted or not, which takes the request and gives its input,
-- if it comes about.
unfoldable pub http_request :
    (Url → Bytes → Option Input) → Bytes → Bytes → List (Bytes × Bytes) → Bytes → Requested
unfolding parse_http_url own_request read_response
http_request network url method hs body = elim (parse_http_url url) [
  | none ↦ failed
  | some u ↦ elim (network u (own_request u method hs body)) [
    | none ↦ failed
    | some input ↦ read_response input
  ]
]
