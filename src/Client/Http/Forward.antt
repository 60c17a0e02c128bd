-- ===== src/Client/Http/Forward.antt =====
-- `runHttpOnce` and `handleHttpStream`: what goes to the server, and the kept connections.
use samryetha_tunnel.Base.{
  ℕ, zero, suc, ◌==◌, Bool, false, ◌&&◌, if◌then◌else◌, Option, none, some, List, [], ◌∷◌, ◌++◌,
  map, ◌⊎◌, inl, inr,
}
use samryetha_tunnel.Base.Dict.{Dict}
use samryetha_tunnel.Base.Int.{ℤ, pos, negsuc}
use samryetha_tunnel.Base.Text.{Bytes}
use samryetha_tunnel.Codec.Types.{OpenStream}
use samryetha_tunnel.Client.Options.{split_addr}
use samryetha_tunnel.Client.Pool.{LocalPool, acquire, release}
use samryetha_tunnel.Client.Http.Input.{Input, calls, read_head}
use samryetha_tunnel.Client.Http.Head.{Response, request_text, parse_head, keeps_alive}
use samryetha_tunnel.Client.Http.Body.{Part, read_length, read_all, read_chunks}

-- What goes to the server for a stream.
pub data Answer : Type 0 where
  head : ℕ → ℤ → Dict Bytes Bytes → Answer
  chunk : ℕ → Bytes → Answer
  stop : ℕ → Answer
  abort : ℕ → Bytes → Answer

-- A local connection: whether it takes the request, and what comes from it.
pub record Conn : Type 0 where
  pub writes : Bytes → Bool
  pub input : Input

-- HttpOutcome, with what was sent, and whether the connection is given back.
pub data HttpOutcome : Type 0 where
  finished : List Answer → Bool → HttpOutcome
  retry : HttpOutcome

-- The body by the head of the response, and whether the connection is still good.
unfoldable pub read_body : Response → Input → Part
unfolding read_chunks read_length read_all
read_body r s =
    if r.info.chunked then read_chunks (suc (calls s)) s else elim r.info.content_length [
      | pos n ↦ read_length (suc n) n s
      | negsuc n ↦
          let all = read_all (suc (calls s)) s in
          record { sent = all.sent; complete = false; rest = all.rest }
    ]

-- The response, from its head on.
unfoldable pub respond : ℕ → Option Bytes → Input → HttpOutcome
unfolding parse_head keeps_alive read_body
respond id none s = retry
respond id (some h) s =
    let r = parse_head h in
    let body = read_body r s in
    finished (head id r.status r.info.headers ∷ (map (chunk id) body.sent ++ stop id ∷ []))
      (keeps_alive r && body.complete)

unfoldable pub run_http_once : ℕ → Bytes → OpenStream → Conn → HttpOutcome
unfolding request_text read_head respond
run_http_once id addr req conn =
    let text = read_head 65536 [] conn.input in
    if conn.writes (request_text addr req) then respond id text.0 text.1 else retry

-- What the threads meet outside: how a kept connection behaves, a new one or why there is none, by the
-- attempt, and the clock when a connection is acquired and when it is given back.
pub record Outside : Type 0 where
  pub kept : ℕ → ℕ → Conn
  pub fresh : ℕ → Bytes → ℤ → (ℕ × Conn) ⊎ Bytes
  pub clock : ℕ → ℕ × ℕ

-- "本地无响应"
abbrev pub no_response : Bytes
no_response =
    230 ∷ 156 ∷ 172 ∷ 229 ∷ 156 ∷ 176 ∷ 230 ∷ 151 ∷ 160 ∷ 229 ∷ 147 ∷ 141 ∷ 229 ∷ 186 ∷ 148 ∷ []

unfoldable pub give_back : Bool → Bytes → ℕ → ℕ → LocalPool → LocalPool
give_back keep addr sock now p = if keep then release addr sock now p else p

-- After an outcome: a good connection is given back, or else comes what a retry does.
unfoldable pub settle :
    Bytes → ℕ → ℕ → LocalPool → HttpOutcome → List Answer × LocalPool → List Answer × LocalPool
unfolding give_back
settle addr sock now p (finished sent keep) other = (sent, give_back keep addr sock now p)
settle addr sock now p retry other = other

unfoldable pub on_fresh :
    ℕ → Bytes → OpenStream → ℕ → LocalPool → (ℕ × Conn) ⊎ Bytes → List Answer × LocalPool
unfolding settle run_http_once
on_fresh id addr req now p (inr err) = (abort id err ∷ [], p)
on_fresh id addr req now p (inl (sock, conn)) =
    settle addr sock now p (run_http_once id addr req conn) (abort id no_response ∷ [], p)

-- The loop of `handleHttpStream`, from `attempt` on, with the attempts left: two at first.
unfoldable pub attempts :
    ℕ → ℕ → ℕ → Bytes → OpenStream → Outside → LocalPool → List Answer × LocalPool
unfolding run_http_once acquire settle on_fresh
attempts zero attempt id addr req out p = ([], p)
attempts (suc left) attempt id addr req out p =
    let found = acquire addr (out.clock attempt).0 p in
    let again = attempts left (suc attempt) id addr req out found.1 in
    let done = (out.clock attempt).1 in
    elim found.0 [
      | some sock ↦
          settle addr sock done found.1 (run_http_once id addr req (out.kept attempt sock))
            (if attempt == 0 then again else (abort id no_response ∷ [], found.1))
      | none ↦
          on_fresh id addr req done found.1
            (out.fresh attempt (split_addr addr).0 (split_addr addr).1)
    ]

unfoldable pub handle_http_stream :
    ℕ → Bytes → OpenStream → Outside → LocalPool → List Answer × LocalPool
unfolding attempts
handle_http_stream id addr req out p = attempts 2 0 id addr req out p
