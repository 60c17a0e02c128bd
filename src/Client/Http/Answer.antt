-- ===== src/Client/Http/Answer.antt =====
-- Every request gets one answer, and it ends once.
use samryetha_tunnel.Base.{
  ℕ, suc, ◌≡◌, ◌==◌, ◌⊎◌, inl, inr, refl, Bool, true, false, Option, none, some, List, [], ◌∷◌,
  ◌++◌, map, Bool-cases, if◌then◌else◌, arith,
}
use samryetha_tunnel.Base.Dict.{Dict}
use samryetha_tunnel.Base.Int.{ℤ}
use samryetha_tunnel.Base.Text.{Bytes}
use samryetha_tunnel.Codec.Types.{OpenStream}
use samryetha_tunnel.Client.Options.{split_addr}
use samryetha_tunnel.Client.Pool.{LocalPool, acquire}
use samryetha_tunnel.Client.Http.Input.{Input, read_head}
use samryetha_tunnel.Client.Http.Head.{parse_head, request_text}
use samryetha_tunnel.Client.Http.Forward.{
  Answer, head, chunk, stop, abort, Conn, HttpOutcome, finished, retry, read_body, run_http_once,
  Outside, no_response, settle, on_fresh, respond, attempts, handle_http_stream,
}

-- An abort alone, or a head, chunks and an end, all of the stream.
abbrev pub IsAnswer : ℕ → List Answer → Type 0
IsAnswer id sent =
    ((reason : Bytes) × (sent ≡ abort id reason ∷ []))
    ⊎ ((status : ℤ) × (headers : Dict Bytes Bytes) × (body : List Bytes) × (sent
          ≡ head id status headers ∷ (map (chunk id) body ++ stop id ∷ [])))

-- What an outcome sent is an answer.
abbrev IsOutcome : ℕ → HttpOutcome → Type 0
IsOutcome id (finished sent keep) = IsAnswer id sent
IsOutcome id retry = Unit

respond-IsOutcome : (id : ℕ) (h : Option Bytes) (s : Input) → IsOutcome id (respond id h s)
unfolding respond
respond-IsOutcome id none s = tt
respond-IsOutcome id (some h) s =
    let r = parse_head h in inr (r.status, r.info.headers, (read_body r s).sent, refl)

run_http_once-IsOutcome :
    (id : ℕ) (addr : Bytes) (req : OpenStream) (conn : Conn)
    → IsOutcome id (run_http_once id addr req conn)
unfolding run_http_once
run_http_once-IsOutcome id addr req conn =
    go (conn.writes (request_text addr req)) (read_head 65536 [] conn.input)
  where
    one : (h : Option Bytes) (s : Input) → IsOutcome id (respond id h s)
    one h s = respond-IsOutcome id h s

    go :
        (written : Bool) (text : Option Bytes × Input)
        → IsOutcome id (if written then respond id text.0 text.1 else retry)
    go true text = one text.0 text.1
    go false text = tt

settle-IsAnswer :
    (id : ℕ) (addr : Bytes) (sock now : ℕ) (p : LocalPool) (o : HttpOutcome)
    (other : List Answer × LocalPool)
    → IsOutcome id o
    → IsAnswer id other.0
    → IsAnswer id (settle addr sock now p o other).0
unfolding settle
settle-IsAnswer id addr sock now p (finished sent keep) other h g = h
settle-IsAnswer id addr sock now p retry other h g = g

on_fresh-IsAnswer :
    (id : ℕ) (addr : Bytes) (req : OpenStream) (now : ℕ) (p : LocalPool) (c : (ℕ × Conn) ⊎ Bytes)
    → IsAnswer id (on_fresh id addr req now p c).0
unfolding on_fresh
on_fresh-IsAnswer id addr req now p (inr err) = inl (err, refl)
on_fresh-IsAnswer id addr req now p (inl (sock, conn)) =
    settle-IsAnswer id addr sock now p (run_http_once id addr req conn)
      (abort id no_response ∷ [], p) (run_http_once-IsOutcome id addr req conn)
      (inl (no_response, refl))

-- One attempt, where one more follows on the first.
attempts-IsAnswer :
    (left attempt id : ℕ) (addr : Bytes) (req : OpenStream) (out : Outside) (p : LocalPool)
    → ((q : LocalPool)
        → attempt ≡ 0
        → IsAnswer id (attempts left (suc attempt) id addr req out q).0)
    → IsAnswer id (attempts (suc left) attempt id addr req out p).0
unfolding attempts
attempts-IsAnswer left attempt id addr req out p next = go (acquire addr (out.clock attempt).0 p).0
  where
    q : LocalPool
    q = (acquire addr (out.clock attempt).0 p).1

    other : List Answer × LocalPool
    other =
        if attempt == 0
        then attempts left (suc attempt) id addr req out q
        else (abort id no_response ∷ [], q)

    other-IsAnswer : IsAnswer id other.0
    other-IsAnswer = elim (Bool-cases (attempt == 0)) [
      | inl e ↦ rw e (next q (ground arith))
      | inr e ↦ rw e (inl (no_response, refl))
    ]

    go :
        (found : Option ℕ)
        → IsAnswer id (
            let r : List Answer × LocalPool = elim found [
              | some sock ↦
                  settle addr sock
                    (out.clock attempt).1
                    q
                    (run_http_once id addr req (out.kept attempt sock))
                    other
              | none ↦
                  on_fresh id addr req
                    (out.clock attempt).1
                    q
                    (out.fresh attempt (split_addr addr).0 (split_addr addr).1)
            ] in
            r.0)
    go (some sock) =
        settle-IsAnswer id addr sock (out.clock attempt).1 q
          (run_http_once id addr req (out.kept attempt sock)) other
          (run_http_once-IsOutcome id addr req (out.kept attempt sock)) other-IsAnswer
    go none =
        on_fresh-IsAnswer id addr req (out.clock attempt).1 q
          (out.fresh attempt (split_addr addr).0 (split_addr addr).1)

-- A request gets one answer, whatever the local service, the kept connections and the clock do: an abort
-- alone, or one head, then chunks, then one end, all of its own stream.
pub handle_http_stream-IsAnswer :
    (id : ℕ) (addr : Bytes) (req : OpenStream) (out : Outside) (p : LocalPool)
    → IsAnswer id (handle_http_stream id addr req out p).0
unfolding handle_http_stream
handle_http_stream-IsAnswer id addr req out p =
    attempts-IsAnswer 1 0 id addr req out p
      (λ q e. attempts-IsAnswer 0 1 id addr req out q (λ q e. ground arith))
