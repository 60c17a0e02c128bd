-- ===== src/Client/Mgmt/Awaited.antt =====
-- Which message ends the wait.
use samryetha_tunnel.Base.Int.{ℤ, pos, negsuc}
use samryetha_tunnel.Base.{
  ◌≤◌, ◌<◌, ◌==◌, leb, ◌∙◌, false, ◌⊎◌, ℕ, suc, ◌+◌, ◌≡◌, refl, true, false, Bool-cases, inl, inr,
  some, List, [], ◌∷◌, ◌++◌, All, if◌then◌else◌, arith,
}
use samryetha_tunnel.Base.Text.{codes, bytes_eq, bytes_eq→eq}
use samryetha_tunnel.Wire.Result.{Result, ok, err}
use samryetha_tunnel.Codec.Types.{InMsg}
use samryetha_tunnel.Client.Mgmt.{is_reply, reply_code, await_reply}

-- The server's answer to request 1, which is the one that was sent.
abbrev pub IsAnswer : InMsg → Type 0
IsAnswer m = (m.type ≡ codes "mgmt_resp") × (m.req_id ≡ 1)

-- A frame that is no answer to request 1: malformed, a ping or any other message.
abbrev pub IsOther : Result InMsg → Type 0
IsOther (err e) = Unit
IsOther (ok m) = ¬ IsAnswer m

-- The exit code of a status: 2 for an error of HTTP, otherwise 0.
abbrev pub IsExit : ℤ → ℕ → Type 0
IsExit status code =
    ((n : ℕ) × (status ≡ pos n) × (400 ≤ n) × (code ≡ 2))
    ⊎ (((n : ℕ) → status ≡ pos n → n < 400) × (code ≡ 0))

unfoldable pub pings : List (Result InMsg) → ℕ
pings [] = 0
pings (err e ∷ ms) = pings ms
pings (ok m ∷ ms) = (if bytes_eq m.type (codes "ping") then 1 else 0) + pings ms

is_reply-other : (m : InMsg) → ¬ IsAnswer m → is_reply m ≡ false
unfolding is_reply
is_reply-other m other = elim (Bool-cases (bytes_eq m.type (codes "mgmt_resp"))) [
  | inl e ↦ elim (Bool-cases (m.req_id == 1)) [
    | inl h ↦ absurd (other (bytes_eq→eq m.type (codes "mgmt_resp") e, ground arith))
    | inr h ↦ ground arith
  ]
  | inr e ↦ ground arith
]

is_reply-answer : (m : InMsg) → IsAnswer m → is_reply m ≡ true
unfolding is_reply bytes_eq
is_reply-answer m (t, r) = rw (t, r) refl

not_ping : (m : InMsg) → IsAnswer m → bytes_eq m.type (codes "ping") ≡ false
unfolding bytes_eq
not_ping m (t, r) = rw t refl

reply_code-IsExit : (status : ℤ) → IsExit status (reply_code status)
unfolding reply_code
reply_code-IsExit (pos n) = elim (Bool-cases (leb 400 n)) [
  | inl e ↦ rw e (inl (n, refl, ground arith, refl))
  | inr e ↦ rw e (inr (λ k h. ground arith, refl))
]
reply_code-IsExit (negsuc n) = inr (λ k h. ground arith, refl)

-- Up to the first answer each ping is answered, and everything else is passed over.
passed_over :
    (before after : List (Result InMsg)) (pongs : ℕ)
    → All IsOther before
    → await_reply (before ++ after) pongs ≡ await_reply after (pongs + pings before)
unfolding await_reply pings
passed_over [] after pongs h = let none_more : pongs + 0 ≡ pongs = omega arith in rw none_more refl
passed_over (err e ∷ ms) after pongs h = passed_over ms after pongs h.1
passed_over (ok x ∷ ms) after pongs h = elim (Bool-cases (bytes_eq x.type (codes "ping"))) [
  | inl e ↦
      let moved : pongs + (1 + pings ms) ≡ suc pongs + pings ms = omega arith in
      rw (e, await_reply, pings) (rw moved (passed_over ms after (suc pongs) h.1))
  | inr e ↦
      let same : pongs + (0 + pings ms) ≡ pongs + pings ms = omega arith in
      rw (e, await_reply, pings) (rw (is_reply-other x h.0, same) (passed_over ms after pongs h.1))
]

-- The first message of type `mgmt_resp` with the number 1 ends the wait, whatever came before it, malformed
-- frames and answers to other requests included: each ping before it has been answered, its body is passed
-- on, and the exit code is 2 if its status is 400 or more, else 0.
pub await_reply-append :
    (before after : List (Result InMsg)) (m : InMsg) (pongs : ℕ)
    → All IsOther before
    → IsAnswer m
    → (code : ℕ) × IsExit m.status code
      × (await_reply (before ++ ok m ∷ after) pongs
          ≡ record { code = code; pongs = pongs + pings before; body = some m.resp_body })
unfolding await_reply
await_reply-append before after m pongs h a = (
  reply_code m.status,
  reply_code-IsExit m.status,
  passed_over before (ok m ∷ after) pongs h
      ∙ rw (not_ping m a, await_reply) (rw (is_reply-answer m a) refl),
)
