-- ===== src/Client/Mgmt.antt =====
-- A management request over the control channel (`wsMgmt`).
pub mod Awaited
use samryetha_tunnel.Base.{
  ℕ, suc, ◌+◌, ◌==◌, leb, Bool, true, false, ◌&&◌, if◌then◌else◌, Option, none, some, List, [], ◌∷◌,
  ◌++◌,
}
use samryetha_tunnel.Base.Int.{ℤ, pos, negsuc}
use samryetha_tunnel.Base.Text.{Bytes, codes, bytes_eq}
use samryetha_tunnel.Wire.Result.{Result, ok, err}
use samryetha_tunnel.Codec.Types.{InMsg}

-- What `wsMgmt` returns, how many pongs it sent, and the body of the answer.
pub record Reply : Type 0 where
  pub code : ℕ
  pub pongs : ℕ
  pub body : Option Bytes

unfoldable pub is_reply : InMsg → Bool
is_reply m = bytes_eq m.type (codes "mgmt_resp") && m.req_id == 1

-- `m.status >= 400 ? 2 : 0`
unfoldable pub reply_code : ℤ → ℕ
reply_code (pos n) = if leb 400 n then 2 else 0
reply_code (negsuc n) = 0

-- The loop over the messages, as decServer decodes them; after the last one the connection fails.
unfoldable pub await_reply : List (Result InMsg) → ℕ → Reply
unfolding is_reply reply_code
await_reply [] pongs = record { code = 1; pongs = pongs; body = none }
await_reply (err e ∷ ms) pongs = await_reply ms pongs
await_reply (ok m ∷ ms) pongs = elim (bytes_eq m.type (codes "ping")) [
  | true ↦ await_reply ms (suc pongs)
  | false ↦ elim (is_reply m) [
    | true ↦ record { code = reply_code m.status; pongs = pongs; body = some m.resp_body }
    | false ↦ await_reply ms pongs
  ]
]
