-- ===== src/Desktop/Api.antt =====
-- Api.cpp: the HTTP interface of the server, as the Qt client calls it. The reply is what its `finished`
-- handler reads of it.
pub mod Errors
use samryetha_tunnel.Base.{
  ℕ, Bool, true, false, ◌&&◌, ◌==◌, Option, none, some, List, [], ◌∷◌, ◌++◌, if◌then◌else◌, leb,
}
use samryetha_tunnel.Base.Int.{ℤ, pos, negsuc}
use samryetha_tunnel.Base.Text.{Bytes, codes, bytes_eq, is_empty}
use samryetha_tunnel.Desktop.Qt.{Qt}
use samryetha_tunnel.Desktop.Protocol.{text_at}

-- `status` is 0 where the attribute is not valid.
pub record Reply : Type 0 where
  pub bytes : Bytes
  pub status : ℤ
  pub error_string : Bytes
  pub has_error : Bool

-- What is sent: the method, the address, `Bearer` and the token if there is one, and the body.
pub record Request : Type 0 where
  pub method : Bytes
  pub url : Bytes
  pub authorization : Option Bytes
  pub payload : Bytes

-- The requests of the class.
pub data Call : Type 0 where
  get_config device_start : Call
  device_poll : Bytes → Call
  dev_token : Bytes → Call
  list_tunnels : Bytes → Call

-- `status >= 400`
unfoldable pub is_refused : ℤ → Bool
is_refused (pos n) = leb 400 n
is_refused (negsuc n) = false

unfoldable pub is_zero : ℤ → Bool
is_zero (pos n) = n == 0
is_zero (negsuc n) = false

module _ (q : Qt) where
  open q use {Object, Value}

  -- The signals.
  pub data Signal : Type 0 where
    config_received : Object → Signal
    device_code_received : Bytes → Bytes → Bytes → ℤ → Signal
    token_received : Bytes → Object → Signal
    tunnels_received : List Value → Signal
    failed : Bytes → Signal

  -- A body that is a GET's is not sent.
  unfoldable pub request : Bytes → Bytes → Bytes → Bytes → Object → Request
  unfolding is_empty bytes_eq
  request base token method path body =
      let m = q.to_upper method in
      let payload = if q.is_empty_object body then [] else q.bytes_of body in
      record {
        method = m;
        url = base ++ path;
        authorization = if is_empty token then none else some (codes "Bearer " ++ token);
        payload = if bytes_eq m (codes "GET") then [] else payload;
      }

  unfoldable pub body_of : Reply → Object
  body_of r = elim (q.object_of r.bytes) [ none ↦ q.empty | some o ↦ o ]

  -- What the callback is given: success, the body, and the error.
  unfoldable pub result : Reply → Bool × (Object × Bytes)
  unfolding is_refused is_zero body_of
  result r =
      if r.has_error && is_zero r.status
      then (false, (body_of r, r.error_string))
      else if is_refused r.status
      then (
        false,
        (
          body_of r,
          q.to_text_or (codes "HTTP " ++ q.show_number r.status)
              (q.value (body_of r) (codes "error")),
        ),
      )
      else (true, (body_of r, []))

  unfoldable pub request_of : Bytes → Call → Request
  unfolding request
  request_of base Call.get_config = request base [] (codes "GET") (codes "/auth/config") q.empty
  request_of base Call.device_start =
      request base [] (codes "POST") (codes "/auth/device/start") q.empty
  request_of base (Call.device_poll device_code) =
      request base [] (codes "POST") (codes "/auth/device/poll")
        (q.put (codes "device_code") (q.of_text device_code) q.empty)
  request_of base (Call.dev_token email) =
      request base [] (codes "POST") (codes "/auth/dev-token")
        (q.put (codes "email") (q.of_text email) q.empty)
  request_of base (Call.list_tunnels token) =
      request base token (codes "GET") (codes "/api/tunnels") q.empty

  -- The token of a reply, with its user.
  unfoldable pub token_of : Object → Signal
  unfolding text_at
  token_of o =
      Signal.token_received (text_at q o (codes "token")) (q.to_object (q.value o (codes "user")))

  unfoldable pub polled : Object → List Signal
  unfolding text_at bytes_eq token_of
  polled o =
      let st = text_at q o (codes "status") in
      if bytes_eq st (codes "ok")
      then token_of o ∷ []
      else if bytes_eq st (codes "error")
      then Signal.failed
          (text_at q o (codes "error") ++ (codes " " ++ text_at q o (codes "description")))
        ∷ []
      else []

  unfoldable pub accepted : Call → Object → List Signal
  unfolding text_at polled token_of
  accepted Call.get_config o = Signal.config_received o ∷ []
  accepted Call.device_start o =
      Signal.device_code_received (text_at q o (codes "user_code"))
        (text_at q o (codes "verification_uri")) (text_at q o (codes "device_code"))
        (q.to_int_or (pos 5) (q.value o (codes "interval")))
      ∷ []
  accepted (Call.device_poll device_code) o = polled o
  accepted (Call.dev_token email) o = token_of o ∷ []
  accepted (Call.list_tunnels token) o =
      Signal.tunnels_received (q.to_array (q.value o (codes "tunnels"))) ∷ []

  -- The callback of each call.
  unfoldable pub signals : Call → Bool × (Object × Bytes) → List Signal
  unfolding accepted
  signals c (true, (o, e)) = accepted c o
  signals c (false, (o, e)) = Signal.failed e ∷ []

  unfoldable pub on_finished : Call → Reply → List Signal
  unfolding signals result
  on_finished c r = signals c (result r)
