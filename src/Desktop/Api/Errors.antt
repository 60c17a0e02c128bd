-- ===== src/Desktop/Api/Errors.antt =====
-- How each call of the HTTP interface ends.
use samryetha_tunnel.Base.{
  ℕ, ◌≡◌, ◌≤◌, ◌<◌, ◌⊎◌, ◌&&◌, leb, refl, ap, true, false, Bool-cases, Option-cases, inl, inr, none,
  some, List, [], ◌∷◌, ◌++◌, if◌then◌else◌, arith,
}
use samryetha_tunnel.Base.Int.{ℤ, pos, negsuc}
use samryetha_tunnel.Base.Text.{Bytes, codes, bytes_eq, bytes_eq→eq, bytes_eq_refl}
use samryetha_tunnel.Desktop.Qt.{Qt}
use samryetha_tunnel.Desktop.Protocol.{text_at}
use samryetha_tunnel.Desktop.Api.{
  Reply, Call, Signal, is_refused, is_zero, body_of, result, token_of, accepted, polled, signals,
  on_finished,
}

-- No answer came, or one with an error of HTTP.
abbrev pub IsLost : Reply → Type 0
IsLost r = (r.has_error ≡ true) × (r.status ≡ pos 0)

abbrev pub IsGood : Reply → Type 0
IsGood r = (¬ IsLost r) × ((n : ℕ) → r.status ≡ pos n → n < 400)

module _ (q : Qt) where
  -- The object of the body, or an empty one.
  abbrev pub IsBody : Reply → q.Object → Type 0
  IsBody r o = (q.object_of r.bytes ≡ some o) ⊎ ((q.object_of r.bytes ≡ none) × (o ≡ q.empty))

  abbrev pub status_of : q.Object → Bytes
  status_of o = text_at q o (codes "status")

  abbrev pub received : q.Object → List (Signal q)
  received o =
      Signal.token_received (text_at q o (codes "token")) (q.to_object (q.value o (codes "user")))
      ∷ []

  -- Which signals a reply to a call means.
  pub data Means : Call → Reply → List (Signal q) → Type 0 where
    lost : {c : Call} {r : Reply} → IsLost r → Means c r (Signal.failed r.error_string ∷ [])
    refused :
        {c : Call} {r : Reply} {o : q.Object} {n : ℕ}
        → IsBody r o
        → r.status ≡ pos n
        → 400 ≤ n
        → Means c r (
            Signal.failed
              (q.to_text_or (codes "HTTP " ++ q.show_number (pos n)) (q.value o (codes "error")))
            ∷ [])
    config :
        {r : Reply} {o : q.Object}
        → IsGood r
        → IsBody r o
        → Means Call.get_config r (Signal.config_received o ∷ [])
    started :
        {r : Reply} {o : q.Object}
        → IsGood r
        → IsBody r o
        → Means Call.device_start r (
            Signal.device_code_received
              (text_at q o (codes "user_code"))
              (text_at q o (codes "verification_uri"))
              (text_at q o (codes "device_code"))
              (q.to_int_or (pos 5) (q.value o (codes "interval")))
            ∷ [])
    granted :
        {r : Reply} {o : q.Object} {code : Bytes}
        → IsGood r
        → IsBody r o
        → status_of o ≡ codes "ok"
        → Means (Call.device_poll code) r (received o)
    denied :
        {r : Reply} {o : q.Object} {code : Bytes}
        → IsGood r
        → IsBody r o
        → status_of o ≡ codes "error"
        → Means (Call.device_poll code) r (
            Signal.failed
              (text_at q o (codes "error") ++ (codes " " ++ text_at q o (codes "description")))
            ∷ [])
    open_yet :
        {r : Reply} {o : q.Object} {code : Bytes}
        → IsGood r
        → IsBody r o
        → ¬ (status_of o ≡ codes "ok")
        → ¬ (status_of o ≡ codes "error")
        → Means (Call.device_poll code) r []
    dev :
        {r : Reply} {o : q.Object} {email : Bytes}
        → IsGood r
        → IsBody r o
        → Means (Call.dev_token email) r (received o)
    listed :
        {r : Reply} {o : q.Object} {token : Bytes}
        → IsGood r
        → IsBody r o
        → Means
            (Call.list_tunnels token)
            r
            (Signal.tunnels_received (q.to_array (q.value o (codes "tunnels"))) ∷ [])

  body_of-IsBody : (r : Reply) → IsBody r (body_of q r)
  unfolding body_of
  body_of-IsBody r = elim (Option-cases (q.object_of r.bytes)) [
    | inl e ↦ rw (e, body_of) (inr (refl, refl))
    | inr (o, e) ↦ rw (e, body_of) (inl refl)
  ]

  different : (a b : Bytes) → bytes_eq a b ≡ false → ¬ (a ≡ b)
  different a b h e = ground (arith, h, ap (λ x. bytes_eq x b) e, bytes_eq_refl b)

  polled-Means :
      (code : Bytes) (r : Reply) (o : q.Object)
      → IsGood r
      → IsBody r o
      → Means (Call.device_poll code) r (polled q o)
  unfolding polled token_of
  polled-Means code r o g b = elim (Bool-cases (bytes_eq (status_of o) (codes "ok"))) [
    | inl e ↦ rw e (Means.granted g b (bytes_eq→eq _ _ e))
    | inr e ↦ elim (Bool-cases (bytes_eq (status_of o) (codes "error"))) [
      | inl d ↦ rw (e, d) (Means.denied g b (bytes_eq→eq _ _ d))
      | inr d ↦ rw (e, d) (Means.open_yet g b (different _ _ e) (different _ _ d))
    ]
  ]

  accepted-Means :
      (c : Call) (r : Reply) (o : q.Object) → IsGood r → IsBody r o → Means c r (accepted q c o)
  unfolding accepted token_of
  accepted-Means Call.get_config r o g b = Means.config g b
  accepted-Means Call.device_start r o g b = Means.started g b
  accepted-Means (Call.device_poll code) r o g b = polled-Means code r o g b
  accepted-Means (Call.dev_token email) r o g b = Means.dev g b
  accepted-Means (Call.list_tunnels token) r o g b = Means.listed g b

  -- What a status of at least 400 comes to, and any other.
  judged :
      (c : Call) (r : Reply)
      → ¬ IsLost r
      → Means c r (
          signals q c (
            if is_refused r.status
            then (
              false,
              (
                body_of q r,
                q.to_text_or
                    (codes "HTTP " ++ q.show_number r.status)
                    (q.value (body_of q r) (codes "error")),
              ),
            )
            else (true, (body_of q r, []))))
  unfolding is_refused signals
  judged c r here = go r.status refl
    where
      b : IsBody r (body_of q r)
      b = body_of-IsBody r

      go :
          (status : ℤ)
          → r.status ≡ status
          → Means c r (
              signals q c (
                if is_refused status
                then (
                  false,
                  (
                    body_of q r,
                    q.to_text_or
                        (codes "HTTP " ++ q.show_number status)
                        (q.value (body_of q r) (codes "error")),
                  ),
                )
                else (true, (body_of q r, []))))
      go (pos n) e = elim (Bool-cases (leb 400 n)) [
        | inl h ↦ rw h (Means.refused b e (ground arith))
        | inr h ↦ rw h (accepted-Means c r (body_of q r) (here, λ k p. ground (arith, e, p, h)) b)
      ]
      go (negsuc n) e = accepted-Means c r (body_of q r) (here, λ k p. ground (arith, e, p)) b

  is_zero→eq : (status : ℤ) → is_zero status ≡ true → status ≡ pos 0
  unfolding is_zero
  is_zero→eq (pos n) h = ground (arith, h)
  is_zero→eq (negsuc n) h = ground (arith, h)

  not-IsLost : (r : Reply) → r.has_error && is_zero r.status ≡ false → ¬ IsLost r
  unfolding is_zero
  not-IsLost r h (e, z) =
      let zero : is_zero r.status ≡ true = ap is_zero z in ground (arith, h, e, zero)

  -- Each call ends with what the reply to it means: the error of the network if no answer came; the error in
  -- the body, or `HTTP` and the number, for a status of 400 or more; otherwise the call's own signal with
  -- the fields of the body, where a poll for a token has one for a token that was granted, one for an error,
  -- and none while the user has not decided.
  pub on_finished-Means : (c : Call) (r : Reply) → Means c r (on_finished q c r)
  unfolding on_finished result signals
  on_finished-Means c r = elim (Bool-cases (r.has_error && is_zero r.status)) [
    | inl e ↦
        let zero = is_zero→eq r.status (ground (arith, e)) in
        rw e (Means.lost (ground (arith, e), zero))
    | inr e ↦ rw e (judged c r (not-IsLost r e))
  ]
