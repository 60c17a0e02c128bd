-- ===== src/Desktop/Session/Callbacks.antt =====
-- Each callback given to `mgmtRequest` is called once, or waits.
use mathlib.Core.Path.{subst}
use native.Mathlib.Nat.{mod-eq_of_lt}
use samryetha_tunnel.Base.{
  ℕ, suc, ◌+◌, ◌%◌, ◌^◌, ◌≡◌, ◌≢◌, ◌⊎◌, ◌≤◌, ◌<◌, refl, sym, ◌∙◌, true, Bool-cases, ◌&&◌, ◌==◌, inl,
  inr, Option-cases, List, [], ◌∷◌, if◌then◌else◌, length, ltb, lt→ltb, All, arith,
}
use samryetha_tunnel.Base.Dict.{Dict, lookup, insert, Sorted, insert-Sorted}
use samryetha_tunnel.Base.Order.{nat_order}
use samryetha_tunnel.Base.Text.{Bytes}
use samryetha_tunnel.Desktop.Qt.{Qt}
use samryetha_tunnel.Desktop.Protocol.{MsgType, ParsedMsg, Frame, parse_server_message}
use samryetha_tunnel.Desktop.Config.{ClientConfig}
use samryetha_tunnel.Desktop.Client.{Client, emit, set_config, new_client}
use samryetha_tunnel.Desktop.Session.{
  Readings, on_mgmt_resp, on_message, handle_message, mgmt_request, payload_of, Step, step, run,
}
use samryetha_tunnel.Desktop.Session.Pending.{
  held, held-insert, held-erase, erase-All, erase-Sorted,
}
use samryetha_tunnel.Desktop.Session.Ledger.{
  calls, ledger, send_text-ledger, on_forwarder-ledger, on_message-ledger, start_client-ledger,
  stop_client-ledger, on_timeout-ledger, on_ws_connected-ledger, on_ws_disconnected-ledger,
}

unfoldable pub count : ℕ → List ℕ → ℕ
count n [] = 0
count n (m ∷ ms) = (if m == n then 1 else 0) + count n ms

-- How often callback `n` was called, or waits.
abbrev total : ℕ → Dict ℕ ℕ × (ℕ × List ℕ) → ℕ
total n l = count n l.1.1 + held n l.0

-- The ids that wait are in order, and none is above the last.
abbrev Fits : Dict ℕ ℕ × (ℕ × List ℕ) → Type 0
Fits l = Sorted l.0 × All (λ p. ltb p.0 (suc l.1.0) ≡ true) l.0

-- How often the event asks with callback `n`.
abbrev asks : {q : Qt} → ℕ → Step q → ℕ
asks n (Step.request method path body cb) = if cb == n then 1 else 0
asks n other = 0

unfoldable pub asked : {q : Qt} → ℕ → List (Step q) → ℕ
unfolding asks
asked n [] = 0
asked n (e ∷ es) = asks n e + asked n es

-- From `l` to `m`, `k` more requests with callback `n`.
record Moves (n k : ℕ) (l m : Dict ℕ ℕ × (ℕ × List ℕ)) : Type 0 where
  fits : Fits m
  last : m.1.0 ≤ suc l.1.0
  balance : total n m ≡ k + total n l

kept-Moves : {l m : Dict ℕ ℕ × (ℕ × List ℕ)} (n : ℕ) → Fits l → m ≡ l → Moves n 0 l m
kept-Moves {l} n f e =
    subst (λ x. Moves n 0 l x) (sym e)
      (record { fits = f; last = omega arith; balance = omega arith })

on_mgmt_resp-Moves :
    (q : Qt) (m : ParsedMsg) (n : ℕ) (c : Client)
    → Fits (ledger c)
    → Moves n 0 (ledger c) (ledger (on_mgmt_resp q m c))
unfolding ledger emit calls count
on_mgmt_resp-Moves q m n c (s, b) = elim (Option-cases (lookup m.req_id c.mgmt_pending)) [
  | inl l ↦ unfold on_mgmt_resp in rw (l, on_mgmt_resp) (kept-Moves n (s, b) refl)
  | inr (cb, l) ↦
      unfold on_mgmt_resp in
      rw (l, on_mgmt_resp)
        (record {
          fits = (
            erase-Sorted m.req_id c.mgmt_pending s,
            erase-All (λ p. ltb p.0 (suc c.next_mgmt_id) ≡ true) m.req_id c.mgmt_pending b,
          );
          last = omega arith;
          balance = omega (arith, held-erase n m.req_id cb c.mgmt_pending s l);
        })
]

weaken :
    (a b : ℕ) (m : Dict ℕ ℕ) → a ≤ b → All (λ p. ltb p.0 a ≡ true) m → All (λ p. ltb p.0 b ≡ true) m
weaken a b [] h l = tt
weaken a b ((k, v) ∷ m) h l = (ground (arith, h, l.0), weaken a b m h l.1)

insert-below :
    (a k v : ℕ) (m : Dict ℕ ℕ)
    → k < a
    → All (λ p. ltb p.0 a ≡ true) m
    → All (λ p. ltb p.0 a ≡ true) (insert k v m)
unfolding insert
insert-below a k v [] h l = (ground (arith, h), tt)
insert-below a k v ((j, w) ∷ m) h l = elim (Bool-cases (ltb k j)) [
  | inl e ↦ rw e (lt→ltb k a h, l)
  | inr e ↦ elim (Bool-cases (ltb j k)) [
    | inl d ↦ rw (e, d) (l.0, insert-below a k v m h l.1)
    | inr d ↦ rw (e, d) (lt→ltb k a h, l.1)
  ]
]

-- A new id stands behind the others.
new_id-Moves :
    (n next cb : ℕ) (m : Dict ℕ ℕ) (called : List ℕ)
    → Fits (m, (next, called))
    → Moves n
        (if cb == n then 1 else 0)
        (m, (next, called))
        (insert (suc next) cb m, (suc next, called))
new_id-Moves n next cb m called (s, b) = record {
  fits = (
    insert-Sorted (suc next) cb m s,
    insert-below (suc (suc next)) (suc next) cb m (omega arith)
        (weaken (suc next) (suc (suc next)) m (omega arith) b),
  );
  last = omega arith;
  balance = omega (arith, held-insert n (suc next) cb m b);
}

mgmt_request-Moves :
    (q : Qt) (method path payload : Bytes) (cb n : ℕ) (c : Client)
    → Fits (ledger c)
    → c.next_mgmt_id + 1 < 2 ^ 64
    → Moves n
        (if cb == n then 1 else 0)
        (ledger c)
        (ledger (mgmt_request q method path payload cb c))
unfolding ledger emit calls count
mgmt_request-Moves q method path payload cb n c f h =
    elim (Bool-cases (c.connected && (c.has_ws && c.live))) [
      | inl e ↦
          let id = (c.next_mgmt_id + 1) % 2 ^ 64 in
          let next : id ≡ suc c.next_mgmt_id = mod-eq_of_lt h ∙ omega arith in
          let d = record c { next_mgmt_id = id; mgmt_pending = insert id cb c.mgmt_pending } in
          let same = send_text-ledger (Frame.mgmt id (q.to_upper method) path payload) d in
          unfold mgmt_request in
          rw (e, mgmt_request)
            (subst (λ x. Moves n (if cb == n then 1 else 0) (ledger c) x) (sym same)
              (subst
                (λ x.
                  Moves n (if cb == n then 1 else 0) (ledger c)
                    (insert x cb c.mgmt_pending, (x, calls c.out)))
                (sym next) (new_id-Moves n c.next_mgmt_id cb c.mgmt_pending (calls c.out) f)))
      | inr e ↦
          unfold mgmt_request in
          rw (e, mgmt_request) (record { fits = f; last = omega arith; balance = omega arith })
    ]

module _ (q : Qt) where
  is_mgmt_resp : (t : MsgType) → (t ≡ MsgType.mgmt_resp) ⊎ (t ≢ MsgType.mgmt_resp)
  is_mgmt_resp MsgType.mgmt_resp = inl refl
  is_mgmt_resp other = inr (λ e. cc (e))

  handle_message-Moves :
      (n : ℕ) (r : Readings) (json : q.Document) (c : Client)
      → Fits (ledger c)
      → Moves n 0 (ledger c) (ledger (handle_message q r json c))
  unfolding handle_message
  handle_message-Moves n r json c f =
      let m = parse_server_message q json in
      elim (is_mgmt_resp m.type) [
        | inl e ↦
            subst (λ t. Moves n 0 (ledger c) (ledger (on_message q r m t c))) (sym e)
              (unfold on_message in on_mgmt_resp-Moves q m n c f)
        | inr e ↦ kept-Moves n f (on_message-ledger q r m m.type c e)
      ]

  step-Moves :
      (n : ℕ) (e : Step q) (c : Client)
      → Fits (ledger c)
      → c.next_mgmt_id + 1 < 2 ^ 64
      → Moves n (asks n e) (ledger c) (ledger (step q e c))
  unfolding step set_config ledger
  step-Moves n (Step.configure cfg) c f h = kept-Moves n f refl
  step-Moves n Step.run_client c f h = kept-Moves n f (start_client-ledger c)
  step-Moves n Step.halt c f h = kept-Moves n f (stop_client-ledger c)
  step-Moves n Step.timeout c f h = kept-Moves n f (on_timeout-ledger c)
  step-Moves n Step.ws_connected c f h = kept-Moves n f (on_ws_connected-ledger c)
  step-Moves n Step.ws_disconnected c f h = kept-Moves n f (on_ws_disconnected-ledger c)
  step-Moves n (Step.ws_live b) c f h = kept-Moves n f refl
  step-Moves n (Step.text_received r json) c f h = handle_message-Moves n r json c f
  step-Moves n (Step.request method path body cb) c f h =
      mgmt_request-Moves q method path (payload_of q body) cb n c f h
  step-Moves n (Step.forwarder i elapsed e) c f h =
      kept-Moves n f (on_forwarder-ledger i elapsed e c)

  run-Moves :
      (n : ℕ) (es : List (Step q)) (c : Client)
      → Fits (ledger c)
      → c.next_mgmt_id + length es < 2 ^ 64
      → total n (ledger (run q es c)) ≡ asked n es + total n (ledger c)
  unfolding run asked ledger
  run-Moves n [] c f h = omega arith
  run-Moves n (e ∷ es) c f h =
      let moved = step-Moves n e c f (omega (arith, h)) in
      let rest = run-Moves n es (step q e c) moved.fits (omega (arith, h, moved.last)) in
      omega (arith, rest, moved.balance)

  -- However the events are ordered, fewer than 2 ^ 64 of them: each callback was called, or waits in
  -- `mgmtPending_`, as often as `mgmtRequest` was given it.
  pub run-callbacks :
      (cfg : ClientConfig) (es : List (Step q)) (n : ℕ)
      → length es < 2 ^ 64
      → count n (calls (run q es (new_client cfg)).out)
          + held n (run q es (new_client cfg)).mgmt_pending
        ≡ asked n es
  unfolding new_client ledger count held calls
  run-callbacks cfg es n h =
      let sum = run-Moves n es (new_client cfg) (tt, tt) (omega (arith, h)) in omega (arith, sum)
