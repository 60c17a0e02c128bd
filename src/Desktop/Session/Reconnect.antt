-- ===== src/Desktop/Session/Reconnect.antt =====
-- A client that has lost its channel comes back.
use mathlib.Core.Path.{subst}
use native.Mathlib.Omega.{pow_step}
use samryetha_tunnel.Base.{
  ℕ, zero, suc, ◌+◌, ◌*◌, ◌^◌, ◌≡◌, refl, sym, ap, ◌∙◌, Bool, true, false, ◌&&◌, inl, inr,
  Option-cases, none, some, List, [], ◌∷◌, ◌++◌, if◌then◌else◌, min, arith,
}
use samryetha_tunnel.Base.Dict.{Dict, lookup, erase}
use samryetha_tunnel.Base.Order.{nat_order}
use samryetha_tunnel.Base.Text.{codes}
use samryetha_tunnel.Desktop.Client.{
  StreamState, Object, Out, Client, emit, open_connection, schedule_reconnect, detach, cleanup_all,
  on_ws_disconnected,
}
use samryetha_tunnel.Desktop.Session.{fired, on_timeout}
use samryetha_tunnel.Desktop.Session.Slots.{cleanup_stream-some, cleanup_stream-none}

-- Giving up streams changes nothing else.
pub cleanup_all-frame :
    (l : Dict ℕ StreamState) (c : Client)
    → (o : Dict ℕ Object) × (s : Dict ℕ StreamState) × (cleanup_all l c
        ≡ record c { objects = o; streams = s })
unfolding cleanup_all
cleanup_all-frame [] c = (c.objects, c.streams, refl)
cleanup_all-frame ((id, st) ∷ l) c = elim (Option-cases (lookup id c.streams)) [
  | inl n ↦
      let (o, s, e) = cleanup_all-frame l c in
      (o, s, ap (cleanup_all l) (cleanup_stream-none id c n) ∙ e)
  | inr (x, n) ↦
      let c' = record c { objects = detach x.fwd c.objects; streams = erase id c.streams } in
      let (o, s, e) = cleanup_all-frame l c' in
      (o, s, ap (cleanup_all l) (cleanup_stream-some id c x n) ∙ e)
]

-- `n` times, the channel is lost, or cannot be opened, and the timer runs out.
unfoldable pub retries : ℕ → Client → Client
unfolding on_timeout on_ws_disconnected
retries zero c = c
retries (suc n) c = on_timeout (on_ws_disconnected (retries n c))

-- How often a socket was opened.
unfoldable pub opened : List Out → ℕ
opened [] = 0
opened (Out.open_socket url token ∷ out) = suc (opened out)
opened (o ∷ out) = opened out

-- What a client needs to come back.
record Returns (c : Client) (n : ℕ) (wait : ℕ) : Type 0 where
  is_running : c.running ≡ true
  is_auto : c.cfg.auto_reconnect ≡ true
  has_opened : opened c.out ≡ n
  next_wait : c.backoff_sec ≡ wait

lost-Returns :
    (c : Client) (n wait : ℕ)
    → Returns c n wait
    → Returns (on_ws_disconnected c) n (min (wait * 2) 30)
      × ((on_ws_disconnected c).timer ≡ some wait)
unfolding on_ws_disconnected schedule_reconnect emit opened
lost-Returns c n wait r =
    let down =
      emit (Out.state_changed (codes "disconnected"))
        (record c { connected = false; live = false }) in
    let (o, s, e) = cleanup_all-frame c.streams down in
    let both : (c.running && c.cfg.auto_reconnect) ≡ true =
      ground (arith, r.is_running, r.is_auto) in
    subst (λ x. Scheduled (c.running && c.cfg.auto_reconnect) x) (sym e)
      (subst (λ b. Scheduled b (record down { objects = o; streams = s })) (sym both)
        (
          record {
            is_running = r.is_running;
            is_auto = r.is_auto;
            has_opened = r.has_opened;
            next_wait = ap (λ t. min (t * 2) 30) r.next_wait;
          },
          ap some r.next_wait,
        ))
  where
    Scheduled : Bool → Client → Type 0
    Scheduled b x =
        Returns (if b then schedule_reconnect x else x) n (min (wait * 2) 30)
        × ((if b then schedule_reconnect x else x).timer ≡ some wait)

again-Returns :
    (c : Client) (n wait w : ℕ)
    → Returns c n wait
    → c.timer ≡ some w
    → Returns (on_timeout c) (suc n) wait
unfolding on_timeout fired open_connection emit opened
again-Returns c n wait w r e =
    subst (λ t. Returns (fired t c) (suc n) wait) (sym e)
      (subst (λ b. Opened b) (sym r.is_running)
        (record {
          is_running = r.is_running;
          is_auto = r.is_auto;
          has_opened = ap suc r.has_opened;
          next_wait = r.next_wait;
        }))
  where
    Opened : Bool → Type 0
    Opened b =
        let d = record c { timer = none; has_ws = true } in
        let tried : List Out =
          Out.open_socket c.cfg.server_url (codes "Bearer " ++ c.cfg.api_token)
          ∷ Out.state_changed (codes "connecting")
          ∷ c.out in
        Returns (if b then record d { out = tried } else record c { timer = none }) (suc n) wait

doubled_min : (p : ℕ) → min (min p 30 * 2) 30 ≡ min (2 * p) 30
doubled_min p = ground arith

backoff : (n : ℕ) → min (min (2 ^ n) 30 * 2) 30 ≡ min (2 ^ suc n) 30
backoff n = doubled_min (2 ^ n) ∙ ap (λ x. min x 30) (sym (pow_step 2 n))

-- A running client with `autoReconnect` does not give up: in each loss of the channel it arms its timer, and
-- each time that the timer runs out it opens a socket. From a wait of one second, the wait is doubled each
-- time, up to 30 seconds: the n-th wait, counted from 0, is min (2 ^ n) 30.
pub retries-opened :
    (c : Client) (n : ℕ)
    → c.running ≡ true
    → c.cfg.auto_reconnect ≡ true
    → c.backoff_sec ≡ 1
    → (opened (retries n c).out ≡ n + opened c.out)
      × ((on_ws_disconnected (retries n c)).timer ≡ some (min (2 ^ n) 30))
unfolding retries
retries-opened c n r a b =
    let g = retried n in
    let (h, t) = lost-Returns (retries n c) (n + opened c.out) (min (2 ^ n) 30) g in
    (g.has_opened, t)
  where
    retried : (n : ℕ) → Returns (retries n c) (n + opened c.out) (min (2 ^ n) 30)
    retried zero = record { is_running = r; is_auto = a; has_opened = omega arith; next_wait = b }
    retried (suc n) =
        let (h, t) = lost-Returns (retries n c) (n + opened c.out) (min (2 ^ n) 30) (retried n) in
        let again =
          again-Returns (on_ws_disconnected (retries n c)) (n + opened c.out)
            (min (min (2 ^ n) 30 * 2) 30) (min (2 ^ n) 30) h t in
        record {
          is_running = again.is_running;
          is_auto = again.is_auto;
          has_opened = again.has_opened ∙ omega arith;
          next_wait = again.next_wait ∙ backoff n;
        }
