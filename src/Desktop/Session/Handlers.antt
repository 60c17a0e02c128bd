-- ===== src/Desktop/Session/Handlers.antt =====
-- The handlers of the client on streams, forwarders and messages that fit together.
use samryetha_tunnel.Base.{
  ◌+◌, ℕ, ◌%◌, ◌^◌, ◌≡◌, refl, sym, ap, ◌∙◌, Bool, true, false, Bool-cases, ◌&&◌, inl, inr, Option,
  Option-cases, none, some, List, [], ◌∷◌, if◌then◌else◌, arith,
}
use samryetha_tunnel.Base.Dict.{lookup, insert, lookup-insert_self}
use samryetha_tunnel.Base.Order.{nat_order}
use samryetha_tunnel.Base.Text.{Bytes, codes}
use samryetha_tunnel.Desktop.Qt.{Qt}
use samryetha_tunnel.Desktop.Protocol.{ParsedMsg, Frame}
use samryetha_tunnel.Desktop.Forwarder.{Signal, Forwarder, Event, fire}
use samryetha_tunnel.Desktop.Client.{
  Object, Out, Client, emit, send_text, open_connection, start_client, stop_client, on_ws_connected,
  on_ws_disconnected, schedule_reconnect,
}
use samryetha_tunnel.Desktop.Session.{
  slot, is_attached, deliver, update, with_stream, on_mgmt_resp, mgmt_request, on_forwarder, fired,
  on_timeout,
}
use samryetha_tunnel.Desktop.Session.Maps.{some_inj}
use samryetha_tunnel.Desktop.Session.Good.{about, ends, Good, send-Good, update-Good}
use samryetha_tunnel.Desktop.Session.Request.{fire-req}
use samryetha_tunnel.Desktop.Session.Slots.{
  GoodClient, Named, send_text-cases, slot-Named, cleanup_all-Good, slot-Good,
}

module _ {ids : List ℕ} where
  pub deliver-Good :
      (h id elapsed : ℕ) (signals : List Signal) (c : Client)
      → GoodClient ids c
      → Named h id c
      → GoodClient ids (deliver h id elapsed signals c)
  unfolding deliver
  deliver-Good h id elapsed [] c g n = g
  deliver-Good h id elapsed (s ∷ ss) c g n = elim (Bool-cases (is_attached h c)) [
    | inl a ↦
        rw (a, deliver)
          (deliver-Good h id elapsed ss (slot id elapsed s c) (slot-Good h id elapsed s c g a n)
            (slot-Named h id id elapsed s c n))
    | inr a ↦ rw (a, deliver) (deliver-Good h id elapsed ss c g n)
  ]

  -- Forwarder `h` is now `f`.
  pub replaced-Good :
      (h elapsed : ℕ) (attached : Bool) (r : Forwarder × List Signal) (c : Client)
      → Good ids c.streams
          (insert h (record { attached = attached; fwd = r.0 }) c.objects)
          c.next_object
          c.sent
      → GoodClient ids (update h elapsed attached r c)
  unfolding update
  replaced-Good h elapsed attached (f, signals) c g =
      let new : Object = record { attached = attached; fwd = f } in
      deliver-Good h f.req.stream_id elapsed signals (record c { objects = insert h new c.objects })
        g
        (λ o l.
          ap (λ (x : Object). x.fwd.req.stream_id)
            (some_inj (sym l ∙ lookup-insert_self h new c.objects)))

  pub handled-Good :
      (h elapsed : ℕ) (o : Object) (r : Forwarder × List Signal) (c : Client)
      → GoodClient ids c
      → lookup h c.objects ≡ some o
      → r.0.req ≡ o.fwd.req
      → GoodClient ids (update h elapsed o.attached r c)
  handled-Good h elapsed o r c g l e =
      replaced-Good h elapsed o.attached r c
        (update-Good h o (record { attached = o.attached; fwd = r.0 }) g l refl e)

  pub with_stream-Good :
      (id elapsed : ℕ) (f : Forwarder → Forwarder × List Signal) (c : Client)
      → ((x : Forwarder) → (f x).0.req ≡ x.req)
      → GoodClient ids c
      → GoodClient ids (with_stream id elapsed f c)
  unfolding with_stream
  with_stream-Good id elapsed f c e g = elim (Option-cases (lookup id c.streams)) [
    | inl l ↦ rw (l, with_stream) g
    | inr (st, l) ↦ elim (Option-cases (lookup st.fwd c.objects)) [
      | inl m ↦ rw (l, with_stream) (rw m g)
      | inr (o, m) ↦
          rw (l, with_stream) (rw m (handled-Good st.fwd elapsed o (f o.fwd) c g m (e o.fwd)))
    ]
  ]

  pub on_forwarder-Good :
      (h elapsed : ℕ) (e : Event) (c : Client)
      → GoodClient ids c
      → GoodClient ids (on_forwarder h elapsed e c)
  unfolding on_forwarder
  on_forwarder-Good h elapsed e c g = elim (Option-cases (lookup h c.objects)) [
    | inl l ↦ rw (l, on_forwarder) g
    | inr (o, l) ↦
        rw (l, on_forwarder) (handled-Good h elapsed o (fire e o.fwd) c g l (fire-req e o.fwd))
  ]

  -- A message that is about no stream.
  pub plain-Good :
      (f : Frame) (c : Client)
      → ((j : ℕ) → ends j f ≡ false)
      → ((j : ℕ) → about j f ≡ false)
      → GoodClient ids c
      → GoodClient ids (send_text f c)
  plain-Good f c e a g =
      send_text-cases (GoodClient ids) f c g (send-Good f g e (λ j b. ground (arith, a j, b)))

  pub on_mgmt_resp-Good :
      (q : Qt) (m : ParsedMsg) (c : Client) → GoodClient ids c → GoodClient ids (on_mgmt_resp q m c)
  unfolding on_mgmt_resp emit
  on_mgmt_resp-Good q m c g = elim (Option-cases (lookup m.req_id c.mgmt_pending)) [
    | inl l ↦ rw (l, on_mgmt_resp) g
    | inr (cb, l) ↦ rw (l, on_mgmt_resp) g
  ]

  pub mgmt_request-Good :
      (q : Qt) (method path payload : Bytes) (cb : ℕ) (c : Client)
      → GoodClient ids c
      → GoodClient ids (mgmt_request q method path payload cb c)
  unfolding mgmt_request emit ends about
  mgmt_request-Good q method path payload cb c g =
      elim (Bool-cases (c.connected && (c.has_ws && c.live))) [
        | inl e ↦
            let id = (c.next_mgmt_id + 1) % 2 ^ 64 in
            rw e (
              plain-Good (Frame.mgmt id (q.to_upper method) path payload)
                (record c { next_mgmt_id = id; mgmt_pending = insert id cb c.mgmt_pending })
                (λ j. refl) (λ j. refl) g)
        | inr e ↦ rw e g
      ]

  pub if-Good :
      (b : Bool) (c d : Client)
      → GoodClient ids c
      → GoodClient ids d
      → GoodClient ids (if b then c else d)
  if-Good true c d g k = g
  if-Good false c d g k = k

  pub open_connection-Good : (c : Client) → GoodClient ids c → GoodClient ids (open_connection c)
  unfolding open_connection emit
  open_connection-Good c g = if-Good c.running _ c g g

  pub start_client-Good : (c : Client) → GoodClient ids c → GoodClient ids (start_client c)
  unfolding start_client
  start_client-Good c g =
      let up = record c { running = true; backoff_sec = 1 } in
      if-Good c.running c (open_connection up) g (open_connection-Good up g)

  pub stop_client-Good : (c : Client) → GoodClient ids c → GoodClient ids (stop_client c)
  unfolding stop_client emit
  stop_client-Good c g = if-Good c.has_ws _ (record c { running = false; timer = none }) g g

  fired-Good : (t : Option ℕ) (c : Client) → GoodClient ids c → GoodClient ids (fired t c)
  unfolding fired
  fired-Good none c g = g
  fired-Good (some w) c g = open_connection-Good (record c { timer = none }) g

  pub on_timeout-Good : (c : Client) → GoodClient ids c → GoodClient ids (on_timeout c)
  unfolding on_timeout
  on_timeout-Good c g = fired-Good c.timer c g

  pub on_ws_connected-Good : (c : Client) → GoodClient ids c → GoodClient ids (on_ws_connected c)
  unfolding on_ws_connected emit ends about
  on_ws_connected-Good c g =
      plain-Good (Frame.register c.cfg.client_id c.cfg.tunnels)
        (emit (Out.state_changed (codes "connected"))
          (record c { connected = true; live = true; backoff_sec = 1 }))
        (λ j. refl) (λ j. refl) g

  pub on_ws_disconnected-Good :
      (c : Client) → GoodClient ids c → GoodClient ids (on_ws_disconnected c)
  unfolding on_ws_disconnected emit schedule_reconnect
  on_ws_disconnected-Good c g =
      let down = record c { connected = false; live = false } in
      let clean =
        cleanup_all-Good c.streams (emit (Out.state_changed (codes "disconnected")) down) g in
      if-Good (c.running && c.cfg.auto_reconnect) _ _ clean clean
