-- ===== src/Desktop/Session/Order.antt =====
-- Behind the end of a stream, nothing is sent about it.
use samryetha_tunnel.Base.{
  ℕ, suc, ◌≡◌, refl, ap, Bool, true, false, Bool-cases, not, ◌&&◌, inl, inr, Option-cases, none,
  List, [], ◌∷◌, ◌++◌, arith,
}
use samryetha_tunnel.Base.Dict.{lookup, insert}
use samryetha_tunnel.Base.Int.{pos}
use samryetha_tunnel.Base.Order.{nat_order}
use samryetha_tunnel.Base.Text.{Bytes, codes, is_empty}
use samryetha_tunnel.Desktop.Qt.{Qt}
use samryetha_tunnel.Desktop.Protocol.{
  OpenStreamMsg, MsgType, ParsedMsg, Frame, parse_server_message,
}
use samryetha_tunnel.Desktop.Forwarder.{new_forwarder, start, write_from_remote, close_from_remote}
use samryetha_tunnel.Desktop.Config.{ClientConfig}
use samryetha_tunnel.Desktop.Client.{
  StreamState, Object, Client, emit, set_config, start_client, stop_client, on_ws_connected,
  on_ws_disconnected, new_client,
}
use samryetha_tunnel.Desktop.Session.{
  open_forwarder, local_of, on_open_stream, Readings, on_message, handle_message, mgmt_request,
  on_forwarder, payload_of, on_timeout, Step, step, run,
}
use samryetha_tunnel.Desktop.Session.Good.{about, ends, closed, quiet, mem}
use samryetha_tunnel.Desktop.Session.Opening.{fresh-Good, open-Good, close-Good}
use samryetha_tunnel.Desktop.Session.Request.{
  write_from_remote-req, close_from_remote-req, start-req,
}
use samryetha_tunnel.Desktop.Session.Slots.{GoodClient, send_text-cases}
use samryetha_tunnel.Desktop.Session.Handlers.{
  replaced-Good, with_stream-Good, on_forwarder-Good, plain-Good, on_mgmt_resp-Good,
  mgmt_request-Good, start_client-Good, stop_client-Good, on_timeout-Good, on_ws_connected-Good,
  on_ws_disconnected-Good,
}

-- A new stream of the server.
on_open_stream-Good :
    {ids : List ℕ} (q : Qt) (os : OpenStreamMsg) (elapsed : ℕ) (c : Client)
    → mem os.stream_id ids ≡ false
    → GoodClient ids c
    → GoodClient (os.stream_id ∷ ids) (on_open_stream q os elapsed c)
unfolding on_open_stream open_forwarder new_forwarder
on_open_stream-Good {ids} q os elapsed c m g =
    elim (Bool-cases (is_empty (local_of os.tunnel_id c))) [
      | inl e ↦
          let reason = codes "unknown tunnel " ++ os.tunnel_id in
          rw (e, on_open_stream)
            (send_text-cases (GoodClient (os.stream_id ∷ ids)) (Frame.abort os.stream_id reason) c
              fresh
              (close-Good os.stream_id (Frame.abort os.stream_id reason) fresh
                (unfold ends in λ j. refl) (unfold about in λ j. refl) listed out unused))
      | inr e ↦ rw (e, on_open_stream) (opened (local_of os.tunnel_id c))
    ]
  where
    fresh : GoodClient (os.stream_id ∷ ids) c
    fresh = fresh-Good os.stream_id g

    listed : mem os.stream_id (os.stream_id ∷ ids) ≡ true
    listed = unfold mem in ground arith

    out : closed os.stream_id c.sent ≡ false
    out = elim (Bool-cases (closed os.stream_id c.sent)) [
      | inl e ↦ let k = g.known os.stream_id e in absurd (cc (k, m))
      | inr e ↦ e
    ]

    unused : lookup os.stream_id c.streams ≡ none
    unused = elim (Option-cases (lookup os.stream_id c.streams)) [
      | inl e ↦ e
      | inr (st, e) ↦ let k = (g.open_streams os.stream_id st e).1 in absurd (cc (k, m))
    ]

    opened : (local : Bytes) → GoodClient (os.stream_id ∷ ids) (open_forwarder q os local elapsed c)
    opened local =
        let r = start q (new_forwarder os local) in
        let o : Object = record { attached = true; fwd = r.0 } in
        let st : StreamState = record {
          fwd = c.next_object;
          tunnel_id = os.tunnel_id;
          bytes = 0;
          status = pos 0;
        } in
        replaced-Good c.next_object elapsed true r
          (record c { streams = insert os.stream_id st c.streams; next_object = suc c.next_object })
          (open-Good os.stream_id st o fresh listed out unused refl
            (ap (λ (x : OpenStreamMsg). x.stream_id) (start-req q (new_forwarder os local))))

-- The stream that a message opens.
abbrev pub opened_by : MsgType → ℕ → List ℕ
opened_by MsgType.open_stream id = id ∷ []
opened_by other id = []

-- The streams that the server opens in the course of events, in their order.
unfoldable pub opens : (q : Qt) → List (Step q) → List ℕ
unfolding opened_by
opens q [] = []
opens q (Step.text_received r json ∷ es) =
    let m = parse_server_message q json in opened_by m.type m.opened.stream_id ++ opens q es
opens q (e ∷ es) = opens q es

-- `new` are numbers of no stream in `ids`, and differ from each other.
unfoldable pub distinct : List ℕ → List ℕ → Bool
unfolding mem
distinct ids [] = true
distinct ids (id ∷ new) = not (mem id ids) && distinct (id ∷ ids) new

distinct_cons :
    (ids : List ℕ) (id : ℕ) (new : List ℕ)
    → distinct ids (id ∷ new) ≡ true
    → (mem id ids ≡ false) × (distinct (id ∷ ids) new ≡ true)
unfolding distinct
distinct_cons ids id new d = elim (Bool-cases (mem id ids)) [
  | inl e ↦ let d' : false ≡ true = rw e at d in absurd (cc (d'))
  | inr e ↦ (e, rw e at d)
]

module _ (q : Qt) where
  -- A message that opens no stream.
  passive-Good :
      {ids : List ℕ} (r : Readings) (m : ParsedMsg) (t : MsgType) (c : Client)
      → opened_by t m.opened.stream_id ≡ []
      → GoodClient ids c
      → GoodClient ids (on_message q r m t c)
  unfolding on_message emit ends about
  passive-Good r m MsgType.unknown c e g = g
  passive-Good r m MsgType.register_ack c e g = g
  passive-Good r m MsgType.ping c e g = plain-Good Frame.pong c (λ j. refl) (λ j. refl) g
  passive-Good r m MsgType.open_stream c e g = absurd (cc (e))
  passive-Good r m MsgType.close_stream c e g =
      with_stream-Good m.stream_id r.elapsed (close_from_remote r.aborted) c
        (close_from_remote-req r.aborted) g
  passive-Good r m MsgType.server_chunk c e g =
      with_stream-Good m.stream_id r.elapsed
        (λ f. (write_from_remote r.socket_connected m.chunk f, [])) c
        (write_from_remote-req r.socket_connected m.chunk) g
  passive-Good r m MsgType.register c e g = g
  passive-Good r m MsgType.pong c e g = g
  passive-Good r m MsgType.response_head c e g = g
  passive-Good r m MsgType.client_chunk c e g = g
  passive-Good r m MsgType.end c e g = g
  passive-Good r m MsgType.abort c e g = g
  passive-Good r m MsgType.mgmt_resp c e g = on_mgmt_resp-Good q m c g

  -- Each message, with the streams that it opens in front of the others.
  on_message-Good :
      {ids : List ℕ} (r : Readings) (m : ParsedMsg) (t : MsgType) (c : Client) (rest : List ℕ)
      → GoodClient ids c
      → distinct ids (opened_by t m.opened.stream_id ++ rest) ≡ true
      → GoodClient (opened_by t m.opened.stream_id ++ ids) (on_message q r m t c)
        × (distinct (opened_by t m.opened.stream_id ++ ids) rest ≡ true)
  unfolding on_message distinct
  on_message-Good {ids} r m MsgType.open_stream c rest g d =
      let (e, d') = distinct_cons ids m.opened.stream_id rest d in
      (on_open_stream-Good q m.opened r.elapsed c e g, d')
  on_message-Good r m MsgType.unknown c rest g d = (passive-Good r m MsgType.unknown c refl g, d)
  on_message-Good r m MsgType.register_ack c rest g d =
      (passive-Good r m MsgType.register_ack c refl g, d)
  on_message-Good r m MsgType.ping c rest g d = (passive-Good r m MsgType.ping c refl g, d)
  on_message-Good r m MsgType.close_stream c rest g d =
      (passive-Good r m MsgType.close_stream c refl g, d)
  on_message-Good r m MsgType.server_chunk c rest g d =
      (passive-Good r m MsgType.server_chunk c refl g, d)
  on_message-Good r m MsgType.register c rest g d = (passive-Good r m MsgType.register c refl g, d)
  on_message-Good r m MsgType.pong c rest g d = (passive-Good r m MsgType.pong c refl g, d)
  on_message-Good r m MsgType.response_head c rest g d =
      (passive-Good r m MsgType.response_head c refl g, d)
  on_message-Good r m MsgType.client_chunk c rest g d =
      (passive-Good r m MsgType.client_chunk c refl g, d)
  on_message-Good r m MsgType.end c rest g d = (passive-Good r m MsgType.end c refl g, d)
  on_message-Good r m MsgType.abort c rest g d = (passive-Good r m MsgType.abort c refl g, d)
  on_message-Good r m MsgType.mgmt_resp c rest g d =
      (passive-Good r m MsgType.mgmt_resp c refl g, d)

  run-Good :
      (es : List (Step q)) (ids : List ℕ) (c : Client)
      → GoodClient ids c
      → distinct ids (opens q es) ≡ true
      → (all : List ℕ) × GoodClient all (run q es c)
  unfolding run opens handle_message step
  run-Good [] ids c g d = (ids, g)
  run-Good (Step.configure cfg ∷ es) ids c g d = run-Good es ids (set_config cfg c) g d
  run-Good (Step.run_client ∷ es) ids c g d =
      run-Good es ids (start_client c) (start_client-Good c g) d
  run-Good (Step.halt ∷ es) ids c g d = run-Good es ids (stop_client c) (stop_client-Good c g) d
  run-Good (Step.timeout ∷ es) ids c g d = run-Good es ids (on_timeout c) (on_timeout-Good c g) d
  run-Good (Step.ws_connected ∷ es) ids c g d =
      run-Good es ids (on_ws_connected c) (on_ws_connected-Good c g) d
  run-Good (Step.ws_disconnected ∷ es) ids c g d =
      run-Good es ids (on_ws_disconnected c) (on_ws_disconnected-Good c g) d
  run-Good (Step.ws_live b ∷ es) ids c g d = run-Good es ids (record c { live = b }) g d
  run-Good (Step.text_received r json ∷ es) ids c g d =
      let m = parse_server_message q json in
      let (g', d') = on_message-Good r m m.type c (opens q es) g d in
      run-Good es (opened_by m.type m.opened.stream_id ++ ids) (on_message q r m m.type c) g' d'
  run-Good (Step.request method path body cb ∷ es) ids c g d =
      run-Good es ids (mgmt_request q method path (payload_of q body) cb c)
        (mgmt_request-Good q method path (payload_of q body) cb c g) d
  run-Good (Step.forwarder h elapsed e ∷ es) ids c g d =
      run-Good es ids (on_forwarder h elapsed e c) (on_forwarder-Good h elapsed e c g) d

  new_client-Good : (cfg : ClientConfig) → GoodClient [] (new_client cfg)
  unfolding new_client lookup closed quiet
  new_client-Good cfg = record {
    open_streams = λ id st l. absurd (cc (l));
    attached_objects = λ h o l a. absurd (cc (l));
    handles = λ h o l. absurd (cc (l));
    is_quiet = λ id. refl;
    known = λ id c. absurd (cc (c));
  }

  -- However the client's events are ordered, no head, chunk, end or abort of a stream is sent behind an end
  -- or abort of that stream, if the server opens no stream twice.
  pub run-quiet :
      (cfg : ClientConfig) (es : List (Step q)) (id : ℕ)
      → distinct [] (opens q es) ≡ true
      → quiet id (run q es (new_client cfg)).sent ≡ true
  run-quiet cfg es id d =
      let (all, g) = run-Good es [] (new_client cfg) (new_client-Good cfg) d in g.is_quiet id
