-- ===== src/Desktop/Session/Slots.antt =====
-- The slots of the client on streams, forwarders and messages that fit together.
use mathlib.Core.Path.{subst}
use samryetha_tunnel.Base.{
  length, ◌+◌, ℕ, ◌≡◌, refl, sym, ap, ◌∙◌, true, false, Bool-cases, ◌&&◌, ◌==◌, inl, inr,
  Option-cases, none, some, List, [], ◌∷◌, arith,
}
use samryetha_tunnel.Base.Dict.{Dict, lookup, insert, erase, lookup-erase_self}
use samryetha_tunnel.Base.Order.{nat_order}
use samryetha_tunnel.Desktop.Protocol.{Frame}
use samryetha_tunnel.Desktop.Forwarder.{Signal, Forwarder}
use samryetha_tunnel.Desktop.Client.{
  StreamState, Object, Out, Client, emit, send_text, detach, cleanup_stream, cleanup_all,
}
use samryetha_tunnel.Desktop.Session.{change, finish_stream, slot, is_attached}
use samryetha_tunnel.Desktop.Session.Maps.{lookup-detach}
use samryetha_tunnel.Desktop.Session.Good.{
  about, ends, closed, Good, send-Good, erase-Good, change-Good,
}
use samryetha_tunnel.Desktop.Session.Opening.{close-Good}

abbrev pub GoodClient : List ℕ → Client → Type 0
GoodClient ids c = Good ids c.streams c.objects c.next_object c.sent

-- Forwarder `h` is for stream `id`.
abbrev pub Named : ℕ → ℕ → Client → Type 0
Named h id c = (o : Object) → lookup h c.objects ≡ some o → o.fwd.req.stream_id ≡ id

-- A message is sent or dropped.
pub send_text-cases :
    (P : Client → Type 0) (f : Frame) (c : Client)
    → P c
    → P (record c { sent = f ∷ c.sent })
    → P (send_text f c)
unfolding send_text
send_text-cases P f c p s = elim (Bool-cases (c.has_ws && c.live)) [
  | inl e ↦ rw e s
  | inr e ↦ rw e p
]

pub change-some :
    (id : ℕ) (f : StreamState → StreamState) (c : Client) (st : StreamState)
    → lookup id c.streams ≡ some st
    → change id f c ≡ record c { streams = insert id (f st) c.streams }
unfolding change
change-some id f c st l = rw (l, change) refl

pub cleanup_stream-some :
    (id : ℕ) (c : Client) (st : StreamState)
    → lookup id c.streams ≡ some st
    → cleanup_stream id c
      ≡ record c { objects = detach st.fwd c.objects; streams = erase id c.streams }
unfolding cleanup_stream
cleanup_stream-some id c st l = rw (l, cleanup_stream) refl

pub cleanup_stream-none :
    (id : ℕ) (c : Client) → lookup id c.streams ≡ none → cleanup_stream id c ≡ c
unfolding cleanup_stream
cleanup_stream-none id c l = rw (l, cleanup_stream) refl

pub finish_stream-some :
    (id elapsed : ℕ) (c : Client) (st : StreamState)
    → lookup id c.streams ≡ some st
    → finish_stream id elapsed c
      ≡ cleanup_stream id (
          emit
            (Out.request_finished st.tunnel_id st.status st.bytes elapsed)
            (send_text (Frame.end id) c))
unfolding finish_stream
finish_stream-some id elapsed c st l = rw (l, finish_stream) refl

pub owner :
    (h : ℕ) (c : Client)
    → is_attached h c ≡ true
    → (o : Object) × (lookup h c.objects ≡ some o) × (o.attached ≡ true)
unfolding is_attached
owner h c e = elim (Option-cases (lookup h c.objects)) [
  | inl n ↦ let e' : false ≡ true = rw (n, is_attached) at e in absurd (cc (e'))
  | inr (o, n) ↦ (o, n, rw (n, is_attached) at e)
]

-- A slot leaves the requests of the forwarders.
pub detach-Named :
    (h k id : ℕ) (objects : Dict ℕ Object)
    → ((o : Object) → lookup h objects ≡ some o → o.fwd.req.stream_id ≡ id)
    → (o : Object) → lookup h (detach k objects) ≡ some o
    → o.fwd.req.stream_id ≡ id
detach-Named h k id objects n o l =
    let (p, lp, e, c) = lookup-detach k h objects o l in
    ap (λ (f : Forwarder). f.req.stream_id) e ∙ n p lp

pub cleanup_stream-Named :
    (h id k : ℕ) (c : Client) → Named h id c → Named h id (cleanup_stream k c)
cleanup_stream-Named h id k c n = elim (Option-cases (lookup k c.streams)) [
  | inl l ↦ rw (cleanup_stream-none k c l) n
  | inr (st, l) ↦ rw (cleanup_stream-some k c st l) (detach-Named h st.fwd id c.objects n)
]

pub change-Named :
    (h id k : ℕ) (f : StreamState → StreamState) (c : Client)
    → Named h id c
    → Named h id (change k f c)
change-Named h id k f c n = elim (Option-cases (lookup k c.streams)) [
  | inl l ↦ unfold change in rw (l, change) n
  | inr (st, l) ↦ rw (change-some k f c st l) n
]

pub slot-Named :
    (h id k elapsed : ℕ) (s : Signal) (c : Client) → Named h id c → Named h id (slot k elapsed s c)
unfolding slot
slot-Named h id k elapsed (Signal.head status headers) c n =
    let f = λ (st : StreamState). record st { status = status } in
    send_text-cases (Named h id) (Frame.response_head k status headers) (change k f c)
      (change-Named h id k f c n) (change-Named h id k f c n)
slot-Named h id k elapsed (Signal.chunk bytes) c n =
    let f = λ (st : StreamState). record st { bytes = st.bytes + length bytes } in
    send_text-cases (Named h id) (Frame.chunk k bytes) (change k f c) (change-Named h id k f c n)
      (change-Named h id k f c n)
slot-Named h id k elapsed Signal.finished c n = elim (Option-cases (lookup k c.streams)) [
  | inl l ↦ unfold finish_stream in rw (l, finish_stream) n
  | inr (st, l) ↦
      let o = Out.request_finished st.tunnel_id st.status st.bytes elapsed in
      rw (finish_stream-some k elapsed c st l) (
        cleanup_stream-Named h id k (emit o (send_text (Frame.end k) c))
          (unfold emit in send_text-cases (Named h id) (Frame.end k) c n n))
]
slot-Named h id k elapsed (Signal.failed reason) c n =
    cleanup_stream-Named h id k (send_text (Frame.abort k reason) c)
      (send_text-cases (Named h id) (Frame.abort k reason) c n n)

module _ {ids : List ℕ} where
  pub cleanup_stream-Good :
      (id : ℕ) (c : Client) → GoodClient ids c → GoodClient ids (cleanup_stream id c)
  cleanup_stream-Good id c g = elim (Option-cases (lookup id c.streams)) [
    | inl n ↦ rw (cleanup_stream-none id c n) g
    | inr (st, n) ↦ rw (cleanup_stream-some id c st n) (erase-Good id st g n)
  ]

  pub cleanup_all-Good :
      (l : Dict ℕ StreamState) (c : Client) → GoodClient ids c → GoodClient ids (cleanup_all l c)
  unfolding cleanup_all
  cleanup_all-Good [] c g = g
  cleanup_all-Good ((id, st) ∷ l) c g =
      cleanup_all-Good l (cleanup_stream id c) (cleanup_stream-Good id c g)

  -- The stream ends with `f`, and is given up.
  pub ending-Good :
      (id : ℕ) (st : StreamState) (f : Frame) (c : Client)
      → GoodClient ids c
      → lookup id c.streams ≡ some st
      → ((j : ℕ) → ends j f ≡ (id == j))
      → ((j : ℕ) → about j f ≡ (id == j))
      → Good ids (erase id c.streams) (detach st.fwd c.objects) c.next_object (f ∷ c.sent)
  ending-Good id st f c g l e a =
      let (out, m) = g.open_streams id st l in
      close-Good id f (erase-Good id st g l) e a m out (lookup-erase_self id c.streams)

  pub passing-Good :
      (id : ℕ) (st new : StreamState) (f : Frame) (c : Client)
      → GoodClient ids c
      → lookup id c.streams ≡ some st
      → new.fwd ≡ st.fwd
      → ((j : ℕ) → ends j f ≡ false)
      → ((j : ℕ) → about j f ≡ (id == j))
      → GoodClient ids (send_text f (record c { streams = insert id new c.streams }))
  passing-Good id st new f c g l s e a =
      let changed = change-Good id st new g l s in
      send_text-cases (GoodClient ids) f (record c { streams = insert id new c.streams }) changed
        (send-Good f changed e (λ j b. still j b))
    where
      still : (j : ℕ) → about j f ≡ true → closed j c.sent ≡ false
      still j b =
          let same : id ≡ j = ground (arith, a j, b) in rw same at (g.open_streams id st l).0

  -- The stream's end is sent if the channel is up, and the stream is given up.
  pub closing-Good :
      (id : ℕ) (st : StreamState) (f : Frame) (c : Client)
      → GoodClient ids c
      → lookup id c.streams ≡ some st
      → ((j : ℕ) → ends j f ≡ (id == j))
      → ((j : ℕ) → about j f ≡ (id == j))
      → GoodClient ids (cleanup_stream id (send_text f c))
  closing-Good id st f c g l e a =
      send_text-cases (λ d. GoodClient ids (cleanup_stream id d)) f c (cleanup_stream-Good id c g)
        (rw (cleanup_stream-some id (record c { sent = f ∷ c.sent }) st l)
          (ending-Good id st f c g l e a))

  pub cleanup_stream-emit :
      (id : ℕ) (o : Out) (c : Client)
      → GoodClient ids (cleanup_stream id c)
      → GoodClient ids (cleanup_stream id (emit o c))
  unfolding emit
  cleanup_stream-emit id o c g = elim (Option-cases (lookup id c.streams)) [
    | inl n ↦
        rw (cleanup_stream-none id (emit o c) n)
          (subst (λ d. GoodClient ids d) (cleanup_stream-none id c n) g)
    | inr (st, n) ↦
        rw (cleanup_stream-some id (emit o c) st n)
          (subst (λ d. GoodClient ids d) (cleanup_stream-some id c st n) g)
  ]

  pub slot-Good :
      (h id elapsed : ℕ) (s : Signal) (c : Client)
      → GoodClient ids c
      → is_attached h c ≡ true
      → Named h id c
      → GoodClient ids (slot id elapsed s c)
  unfolding slot about ends
  slot-Good h id elapsed s c g a n =
      let (o, lo, on) = owner h c a in
      let (st, l, e) = g.attached_objects h o lo on in
      go s st (ap (λ x. lookup x c.streams) (sym (n o lo)) ∙ l)
    where
      go :
          (s : Signal) (st : StreamState)
          → lookup id c.streams ≡ some st
          → GoodClient ids (slot id elapsed s c)
      go (Signal.head status headers) st l =
          rw (change-some id (λ st. record st { status = status }) c st l) (
            passing-Good id st (record st { status = status })
              (Frame.response_head id status headers) c g l refl (λ j. refl) (λ j. refl))
      go (Signal.chunk bytes) st l =
          rw (change-some id (λ st. record st { bytes = st.bytes + length bytes }) c st l) (
            passing-Good id st (record st { bytes = st.bytes + length bytes })
              (Frame.chunk id bytes) c g l refl (λ j. refl) (λ j. refl))
      go Signal.finished st l = rw (finish_stream-some id elapsed c st l) (
          cleanup_stream-emit id (Out.request_finished st.tunnel_id st.status st.bytes elapsed)
            (send_text (Frame.end id) c)
            (closing-Good id st (Frame.end id) c g l (λ j. refl) (λ j. refl)))
      go (Signal.failed reason) st l =
          closing-Good id st (Frame.abort id reason) c g l (λ j. refl) (λ j. refl)
