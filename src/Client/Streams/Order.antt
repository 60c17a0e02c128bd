-- ===== src/Client/Streams/Order.antt =====
-- No byte from the server is lost, doubled or moved, however the connection to the local service and the
-- messages interleave.
use samryetha_tunnel.Base.{
  ℕ, ◌<◌, ◌≡◌, refl, sym, ap, ◌∙◌, if◌then◌else◌, false, Bool-cases, inl, inr, ◌⊎◌, some, List, [],
  ◌∷◌, ◌++◌, arith,
}
use samryetha_tunnel.Base.Dict.{lookup, insert, lookup-insert_self, lookup-insert_ne}
use samryetha_tunnel.Base.Order.{nat_order}
use samryetha_tunnel.Base.Text.{Bytes, codes, bytes_eq, is_empty}
use samryetha_tunnel.Codec.Types.{TunnelCfg, OpenStream}
use native.Mathlib.Decide.{ℕ_discrete}
use samryetha_tunnel.Client.Streams.{Stream, State, local_of, on_open, Step, open_stream, step, run}
use samryetha_tunnel.Client.Streams.Below.{IsBelow, run-IsBelow, empty-IsBelow}
use samryetha_tunnel.Client.Streams.Growth.{content, IsClean, Grows, Grows-refl, Grows-trans}
use samryetha_tunnel.Client.Streams.Numbers.{step-next}
use samryetha_tunnel.Client.Streams.Routes.{
  chunk_of, IsAt, IsGone, ends, IsAt-step, IsGone-step, end-step, at-delivers, gone-delivers,
}
use samryetha_tunnel.Client.Streams.Steps.{delivers, step-Grows}
use samryetha_tunnel.Client.Streams.Table.{touch}

-- What a run of the steps gives object `o` to take in.
unfoldable pub delivered : ℕ → List TunnelCfg → List Step → State → Bytes
delivered o tunnels [] s = []
delivered o tunnels (e ∷ es) s = delivers o e s ++ delivered o tunnels es (step tunnels e s)

run-Grows :
    (tunnels : List TunnelCfg) (es : List Step) (o : ℕ) (s : State)
    → o < s.next
    → Grows o s.objects (run tunnels es s).objects (delivered o tunnels es s)
unfolding run delivered
run-Grows tunnels [] o s below = Grows-refl o s.objects
run-Grows tunnels (e ∷ es) o s below =
    let t = step tunnels e s in
    Grows-trans o s.objects t.objects (run tunnels es t).objects (delivers o e s)
      (delivered o tunnels es t) (step-Grows tunnels e o s below)
      (run-Grows tunnels es o t (omega (arith, below, step-next tunnels e s)))

-- A stream that the client opens is object `s.next`, with nothing taken in.
opened :
    (tunnels : List TunnelCfg) (os : OpenStream) (s : State)
    → is_empty (local_of os.tunnel_id [] tunnels) ≡ false
    → (st : Stream) × (lookup s.next (on_open tunnels os s).objects ≡ some st)
      × (content st ≡ [])
      × (st.connected ≡ false)
      × (s.next < (on_open tunnels os s).next)
      × ((on_open tunnels os s).streams ≡ insert os.stream_id s.next s.streams)
unfolding on_open
opened tunnels os s h = elim (Bool-cases (bytes_eq os.proto (codes "tcp"))) [
  | inl q ↦ rw (h, q) (_, lookup-insert_self s.next _ s.objects, refl, refl, omega arith, refl)
  | inr q ↦ rw (h, q) (_, lookup-insert_self s.next _ s.objects, refl, refl, omega arith, refl)
]

inserted-IsAt : (sid : ℕ) (s : State) → IsBelow s → IsAt sid s.next (insert sid s.next s.streams)
inserted-IsAt sid s below = (lookup-insert_self sid s.next s.streams, only)
  where
    only : (i : ℕ) → lookup i (insert sid s.next s.streams) ≡ some s.next → i ≡ sid
    only i h = elim (ℕ_discrete sid i) [
      | yes p ↦ sym p
      | no p ↦
          let old = below i s.next (sym (lookup-insert_ne sid i s.next s.streams p) ∙ h) in
          absurd (omega (arith, old))
    ]

settled : (st : Stream) → IsClean st → (st.connected ≡ false) ⊎ (st.pending ≡ [])
settled st clean = elim (Bool-cases st.connected) [ inl e ↦ inr (clean e) | inr e ↦ inl e ]

-- The server's chunks for a stream, up to the step that gives its number up: the server closes it or opens
-- another under the number, a thread or job of that number comes to its end, or the connection does.
unfoldable pub chunks_for : ℕ → List TunnelCfg → List Step → State → Bytes
unfolding chunk_of ends touch step
chunks_for sid tunnels [] s = []
chunks_for sid tunnels (e ∷ es) s =
    let rest = chunks_for sid tunnels es (step tunnels e s) in
    if ends sid (touch tunnels e s) then [] else chunk_of sid e ++ rest

delivered-IsGone :
    (o : ℕ) (tunnels : List TunnelCfg) (es : List Step) (s : State)
    → o < s.next
    → IsGone o s.streams
    → delivered o tunnels es s ≡ []
unfolding delivered
delivered-IsGone o tunnels [] s below gone = refl
delivered-IsGone o tunnels (e ∷ es) s below gone =
    let later =
      delivered-IsGone o tunnels es (step tunnels e s) (omega (arith, below, step-next tunnels e s))
        (IsGone-step o tunnels e s below gone) in
    rw (gone-delivers o e s gone) later

-- What the table routes to the object is what the server sent for its stream.
delivered-chunks_for :
    (sid o : ℕ) (tunnels : List TunnelCfg) (es : List Step) (s : State)
    → o < s.next
    → IsAt sid o s.streams
    → delivered o tunnels es s ≡ chunks_for sid tunnels es s
unfolding delivered chunks_for
delivered-chunks_for sid o tunnels [] s below at = refl
delivered-chunks_for sid o tunnels (e ∷ es) s below at =
    let below' : o < (step tunnels e s).next = omega (arith, below, step-next tunnels e s) in
    elim (Bool-cases (ends sid (touch tunnels e s))) [
      | inl p ↦
          let gone = end-step sid o tunnels e s below at p in
          rw (p, gone.0) (delivered-IsGone o tunnels es (step tunnels e s) below' gone.1)
      | inr p ↦
          let here = IsAt-step sid o tunnels e s below at p in
          rw (p, at-delivers sid o e s at)
            (ap (λ x. chunk_of sid e ++ x)
              (delivered-chunks_for sid o tunnels es (step tunnels e s) below' here))
    ]

-- From a state whose table holds only objects that were opened.
delivered_from :
    (tunnels : List TunnelCfg) (os : OpenStream) (es : List Step) (s : State)
    → is_empty (local_of os.tunnel_id [] tunnels) ≡ false
    → IsBelow s
    → (st : Stream) × (lookup s.next (run tunnels (open_stream os ∷ es) s).objects ≡ some st)
      × (st.written ++ st.pending ≡ chunks_for os.stream_id tunnels es (on_open tunnels os s))
      × ((st.connected ≡ false) ⊎ (st.pending ≡ []))
unfolding run
delivered_from tunnels os es s h low =
    let t = on_open tunnels os s in
    let (st, e, none_yet, off, below, table) = opened tunnels os s h in
    let clean : IsClean st = λ on. ground arith in
    let (st', e', clean', p) = run-Grows tunnels es s.next t below st e clean in
    let at : IsAt os.stream_id s.next t.streams = rw table (inserted-IsAt os.stream_id s low) in
    let all_sent = delivered-chunks_for os.stream_id s.next tunnels es t below at in
    (
      st',
      e',
      p ∙ ap (λ x. x ++ delivered s.next tunnels es t) none_yet ∙ all_sent,
      settled st' clean',
    )

-- In a session that begins with an empty table, a stream that the server opens, of a tunnel with a local
-- address, is kept as an object whose bytes are the server's chunks for it, each once and in their order, up
-- to where its number is given up, whatever the steps before and after the opening are: what was written to
-- the local service comes first, what still waits follows it, and nothing waits once the connection is there.
pub delivered_in_order :
    (tunnels : List TunnelCfg) (before after : List Step) (os : OpenStream) (s : State)
    → s.streams ≡ []
    → is_empty (local_of os.tunnel_id [] tunnels) ≡ false
    → (st : Stream) × (lookup
          (run tunnels before s).next
          (run tunnels (open_stream os ∷ after) (run tunnels before s)).objects
        ≡ some st)
      × (st.written ++ st.pending
          ≡ chunks_for os.stream_id tunnels after (on_open tunnels os (run tunnels before s)))
      × ((st.connected ≡ false) ⊎ (st.pending ≡ []))
delivered_in_order tunnels before after os s fresh h =
    delivered_from tunnels os after (run tunnels before s) h
      (run-IsBelow tunnels before s (empty-IsBelow s fresh))
