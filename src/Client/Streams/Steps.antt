-- ===== src/Client/Streams/Steps.antt =====
-- What each step of the machine does to what an object has taken in.
use samryetha_tunnel.Base.{
  ℕ, ◌<◌, ◌≡◌, refl, sym, ap, ◌∙◌, Bool, true, false, ◌&&◌, ◌==◌, Bool-cases, Option-cases, inl,
  inr, Option, none, some, List, [], ◌∷◌, append-nil, if◌then◌else◌, arith,
}
use samryetha_tunnel.Base.Dict.{lookup, insert, erase, lookup-insert_ne}
use samryetha_tunnel.Base.Order.{nat_order}
use samryetha_tunnel.Base.Text.{Bytes, codes, bytes_eq, is_empty}
use samryetha_tunnel.Codec.Types.{TunnelCfg, OpenStream}
use samryetha_tunnel.Client.Http.Forward.{Answer, chunk, stop, abort}
use samryetha_tunnel.Client.Streams.{
  Pc, connecting, testing, reading, ending, erasing, done, Stream, Out, register, pong, answer,
  State, update, send, local_of, on_open, take_chunk, on_chunk, close_stream, on_close, Input,
  joined, refused, bytes, eof, tick, at_pc, flush, tcp_step, on_tcp, taken, on_take, worked,
  on_work, erase_stream, teardown, Step, begin, ping, noted, open_stream, chunk_in, close_in, tcp,
  take_job, work, down, step,
}
use samryetha_tunnel.Client.Streams.Growth.{
  content, Grows, Grows-refl, update_same, update_other, update_none, send-objects, send-update,
  close_all-Grows, flush-Takes, take_chunk-Takes, at_pc-Takes, close_stream-Takes,
}

-- What the step gives object `o` to take in: the bytes of a chunk whose stream it is.
unfoldable pub delivers : ℕ → Step → State → Bytes
delivers o (chunk_in sid b) s = elim (lookup sid s.streams) [
  | none ↦ []
  | some j ↦ if j == o then b else []
]
delivers o e s = []

-- The steps of the thread of a stream.
tcp_step-Grows :
    (pc : Pc) (o j : ℕ) (st : Stream) (input : Input) (s : State)
    → Grows j s.objects (tcp_step pc o st input s).objects []
unfolding tcp_step
tcp_step-Grows connecting o j st joined s = update_none o j flush s flush-Takes
tcp_step-Grows connecting o j st (refused r) s = send-update o j done (answer (abort st.id r)) s
tcp_step-Grows testing o j st tick s =
    update_none o j (at_pc (if st.closed then ending else reading)) s
      (at_pc-Takes (if st.closed then ending else reading))
tcp_step-Grows reading o j st (bytes b w) s = elim (Bool-cases (s.alive && w)) [
  | inl e ↦ rw e (send-update o j testing (answer (chunk st.id b)) s)
  | inr e ↦ rw e (update_none o j (at_pc ending) s (at_pc-Takes ending))
]
tcp_step-Grows reading o j st eof s = update_none o j (at_pc ending) s (at_pc-Takes ending)
tcp_step-Grows ending o j st tick s = elim (Bool-cases st.closed) [
  | inl e ↦ rw e (update_none o j (at_pc erasing) s (at_pc-Takes erasing))
  | inr e ↦ rw e (send-update o j erasing (answer (stop st.id)) s)
]
tcp_step-Grows erasing o j st tick s =
    update_none o j (at_pc done) (record s { streams = erase st.id s.streams }) (at_pc-Takes done)
tcp_step-Grows pc o j st input s = Grows-refl j s.objects

inserted :
    (os : OpenStream) (o : ℕ) (x : Stream) (s : State)
    → o < s.next
    → Grows o s.objects (insert s.next x s.objects) []
inserted os o x s below st e clean = (
  st,
  lookup-insert_ne s.next o x s.objects (λ p. ground arith) ∙ e,
  clean,
  sym (append-nil (content st)),
)

-- Object `o` is not one that a stream may still be opened as.
on_open-Grows :
    (tunnels : List TunnelCfg) (os : OpenStream) (o : ℕ) (s : State)
    → o < s.next
    → Grows o s.objects (on_open tunnels os s).objects []
unfolding on_open
on_open-Grows tunnels os o s below st e clean =
    let addr = local_of os.tunnel_id [] tunnels in
    elim (Bool-cases (is_empty addr)) [
      | inl p ↦ rw p (
        st,
        ap (lookup o) (send-objects (answer (abort os.stream_id (codes "unknown tunnel"))) s) ∙ e,
        clean,
        sym (append-nil (content st)),
      )
      | inr p ↦ elim (Bool-cases (bytes_eq os.proto (codes "tcp"))) [
        | inl q ↦ rw (p, q) (inserted os o _ s below st e clean)
        | inr q ↦ rw (p, q) (inserted os o _ s below st e clean)
      ]
    ]

chunk_in-Grows :
    (sid : ℕ) (b : Bytes) (o : ℕ) (s : State)
    → Grows o s.objects (on_chunk sid b s).objects (delivers o (chunk_in sid b) s)
unfolding on_chunk delivers
chunk_in-Grows sid b o s = go (lookup sid s.streams)
  where
    at :
        (j : ℕ) (t : Bool)
        → (j == o) ≡ t
        → Grows o s.objects (update j (take_chunk b) s).objects (if t then b else [])
    at j true e =
        let same : j ≡ o = ground arith in
        rw same (update_same o (take_chunk b) s b (take_chunk-Takes b))
    at j false e = update_other j o (take_chunk b) s (λ p. ground arith)

    go :
        (found : Option ℕ)
        → Grows o s.objects
            (State.objects (elim found [ none ↦ s | some j ↦ update j (take_chunk b) s ]))
            (elim found [ none ↦ [] | some j ↦ if j == o then b else [] ])
    go none = Grows-refl o s.objects
    go (some j) = at j (j == o) refl

send-Grows : (o : ℕ) (m : Out) (s : State) → Grows o s.objects (send m s).objects []
send-Grows o m s = rw (send-objects m s) (Grows-refl o s.objects)

pub step-Grows :
    (tunnels : List TunnelCfg) (e : Step) (o : ℕ) (s : State)
    → o < s.next
    → Grows o s.objects (step tunnels e s).objects (delivers o e s)
unfolding step delivers on_close on_tcp on_take taken on_work worked erase_stream teardown
step-Grows tunnels (begin client_id) o s below = send-Grows o (register client_id tunnels) s
step-Grows tunnels ping o s below = send-Grows o pong s
step-Grows tunnels noted o s below = Grows-refl o s.objects
step-Grows tunnels (open_stream os) o s below = on_open-Grows tunnels os o s below
step-Grows tunnels (chunk_in sid b) o s below = chunk_in-Grows sid b o s
step-Grows tunnels (close_in sid) o s below = go (lookup sid s.streams)
  where
    t : State
    t = record s { streams = erase sid s.streams }

    go :
        (found : Option ℕ)
        → Grows o s.objects
            (State.objects (elim found [ none ↦ t | some j ↦ update j close_stream t ]))
            []
    go none = Grows-refl o s.objects
    go (some j) = update_none j o close_stream t close_stream-Takes
step-Grows tunnels (tcp j input) o s below = go (lookup j s.objects)
  where
    go :
        (found : Option Stream)
        → Grows o s.objects
            (State.objects (elim found [ none ↦ s | some st ↦ tcp_step st.pc j st input s ]))
            []
    go none = Grows-refl o s.objects
    go (some st) = tcp_step-Grows st.pc j o st input s
step-Grows tunnels (take_job out pool) o s below = go s.jobs
  where
    go : (jobs : List (ℕ × OpenStream)) → Grows o s.objects (taken out pool jobs s).objects []
    go [] = Grows-refl o s.objects
    go ((j, os) ∷ js) = elim (Option-cases (lookup j s.objects)) [
      | inl n ↦ rw (n, taken) (Grows-refl o s.objects)
      | inr (st, n) ↦ rw (n, taken) (Grows-refl o s.objects)
    ]
step-Grows tunnels (work j) o s below = go (lookup j s.workers)
  where
    go : (job : Option (ℕ × List Answer)) → Grows o s.objects (worked j job s).objects []
    go none = Grows-refl o s.objects
    go (some (id, [])) = Grows-refl o s.objects
    go (some (id, a ∷ rest)) =
        send-Grows o (answer a) (record s { workers = insert j (id, rest) s.workers })
step-Grows tunnels down o s below = close_all-Grows o s.streams (record s { alive = false })
