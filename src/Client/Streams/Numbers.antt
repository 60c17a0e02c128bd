-- ===== src/Client/Streams/Numbers.antt =====
-- The numbers of the objects only grow.
use samryetha_tunnel.Base.{
  ℕ, ◌≤◌, ◌≡◌, refl, ◌∙◌, false, ◌&&◌, Bool-cases, Option-cases, inl, inr, Option, none, some, List,
  [], ◌∷◌, if◌then◌else◌, arith,
}
use samryetha_tunnel.Base.Dict.{lookup, insert, erase}
use samryetha_tunnel.Base.Order.{nat_order}
use samryetha_tunnel.Base.Text.{codes, bytes_eq, is_empty}
use samryetha_tunnel.Codec.Types.{TunnelCfg, OpenStream}
use samryetha_tunnel.Client.Http.Forward.{Answer, chunk, stop, abort}
use samryetha_tunnel.Client.Streams.{
  Pc, connecting, testing, reading, ending, erasing, done, Stream, Out, register, pong, answer,
  State, update, send, local_of, on_open, take_chunk, on_chunk, close_stream, on_close, Input,
  joined, refused, bytes, eof, tick, at_pc, flush, tcp_step, on_tcp, taken, on_take, worked,
  on_work, erase_stream, close_all, teardown, Step, begin, ping, noted, open_stream, chunk_in,
  close_in, tcp, take_job, work, down, step,
}

pub send-next : (m : Out) (s : State) → (send m s).next ≡ s.next
unfolding send
send-next m s = elim (Bool-cases s.alive) [ inl e ↦ rw e refl | inr e ↦ rw e refl ]

pub update-next : (o : ℕ) (f : Stream → Stream) (s : State) → (update o f s).next ≡ s.next
unfolding update
update-next o f s = elim (Option-cases (lookup o s.objects)) [
  | inl n ↦ rw (n, update) refl
  | inr (x, n) ↦ rw (n, update) refl
]

pub close_all-next : (l : List (ℕ × ℕ)) (s : State) → (close_all l s).next ≡ s.next
unfolding close_all
close_all-next [] s = refl
close_all-next ((sid, j) ∷ l) s =
    close_all-next l (update j close_stream s) ∙ update-next j close_stream s

pub tcp_step-next :
    (pc : Pc) (o : ℕ) (st : Stream) (input : Input) (s : State)
    → (tcp_step pc o st input s).next ≡ s.next
unfolding tcp_step
tcp_step-next connecting o st joined s = update-next o flush s
tcp_step-next connecting o st (refused r) s =
    update-next o (at_pc done) (send (answer (abort st.id r)) s)
    ∙ send-next (answer (abort st.id r)) s
tcp_step-next testing o st tick s = update-next o (at_pc (if st.closed then ending else reading)) s
tcp_step-next reading o st (bytes b w) s = elim (Bool-cases (s.alive && w)) [
  | inl e ↦ rw e (
      update-next o (at_pc testing) (send (answer (chunk st.id b)) s)
      ∙ send-next (answer (chunk st.id b)) s)
  | inr e ↦ rw e (update-next o (at_pc ending) s)
]
tcp_step-next reading o st eof s = update-next o (at_pc ending) s
tcp_step-next ending o st tick s = elim (Bool-cases st.closed) [
  | inl e ↦ rw e (update-next o (at_pc erasing) s)
  | inr e ↦ rw e (
      update-next o (at_pc erasing) (send (answer (stop st.id)) s)
      ∙ send-next (answer (stop st.id)) s)
]
tcp_step-next erasing o st tick s =
    update-next o (at_pc done) (record s { streams = erase st.id s.streams })
tcp_step-next pc o st input s = refl

pub on_open-next :
    (tunnels : List TunnelCfg) (os : OpenStream) (s : State) → s.next ≤ (on_open tunnels os s).next
unfolding on_open
on_open-next tunnels os s =
    let same = send-next (answer (abort os.stream_id (codes "unknown tunnel"))) s in
    elim (Bool-cases (is_empty (local_of os.tunnel_id [] tunnels))) [
      | inl p ↦ rw p (omega (arith, same))
      | inr p ↦ elim (Bool-cases (bytes_eq os.proto (codes "tcp"))) [
        | inl q ↦ rw (p, q) (omega arith)
        | inr q ↦ rw (p, q) (omega arith)
      ]
    ]

-- No step gives back the number of an object.
pub step-next : (tunnels : List TunnelCfg) (e : Step) (s : State) → s.next ≤ (step tunnels e s).next
unfolding step on_close on_tcp on_take taken on_work worked erase_stream teardown on_chunk
step-next tunnels (begin client_id) s = omega (arith, send-next (register client_id tunnels) s)
step-next tunnels ping s = omega (arith, send-next pong s)
step-next tunnels noted s = omega arith
step-next tunnels (open_stream os) s = on_open-next tunnels os s
step-next tunnels (chunk_in sid b) s = go (lookup sid s.streams)
  where
    go :
        (found : Option ℕ)
        → s.next ≤ State.next (elim found [ none ↦ s | some j ↦ update j (take_chunk b) s ])
    go none = omega arith
    go (some j) = omega (arith, update-next j (take_chunk b) s)
step-next tunnels (close_in sid) s = go (lookup sid s.streams)
  where
    t : State
    t = record s { streams = erase sid s.streams }

    go :
        (found : Option ℕ)
        → s.next ≤ State.next (elim found [ none ↦ t | some j ↦ update j close_stream t ])
    go none = omega arith
    go (some j) = omega (arith, update-next j close_stream t)
step-next tunnels (tcp j input) s = go (lookup j s.objects)
  where
    go :
        (found : Option Stream)
        → s.next ≤ State.next (elim found [ none ↦ s | some st ↦ tcp_step st.pc j st input s ])
    go none = omega arith
    go (some st) = omega (arith, tcp_step-next st.pc j st input s)
step-next tunnels (take_job out pool) s = go s.jobs
  where
    go : (jobs : List (ℕ × OpenStream)) → s.next ≤ (taken out pool jobs s).next
    go [] = omega arith
    go ((o, os) ∷ js) = elim (Option-cases (lookup o s.objects)) [
      | inl n ↦ rw (n, taken) (omega arith)
      | inr (st, n) ↦ rw (n, taken) (omega arith)
    ]
step-next tunnels (work o) s = go (lookup o s.workers)
  where
    go : (job : Option (ℕ × List Answer)) → s.next ≤ (worked o job s).next
    go none = omega arith
    go (some (id, [])) = omega arith
    go (some (id, a ∷ rest)) =
        omega (arith, send-next (answer a) (record s { workers = insert o (id, rest) s.workers }))
step-next tunnels down s = omega (arith, close_all-next s.streams (record s { alive = false }))
