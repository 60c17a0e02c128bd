-- ===== src/Client/Streams/Table.antt =====
-- What the steps of the machine do to `g_streams`.
use samryetha_tunnel.Base.{
  ℕ, ◌≡◌, refl, ◌∙◌, ◌&&◌, Bool-cases, Option-cases, inl, inr, Option, none, some, List, [], ◌∷◌,
  if◌then◌else◌,
}
use samryetha_tunnel.Base.Dict.{Dict, lookup, insert, erase}
use samryetha_tunnel.Base.Order.{nat_order}
use samryetha_tunnel.Base.Text.{Bytes, codes, bytes_eq, is_empty}
use samryetha_tunnel.Codec.Types.{TunnelCfg, OpenStream}
use samryetha_tunnel.Client.Http.Forward.{Answer, chunk, stop, abort, Outside}
use samryetha_tunnel.Client.Pool.{LocalPool}
use samryetha_tunnel.Client.Streams.{
  Pc, connecting, testing, reading, ending, erasing, done, Stream, Out, register, pong, answer,
  State, update, send, local_of, on_open, take_chunk, on_chunk, close_stream, on_close, Input,
  joined, refused, bytes, eof, tick, at_pc, flush, tcp_step, on_tcp, taken, on_take, worked,
  on_work, erase_stream, teardown, Step, begin, ping, noted, open_stream, chunk_in, close_in, tcp,
  take_job, work, down, step,
}

-- What a step means to do to the table: nothing, put the next object under a number, or drop a number or all.
pub data Touch : Type 0 where
  nothing all : Touch
  opens drops : ℕ → Touch

-- The thread of a tcp stream drops it as its last step, a job when nothing is left to send.
unfoldable pub last_of_thread : Pc → Input → ℕ → Touch
last_of_thread erasing tick id = drops id
last_of_thread pc input id = nothing

unfoldable pub last_of_job : List Answer → ℕ → Touch
last_of_job [] id = drops id
last_of_job (a ∷ rest) id = nothing

unfoldable pub touch : List TunnelCfg → Step → State → Touch
unfolding last_of_thread last_of_job local_of is_empty
touch tunnels (open_stream os) s =
    if is_empty (local_of os.tunnel_id [] tunnels) then nothing else opens os.stream_id
touch tunnels (close_in sid) s = drops sid
touch tunnels (tcp o input) s = elim (lookup o s.objects) [
  | none ↦ nothing
  | some st ↦ last_of_thread st.pc input st.id
]
touch tunnels (work o) s = elim (lookup o s.workers) [
  | none ↦ nothing
  | some (id, left) ↦ last_of_job left id
]
touch tunnels down s = all
touch tunnels e s = nothing

unfoldable pub after : Touch → ℕ → Dict ℕ ℕ → Dict ℕ ℕ
after nothing next d = d
after all next d = []
after (opens k) next d = insert k next d
after (drops k) next d = erase k d

update-streams : (o : ℕ) (f : Stream → Stream) (s : State) → (update o f s).streams ≡ s.streams
unfolding update
update-streams o f s = elim (Option-cases (lookup o s.objects)) [
  | inl n ↦ rw (n, update) refl
  | inr (x, n) ↦ rw (n, update) refl
]

send-streams : (m : Out) (s : State) → (send m s).streams ≡ s.streams
unfolding send
send-streams m s = elim (Bool-cases s.alive) [ inl e ↦ rw e refl | inr e ↦ rw e refl ]

send-update-streams :
    (o : ℕ) (f : Stream → Stream) (m : Out) (s : State)
    → (update o f (send m s)).streams ≡ s.streams
send-update-streams o f m s = update-streams o f (send m s) ∙ send-streams m s

pub on_close-streams : (sid : ℕ) (s : State) → (on_close sid s).streams ≡ erase sid s.streams
unfolding on_close
on_close-streams sid s = go (lookup sid s.streams)
  where
    t : State
    t = record s { streams = erase sid s.streams }

    go :
        (found : Option ℕ)
        → State.streams (elim found [ none ↦ t | some o ↦ update o close_stream t ])
          ≡ erase sid s.streams
    go none = refl
    go (some o) = update-streams o close_stream t

on_chunk-streams : (sid : ℕ) (b : Bytes) (s : State) → (on_chunk sid b s).streams ≡ s.streams
unfolding on_chunk
on_chunk-streams sid b s = elim (Option-cases (lookup sid s.streams)) [
  | inl n ↦ rw (n, on_chunk) refl
  | inr (o, n) ↦ rw (n, on_chunk) (update-streams o (take_chunk b) s)
]

tcp_step-streams :
    (pc : Pc) (o : ℕ) (st : Stream) (input : Input) (s : State)
    → (tcp_step pc o st input s).streams ≡ after (last_of_thread pc input st.id) s.next s.streams
unfolding tcp_step after last_of_thread
tcp_step-streams connecting o st joined s = update-streams o flush s
tcp_step-streams connecting o st (refused r) s =
    send-update-streams o (at_pc done) (answer (abort st.id r)) s
tcp_step-streams testing o st tick s =
    update-streams o (at_pc (if st.closed then ending else reading)) s
tcp_step-streams reading o st (bytes b w) s = elim (Bool-cases (s.alive && w)) [
  | inl e ↦ rw e (send-update-streams o (at_pc testing) (answer (chunk st.id b)) s)
  | inr e ↦ rw e (update-streams o (at_pc ending) s)
]
tcp_step-streams reading o st eof s = update-streams o (at_pc ending) s
tcp_step-streams ending o st tick s = elim (Bool-cases st.closed) [
  | inl e ↦ rw e (update-streams o (at_pc erasing) s)
  | inr e ↦ rw e (send-update-streams o (at_pc erasing) (answer (stop st.id)) s)
]
tcp_step-streams erasing o st tick s =
    update-streams o (at_pc done) (record s { streams = erase st.id s.streams })
tcp_step-streams pc o st input s = refl

on_open-streams :
    (tunnels : List TunnelCfg) (os : OpenStream) (s : State)
    → (on_open tunnels os s).streams ≡ after (touch tunnels (open_stream os) s) s.next s.streams
unfolding on_open after touch
on_open-streams tunnels os s = elim (Bool-cases (is_empty (local_of os.tunnel_id [] tunnels))) [
  | inl p ↦ rw (p, on_open) (send-streams (answer (abort os.stream_id (codes "unknown tunnel"))) s)
  | inr p ↦ elim (Bool-cases (bytes_eq os.proto (codes "tcp"))) [
    | inl q ↦ rw (p, q) refl
    | inr q ↦ rw (p, q) refl
  ]
]

taken-streams :
    (out : Outside) (pool : LocalPool) (jobs : List (ℕ × OpenStream)) (s : State)
    → (taken out pool jobs s).streams ≡ s.streams
unfolding taken
taken-streams out pool [] s = refl
taken-streams out pool ((o, os) ∷ js) s = elim (Option-cases (lookup o s.objects)) [
  | inl n ↦ rw (n, taken) refl
  | inr (st, n) ↦ rw (n, taken) refl
]

-- Each step does to the table what it means to.
pub step-streams :
    (tunnels : List TunnelCfg) (e : Step) (s : State)
    → (step tunnels e s).streams ≡ after (touch tunnels e s) s.next s.streams
unfolding step touch after on_tcp on_take on_work worked last_of_job teardown erase_stream
step-streams tunnels (begin client_id) s = send-streams (register client_id tunnels) s
step-streams tunnels ping s = send-streams pong s
step-streams tunnels noted s = refl
step-streams tunnels (open_stream os) s = on_open-streams tunnels os s
step-streams tunnels (chunk_in sid b) s = on_chunk-streams sid b s
step-streams tunnels (close_in sid) s = on_close-streams sid s
step-streams tunnels (tcp o input) s = go (lookup o s.objects)
  where
    go :
        (found : Option Stream)
        → State.streams (elim found [ none ↦ s | some st ↦ tcp_step st.pc o st input s ])
          ≡ after
              (elim found [ none ↦ nothing | some st ↦ last_of_thread st.pc input st.id ])
              s.next
              s.streams
    go none = refl
    go (some st) = tcp_step-streams st.pc o st input s
step-streams tunnels (take_job out pool) s = taken-streams out pool s.jobs s
step-streams tunnels (work o) s = go (lookup o s.workers)
  where
    go :
        (job : Option (ℕ × List Answer))
        → (worked o job s).streams
          ≡ after
              (elim job [ none ↦ nothing | some (id, left) ↦ last_of_job left id ])
              s.next
              s.streams
    go none = refl
    go (some (id, [])) = refl
    go (some (id, a ∷ rest)) =
        send-streams (answer a) (record s { workers = insert o (id, rest) s.workers })
step-streams tunnels down s = refl
