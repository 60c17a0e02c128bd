-- ===== src/Client/Streams/Teardown.antt =====
-- The end of streams and of the session.
use samryetha_tunnel.Base.{
  ℕ, ◌≡◌, refl, ap, ◌∙◌, Bool, true, false, ◌&&◌, Bool-cases, Option-cases, inl, inr, Option, none,
  some, List, [], ◌∷◌, ◌++◌, if◌then◌else◌, arith,
}
use samryetha_tunnel.Base.Dict.{lookup, insert, erase, lookup-erase_self}
use samryetha_tunnel.Base.Order.{nat_order}
use samryetha_tunnel.Base.Text.{Bytes, codes, bytes_eq, is_empty}
use samryetha_tunnel.Codec.Types.{TunnelCfg, OpenStream}
use samryetha_tunnel.Client.Http.Forward.{Answer, chunk, stop, abort}
use samryetha_tunnel.Client.Streams.{
  Pc, connecting, testing, reading, ending, erasing, done, Stream, Out, register, pong, answer,
  State, update, send, local_of, on_open, take_chunk, on_chunk, close_stream, on_close, Input,
  joined, refused, bytes, eof, tick, at_pc, flush, tcp_step, on_tcp, taken, on_take, worked,
  on_work, erase_stream, close_all, teardown, run, Step, begin, ping, noted, open_stream, chunk_in,
  close_in, tcp, take_job, work, down, step,
}
use samryetha_tunnel.Client.Streams.Table.{on_close-streams}

on_chunk-none :
    (sid : ℕ) (b : Bytes) (s : State) → lookup sid s.streams ≡ none → on_chunk sid b s ≡ s
unfolding on_chunk
on_chunk-none sid b s e = rw (e, on_chunk) refl

-- After a close message, the server's chunks for that stream change nothing.
pub on_chunk-on_close :
    (sid : ℕ) (b : Bytes) (s : State) → on_chunk sid b (on_close sid s) ≡ on_close sid s
on_chunk-on_close sid b s =
    on_chunk-none sid b (on_close sid s)
      (ap (lookup sid) (on_close-streams sid s) ∙ lookup-erase_self sid s.streams)

-- The session of `t` is over, and has sent what that of `s` had.
record Quiet (s t : State) : Type 0 where
  dead : t.alive ≡ false
  same : t.sent ≡ s.sent

quiet : {s t : State} → t.alive ≡ false → t.sent ≡ s.sent → Quiet s t
quiet d e = record { dead = d; same = e }

update-Quiet : (s t : State) (o : ℕ) (f : Stream → Stream) → Quiet s t → Quiet s (update o f t)
unfolding update
update-Quiet s t o f q = go (lookup o t.objects)
  where
    go :
        (found : Option Stream)
        → Quiet s
            (elim found [ none ↦ t | some st ↦ record t { objects = insert o (f st) t.objects } ])
    go none = q
    go (some st) = quiet q.dead q.same

send-Quiet : (s t : State) (m : Out) → Quiet s t → Quiet s (send m t)
unfolding send
send-Quiet s t m q = go t.alive q.dead
  where
    go :
        (alive : Bool)
        → alive ≡ false
        → Quiet s (if alive then record t { sent = t.sent ++ m ∷ [] } else t)
    go true e = ground arith
    go false e = q

tcp_step-Quiet :
    (s t : State) (pc : Pc) (o : ℕ) (st : Stream) (input : Input)
    → Quiet s t
    → Quiet s (tcp_step pc o st input t)
unfolding tcp_step
tcp_step-Quiet s t connecting o st joined q = update-Quiet s t o flush q
tcp_step-Quiet s t connecting o st (refused r) q =
    update-Quiet s (send (answer (abort st.id r)) t) o (at_pc done)
      (send-Quiet s t (answer (abort st.id r)) q)
tcp_step-Quiet s t testing o st tick q =
    update-Quiet s t o (at_pc (if st.closed then ending else reading)) q
tcp_step-Quiet s t reading o st (bytes b w) q = go (t.alive && w)
  where
    go :
        (on : Bool)
        → Quiet s (
            if on
            then update o (at_pc testing) (send (answer (chunk st.id b)) t)
            else update o (at_pc ending) t)
    go true =
        update-Quiet s (send (answer (chunk st.id b)) t) o (at_pc testing)
          (send-Quiet s t (answer (chunk st.id b)) q)
    go false = update-Quiet s t o (at_pc ending) q
tcp_step-Quiet s t reading o st eof q = update-Quiet s t o (at_pc ending) q
tcp_step-Quiet s t ending o st tick q = elim (Bool-cases st.closed) [
  | inl e ↦ rw e (update-Quiet s t o (at_pc erasing) q)
  | inr e ↦ rw e (
      update-Quiet s (send (answer (stop st.id)) t) o (at_pc erasing)
        (send-Quiet s t (answer (stop st.id)) q))
]
tcp_step-Quiet s t erasing o st tick q =
    update-Quiet s (record t { streams = erase st.id t.streams }) o (at_pc done)
      (quiet q.dead q.same)
tcp_step-Quiet s t pc o st input q = q

close_all-Quiet : (s t : State) (l : List (ℕ × ℕ)) → Quiet s t → Quiet s (close_all l t)
unfolding close_all
close_all-Quiet s t [] q = q
close_all-Quiet s t ((sid, o) ∷ l) q =
    close_all-Quiet s (update o close_stream t) l (update-Quiet s t o close_stream q)

on_open-Quiet :
    (s t : State) (tunnels : List TunnelCfg) (os : OpenStream)
    → Quiet s t
    → Quiet s (on_open tunnels os t)
unfolding on_open
on_open-Quiet s t tunnels os q = elim (Bool-cases (is_empty (local_of os.tunnel_id [] tunnels))) [
  | inl p ↦ rw p (send-Quiet s t (answer (abort os.stream_id (codes "unknown tunnel"))) q)
  | inr p ↦ elim (Bool-cases (bytes_eq os.proto (codes "tcp"))) [
    | inl e ↦ rw (p, e) (quiet q.dead q.same)
    | inr e ↦ rw (p, e) (quiet q.dead q.same)
  ]
]

step-Quiet :
    (s t : State) (tunnels : List TunnelCfg) (e : Step) → Quiet s t → Quiet s (step tunnels e t)
unfolding step on_chunk on_close on_tcp on_take taken on_work worked erase_stream teardown
step-Quiet s t tunnels (begin client_id) q = send-Quiet s t (register client_id tunnels) q
step-Quiet s t tunnels ping q = send-Quiet s t pong q
step-Quiet s t tunnels noted q = q
step-Quiet s t tunnels (open_stream os) q = on_open-Quiet s t tunnels os q
step-Quiet s t tunnels (chunk_in sid b) q = go (lookup sid t.streams)
  where
    go : (found : Option ℕ) → Quiet s (elim found [ none ↦ t | some o ↦ update o (take_chunk b) t ])
    go none = q
    go (some o) = update-Quiet s t o (take_chunk b) q
step-Quiet s t tunnels (close_in sid) q = go (lookup sid t.streams)
  where
    u : State
    u = record t { streams = erase sid t.streams }

    go : (found : Option ℕ) → Quiet s (elim found [ none ↦ u | some o ↦ update o close_stream u ])
    go none = quiet q.dead q.same
    go (some o) = update-Quiet s u o close_stream (quiet q.dead q.same)
step-Quiet s t tunnels (tcp o input) q = go (lookup o t.objects)
  where
    go :
        (found : Option Stream)
        → Quiet s (elim found [ none ↦ t | some st ↦ tcp_step st.pc o st input t ])
    go none = q
    go (some st) = tcp_step-Quiet s t st.pc o st input q
step-Quiet s t tunnels (take_job out pool) q = go t.jobs
  where
    go : (jobs : List (ℕ × OpenStream)) → Quiet s (taken out pool jobs t)
    go [] = q
    go ((o, os) ∷ js) = elim (Option-cases (lookup o t.objects)) [
      | inl n ↦ rw (n, taken) (quiet q.dead q.same)
      | inr (st, n) ↦ rw (n, taken) (quiet q.dead q.same)
    ]
step-Quiet s t tunnels (work o) q = go (lookup o t.workers)
  where
    go : (job : Option (ℕ × List Answer)) → Quiet s (worked o job t)
    go none = q
    go (some (id, [])) = quiet q.dead q.same
    go (some (id, a ∷ rest)) =
        send-Quiet s (record t { workers = insert o (id, rest) t.workers }) (answer a)
          (quiet q.dead q.same)
step-Quiet s t tunnels down q =
    let c = close_all-Quiet s (record t { alive = false }) t.streams (quiet refl q.same) in
    quiet c.dead c.same

run-Quiet :
    (s t : State) (tunnels : List TunnelCfg) (es : List Step)
    → Quiet s t
    → Quiet s (run tunnels es t)
unfolding run
run-Quiet s t tunnels [] q = q
run-Quiet s t tunnels (e ∷ es) q =
    run-Quiet s (step tunnels e t) tunnels es (step-Quiet s t tunnels e q)

-- When `runOnce` ends, the table of streams is empty, and the session sends nothing more, whatever is still
-- done by the threads of streams, by jobs at work or taken later, or about a message in hand.
pub teardown-Quiet :
    (tunnels : List TunnelCfg) (es : List Step) (s : State)
    → ((teardown s).streams ≡ []) × ((run tunnels es (teardown s)).sent ≡ s.sent)
unfolding teardown
teardown-Quiet tunnels es s =
    let c = close_all-Quiet s (record s { alive = false }) s.streams (quiet refl refl) in
    let down : Quiet s (teardown s) = quiet c.dead c.same in
    (refl, (run-Quiet s (teardown s) tunnels es down).same)
