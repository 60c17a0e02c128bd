-- ===== src/Client/Pool.antt =====
-- The connections to local services that are kept for reuse (`LocalPool`), and the worker threads (`Pool`).
pub mod Reuse
pub mod Jobs
use samryetha_tunnel.Base.{
  ℕ, suc, ◌+◌, ◌-◌, ◌*◌, ◌^◌, Bool, true, ltb, leb, if◌then◌else◌, Option, none, some, List, [],
  ◌∷◌, ◌++◌, length,
}
use samryetha_tunnel.Base.Dict.{Dict, lookup, insert}
use samryetha_tunnel.Base.Order.{bytes_order}
use samryetha_tunnel.Base.Text.{Bytes}

-- kIdleSecs, in the clock's nanoseconds, and kMaxIdle.
abbrev pub idle_span : ℕ
idle_span = 30 * 10 ^ 9

abbrev pub max_idle : ℕ
max_idle = 8

-- struct IdleConn: the socket and when it was given back.
pub record IdleConn : Type 0 where
  pub sock : ℕ
  pub at : ℕ

-- `idle_`. The connections of an address stand from the vector's back to its front.
abbrev pub LocalPool : Type 0
LocalPool = Dict Bytes (List IdleConn)

unfoldable pub conns : Bytes → LocalPool → List IdleConn
conns addr p = elim (lookup addr p) [ none ↦ [] | some v ↦ v ]

-- `now - c.at > std::chrono::seconds(kIdleSecs)`
unfoldable pub too_old : ℕ → IdleConn → Bool
too_old now c = ltb idle_span (now - c.at)

-- The loop of `acquire`: the socket, and what is left of the vector.
unfoldable pub take_idle : ℕ → List IdleConn → Option ℕ × List IdleConn
unfolding too_old
take_idle now [] = (none, [])
take_idle now (c ∷ v) =
    let rest = take_idle now v in if too_old now c then rest else (some c.sock, v)

unfoldable pub acquire : Bytes → ℕ → LocalPool → Option ℕ × LocalPool
unfolding take_idle
acquire addr now p = elim (lookup addr p) [
  | none ↦ (none, p)
  | some v ↦ ((take_idle now v).0, insert addr (take_idle now v).1 p)
]

unfoldable pub release : Bytes → ℕ → ℕ → LocalPool → LocalPool
unfolding conns
release addr sock now p =
    let v = conns addr p in
    if leb max_idle (length v)
    then insert addr v p
    else insert addr (record { sock = sock; at = now } ∷ v) p

-- `v.erase(std::remove_if(...), v.end())`
unfoldable pub keep_young : ℕ → List IdleConn → List IdleConn
unfolding too_old
keep_young now [] = []
keep_young now (c ∷ v) = let rest = keep_young now v in if too_old now c then rest else c ∷ rest

unfoldable pub purge : ℕ → LocalPool → LocalPool
unfolding keep_young
purge now [] = []
purge now ((addr, v) ∷ p) = (addr, keep_young now v) ∷ purge now p

-- class Pool: `q_`, `stop_`, how many workers wait or run a job, and the jobs that were begun.
pub record Workers {ℓ} (Job : Type ℓ) : Type ℓ where
  pub queue : List Job
  pub stopped : Bool
  pub workers : ℕ
  pub begun : List Job

pub data Event {ℓ} (Job : Type ℓ) : Type ℓ where
  submit : Job → Event Job
  stop : Event Job
  wake : Event Job

-- A worker at its wait, with the queue that it finds: it takes the front, or ends, or waits on.
unfoldable pub take_front {ℓ} : {Job : Type ℓ} → List Job → Workers Job → Workers Job
take_front [] w = if w.stopped then record w { workers = w.workers - 1 } else w
take_front (j ∷ js) w =
    if ltb 0 w.workers then record w { queue = js; begun = w.begun ++ j ∷ [] } else w

unfoldable pub wake_up {ℓ} : {Job : Type ℓ} → Workers Job → Workers Job
unfolding take_front
wake_up w = take_front w.queue w

unfoldable pub on_event {ℓ} : {Job : Type ℓ} → Event Job → Workers Job → Workers Job
unfolding wake_up
on_event (submit j) w = record w { queue = w.queue ++ j ∷ [] }
on_event stop w = record w { stopped = true }
on_event wake w = wake_up w

unfoldable pub run_events {ℓ} : {Job : Type ℓ} → List (Event Job) → Workers Job → Workers Job
unfolding on_event
run_events [] w = w
run_events (e ∷ es) w = run_events es (on_event e w)
