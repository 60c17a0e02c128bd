-- ===== src/Client/Pool/Reuse.antt =====
-- Which kept connection `acquire` gives, and that the pool stays within its bounds.
use samryetha_tunnel.Base.{
  ℕ, ◌-◌, ◌≡◌, ◌≤◌, ◌<◌, ◌⊎◌, refl, ap, false, ltb, leb, none, some, List, [], ◌∷◌, ◌++◌, All,
  length, Option-cases, Bool-cases, inl, inr, arith,
}
use samryetha_tunnel.Base.Dict.{lookup, insert, lookup-insert_self}
use samryetha_tunnel.Base.Order.{bytes_order}
use samryetha_tunnel.Base.Text.{Bytes}
use samryetha_tunnel.Client.Pool.{
  idle_span, max_idle, IdleConn, LocalPool, conns, too_old, take_idle, acquire, release, keep_young,
  purge,
}

abbrev pub IsOld : ℕ → IdleConn → Type 0
IsOld now c = idle_span < now - c.at

-- The connections of an address are tried from the one given back last: those that were kept for more
-- than 30 seconds are dropped, and the first younger one is taken, with all behind it left.
pub take_idle_lem :
    (now : ℕ) (v : List IdleConn)
    → (old : List IdleConn) × All (IsOld now) old
      × (((v ≡ old) × (take_idle now v ≡ (none, [])))
          ⊎ ((c : IdleConn) × (rest : List IdleConn) × (v ≡ old ++ c ∷ rest)
              × (now - c.at ≤ idle_span)
              × (take_idle now v ≡ (some c.sock, rest))))
unfolding take_idle too_old
take_idle_lem now [] = ([], tt, inl (refl, refl))
take_idle_lem now (c ∷ v) = elim (Bool-cases (too_old now c)) [
  | inl e ↦
      let (old, all, found) = take_idle_lem now v in
      (
        c ∷ old,
        (ground arith, all),
        elim found [
          | inl (p, q) ↦ inl (ap (◌∷◌ c) p, rw e q)
          | inr (d, rest, p, y, q) ↦ inr (d, rest, ap (◌∷◌ c) p, y, rw e q)
        ],
      )
  | inr e ↦ ([], tt, inr (c, v, refl, ground arith, rw e refl))
]

-- No address keeps more than eight connections.
abbrev pub IsBounded : LocalPool → Type 0
IsBounded = All (λ e. length e.1 ≤ max_idle)

take_idle-length : (now : ℕ) (v : List IdleConn) → length (take_idle now v).1 ≤ length v
unfolding take_idle too_old
take_idle-length now [] = omega arith
take_idle-length now (c ∷ v) = ground (arith, take_idle-length now v)

keep_young-length : (now : ℕ) (v : List IdleConn) → length (keep_young now v) ≤ length v
unfolding keep_young too_old
keep_young-length now [] = omega arith
keep_young-length now (c ∷ v) = ground (arith, keep_young-length now v)

insert-IsBounded :
    (addr : Bytes) (v : List IdleConn) (p : LocalPool)
    → length v ≤ max_idle
    → IsBounded p
    → IsBounded (insert addr v p)
unfolding insert
insert-IsBounded addr v [] h b = (h, tt)
insert-IsBounded addr v ((a, w) ∷ p) h b = ground (arith, insert-IsBounded addr v p h b.1)

lookup-IsBounded :
    (addr : Bytes) (p : LocalPool) (v : List IdleConn)
    → IsBounded p
    → lookup addr p ≡ some v
    → length v ≤ max_idle
unfolding lookup
lookup-IsBounded addr [] v b e = ground arith
lookup-IsBounded addr ((a, w) ∷ p) v b e = ground (arith, lookup-IsBounded addr p v b.1)

purge-IsBounded : (now : ℕ) (p : LocalPool) → IsBounded p → IsBounded (purge now p)
unfolding purge
purge-IsBounded now [] b = tt
purge-IsBounded now ((a, v) ∷ p) b =
    (omega (arith, b.0, keep_young-length now v), purge-IsBounded now p b.1)

acquire-IsBounded :
    (addr : Bytes) (now : ℕ) (p : LocalPool) → IsBounded p → IsBounded (acquire addr now p).1
unfolding acquire
acquire-IsBounded addr now p b = elim (Option-cases (lookup addr p)) [
  | inl e ↦ rw (e, acquire) b
  | inr (v, e) ↦
      rw (e, acquire)
        (insert-IsBounded addr (take_idle now v).1 p
          (omega (arith, take_idle-length now v, lookup-IsBounded addr p v b e)) b)
]

conns-length : (addr : Bytes) (p : LocalPool) → IsBounded p → length (conns addr p) ≤ max_idle
unfolding conns
conns-length addr p b = elim (Option-cases (lookup addr p)) [
  | inl n ↦ rw (n, conns) (omega arith)
  | inr (v, n) ↦ rw (n, conns) (lookup-IsBounded addr p v b n)
]

release-IsBounded :
    (addr : Bytes) (sock now : ℕ) (p : LocalPool)
    → IsBounded p
    → IsBounded (release addr sock now p)
unfolding release
release-IsBounded addr sock now p b = elim (Bool-cases (leb max_idle (length (conns addr p)))) [
  | inl e ↦ rw e (insert-IsBounded addr (conns addr p) p (conns-length addr p b) b)
  | inr e ↦ rw e (insert-IsBounded addr _ p (ground arith) b)
]

-- What the forwarding threads do with the pool.
pub data Use : Type 0 where
  acquired : Bytes → ℕ → Use
  released : Bytes → ℕ → ℕ → Use
  purged : ℕ → Use

unfoldable pub use_pool : List Use → LocalPool → LocalPool
use_pool [] p = p
use_pool (acquired addr now ∷ us) p = use_pool us (acquire addr now p).1
use_pool (released addr sock now ∷ us) p = use_pool us (release addr sock now p)
use_pool (purged now ∷ us) p = use_pool us (purge now p)

use_pool-IsBounded_from : (us : List Use) (p : LocalPool) → IsBounded p → IsBounded (use_pool us p)
unfolding use_pool
use_pool-IsBounded_from [] p b = b
use_pool-IsBounded_from (acquired addr now ∷ us) p b =
    use_pool-IsBounded_from us (acquire addr now p).1 (acquire-IsBounded addr now p b)
use_pool-IsBounded_from (released addr sock now ∷ us) p b =
    use_pool-IsBounded_from us (release addr sock now p) (release-IsBounded addr sock now p b)
use_pool-IsBounded_from (purged now ∷ us) p b =
    use_pool-IsBounded_from us (purge now p) (purge-IsBounded now p b)

-- From the empty pool, whatever is acquired, given back and purged, no address keeps more than eight
-- connections.
pub use_pool-IsBounded : (us : List Use) → IsBounded (use_pool us [])
use_pool-IsBounded us = use_pool-IsBounded_from us [] tt

-- A connection that is given back where fewer than eight wait is the next one acquired for its address,
-- within 30 seconds.
pub acquire-release :
    (addr : Bytes) (sock at now : ℕ) (p : LocalPool)
    → length (conns addr p) < max_idle
    → now - at ≤ idle_span
    → (acquire addr now (release addr sock at p)).0 ≡ some sock
unfolding acquire release take_idle too_old
acquire-release addr sock at now p room young =
    let full : leb max_idle (length (conns addr p)) ≡ false = ground arith in
    let old : ltb idle_span (now - at) ≡ false = ground arith in
    let c : IdleConn = record { sock = sock; at = at } in
    rw (full, lookup-insert_self addr (c ∷ conns addr p) p, acquire) (rw old refl)
