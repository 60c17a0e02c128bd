-- ===== src/Client/Groups.antt =====
-- The connections of `main`: which tunnels share one, and how long it waits before it connects again.
pub mod Index
pub mod Keys
pub mod Backoff
use samryetha_tunnel.Base.{
  ℕ, zero, suc, ◌*◌, ◌<◌, min, Bool, true, false, not, if◌then◌else◌, Option, none, some, List, [],
  ◌∷◌, ◌++◌, length,
}
use samryetha_tunnel.Base.Dict.{Dict, lookup, insert}
use samryetha_tunnel.Base.Order.{bytes_order}
use samryetha_tunnel.Base.Text.{Bytes, codes, is_empty}
use samryetha_tunnel.Codec.Types.{TunnelCfg}

-- The connection that a tunnel names, or its own, or the common one.
unfoldable pub group_key : Bool → TunnelCfg → Bytes
group_key isolate t =
    if not (is_empty t.conn)
    then codes "c:" ++ t.conn
    else if isolate
    then codes "t:" ++ t.id
    else codes "default"

abbrev pub Group : Type 0
Group = Bytes × List TunnelCfg

-- `groups[i].second.push_back(t)`
unfoldable pub push_to : ℕ → TunnelCfg → List Group → List Group
push_to i t [] = []
push_to zero t ((k, ts) ∷ gs) = (k, ts ++ t ∷ []) ∷ gs
push_to (suc i) t (g ∷ gs) = g ∷ push_to i t gs

-- The groups, and where each key stands among them.
unfoldable pub add_tunnel : Bool → TunnelCfg → Dict Bytes ℕ × List Group → Dict Bytes ℕ × List Group
unfolding group_key push_to
add_tunnel isolate t (idx, groups) = elim (lookup (group_key isolate t) idx) [
  | none ↦ (
    insert (group_key isolate t) (length groups) idx,
    push_to (length groups) t (groups ++ (group_key isolate t, []) ∷ []),
  )
  | some i ↦ (idx, push_to i t groups)
]

unfoldable pub add_tunnels :
    Bool → List TunnelCfg → Dict Bytes ℕ × List Group → Dict Bytes ℕ × List Group
unfolding add_tunnel
add_tunnels isolate [] g = g
add_tunnels isolate (t ∷ ts) g = add_tunnels isolate ts (add_tunnel isolate t g)

unfoldable pub groups_of : Bool → List TunnelCfg → List Group
unfolding add_tunnels
groups_of isolate ts = (add_tunnels isolate ts ([], [])).1

-- The seconds of the next wait, by whether the connection had been there.
unfoldable pub next_backoff : Bool → ℕ → ℕ
next_backoff connected backoff = min ((if connected then 1 else backoff) * 2) 30

-- The variable `backoff` after the given tries, each of which sleeps for its value before it is doubled.
unfoldable pub backoff_after : List Bool → ℕ → ℕ
unfolding next_backoff
backoff_after [] backoff = backoff
backoff_after (c ∷ cs) backoff = backoff_after cs (next_backoff c backoff)
