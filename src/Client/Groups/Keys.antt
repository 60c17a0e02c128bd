-- ===== src/Client/Groups/Keys.antt =====
-- Which tunnels share a connection.
use samryetha_tunnel.Base.{
  ℕ, zero, suc, ◌+◌, true, false, ◌≡◌, ◌≢◌, refl, ap, ◌∙◌, Bool, Option, none, some, ◌⊎◌, inl, inr,
  List, [], ◌∷◌, ◌++◌, All, length, get_elem?, arith,
}
use mathlib.Core.Path.{subst}
use samryetha_tunnel.Base.Dict.{Dict, lookup, insert}
use samryetha_tunnel.Base.Order.{bytes_order}
use samryetha_tunnel.Base.Text.{Bytes, codes, is_empty}
use samryetha_tunnel.Codec.Types.{TunnelCfg}
use samryetha_tunnel.Client.Groups.{group_key, Group, push_to, add_tunnel, add_tunnels, groups_of}
use samryetha_tunnel.Client.Groups.Index.{
  IsUniform, get_elem?_last, IsGood, add_tunnel-IsGood, add_tunnels-IsGood,
}

-- The key of a tunnel: the connection that it names; else its own under --isolate, or the common one.
abbrev pub IsKey : Bool → TunnelCfg → Bytes → Type 0
IsKey isolate t k =
    ((t.conn ≢ []) × (k ≡ codes "c:" ++ t.conn))
    ⊎ (((t.conn ≡ []) × (isolate ≡ true) × (k ≡ codes "t:" ++ t.id))
        ⊎ ((t.conn ≡ []) × (isolate ≡ false) × (k ≡ codes "default")))

group_key-IsKey : (isolate : Bool) (t : TunnelCfg) → IsKey isolate t (group_key isolate t)
unfolding group_key is_empty
group_key-IsKey isolate t = go t.conn isolate
  where
    go :
        (conn : Bytes) (alone : Bool)
        → IsKey alone (record t { conn = conn }) (group_key alone (record t { conn = conn }))
    go (c ∷ cs) alone = inl (λ p. ground arith, refl)
    go [] true = inr (inl (refl, refl, refl))
    go [] false = inr (inr (refl, refl, refl))

-- Every tunnel stands in the group of its key.
abbrev pub HasKeys : Bool → List Group → Type 0
HasKeys isolate = All (λ g. All (λ t. IsKey isolate t g.0) g.1)

keyed :
    (isolate : Bool) (k : Bytes) (ts : List TunnelCfg)
    → All (λ t. group_key isolate t ≡ k) ts
    → All (λ t. IsKey isolate t k) ts
keyed isolate k [] h = tt
keyed isolate k (t ∷ ts) h =
    (subst (IsKey isolate t) h.0 (group_key-IsKey isolate t), keyed isolate k ts h.1)

HasKeys-IsUniform : (isolate : Bool) (gs : List Group) → IsUniform isolate gs → HasKeys isolate gs
HasKeys-IsUniform isolate [] h = tt
HasKeys-IsUniform isolate ((k, ts) ∷ gs) h =
    (keyed isolate k ts h.0, HasKeys-IsUniform isolate gs h.1)

-- How many tunnels the groups have in all.
abbrev pub size : List Group → ℕ
size [] = 0
size ((k, ts) ∷ gs) = length ts + size gs

length-snoc : (ts : List TunnelCfg) (t : TunnelCfg) → length (ts ++ t ∷ []) ≡ suc (length ts)
length-snoc [] t = refl
length-snoc (u ∷ ts) t = ap suc (length-snoc ts t)

size-push_to :
    (i : ℕ) (t : TunnelCfg) (gs : List Group) (g : Group)
    → get_elem? gs i ≡ some g
    → size (push_to i t gs) ≡ suc (size gs)
unfolding push_to
size-push_to i t [] g e = ground arith
size-push_to zero t ((k, ts) ∷ gs) g e = omega (arith, length-snoc ts t)
size-push_to (suc i) t ((k, ts) ∷ gs) g e = omega (arith, size-push_to i t gs g e)

size-snoc : (gs : List Group) (k : Bytes) → size (gs ++ (k, []) ∷ []) ≡ size gs
size-snoc [] k = refl
size-snoc ((j, ts) ∷ gs) k = ap (λ n. length ts + n) (size-snoc gs k)

abbrev groups_in : Dict Bytes ℕ × List Group → List Group
groups_in g = g.1

size-add_tunnel :
    (isolate : Bool) (t : TunnelCfg) (idx : Dict Bytes ℕ) (gs : List Group)
    → IsGood isolate (idx, gs)
    → size (add_tunnel isolate t (idx, gs)).1 ≡ suc (size gs)
unfolding add_tunnel IsGood
size-add_tunnel isolate t idx gs (u, x) = go (lookup key idx) refl
  where
    key : Bytes
    key = group_key isolate t

    go :
        (found : Option ℕ)
        → lookup key idx ≡ found
        → size (
            groups_in (elim found [
              | none ↦ (insert key (length gs) idx, push_to (length gs) t (gs ++ (key, []) ∷ []))
              | some i ↦ (idx, push_to i t gs)
            ]))
          ≡ suc (size gs)
    go (some i) e = let (ts, at) = x key i e in size-push_to i t gs (key, ts) at
    go none e =
        size-push_to (length gs) t (gs ++ (key, []) ∷ []) (key, []) (get_elem?_last gs (key, []))
        ∙ ap suc (size-snoc gs key)

size-add_tunnels :
    (isolate : Bool) (ts : List TunnelCfg) (g : Dict Bytes ℕ × List Group)
    → IsGood isolate g
    → size (add_tunnels isolate ts g).1 ≡ length ts + size g.1
unfolding add_tunnels
size-add_tunnels isolate [] g h = omega arith
size-add_tunnels isolate (t ∷ ts) g h =
    let good = add_tunnel-IsGood isolate t g.0 g.1 h in
    let rest = size-add_tunnels isolate ts (add_tunnel isolate t g) good in
    omega (arith, rest, size-add_tunnel isolate t g.0 g.1 h)

fresh-IsGood : (isolate : Bool) → IsGood isolate ([], [])
unfolding IsGood lookup
fresh-IsGood isolate = (tt, λ k i e. ([], ground arith))

-- Each tunnel of a group has the key of the group: the connection that it names; else its own under
-- --isolate, or the common one. The groups have as many tunnels in all as there are.
pub groups_of-IsUniform :
    (isolate : Bool) (ts : List TunnelCfg)
    → HasKeys isolate (groups_of isolate ts) × (size (groups_of isolate ts) ≡ length ts)
unfolding groups_of IsGood
groups_of-IsUniform isolate ts =
    let good = add_tunnels-IsGood isolate ts ([], []) (fresh-IsGood isolate) in
    (
      HasKeys-IsUniform isolate (groups_of isolate ts) good.0,
      size-add_tunnels isolate ts ([], []) (fresh-IsGood isolate) ∙ omega arith,
    )
