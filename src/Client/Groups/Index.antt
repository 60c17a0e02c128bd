-- ===== src/Client/Groups/Index.antt =====
-- Where the groups stand, and that a group is of one key.
use samryetha_tunnel.Base.{
  ℕ, zero, suc, ◌≡◌, ◌≢◌, refl, sym, ap, ◌∙◌, Bool, Option, none, some, Bool-cases, ◌⊎◌, inl, inr,
  List, [], ◌∷◌, ◌++◌, All, length, get_elem?, arith,
}
use mathlib.Core.Path.{subst}
use samryetha_tunnel.Base.Dict.{Dict, lookup, insert, lookup-insert_self, lookup-insert_ne}
use samryetha_tunnel.Base.Order.{bytes_order}
use samryetha_tunnel.Base.Text.{Bytes, bytes_eq, bytes_eq→eq, bytes_eq_refl}
use samryetha_tunnel.Codec.Types.{TunnelCfg}
use samryetha_tunnel.Client.Groups.{group_key, Group, push_to, add_tunnel, add_tunnels}

-- The tunnels of a group have its key.
abbrev pub IsUniform : Bool → List Group → Type 0
IsUniform isolate = All (λ g. All (λ t. group_key isolate t ≡ g.0) g.1)

-- Where a key is said to stand, it stands.
abbrev IsIndex : Dict Bytes ℕ → List Group → Type 0
IsIndex idx groups =
    (k : Bytes) (i : ℕ)
    → lookup k idx ≡ some i
    → (ts : List TunnelCfg) × (get_elem? groups i ≡ some (k, ts))

All-snoc :
    (isolate : Bool) (k : Bytes) (ts : List TunnelCfg) (t : TunnelCfg)
    → All (λ u. group_key isolate u ≡ k) ts
    → group_key isolate t ≡ k
    → All (λ u. group_key isolate u ≡ k) (ts ++ t ∷ [])
All-snoc isolate k [] t h e = (e, tt)
All-snoc isolate k (u ∷ ts) t h e = (h.0, All-snoc isolate k ts t h.1 e)

push_to-IsUniform :
    (isolate : Bool) (i : ℕ) (t : TunnelCfg) (groups : List Group) (ts : List TunnelCfg)
    → IsUniform isolate groups
    → get_elem? groups i ≡ some (group_key isolate t, ts)
    → IsUniform isolate (push_to i t groups)
unfolding push_to
push_to-IsUniform isolate i t [] ts h e = tt
push_to-IsUniform isolate zero t ((k, us) ∷ gs) ts h e =
    let same : group_key isolate t ≡ k = ground arith in (All-snoc isolate k us t h.0 same, h.1)
push_to-IsUniform isolate (suc i) t (g ∷ gs) ts h e =
    (h.0, push_to-IsUniform isolate i t gs ts h.1 e)

bytes_cases : (a b : Bytes) → (a ≡ b) ⊎ (a ≢ b)
bytes_cases a b = elim (Bool-cases (bytes_eq a b)) [
  | inl e ↦ inl (bytes_eq→eq a b e)
  | inr e ↦ inr (λ p. ground (arith, ap (bytes_eq a) p, bytes_eq_refl a))
]

get_elem?-append :
    (gs : List Group) (x g : Group) (i : ℕ)
    → get_elem? gs i ≡ some g
    → get_elem? (gs ++ x ∷ []) i ≡ some g
get_elem?-append [] x g i e = ground arith
get_elem?-append (h ∷ gs) x g zero e = e
get_elem?-append (h ∷ gs) x g (suc i) e = get_elem?-append gs x g i e

pub get_elem?_last : (gs : List Group) (x : Group) → get_elem? (gs ++ x ∷ []) (length gs) ≡ some x
get_elem?_last [] x = refl
get_elem?_last (h ∷ gs) x = get_elem?_last gs x

-- A tunnel more in one group leaves every group its key.
get_elem?-push_to :
    (i j : ℕ) (t : TunnelCfg) (gs : List Group) (k : Bytes) (ts : List TunnelCfg)
    → get_elem? gs i ≡ some (k, ts)
    → (us : List TunnelCfg) × (get_elem? (push_to j t gs) i ≡ some (k, us))
unfolding push_to
get_elem?-push_to i j t [] k ts e = ground arith
get_elem?-push_to zero zero t ((h, us) ∷ gs) k ts e =
    let same : h ≡ k = ground arith in (us ++ t ∷ [], ap (λ x. some (x, us ++ t ∷ [])) same)
get_elem?-push_to (suc i) zero t ((h, us) ∷ gs) k ts e = (ts, e)
get_elem?-push_to zero (suc j) t (g ∷ gs) k ts e = (ts, e)
get_elem?-push_to (suc i) (suc j) t (g ∷ gs) k ts e = get_elem?-push_to i j t gs k ts e

IsUniform-snoc :
    (isolate : Bool) (gs : List Group) (k : Bytes)
    → IsUniform isolate gs
    → IsUniform isolate (gs ++ (k, []) ∷ [])
IsUniform-snoc isolate [] k h = (tt, tt)
IsUniform-snoc isolate (g ∷ gs) k h = (h.0, IsUniform-snoc isolate gs k h.1)

-- Both at once, for the pair that the loop carries.
unfoldable pub IsGood : Bool → Dict Bytes ℕ × List Group → Type 0
IsGood isolate g = IsUniform isolate g.1 × IsIndex g.0 g.1

pub add_tunnel-IsGood :
    (isolate : Bool) (t : TunnelCfg) (idx : Dict Bytes ℕ) (gs : List Group)
    → IsGood isolate (idx, gs)
    → IsGood isolate (add_tunnel isolate t (idx, gs))
unfolding add_tunnel IsGood
add_tunnel-IsGood isolate t idx gs (u, x) = go (lookup key idx) refl
  where
    key : Bytes
    key = group_key isolate t

    more : List Group
    more = gs ++ (key, []) ∷ []

    go :
        (found : Option ℕ)
        → lookup key idx ≡ found
        → IsGood isolate (elim found [
          | none ↦ (insert key (length gs) idx, push_to (length gs) t more)
          | some i ↦ (idx, push_to i t gs)
        ])
    go (some i) e =
        let (ts, at) = x key i e in
        (
          push_to-IsUniform isolate i t gs ts u at,
          λ k j l. let (us, here) = x k j l in get_elem?-push_to j i t gs k us here,
        )
    go none e = (
      push_to-IsUniform isolate (length gs) t more [] (IsUniform-snoc isolate gs key u)
          (get_elem?_last gs (key, [])),
      λ k j l. elim (bytes_cases key k) [
        | inl same ↦
            let inside = subst (λ q. lookup q (insert key (length gs) idx) ≡ some j) (sym same) l in
            let end : some (length gs) ≡ some j =
              sym (lookup-insert_self key (length gs) idx) ∙ inside in
            let at : length gs ≡ j = ground arith in
            subst
              (λ q.
                (us : List TunnelCfg) × (get_elem? (push_to (length gs) t more) j ≡ some (q, us)))
              same
              (get_elem?-push_to j (length gs) t more key []
                (subst (λ n. get_elem? more n ≡ some (key, [])) at (get_elem?_last gs (key, []))))
        | inr other ↦
            let (us, here) = x k j (sym (lookup-insert_ne key k (length gs) idx other) ∙ l) in
            get_elem?-push_to j (length gs) t more k us
              (get_elem?-append gs (key, []) (k, us) j here)
      ],
    )

pub add_tunnels-IsGood :
    (isolate : Bool) (ts : List TunnelCfg) (g : Dict Bytes ℕ × List Group)
    → IsGood isolate g
    → IsGood isolate (add_tunnels isolate ts g)
unfolding add_tunnels
add_tunnels-IsGood isolate [] g h = h
add_tunnels-IsGood isolate (t ∷ ts) g h =
    add_tunnels-IsGood isolate ts (add_tunnel isolate t g) (add_tunnel-IsGood isolate t g.0 g.1 h)
