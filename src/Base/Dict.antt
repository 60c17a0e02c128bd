-- ===== src/Base/Dict.antt =====
-- `std::map`: an association list in the order of its keys.
use mathlib.Core.Path.{◌≡◌, refl, ◌∙◌, sym}
use mathlib.Core.Bool.{Bool, true, ◌&&◌, not}
use mathlib.Core.List.{List, [], ◌∷◌, ◌++◌, append_assoc, append-nil}
use mathlib.Core.Logic.{◌≢◌}
use mathlib.Core.Option.{Option, none, some}
use native.Mathlib.Omega.{arith}
use samryetha_tunnel.Base.Tests.{if◌then◌else◌}
use samryetha_tunnel.Base.Lists.{All}
use samryetha_tunnel.Base.Order.{Order}

abbrev pub Dict {ℓ κ} : Type ℓ → Type κ → Type (ℓ ⊔ κ)
Dict K V = List (K × V)

-- Neither key is smaller: what `std::map` takes for the same key.
abbrev pub same {ℓ} : {K : Type ℓ} ⦃o : Order K⦄ → K → K → Bool
same ⦃o⦄ a b = not (o.less a b) && not (o.less b a)

module _ {ℓ κ} {K : Type ℓ} {V : Type κ} ⦃o : Order K⦄ where
  open o use {less, less_irrefl, less_trans, less_connex}

  unfoldable pub lookup : K → Dict K V → Option V
  lookup k [] = none
  lookup k ((j, v) ∷ m) = if same j k then some v else lookup k m

  -- `m[k] = v`
  unfoldable pub insert : K → V → Dict K V → Dict K V
  insert k v [] = (k, v) ∷ []
  insert k v ((j, w) ∷ m) =
      if less k j
      then (k, v) ∷ (j, w) ∷ m
      else if less j k
      then (j, w) ∷ insert k v m
      else (k, v) ∷ m

  -- `m.erase(k)`
  unfoldable pub erase : K → Dict K V → Dict K V
  erase k [] = []
  erase k ((j, v) ∷ m) = if same j k then erase k m else (j, v) ∷ erase k m

  -- The keys go up.
  abbrev pub Sorted : Dict K V → Type (ℓ ⊔ κ)
  Sorted [] = Unit
  Sorted (p ∷ m) = All (λ q. less p.0 q.0 ≡ true) m × Sorted m

  pub lookup-insert_self : (k : K) (v : V) (m : Dict K V) → lookup k (insert k v m) ≡ some v
  unfolding lookup insert
  lookup-insert_self k v [] = ground (arith, less_irrefl k)
  lookup-insert_self k v ((j, w) ∷ m) = ground (arith, less_irrefl k, lookup-insert_self k v m)

  pub lookup-insert_ne :
      (k j : K) (v : V) (m : Dict K V) → k ≢ j → lookup j (insert k v m) ≡ lookup j m
  unfolding lookup insert
  lookup-insert_ne k j v [] ne = ground (arith, less_connex k j)
  lookup-insert_ne k j v ((i, w) ∷ m) ne =
      ground (arith, less_connex k j, less_connex i j, less_connex i k, lookup-insert_ne k j v m ne)

  pub lookup-erase_self : (k : K) (m : Dict K V) → lookup k (erase k m) ≡ none
  unfolding lookup erase
  lookup-erase_self k [] = refl
  lookup-erase_self k ((j, w) ∷ m) = ground (arith, lookup-erase_self k m)

  pub lookup-erase_ne : (k j : K) (m : Dict K V) → k ≢ j → lookup j (erase k m) ≡ lookup j m
  unfolding lookup erase
  lookup-erase_ne k j [] ne = refl
  lookup-erase_ne k j ((i, w) ∷ m) ne =
      ground (arith, less_connex i j, less_connex i k, less_irrefl i, lookup-erase_ne k j m ne)

  -- A key above all others goes to the end.
  pub insert_last :
      (k : K) (v : V) (m : Dict K V)
      → All (λ p. less p.0 k ≡ true) m
      → insert k v m ≡ m ++ (k, v) ∷ []
  unfolding insert
  insert_last k v [] h = refl
  insert_last k v ((j, w) ∷ m) h =
      ground (arith, less_irrefl k, less_trans k j k, insert_last k v m h.1)

  insert-All :
      (j k : K) (v : V) (m : Dict K V)
      → less j k ≡ true
      → All (λ q. less j q.0 ≡ true) m
      → All (λ q. less j q.0 ≡ true) (insert k v m)
  unfolding insert
  insert-All j k v [] h a = (h, tt)
  insert-All j k v ((i, w) ∷ m) h a = ground (arith, insert-All j k v m h a.1)

  All-trans :
      (k j : K) (m : Dict K V)
      → less k j ≡ true
      → All (λ q. less j q.0 ≡ true) m
      → All (λ q. less k q.0 ≡ true) m
  All-trans k j [] h a = tt
  All-trans k j ((i, w) ∷ m) h a = (less_trans k j i h a.0, All-trans k j m h a.1)

  pub insert-Sorted : (k : K) (v : V) (m : Dict K V) → Sorted m → Sorted (insert k v m)
  unfolding insert
  insert-Sorted k v [] s = (tt, tt)
  insert-Sorted k v ((j, w) ∷ m) s =
      ground (arith, less_connex k j, insert-Sorted k v m s.1, insert-All j k v m, All-trans k j m)

  -- `for (...) m[k] = v;`
  unfoldable pub insert_all : Dict K V → List (K × V) → Dict K V
  insert_all m [] = m
  insert_all m ((k, v) ∷ kvs) = insert_all (insert k v m) kvs

  snoc-below :
      (acc : Dict K V) (k : K) (v : V) (rest : Dict K V)
      → Sorted (acc ++ (k, v) ∷ rest)
      → All (λ p. less p.0 k ≡ true) acc
  snoc-below [] k v rest s = tt
  snoc-below ((j, w) ∷ acc) k v rest s = (first acc s.0, snoc-below acc k v rest s.1)
    where
      first :
          (acc : Dict K V) → All (λ q. less j q.0 ≡ true) (acc ++ (k, v) ∷ rest) → less j k ≡ true
      first [] a = a.0
      first (p ∷ acc) a = first acc a.1

  -- Pairs that come in the order of their keys are kept in that order.
  pub insert_all-Sorted :
      (acc kvs : Dict K V) → Sorted (acc ++ kvs) → insert_all acc kvs ≡ acc ++ kvs
  unfolding insert_all
  insert_all-Sorted acc [] s = sym (append-nil acc)
  insert_all-Sorted acc ((k, v) ∷ kvs) s = rw (insert_last k v acc (snoc-below acc k v kvs s)) (
      insert_all-Sorted (acc ++ (k, v) ∷ []) kvs (rw append_assoc s)
      ∙ append_assoc acc ((k, v) ∷ []) kvs)
