-- ===== src/Json/Parse/Faithful.antt =====
-- Values that a JSON text holds in full, and the lists and maps the loops of `J::parse` build.
use samryetha_tunnel.Base.{
  ℕ, ◌≡◌, refl, ap, true, false, Bool-cases, inl, inr, some, ◌∷◌, All, arith,
}
use samryetha_tunnel.Base.Order.{bytes_less, bytes_irrefl, bytes_trans}
use samryetha_tunnel.Base.Text.{Bytes}
use samryetha_tunnel.Json.Number.{Doubles}
use samryetha_tunnel.Json.Print.{write_number}
use samryetha_tunnel.Json.Value.{
  J, Items, Fields, nul, boolean, number, string, array, object, nil, item, end, member, put,
  push_back,
}
use samryetha_tunnel.Json.Parse.{is_number_char}

module _ (n : Doubles) where
  open n use {Double, stod}

  -- The text of a number is made of number characters, and `stod` reads it back.
  abbrev pub IsPrinted : Double → Type 0
  IsPrinted x =
      (d : ℕ) × (ds : Bytes) × (write_number n x ≡ d ∷ ds)
      × All (λ c. is_number_char c ≡ true) (d ∷ ds)
      × (stod (d ∷ ds) ≡ some x)

  -- All members have keys above `k`.
  abbrev pub Above : Bytes → Fields Double → Type 0
  Above k end = Unit
  Above k (member j v m) = (bytes_less k j ≡ true) × Above k m

  abbrev pub Ordered : Fields Double → Type 0
  Ordered end = Unit
  Ordered (member k v m) = Above k m × Ordered m

  -- The keys of every object are in order, and its numbers are printed in full.
  unfoldable mutual
    pub IsFaithful : J Double → Type 0
    IsFaithful nul = Unit
    IsFaithful (boolean b) = Unit
    IsFaithful (number x) = IsPrinted x
    IsFaithful (string s) = Unit
    IsFaithful (array l) = FaithfulItems l
    IsFaithful (object m) = Ordered m × FaithfulFields m

    pub FaithfulItems : Items Double → Type 0
    FaithfulItems nil = Unit
    FaithfulItems (item j l) = IsFaithful j × FaithfulItems l

    pub FaithfulFields : Fields Double → Type 0
    FaithfulFields end = Unit
    FaithfulFields (member k v m) = IsFaithful v × FaithfulFields m

  unfoldable pub append_items : Items Double → Items Double → Items Double
  append_items nil l = l
  append_items (item j k) l = item j (append_items k l)

  unfoldable pub append_fields : Fields Double → Fields Double → Fields Double
  append_fields end m = m
  append_fields (member k v l) m = member k v (append_fields l m)

  pub push_back-append :
      (v : J Double) (k l : Items Double)
      → append_items (push_back v k) l ≡ append_items k (item v l)
  unfolding append_items push_back
  push_back-append v nil l = refl
  push_back-append v (item j k) l = ap (item j) (push_back-append v k l)

  pub append_items-nil : (l : Items Double) → append_items l nil ≡ l
  unfolding append_items
  append_items-nil nil = refl
  append_items-nil (item j l) = ap (item j) (append_items-nil l)

  pub append_fields-end : (m : Fields Double) → append_fields m end ≡ m
  unfolding append_fields
  append_fields-end end = refl
  append_fields-end (member k v m) = ap (member k v) (append_fields-end m)

  pub less_asym : (j k : Bytes) → bytes_less j k ≡ true → bytes_less k j ≡ false
  less_asym j k h = elim (Bool-cases (bytes_less k j)) [
    | inl e ↦ ground (arith, bytes_trans j k j h e, bytes_irrefl j)
    | inr e ↦ e
  ]

  pub Above-append :
      (j k : Bytes) (v : J Double) (m rest : Fields Double)
      → Above j (append_fields m (member k v rest))
      → bytes_less j k ≡ true
  unfolding append_fields
  Above-append j k v end rest h = h.0
  Above-append j k v (member i w m) rest h = Above-append j k v m rest h.1

  -- A key behind all others goes to the end.
  pub put-append :
      (k : Bytes) (v : J Double) (m rest : Fields Double)
      → Ordered (append_fields m (member k v rest))
      → append_fields (put k v m) rest ≡ append_fields m (member k v rest)
  unfolding append_fields put
  put-append k v end rest h = refl
  put-append k v (member j w m) rest h =
      let below = Above-append j k v m rest h.0 in
      rw (less_asym j k below, below) (ap (member j w) (put-append k v m rest h.1))
