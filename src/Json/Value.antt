-- ===== src/Json/Value.antt =====
-- struct J: the tag says which of its fields are in use, so a value is one of six kinds.
use samryetha_tunnel.Base.{Bool, true, false, Option, none, some, if◌then◌else◌, not, ◌&&◌}
use samryetha_tunnel.Base.Text.{Bytes}
use samryetha_tunnel.Base.Order.{bytes_less}

-- `a` is a vector of values, and `o` a `std::map`, its members in the order of their keys.
mutual
  pub data J (N : Type 0) : Type 0 where
    nul : J N
    boolean : Bool → J N
    number : N → J N
    string : Bytes → J N
    array : Items N → J N
    object : Fields N → J N

  pub data Items (N : Type 0) : Type 0 where
    nil : Items N
    item : J N → Items N → Items N

  pub data Fields (N : Type 0) : Type 0 where
    end : Fields N
    member : Bytes → J N → Fields N → Fields N

module _ {N : Type 0} where
  -- `o[k] = v`
  unfoldable pub put : Bytes → J N → Fields N → Fields N
  put k v end = member k v end
  put k v (member j w m) =
      if bytes_less k j
      then member k v (member j w m)
      else if bytes_less j k
      then member j w (put k v m)
      else member k v m

  unfoldable pub find : Bytes → Fields N → Option (J N)
  find k end = none
  find k (member j v m) = if not (bytes_less j k) && not (bytes_less k j) then some v else find k m

  -- `a.push_back(v)`
  unfoldable pub push_back : J N → Items N → Items N
  push_back v nil = item v nil
  push_back v (item w l) = item w (push_back v l)

  -- The fields `a`, `o` and `s`, which are empty but in an array, an object and a string.
  unfoldable pub items_of : J N → Items N
  items_of (array l) = l
  items_of j = nil

  unfoldable pub fields_of : J N → Fields N
  fields_of (object m) = m
  fields_of j = end

  unfoldable pub string_of : J N → Bytes → Bytes
  string_of (string s) d = s
  string_of j d = d

  number_of : J N → N → N
  number_of (number x) d = x
  number_of j d = d

  boolean_of : J N → Bool → Bool
  boolean_of (boolean b) d = b
  boolean_of j d = d

  -- `at(k)`: the null value where there is no such member.
  unfoldable pub at : Bytes → J N → J N
  unfolding find fields_of
  at k j = elim (find k (fields_of j)) [ none ↦ nul | some v ↦ v ]

  -- `has(k)`
  unfoldable pub has : Bytes → J N → Bool
  unfolding find fields_of
  has k j = elim (find k (fields_of j)) [ none ↦ false | some v ↦ true ]

  -- `str(k, d)`, `numv(k, d)` and `boolean(k, d)`
  unfoldable pub str : Bytes → Bytes → J N → Bytes
  unfolding at string_of
  str k d j = string_of (at k j) d

  unfoldable pub numv : Bytes → N → J N → N
  unfolding at number_of
  numv k d j = number_of (at k j) d

  unfoldable pub bool_at : Bytes → Bool → J N → Bool
  unfolding at boolean_of
  bool_at k d j = boolean_of (at k j) d

  -- `set(k, v)` makes the value an object, and `push(v)` an array.
  unfoldable pub set : Bytes → J N → J N → J N
  unfolding put fields_of
  set k v j = object (put k v (fields_of j))

  unfoldable pub push : J N → J N → J N
  unfolding push_back items_of
  push v j = array (push_back v (items_of j))
