-- ===== src/Json/Parse/RoundTrip.antt =====
-- What `dump` prints is parsed back.
use mathlib.Core.Path.{subst}
use samryetha_tunnel.Base.{
  ℕ, zero, suc, ◌+◌, ◌*◌, ◌≡◌, ◌<◌, refl, sym, ap, ◌∙◌, true, false, some, [], ◌∷◌, ◌++◌,
  append-nil, length, arith,
}
use samryetha_tunnel.Base.Text.{Bytes, starts_with}
use samryetha_tunnel.Json.Number.{Doubles}
use samryetha_tunnel.Json.Print.{write_str, write, write_items, write_fields, dump}
use samryetha_tunnel.Json.Value.{
  J, Items, Fields, nul, boolean, number, string, array, object, nil, item, end, member, put,
  push_back,
}
use samryetha_tunnel.Json.Parse.{
  is_ws, skip_ws, after_member, after_item, parse_obj, parse_arr, value_round, parse_value,
  parse_members, parse_items, parse,
}
use samryetha_tunnel.Json.Parse.Strings.{Stops}
use samryetha_tunnel.Json.Parse.Faithful.{
  Ordered, IsFaithful, FaithfulItems, FaithfulFields, append_items, append_fields, push_back-append,
  append_items-nil, append_fields-end, put-append,
}
use samryetha_tunnel.Json.Parse.Steps.{
  write_items-Stops, write_fields-Stops, number-Read, is_nil, is_end, array_step, object_step,
  items_step, members_step, string-Read, item_shorter, items_shorter, member_shorter,
  members_shorter,
}

module _ (n : Doubles) where
  open n use {Double}

  mutual
    unfolding parse_value parse_members parse_items write IsFaithful value_round skip_ws is_ws
        starts_with parse_arr parse_obj after_item after_member append_items append_fields

    value-Read :
        (fuel : ℕ) (j : J Double) (rest : Bytes)
        → length (write n j ++ rest) * 2 < fuel
        → IsFaithful n j
        → Stops rest
        → parse_value n fuel (write n j ++ rest) ≡ some (j, rest)
    value-Read zero j rest l h s = absurd (omega arith)
    value-Read (suc fuel) nul rest l h s = refl
    value-Read (suc fuel) (boolean true) rest l h s = refl
    value-Read (suc fuel) (boolean false) rest l h s = refl
    value-Read (suc fuel) (number x) rest l h s =
        number-Read n (parse_members n fuel) (parse_items n fuel) x rest h s
    value-Read (suc fuel) (string t) rest l h s = string-Read n fuel t rest
    value-Read (suc fuel) (array nil) rest l h s = refl
    value-Read (suc fuel) (array (item j it)) rest l h s =
        array_step n fuel j (write_items n false it) rest h.0
        ∙ items-Read fuel (item j it) nil rest refl (omega (arith, l)) h
    value-Read (suc fuel) (object end) rest l h s = refl
    value-Read (suc fuel) (object (member k v m)) rest l h s =
        object_step n fuel k (b':' ∷ (write n v ++ write_fields n false m)) rest
        ∙ fields-Read fuel (member k v m) end rest refl (omega (arith, l)) h.1 h.0

    items-Read :
        (fuel : ℕ) (it : Items Double) (k : Items Double) (rest : Bytes)
        → is_nil n it ≡ false
        → length (write_items n true it ++ rest) * 2 + 1 < fuel
        → FaithfulItems n it
        → parse_items n fuel k (write_items n true it ++ rest)
          ≡ some (array (append_items n k it), rest)
    items-Read zero it k rest e l h = absurd (omega arith)
    items-Read (suc fuel) nil k rest e l h = ground arith
    items-Read (suc fuel) (item j nil) k rest e l h =
        items_step n fuel k j (b']' ∷ []) rest h.0 (
          value-Read fuel j (b']' ∷ rest) (item_shorter n j (b']' ∷ []) rest fuel l) h.0
            (write_items-Stops n nil rest))
        ∙ ap (λ x. some (array x, rest))
            (sym (append_items-nil n (push_back j k)) ∙ push_back-append n j k nil)
    items-Read (suc fuel) (item j (item i it)) k rest e l h =
        let more : Bytes = write n i ++ write_items n false it in
        items_step n fuel k j (b',' ∷ more) rest h.0 (
          value-Read fuel j ((b',' ∷ more) ++ rest) (item_shorter n j (b',' ∷ more) rest fuel l) h.0
            (write_items-Stops n (item i it) rest))
        ∙ items-Read fuel (item i it) (push_back j k) rest refl
            (items_shorter n (write n j) b',' more rest fuel l) h.1
        ∙ ap (λ x. some (array x, rest)) (push_back-append n j k (item i it))

    fields-Read :
        (fuel : ℕ) (f : Fields Double) (m : Fields Double) (rest : Bytes)
        → is_end n f ≡ false
        → length (write_fields n true f ++ rest) * 2 + 1 < fuel
        → FaithfulFields n f
        → Ordered n (append_fields n m f)
        → parse_members n fuel m (write_fields n true f ++ rest)
          ≡ some (object (append_fields n m f), rest)
    fields-Read zero f m rest e l h o = absurd (omega arith)
    fields-Read (suc fuel) end m rest e l h o = ground arith
    fields-Read (suc fuel) (member k v end) m rest e l h o =
        members_step n fuel m k v (b'}' ∷ []) rest (
          value-Read fuel v (b'}' ∷ rest) (member_shorter n k v (b'}' ∷ []) rest fuel l) h.0
            (write_fields-Stops n end rest))
        ∙ ap (λ x. some (object x, rest))
            (sym (append_fields-end n (put k v m)) ∙ put-append n k v m end o)
    fields-Read (suc fuel) (member k v (member i w f)) m rest e l h o =
        let more : Bytes = write_str i ++ (b':' ∷ (write n w ++ write_fields n false f)) in
        let moved = put-append n k v m (member i w f) o in
        members_step n fuel m k v (b',' ∷ more) rest (
          value-Read fuel v ((b',' ∷ more) ++ rest) (member_shorter n k v (b',' ∷ more) rest fuel l)
            h.0 (write_fields-Stops n (member i w f) rest))
        ∙ fields-Read fuel (member i w f) (put k v m) rest refl
            (members_shorter n k v b',' more rest fuel l) h.1 (subst (Ordered n) (sym moved) o)
        ∙ ap (λ x. some (object x, rest)) moved

  -- What `dump` prints of a value is parsed back to that value, if the members of its objects stand in the
  -- order of their keys, as a `std::map` keeps them, and if each of its numbers is printed by number
  -- characters alone, at least one, that `stod` reads back as it.
  pub parse-dump : (j : J Double) → IsFaithful n j → parse n (dump n j) ≡ j
  unfolding parse dump
  parse-dump j h =
      let e = append-nil (write n j) in
      let read : parse_value n (suc (length (write n j) * 2)) (write n j) ≡ some (j, []) = rw e at (
        value-Read (suc (length (write n j) * 2)) j [] (omega (arith, ap (λ x. length x) e)) h
          tt) in
      rw (read, parse) refl
