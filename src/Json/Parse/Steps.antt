-- ===== src/Json/Parse/Steps.antt =====
-- The steps of `J::parse` on what `dump` prints.
use samryetha_tunnel.Base.{
  ℕ, suc, ◌+◌, ◌*◌, ◌≡◌, ◌<◌, refl, ap, ◌∙◌, Bool, true, false, some, [], ◌∷◌, ◌++◌, append_assoc,
  ◌==◌, length, length-append, arith,
}
use samryetha_tunnel.Base.Text.{Bytes, codes, starts_with}
use samryetha_tunnel.Base.Int.{is_digit}
use samryetha_tunnel.Json.Number.{Doubles}
use samryetha_tunnel.Json.Print.{
  escape_all, write_str, write_number, write, write_items, write_fields,
}
use samryetha_tunnel.Json.Value.{
  J, Items, Fields, nul, boolean, number, string, array, object, nil, item, end, member, put,
  push_back,
}
use samryetha_tunnel.Json.Parse.{
  is_ws, skip_ws, is_number_char, Parsed, after_member, skip_colon, member_value, member_round,
  after_item, item_round, parse_obj, parse_arr, to_double, parse_number, parse_string, value_round,
  parse_value, parse_members, parse_items,
}
use samryetha_tunnel.Json.Parse.Strings.{
  write_str-read, number_char-facts, Stops, span_number-append,
}
use samryetha_tunnel.Json.Parse.Faithful.{IsPrinted, IsFaithful}

module _ (n : Doubles) where
  open n use {Double}

  -- What a value's text starts with: no white space, and no bracket that ends a list.
  pub write-head :
      (j : J Double)
      → IsFaithful n j
      → (c : ℕ) × (t : Bytes) × (write n j ≡ c ∷ t) × (is_ws c ≡ false) × ((c == b']') ≡ false)
  unfolding write write_str is_ws IsFaithful
  write-head nul h = (b'n', codes "ull", refl, refl, refl)
  write-head (boolean true) h = (b't', codes "rue", refl, refl, refl)
  write-head (boolean false) h = (b'f', codes "alse", refl, refl, refl)
  write-head (number x) (d, ds, e, all, s) = (
    d,
    ds,
    e,
    (number_char-facts d all.0).0,
    unfold is_number_char is_digit in ground (arith, all.0),
  )
  write-head (string s) h = (b'"', escape_all s ++ b'"' ∷ [], refl, refl, refl)
  write-head (array l) h = (b'[', write_items n true l, refl, refl, refl)
  write-head (object m) h = (b'{', write_fields n true m, refl, refl, refl)

  pub write_items-Stops : (l : Items Double) (rest : Bytes) → Stops (write_items n false l ++ rest)
  unfolding write_items is_number_char is_digit
  write_items-Stops nil rest = refl
  write_items-Stops (item j l) rest = refl

  pub write_fields-Stops :
      (m : Fields Double) (rest : Bytes) → Stops (write_fields n false m ++ rest)
  unfolding write_fields is_number_char is_digit
  write_fields-Stops end rest = refl
  write_fields-Stops (member k v m) rest = refl

  -- A number's text.
  pub number-Read :
      (members : Fields Double → Bytes → Parsed n) (items : Items Double → Bytes → Parsed n)
      (x : Double) (rest : Bytes)
      → IsPrinted n x
      → Stops rest
      → value_round n members items (skip_ws (write_number n x ++ rest)) ≡ some (number x, rest)
  unfolding value_round skip_ws starts_with parse_number
  number-Read members items x rest (d, ds, e, all, s) h =
      let (w, a, b, q, t, f, u) = number_char-facts d all.0 in
      let span = span_number-append (d ∷ ds) rest all h in
      rw e (rw w (rw (a, b, q, t, f, u) (rw (span, s) (unfold to_double in refl))))

  -- A round of the loop for arrays.
  pub item_round-some :
      (value : Bytes → Parsed n) (more : Items Double → Bytes → Parsed n) (k : Items Double) (c : ℕ)
      (t : Bytes) (v : J Double) (r : Bytes)
      → value (c ∷ t) ≡ some (v, r)
      → item_round n value more k (c ∷ t) ≡ after_item n more (push_back v k) (skip_ws r)
  unfolding item_round
  item_round-some value more k c t v r e = rw (e, item_round) refl

  pub member_value-some :
      (value : Bytes → Parsed n) (more : Fields Double → Bytes → Parsed n) (m : Fields Double)
      (k t : Bytes) (v : J Double) (r : Bytes)
      → value t ≡ some (v, r)
      → member_value n value more m (k, b':' ∷ t) ≡ after_member n more (put k v m) (skip_ws r)
  unfolding member_value skip_colon skip_ws is_ws
  member_value-some value more m k t v r e = rw (e, member_value) refl

  abbrev pub is_nil : Items Double → Bool
  is_nil nil = true
  is_nil (item j l) = false

  abbrev pub is_end : Fields Double → Bool
  is_end end = true
  is_end (member k v m) = false

  -- An array's text behind its bracket, and the loop at an item.
  pub array_step :
      (fuel : ℕ) (j : J Double) (l t : Bytes)
      → IsFaithful n j
      → parse_value n (suc fuel) (b'[' ∷ ((write n j ++ l) ++ t))
        ≡ parse_items n fuel nil ((write n j ++ l) ++ t)
  unfolding parse_value value_round skip_ws is_ws parse_arr
  array_step fuel j l t h =
      let (c, u, e, w, b) = write-head j h in rw e (unfold is_ws in rw w (rw b refl))

  pub object_step :
      (fuel : ℕ) (k l t : Bytes)
      → parse_value n (suc fuel) (b'{' ∷ ((write_str k ++ l) ++ t))
        ≡ parse_members n fuel end ((write_str k ++ l) ++ t)
  unfolding parse_value value_round skip_ws is_ws parse_obj write_str
  object_step fuel k l t = refl

  pub items_step :
      (fuel : ℕ) (k : Items Double) (j : J Double) (l t : Bytes)
      → IsFaithful n j
      → parse_value n fuel (write n j ++ (l ++ t)) ≡ some (j, l ++ t)
      → parse_items n (suc fuel) k ((write n j ++ l) ++ t)
        ≡ after_item n (parse_items n fuel) (push_back j k) (skip_ws (l ++ t))
  unfolding parse_items
  items_step fuel k j l t h e =
      let (c, u, p, w, b) = write-head j h in
      let e' : parse_value n fuel (c ∷ (u ++ (l ++ t))) ≡ some (j, l ++ t) = rw p at e in
      rw (append_assoc (write n j) l t) (
        rw p (
          item_round-some (parse_value n fuel) (parse_items n fuel) k c (u ++ (l ++ t)) j (l ++ t)
            e'))

  pub members_step :
      (fuel : ℕ) (m : Fields Double) (k : Bytes) (v : J Double) (l t : Bytes)
      → parse_value n fuel (write n v ++ (l ++ t)) ≡ some (v, l ++ t)
      → parse_members n (suc fuel) m ((write_str k ++ (b':' ∷ (write n v ++ l))) ++ t)
        ≡ after_member n (parse_members n fuel) (put k v m) (skip_ws (l ++ t))
  unfolding parse_members write_str skip_ws is_ws member_round
  members_step fuel m k v l t e =
      let key = escape_all k in
      let colon : Bytes = b':' ∷ (write n v ++ l) in
      let flat : ((key ++ b'"' ∷ []) ++ colon) ++ t
          ≡ key ++ (b'"' ∷ (b':' ∷ (write n v ++ (l ++ t)))) =
        append_assoc (key ++ b'"' ∷ []) colon t
        ∙ append_assoc key (b'"' ∷ []) (colon ++ t)
        ∙ ap (λ x. key ++ (b'"' ∷ (b':' ∷ x))) (append_assoc (write n v) l t) in
      rw (flat, write_str-read k (b':' ∷ (write n v ++ (l ++ t))))
        (member_value-some (parse_value n fuel) (parse_members n fuel) m k (write n v ++ (l ++ t)) v
          (l ++ t) e)

  pub string-Read :
      (fuel : ℕ) (s rest : Bytes)
      → parse_value n (suc fuel) (write_str s ++ rest) ≡ some (string s, rest)
  unfolding parse_value value_round write_str skip_ws is_ws parse_string
  string-Read fuel s rest =
      rw (append_assoc (escape_all s) (b'"' ∷ []) rest) (rw (write_str-read s rest) refl)

  -- What a step reads is shorter than the text of the list.
  pub item_shorter :
      (j : J Double) (l t : Bytes) (fuel : ℕ)
      → length ((write n j ++ l) ++ t) * 2 + 1 < suc fuel
      → length (write n j ++ (l ++ t)) * 2 < fuel
  item_shorter j l t fuel h =
      let e = ap (λ x. length x) (append_assoc (write n j) l t) in omega (arith, e, h)

  pub items_shorter :
      (p : Bytes) (c : ℕ) (l t : Bytes) (fuel : ℕ)
      → length ((p ++ c ∷ l) ++ t) * 2 + 1 < suc fuel
      → length (l ++ t) * 2 + 1 < fuel
  items_shorter p c l t fuel h =
      omega (arith, h, length-append (p ++ c ∷ l) t, length-append p (c ∷ l), length-append l t)

  pub member_shorter :
      (k : Bytes) (v : J Double) (l t : Bytes) (fuel : ℕ)
      → length ((write_str k ++ (b':' ∷ (write n v ++ l))) ++ t) * 2 + 1 < suc fuel
      → length (write n v ++ (l ++ t)) * 2 < fuel
  member_shorter k v l t fuel h = omega (
    arith,
    h,
    length-append (write_str k ++ (b':' ∷ (write n v ++ l))) t,
    length-append (write_str k) (b':' ∷ (write n v ++ l)),
    length-append (write n v) l,
    length-append (write n v) (l ++ t),
    length-append l t,
  )

  pub members_shorter :
      (k : Bytes) (v : J Double) (c : ℕ) (l t : Bytes) (fuel : ℕ)
      → length ((write_str k ++ (b':' ∷ (write n v ++ c ∷ l))) ++ t) * 2 + 1 < suc fuel
      → length (l ++ t) * 2 + 1 < fuel
  members_shorter k v c l t fuel h = omega (
    arith,
    h,
    length-append (write_str k ++ (b':' ∷ (write n v ++ c ∷ l))) t,
    length-append (write_str k) (b':' ∷ (write n v ++ c ∷ l)),
    length-append (write n v) (c ∷ l),
    length-append l t,
  )
