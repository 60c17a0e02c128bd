-- ===== src/Json/Parse/Total.antt =====
-- The parser ends: the fuel of `parse` is enough for every text.
use samryetha_tunnel.Base.{
  ℕ, zero, suc, ◌+◌, ◌*◌, ◌≡◌, ◌≤◌, ◌<◌, refl, Bool-cases, inl, inr, none, some, [], ◌∷◌, ◌==◌,
  length, length-drop, arith,
}
use samryetha_tunnel.Base.Text.{Bytes, codes, starts_with}
use samryetha_tunnel.Json.Number.{Doubles}
use samryetha_tunnel.Json.Value.{J, Items, Fields, nil, end, put, push_back}
use samryetha_tunnel.Json.Parse.{
  skip_ws, one_char, parse_chars, span_number, Parsed, after_member, skip_colon, member_value,
  member_round, after_item, item_round, parse_obj, parse_arr, parse_number, parse_string,
  value_round, parse_value, parse_members, parse_items, parse,
}

skip_ws-length : (s : Bytes) → length (skip_ws s) ≤ length s
unfolding skip_ws
skip_ws-length [] = omega arith
skip_ws-length (c ∷ cs) = ground (arith, skip_ws-length cs)

parse_chars-length : (skip : ℕ) (s : Bytes) → length (parse_chars skip s).1 ≤ length s
unfolding parse_chars
parse_chars-length skip [] = omega arith
parse_chars-length (suc skip) (c ∷ cs) = omega (arith, parse_chars-length skip cs)
parse_chars-length zero (c ∷ cs) = elim (Bool-cases (c == b'"')) [
  | inl e ↦ rw e (omega arith)
  | inr e ↦ rw e (omega (arith, parse_chars-length (one_char c cs).1 cs))
]

span_number-length : (s : Bytes) → length (span_number s).1 ≤ length s
unfolding span_number
span_number-length [] = omega arith
span_number-length (c ∷ cs) = ground (arith, span_number-length cs)

module _ (n : Doubles) where
  open n use {Double}

  skip_colon-length : (s : Bytes) → length (skip_colon n s) ≤ length s
  unfolding skip_colon
  skip_colon-length [] = omega arith
  skip_colon-length (c ∷ r) = ground arith

  -- The parser ended, and left no more than `k` characters.
  abbrev pub IsDone : ℕ → Parsed n → Type 0
  IsDone k none = ⊥
  IsDone k (some (v, r)) = length r ≤ k

  IsDone-le : (k l : ℕ) (p : Parsed n) → k ≤ l → IsDone k p → IsDone l p
  IsDone-le k l none h d = d
  IsDone-le k l (some (v, r)) h d = omega arith

  -- A parser ends on every text of fewer than `k` characters.
  abbrev Total : ℕ → (Bytes → Parsed n) → Type 0
  Total k f = (s : Bytes) → length s < k → IsDone (length s) (f s)

  after_member-IsDone :
      (k : ℕ) (more : Fields Double → Bytes → Parsed n) (m : Fields Double) (s : Bytes)
      → Total k (more m)
      → length s ≤ k
      → IsDone (length s) (after_member n more m s)
  unfolding after_member
  after_member-IsDone k more m [] h l = omega arith
  after_member-IsDone k more m (c ∷ r) h l = elim (Bool-cases (c == b',')) [
    | inl e ↦
        rw e (IsDone-le (length r) (suc (length r)) (more m r) (omega arith) (h r (omega arith)))
    | inr e ↦ elim (Bool-cases (c == b'}')) [
      | inl e' ↦ rw (e, e') (omega arith)
      | inr e' ↦ rw (e, e') (omega arith)
    ]
  ]

  after_item-IsDone :
      (k : ℕ) (more : Items Double → Bytes → Parsed n) (m : Items Double) (s : Bytes)
      → Total k (more m)
      → length s ≤ k
      → IsDone (length s) (after_item n more m s)
  unfolding after_item
  after_item-IsDone k more m [] h l = omega arith
  after_item-IsDone k more m (c ∷ r) h l = elim (Bool-cases (c == b',')) [
    | inl e ↦
        rw e (IsDone-le (length r) (suc (length r)) (more m r) (omega arith) (h r (omega arith)))
    | inr e ↦ elim (Bool-cases (c == b']')) [
      | inl e' ↦ rw (e, e') (omega arith)
      | inr e' ↦ rw (e, e') (omega arith)
    ]
  ]

  -- A member whose key ends where `rest` begins.
  member_value-IsDone :
      (k : ℕ) (value : Bytes → Parsed n) (more : Fields Double → Bytes → Parsed n)
      (m : Fields Double) (key rest : Bytes)
      → Total k value
      → ((m : Fields Double) → Total k (more m))
      → length rest < k
      → IsDone (length rest) (member_value n value more m (key, rest))
  unfolding member_value
  member_value-IsDone k value more m key rest hv hm l =
      go (value text) (hv text (omega (arith, short)))
    where
      text : Bytes
      text = skip_colon n (skip_ws rest)

      short : length text ≤ length rest
      short = omega (arith, skip_colon-length (skip_ws rest), skip_ws-length rest)

      go :
          (p : Parsed n)
          → IsDone (length text) p
          → IsDone
              (length rest)
              (elim p [ none ↦ none | some (v, r) ↦ after_member n more (put key v m) (skip_ws r) ])
      go none d = d
      go (some (v, r)) d =
          let shorter = skip_ws-length r in
          IsDone-le (length (skip_ws r)) (length rest)
            (after_member n more (put key v m) (skip_ws r)) (omega (arith, short, shorter))
            (after_member-IsDone k more (put key v m) (skip_ws r) (hm (put key v m))
              (omega (arith, short, shorter)))

  member_round-IsDone :
      (k : ℕ) (value : Bytes → Parsed n) (more : Fields Double → Bytes → Parsed n)
      (m : Fields Double) (s : Bytes)
      → Total k value
      → ((m : Fields Double) → Total k (more m))
      → length s ≤ k
      → IsDone (length s) (member_round n value more m s)
  unfolding member_round
  member_round-IsDone k value more m [] hv hm l = omega arith
  member_round-IsDone k value more m (c ∷ r) hv hm l = elim (Bool-cases (c == b'"')) [
    | inl e ↦
        let rest = (parse_chars 0 r).1 in
        let shorter = parse_chars-length 0 r in
        rw e (
          IsDone-le (length rest) (suc (length r))
            (member_value n value more m ((parse_chars 0 r).0, rest)) (omega (arith, shorter))
            (member_value-IsDone k value more m (parse_chars 0 r).0 rest hv hm
              (omega (arith, shorter))))
    | inr e ↦ rw e (omega arith)
  ]

  -- An item starts where the round does.
  item_round-IsDone :
      (k : ℕ) (value : Bytes → Parsed n) (more : Items Double → Bytes → Parsed n) (l : Items Double)
      (s : Bytes)
      → Total (suc k) value
      → ((l : Items Double) → Total k (more l))
      → length s ≤ k
      → IsDone (length s) (item_round n value more l s)
  unfolding item_round
  item_round-IsDone k value more l [] hv hm h = omega arith
  item_round-IsDone k value more l (c ∷ r) hv hm h = go (value (c ∷ r)) (hv (c ∷ r) (omega arith))
    where
      go :
          (p : Parsed n)
          → IsDone (suc (length r)) p
          → IsDone (suc (length r)) (elim p [
            | none ↦ none
            | some (v, r') ↦ after_item n more (push_back v l) (skip_ws r')
          ])
      go none d = d
      go (some (v, r')) d =
          let shorter = skip_ws-length r' in
          IsDone-le (length (skip_ws r')) (suc (length r))
            (after_item n more (push_back v l) (skip_ws r')) (omega (arith, shorter))
            (after_item-IsDone k more (push_back v l) (skip_ws r') (hm (push_back v l))
              (omega (arith, shorter)))

  parse_obj-IsDone :
      (k : ℕ) (members : Fields Double → Bytes → Parsed n) (s : Bytes)
      → ((m : Fields Double) → Total k (members m))
      → length s < k
      → IsDone (length s) (parse_obj n members s)
  unfolding parse_obj
  parse_obj-IsDone k members [] h l = h end [] l
  parse_obj-IsDone k members (c ∷ r) h l = elim (Bool-cases (c == b'}')) [
    | inl e ↦ rw e (omega arith)
    | inr e ↦ rw e (h end (c ∷ r) l)
  ]

  parse_arr-IsDone :
      (k : ℕ) (items : Items Double → Bytes → Parsed n) (s : Bytes)
      → ((l : Items Double) → Total k (items l))
      → length s < k
      → IsDone (length s) (parse_arr n items s)
  unfolding parse_arr
  parse_arr-IsDone k items [] h l = h nil [] l
  parse_arr-IsDone k items (c ∷ r) h l = elim (Bool-cases (c == b']')) [
    | inl e ↦ rw e (omega arith)
    | inr e ↦ rw e (h nil (c ∷ r) l)
  ]

  value_round-IsDone :
      (k : ℕ) (members : Fields Double → Bytes → Parsed n) (items : Items Double → Bytes → Parsed n)
      (s : Bytes)
      → ((m : Fields Double) → Total k (members m))
      → ((l : Items Double) → Total k (items l))
      → length s ≤ k
      → IsDone (length s) (value_round n members items s)
  unfolding value_round parse_string parse_number
  value_round-IsDone k members items [] hm hi l = omega arith
  value_round-IsDone k members items (c ∷ r) hm hi l =
      let text = skip_ws r in
      let shorter = skip_ws-length r in
      elim (Bool-cases (c == b'{')) [
        | inl a ↦ rw a (
            IsDone-le (length text) (suc (length r)) (parse_obj n members text)
              (omega (arith, shorter))
              (parse_obj-IsDone k members text hm (omega (arith, shorter, l))))
        | inr a ↦ elim (Bool-cases (c == b'[')) [
          | inl b ↦
              rw (a, b)
                (IsDone-le (length text) (suc (length r)) (parse_arr n items text)
                  (omega (arith, shorter))
                  (parse_arr-IsDone k items text hi (omega (arith, shorter, l))))
          | inr b ↦ elim (Bool-cases (c == b'"')) [
            | inl d ↦ rw (a, b, d) (omega (arith, parse_chars-length 0 r))
            | inr d ↦ elim (Bool-cases (starts_with (codes "true") (c ∷ r))) [
              | inl e ↦ rw (a, b, d, e) (omega (arith, length-drop {0} 3 r))
              | inr e ↦ elim (Bool-cases (starts_with (codes "false") (c ∷ r))) [
                | inl f ↦ rw (a, b, d, e, f) (omega (arith, length-drop {0} 4 r))
                | inr f ↦ elim (Bool-cases (starts_with (codes "null") (c ∷ r))) [
                  | inl g ↦ rw (a, b, d, e, f, g) (omega (arith, length-drop {0} 3 r))
                  | inr g ↦ rw (a, b, d, e, f, g) (omega (arith, span_number-length (c ∷ r)))
                ]
              ]
            ]
          ]
        ]
      ]

  mutual
    unfolding parse_value parse_members parse_items

    parse_value-IsDone :
        (fuel : ℕ) (s : Bytes) → length s * 2 < fuel → IsDone (length s) (parse_value n fuel s)
    parse_value-IsDone zero s h = absurd (omega arith)
    parse_value-IsDone (suc fuel) s h =
        let shorter = skip_ws-length s in
        IsDone-le (length (skip_ws s)) (length s)
          (value_round n (parse_members n fuel) (parse_items n fuel) (skip_ws s))
          (omega (arith, shorter))
          (value_round-IsDone (length s) (parse_members n fuel) (parse_items n fuel) (skip_ws s)
            (λ m t l. parse_members-IsDone fuel m t (omega arith))
            (λ m t l. parse_items-IsDone fuel m t (omega arith)) (omega (arith, shorter)))

    parse_members-IsDone :
        (fuel : ℕ) (m : Fields Double) (s : Bytes)
        → length s * 2 + 1 < fuel
        → IsDone (length s) (parse_members n fuel m s)
    parse_members-IsDone zero m s h = absurd (omega arith)
    parse_members-IsDone (suc fuel) m s h =
        let shorter = skip_ws-length s in
        IsDone-le (length (skip_ws s)) (length s)
          (member_round n (parse_value n fuel) (parse_members n fuel) m (skip_ws s))
          (omega (arith, shorter))
          (member_round-IsDone (length s) (parse_value n fuel) (parse_members n fuel) m (skip_ws s)
            (λ t l. parse_value-IsDone fuel t (omega arith))
            (λ m t l. parse_members-IsDone fuel m t (omega arith)) (omega (arith, shorter)))

    parse_items-IsDone :
        (fuel : ℕ) (l : Items Double) (s : Bytes)
        → length s * 2 + 1 < fuel
        → IsDone (length s) (parse_items n fuel l s)
    parse_items-IsDone zero l s h = absurd (omega arith)
    parse_items-IsDone (suc fuel) l s h =
        item_round-IsDone (length s) (parse_value n fuel) (parse_items n fuel) l s
          (λ t b. parse_value-IsDone fuel t (omega arith))
          (λ m t b. parse_items-IsDone fuel m t (omega arith)) (omega arith)

  -- The fuel of `parse` is enough: on every text the parser ends with a value, and what it leaves is no
  -- longer than the text.
  pub parse_value_total :
      (s : Bytes)
      → (v : J Double) × (r : Bytes) × (parse_value n (suc (length s * 2)) s ≡ some (v, r))
        × (parse n s ≡ v)
        × (length r ≤ length s)
  unfolding parse
  parse_value_total s =
      go (parse_value n (suc (length s * 2)) s) refl
        (parse_value-IsDone (suc (length s * 2)) s (omega arith))
    where
      go :
          (p : Parsed n)
          → parse_value n (suc (length s * 2)) s ≡ p
          → IsDone (length s) p
          → (v : J Double) × (r : Bytes) × (parse_value n (suc (length s * 2)) s ≡ some (v, r))
            × (parse n s ≡ v)
            × (length r ≤ length s)
      go none e d = absurd d
      go (some (v, r)) e d = (v, r, e, rw (e, parse) refl, d)
