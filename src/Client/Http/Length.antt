-- ===== src/Client/Http/Length.antt =====
-- A body with a length is passed on byte for byte.
use samryetha_tunnel.Base.{
  ℕ, zero, suc, ◌+◌, ◌-◌, ◌≡◌, ◌≤◌, ◌<◌, refl, sym, ap, ◌∙◌, min, ◌==◌, true, false, leb,
  Bool-cases, inl, inr, List, [], ◌∷◌, ◌++◌, append_assoc, take, drop, length, length-append,
  length-take, arith,
}
use samryetha_tunnel.Base.Text.{Bytes}
use samryetha_tunnel.Client.Http.Input.{Input, read_some}
use samryetha_tunnel.Client.Http.Body.{buffer_size, Part, read_length}

-- The pieces one after the other.
unfoldable pub join : List Bytes → Bytes
join [] = []
join (c ∷ cs) = c ++ join cs

pub take-append_drop : (n : ℕ) (xs : Bytes) → take n xs ++ drop n xs ≡ xs
take-append_drop zero xs = refl
take-append_drop (suc n) [] = refl
take-append_drop (suc n) (x ∷ xs) = ap (◌∷◌ x) (take-append_drop n xs)

read_some-join : (n : ℕ) (s : Input) → (read_some n s).0 ++ join (read_some n s).1 ≡ join s
unfolding read_some join
read_some-join n [] = refl
read_some-join n (c ∷ cs) = elim (Bool-cases (leb (length c) n)) [
  | inl e ↦ rw e refl
  | inr e ↦ rw e (
      sym (append_assoc (take n c) (drop n c) (join cs))
      ∙ ap (λ x. x ++ join cs) (take-append_drop n c))
]

read_some-length : (n : ℕ) (s : Input) → length (read_some n s).0 ≤ n
unfolding read_some
read_some-length n [] = omega arith
read_some-length n (c ∷ cs) = ground (arith, length-take n c)

-- What the loop for a body of `left` bytes did.
pub record Passed (left : ℕ) (s : Input) (p : Part) : Type 0 where
  pub kept : join p.sent ++ join p.rest ≡ join s
  pub at_most : length (join p.sent) ≤ left
  pub all_of_it : p.complete ≡ true → length (join p.sent) ≡ left
  pub too_short : p.complete ≡ false → length (join p.sent) < left

read_length-Passed :
    (fuel left : ℕ) (s : Input) → left < fuel → Passed left s (read_length fuel left s)
unfolding read_length join
read_length-Passed zero left s enough = ground arith
read_length-Passed (suc fuel) zero s enough = record {
  kept = refl;
  at_most = omega arith;
  all_of_it = λ _. refl;
  too_short = λ h. ground arith;
}
read_length-Passed (suc fuel) (suc left) s enough =
    let want = min buffer_size (suc left) in
    go (read_some want s).0 (read_some-join want s) (read_some-length want s)
      (λ n rest below. read_length-Passed fuel n rest below)
  where
    want : ℕ
    want = min buffer_size (suc left)

    rest : Input
    rest = (read_some want s).1

    go :
        (b : Bytes)
        → b ++ join rest ≡ join s
        → length b ≤ want
        → ((n : ℕ) (t : Input) → n < fuel → Passed n t (read_length fuel n t))
        → Passed (suc left) s (elim b [
          | [] ↦ record { sent = []; complete = false; rest = rest }
          | c ∷ cs ↦
              let more = read_length fuel (suc left - length (c ∷ cs)) rest in
              record { sent = (c ∷ cs) ∷ more.sent; complete = more.complete; rest = more.rest }
        ])
    go [] e h next = record {
      kept = e;
      at_most = omega arith;
      all_of_it = λ h. ground arith;
      too_short = λ _. omega arith;
    }
    go (c ∷ cs) e h next =
        let now = length (c ∷ cs) in
        let more = read_length fuel (suc left - now) rest in
        let ih = next (suc left - now) rest (omega (arith, enough)) in
        let both : length ((c ∷ cs) ++ join more.sent) ≡ now + length (join more.sent) =
          length-append (c ∷ cs) (join more.sent) in
        record {
          kept =
              append_assoc (c ∷ cs) (join more.sent) (join more.rest)
              ∙ ap (λ x. (c ∷ cs) ++ x) ih.kept
              ∙ e;
          at_most = omega (arith, both, ih.at_most, h);
          all_of_it = λ d. omega (arith, both, ih.all_of_it d, h);
          too_short = λ d. omega (arith, both, ih.too_short d, h);
        }

-- The loop for a body of `left` bytes, with fuel above `left`, always ends with a result in which: what is
-- sent on and what is left are, in order, the bytes that came; no more than `left` are sent on, and it
-- says that the body is complete just where they are `left`.
pub read_length_lem :
    (fuel left : ℕ) (s : Input)
    → left < fuel
    → (join (read_length fuel left s).sent ++ join (read_length fuel left s).rest ≡ join s)
      × (length (join (read_length fuel left s).sent) ≤ left)
      × ((read_length fuel left s).complete ≡ length (join (read_length fuel left s).sent) == left)
read_length_lem fuel left s enough =
    let p = read_length-Passed fuel left s enough in
    (
      p.kept,
      p.at_most,
      elim (Bool-cases (read_length fuel left s).complete) [
        | inl e ↦ let all = p.all_of_it e in ground arith
        | inr e ↦ let short = p.too_short e in ground arith
      ],
    )
