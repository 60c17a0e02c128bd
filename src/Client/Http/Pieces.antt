-- ===== src/Client/Http/Pieces.antt =====
-- The reads of a body out of a piece that holds more.
use samryetha_tunnel.Base.{
  ℕ, zero, suc, ◌+◌, ◌-◌, ◌≡◌, ◌≤◌, ◌<◌, refl, sym, ap, ◌∙◌, min, ◌==◌, leb, true, false,
  if◌then◌else◌, List, [], ◌∷◌, ◌++◌, append_assoc, append-nil, length, length-append, take, drop,
  take-append, drop-append, length-take, arith,
}
use samryetha_tunnel.Base.Text.{Bytes, Without, bytes_eq}
use samryetha_tunnel.Client.Http.Input.{Input, read_some, ends_with}
use samryetha_tunnel.Client.Http.Body.{buffer_size, read_length, size_line, skip_trailer}
use samryetha_tunnel.Client.Http.Length.{join, take-append_drop}

pub read_one :
    (c d : ℕ) (cs : Bytes) (s : Input) → read_some 1 ((c ∷ d ∷ cs) ∷ s) ≡ (c ∷ [], (d ∷ cs) ∷ s)
unfolding read_some
read_one c d cs s = let e : leb (suc (suc (length cs))) 1 ≡ false = ground arith in rw e refl

pub read_two :
    (c d e : ℕ) (cs : Bytes) (s : Input)
    → read_some 2 ((c ∷ d ∷ e ∷ cs) ∷ s) ≡ (c ∷ d ∷ [], (e ∷ cs) ∷ s)
unfolding read_some
read_two c d e cs s =
    let p : leb (suc (suc (suc (length cs)))) 2 ≡ false = ground arith in rw p refl

-- Some byte follows.
abbrev pub Goes : Bytes → Type 0
Goes t = (d : ℕ) × (cs : Bytes) × (t ≡ d ∷ cs)

pub tail_follows : (line : Bytes) (y : ℕ) (r : Bytes) → Goes (line ++ y ∷ r)
tail_follows [] y r = (y, r, refl)
tail_follows (c ∷ line) y r = (c, line ++ y ∷ r, refl)

pub size_step :
    (fuel : ℕ) (acc : Bytes) (c : ℕ) (t : Bytes) (s : Input)
    → Goes t
    → (c == 10) ≡ false
    → size_line (suc fuel) acc ((c ∷ t) ∷ s)
      ≡ size_line fuel (if c == 13 then acc else acc ++ c ∷ []) (t ∷ s)
unfolding size_line
size_step fuel acc c t s (d, cs, e) h = rw e (
    rw (read_one c d cs s, size_line)
      (rw h (
        ap (λ p. size_line fuel (if c == 13 then acc else acc ++ c ∷ []) p.1) (read_one c d cs s))))

pub size_stop :
    (fuel : ℕ) (acc t : Bytes) (s : Input)
    → Goes t
    → size_line (suc fuel) acc ((10 ∷ t) ∷ s) ≡ (acc, t ∷ s)
unfolding size_line
size_stop fuel acc t s (d, cs, e) =
    rw e (rw (read_one 10 d cs s, size_line) (ap (λ p. (acc, p.1)) (read_one 10 d cs s)))

pub size_line-read :
    (line acc t : Bytes) (s : Input) (fuel : ℕ)
    → Goes t
    → Without 13 line
    → Without 10 line
    → length line + 1 < fuel
    → size_line fuel acc ((line ++ (13 ∷ 10 ∷ t)) ∷ s) ≡ (acc ++ line, t ∷ s)
size_line-read [] acc t s zero g a b h = absurd (omega (arith, h))
size_line-read [] acc t s (suc zero) g a b h = absurd (omega (arith, h))
size_line-read [] acc t s (suc (suc fuel)) g a b h =
    size_step (suc fuel) acc 13 (10 ∷ t) s (10, t, refl) refl
    ∙ size_stop fuel acc t s g
    ∙ ap (λ x. (x, t ∷ s)) (sym (append-nil acc))
size_line-read (c ∷ line) acc t s zero g a b h = absurd (omega (arith, h))
size_line-read (c ∷ line) acc t s (suc fuel) g a b h =
    let cr : (c == 13) ≡ false = ground (arith, a.0) in
    size_step fuel acc c (line ++ (13 ∷ 10 ∷ t)) s (tail_follows line 13 (10 ∷ t))
      (ground (arith, b.0))
    ∙ rw cr (size_line-read line (acc ++ c ∷ []) t s fuel g a.1 b.1 (omega (arith, h)))
    ∙ ap (λ x. (x, t ∷ s)) (append_assoc acc (c ∷ []) line)

pub skip_trailer-crlf :
    (fuel : ℕ) (s : Input) → 1 < fuel → skip_trailer fuel [] ((13 ∷ 10 ∷ []) ∷ s) ≡ s
unfolding skip_trailer read_some ends_with bytes_eq
skip_trailer-crlf zero s h = absurd (omega (arith, h))
skip_trailer-crlf (suc zero) s h = absurd (omega (arith, h))
skip_trailer-crlf (suc (suc fuel)) s h = refl

-- A read that takes a part of the body.
pub read_front :
    (c : ℕ) (cs b t : Bytes) (s : Input)
    → Goes t
    → read_some (suc (length cs)) ((((c ∷ cs) ++ b) ++ t) ∷ s) ≡ (c ∷ cs, (b ++ t) ∷ s)
unfolding read_some
read_front c cs b t s (d, ds, g) =
    let long : suc (length cs) < length (((c ∷ cs) ++ b) ++ t) =
      omega
        (arith, length-append ((c ∷ cs) ++ b) t, length-append (c ∷ cs) b, ap (λ x. length x) g) in
    let more : leb (length (((c ∷ cs) ++ b) ++ t)) (suc (length cs)) ≡ false =
      ground (arith, long) in
    let flat = append_assoc (c ∷ cs) b t in
    let taken : take (suc (length cs)) (((c ∷ cs) ++ b) ++ t) ≡ c ∷ cs =
      ap (take (suc (length cs))) flat ∙ take-append (c ∷ cs) (b ++ t) in
    let left : drop (suc (length cs)) (((c ∷ cs) ++ b) ++ t) ≡ b ++ t =
      ap (drop (suc (length cs))) flat ∙ drop-append (c ∷ cs) (b ++ t) in
    rw more (rw (taken, left) refl)

pub read_part :
    (k : ℕ) (body t : Bytes) (s : Input)
    → 0 < k
    → k ≤ length body
    → Goes t
    → (c : ℕ) × (cs : Bytes) × (body2 : Bytes) × (read_some k ((body ++ t) ∷ s)
        ≡ (c ∷ cs, (body2 ++ t) ∷ s))
      × (body ≡ (c ∷ cs) ++ body2)
read_part k body t s p h g =
    front (take k body) (drop k body) (take-append_drop k body)
      (omega (arith, h, length-take k body))
  where
    front :
        (a b : Bytes)
        → a ++ b ≡ body
        → length a ≡ k
        → (c : ℕ) × (cs : Bytes) × (body2 : Bytes) × (read_some k ((body ++ t) ∷ s)
            ≡ (c ∷ cs, (body2 ++ t) ∷ s))
          × (body ≡ (c ∷ cs) ++ body2)
    front [] b e l = absurd (omega (arith, l, p))
    front (c ∷ cs) b e l = (c, cs, b, rw⁻¹ (e, l) (read_front c cs b t s g), sym e)

pub read_length-some :
    (fuel left : ℕ) (s : Input) (c : ℕ) (cs : Bytes) (rest : Input) (sent : List Bytes)
    (end : Input)
    → read_some (min buffer_size (suc left)) s ≡ (c ∷ cs, rest)
    → read_length fuel (suc left - length (c ∷ cs)) rest
      ≡ record { sent = sent; complete = true; rest = end }
    → read_length (suc fuel) (suc left) s
      ≡ record { sent = (c ∷ cs) ∷ sent; complete = true; rest = end }
unfolding read_length
read_length-some fuel left s c cs rest sent end r f =
    let first : (read_some (min buffer_size (suc left)) s).0 ≡ c ∷ cs = ap (λ p. p.0) r in
    let left_over : (read_some (min buffer_size (suc left)) s).1 ≡ rest = ap (λ p. p.1) r in
    rw (first, read_length) (rw left_over (rw f refl))

-- The bytes of one chunk.
pub read_length-body :
    (fuel left : ℕ) (body t : Bytes) (s : Input)
    → Goes t
    → length body ≡ left
    → left < fuel
    → (sent : List Bytes) × (read_length fuel left ((body ++ t) ∷ s)
        ≡ record { sent = sent; complete = true; rest = t ∷ s })
      × (join sent ≡ body)
unfolding read_length join
read_length-body zero left body t s g e h = absurd (omega (arith, h))
read_length-body (suc fuel) zero [] t s g e h = ([], refl, refl)
read_length-body (suc fuel) zero (b ∷ body) t s g e h = absurd (omega (arith, e))
read_length-body (suc fuel) (suc left) body t s g e h =
    front (read_part (min buffer_size (suc left)) body t s (omega arith) (omega (arith, e)) g)
      (read_length-body fuel)
  where
    front :
        (c : ℕ) × (cs : Bytes) × (body2 : Bytes) × (read_some
              (min buffer_size (suc left))
              ((body ++ t) ∷ s)
            ≡ (c ∷ cs, (body2 ++ t) ∷ s))
          × (body ≡ (c ∷ cs) ++ body2)
        → ((left : ℕ) (body t : Bytes) (s : Input)
            → Goes t
            → length body ≡ left
            → left < fuel
            → (sent : List Bytes) × (read_length fuel left ((body ++ t) ∷ s)
                ≡ record { sent = sent; complete = true; rest = t ∷ s })
              × (join sent ≡ body))
        → (sent : List Bytes) × (read_length (suc fuel) (suc left) ((body ++ t) ∷ s)
            ≡ record { sent = sent; complete = true; rest = t ∷ s })
          × (join sent ≡ body)
    front (c, cs, body2, r, q) ih =
        let size : length body2 ≡ suc left - length (c ∷ cs) =
          omega (arith, e, ap (λ x. length x) q, length-append (c ∷ cs) body2) in
        let (sent, f, j) =
          ih (suc left - length (c ∷ cs)) body2 t s g size (omega (arith, h, size)) in
        (
          (c ∷ cs) ∷ sent,
          read_length-some fuel left ((body ++ t) ∷ s) c cs ((body2 ++ t) ∷ s) sent (t ∷ s) r f,
          ap (λ x. (c ∷ cs) ++ x) j ∙ sym q,
        )
