-- ===== src/Client/Http/Chunked.antt =====
-- A chunked body that arrives in one piece.
use samryetha_tunnel.Base.{
  ℕ, zero, suc, ◌+◌, ◌≡◌, ◌<◌, refl, sym, ap, ◌∙◌, true, List, [], ◌∷◌, ◌++◌, append_assoc, length,
  length-append, All, arith,
}
use samryetha_tunnel.Base.Text.{Bytes, Without}
use samryetha_tunnel.Client.Http.Input.{Input, read_some, calls}
use samryetha_tunnel.Client.Http.Body.{
  read_length, size_line, skip_trailer, chunk_size, read_chunks,
}
use samryetha_tunnel.Client.Http.Length.{join}
use samryetha_tunnel.Client.Http.Pieces.{
  read_two, Goes, tail_follows, size_line-read, skip_trailer-crlf, read_length-body,
}

-- A chunk as it is sent: the line with its size, and its bytes.
abbrev pub Chunk : Type 0
Chunk = Bytes × Bytes

-- The chunks, the line of the last one, and the empty line.
unfoldable pub encode_chunks : List Chunk → Bytes → Bytes
encode_chunks [] last = last ++ (13 ∷ 10 ∷ 13 ∷ 10 ∷ [])
encode_chunks ((line, body) ∷ cs) last =
    line ++ (13 ∷ 10 ∷ (body ++ (13 ∷ 10 ∷ encode_chunks cs last)))

unfoldable pub bodies : List Chunk → Bytes
bodies [] = []
bodies ((line, body) ∷ cs) = body ++ bodies cs

-- A line that is not empty, holds no CR or LF, and says `n`.
abbrev pub IsSize : ℕ → Bytes → Type 0
IsSize n line =
    (c : ℕ) × (l : Bytes) × (line ≡ c ∷ l)
    × Without 13 line
    × Without 10 line
    × (chunk_size line ≡ n)

-- A chunk of at least one byte.
abbrev pub IsChunk : Chunk → Type 0
IsChunk c = (b : ℕ) × (l : Bytes) × (c.1 ≡ b ∷ l) × IsSize (length c.1) c.0

join-append : (a b : List Bytes) → join (a ++ b) ≡ join a ++ join b
unfolding join
join-append [] b = refl
join-append (x ∷ a) b = ap (λ t. x ++ t) (join-append a b) ∙ sym (append_assoc x (join a) (join b))

-- The rounds of the loop.
round :
    (fuel : ℕ) (s : Input) (c : ℕ) (l : Bytes) (after : Input) (b : ℕ) (sent more : List Bytes)
    (left rest : Input)
    → size_line (suc (calls s)) [] s ≡ (c ∷ l, after)
    → chunk_size (c ∷ l) ≡ suc b
    → read_length (suc (suc b)) (suc b) after ≡ record { sent = sent; complete = true; rest = left }
    → read_chunks fuel (read_some 2 left).1 ≡ record { sent = more; complete = true; rest = rest }
    → read_chunks (suc fuel) s ≡ record { sent = sent ++ more; complete = true; rest = rest }
unfolding read_chunks
round fuel s c l after b sent more left rest line size body next =
    let text : (size_line (suc (calls s)) [] s).0 ≡ c ∷ l = ap (λ p. p.0) line in
    let input : (size_line (suc (calls s)) [] s).1 ≡ after = ap (λ p. p.1) line in
    rw (text, read_chunks) (rw size (rw input (rw body (rw next refl))))

last_round :
    (fuel : ℕ) (s : Input) (c : ℕ) (l : Bytes) (after : Input)
    → size_line (suc (calls s)) [] s ≡ (c ∷ l, after)
    → chunk_size (c ∷ l) ≡ 0
    → read_chunks (suc fuel) s
      ≡ record { sent = []; complete = true; rest = skip_trailer (suc (calls after)) [] after }
unfolding read_chunks
last_round fuel s c l after line size =
    let text : (size_line (suc (calls s)) [] s).0 ≡ c ∷ l = ap (λ p. p.0) line in
    let input : (size_line (suc (calls s)) [] s).1 ≡ after = ap (λ p. p.1) line in
    rw (text, read_chunks) (rw size (rw input refl))

encode-Goes : (cs : List Chunk) (last : Bytes) → Goes (encode_chunks cs last)
unfolding encode_chunks
encode-Goes [] last = tail_follows last 13 (10 ∷ 13 ∷ 10 ∷ [])
encode-Goes ((line, body) ∷ cs) last =
    tail_follows line 13 (10 ∷ (body ++ (13 ∷ 10 ∷ encode_chunks cs last)))

after_chunk : (t : Bytes) (s : Input) → Goes t → (read_some 2 ((13 ∷ 10 ∷ t) ∷ s)).1 ≡ t ∷ s
after_chunk t s (d, ds, g) = rw g (ap (λ p. p.1) (read_two 13 10 d ds s))

-- A line's size takes no more calls than the input can serve.
line_calls :
    (line t : Bytes) (s : Input) → length line + 1 < suc (calls ((line ++ (13 ∷ 10 ∷ t)) ∷ s))
unfolding calls
line_calls line t s = omega (arith, length-append line (13 ∷ 10 ∷ t))

sized_line :
    (line t : Bytes) (s : Input)
    → Goes t
    → Without 13 line
    → Without 10 line
    → size_line (suc (calls ((line ++ (13 ∷ 10 ∷ t)) ∷ s))) [] ((line ++ (13 ∷ 10 ∷ t)) ∷ s)
      ≡ (line, t ∷ s)
sized_line line t s g a b =
    size_line-read line [] t s (suc (calls ((line ++ (13 ∷ 10 ∷ t)) ∷ s))) g a b
      (line_calls line t s)

decoded :
    (fuel : ℕ) (cs : List Chunk) (last : Bytes) (s : Input)
    → length cs < fuel
    → All IsChunk cs
    → IsSize 0 last
    → (sent : List Bytes) × (read_chunks fuel (encode_chunks cs last ∷ s)
        ≡ record { sent = sent; complete = true; rest = s })
      × (join sent ≡ bodies cs)
unfolding encode_chunks bodies join
decoded zero cs last s h a z = absurd (omega (arith, h))
decoded (suc fuel) [] last s h a (c, l, e, cr, lf, size) =
    let after : Input = (13 ∷ 10 ∷ []) ∷ s in
    let line = sized_line last (13 ∷ 10 ∷ []) s (13, 10 ∷ [], refl) cr lf in
    (
      [],
      last_round fuel ((last ++ (13 ∷ 10 ∷ 13 ∷ 10 ∷ [])) ∷ s) c l after
            (line ∙ ap (λ x. (x, after)) e) (sym (ap chunk_size e) ∙ size)
          ∙ ap (λ x. record { sent = []; complete = true; rest = x })
              (skip_trailer-crlf (suc (calls after)) s (unfold calls in omega arith)),
      refl,
    )
decoded (suc fuel) ((line, body) ∷ cs) last s h ((b, l, e, (c, m, q, cr, lf, size)), more) z =
    let (sent, r, j) = decoded fuel cs last s (omega (arith, h)) more z in
    let rest = encode_chunks cs last in
    let t : Bytes = 13 ∷ 10 ∷ rest in
    let after : Input = (body ++ t) ∷ s in
    let long : length body ≡ suc (length l) = ap (λ x. length x) e in
    let (part, p, k) =
      read_length-body (suc (suc (length l))) (suc (length l)) body t s (13, 10 ∷ rest, refl) long
        (omega arith) in
    let first = sized_line line (body ++ t) s (tail_follows body 13 (10 ∷ rest)) cr lf in
    let next : read_chunks fuel (read_some 2 (t ∷ s)).1
        ≡ record { sent = sent; complete = true; rest = s } =
      ap (read_chunks fuel) (after_chunk rest s (encode-Goes cs last)) ∙ r in
    (
      part ++ sent,
      round fuel ((line ++ (13 ∷ 10 ∷ (body ++ t))) ∷ s) c m after (length l) part sent (t ∷ s) s
          (first ∙ ap (λ x. (x, after)) q) (sym (ap chunk_size q) ∙ size ∙ long) p next,
      join-append part sent ∙ rw (k, j) refl,
    )

chunks-calls :
    (cs : List Chunk) (last : Bytes) (s : Input)
    → length cs < suc (calls (encode_chunks cs last ∷ s))
unfolding encode_chunks calls
chunks-calls [] last s = omega arith
chunks-calls ((line, body) ∷ cs) last s = omega (
  arith,
  chunks-calls cs last s,
  length-append line (13 ∷ 10 ∷ (body ++ (13 ∷ 10 ∷ encode_chunks cs last))),
  length-append body (13 ∷ 10 ∷ encode_chunks cs last),
)

-- A body of chunks, each of at least one byte behind a line that `strtol` reads as its length, with a last
-- line that it reads as 0 and no trailer, that arrives in one piece is passed on whole and in order, and
-- complete; what arrives behind it is left.
pub read_chunks-encode_chunks :
    (cs : List Chunk) (last : Bytes) (s : Input)
    → All IsChunk cs
    → IsSize 0 last
    → (sent : List Bytes) × (read_chunks
          (suc (calls (encode_chunks cs last ∷ s)))
          (encode_chunks cs last ∷ s)
        ≡ record { sent = sent; complete = true; rest = s })
      × (join sent ≡ bodies cs)
read_chunks-encode_chunks cs last s a z =
    decoded (suc (calls (encode_chunks cs last ∷ s))) cs last s (chunks-calls cs last s) a z
