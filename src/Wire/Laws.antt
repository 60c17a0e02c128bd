-- ===== src/Wire/Laws.antt =====
-- R reads back what W wrote, wherever in a frame it stands.
use Prim.Native.Nat.{bit_and, bit_or}
use mathlib.Core.Path.{subst}
use native.Mathlib.Bridge.{le_prop}
use mathlib.Core.Logic.{dif_pos, dif_neg}
use mathlib.Core.WellFounded.{Acc}
use native.Mathlib.Nat.{div-add-mod}
use native.Mathlib.Numerals.{towards_suc}
use native.Mathlib.Decide.{dec_lt}
use samryetha_tunnel.Base.{
  ℕ, zero, suc, ◌+◌, ◌*◌, ◌/◌, ◌%◌, ◌^◌, ◌<◌, ◌≤◌, ◌≡◌, refl, ap, ◌∙◌, [], ◌∷◌, ◌++◌, length, drop,
  ltb, ◌==◌, arith, true, false, ◌⊎◌, inl, inr, append_assoc, length-append, length-drop,
  drop-append, take-append, drop_add, get_elem?-of_drop, All, lt_wf,
}
use samryetha_tunnel.Base.Bits.{low_bits, top_bit, set_top_bit}
use samryetha_tunnel.Base.Dict.{Dict, insert, insert_all, insert_all-Sorted, Sorted}
use samryetha_tunnel.Base.Order.{bytes_order}
use samryetha_tunnel.Base.Text.{Bytes}
use samryetha_tunnel.Wire.Result.{ok}
use samryetha_tunnel.Wire.Reader
use samryetha_tunnel.Wire.Reader.{Read, ◌>>=◌, ◌>>◌, pure}
use samryetha_tunnel.Wire.Writer

group_byte : (v : ℕ) → bit_or (bit_and (v % 2 ^ 8) 0x7f) 0x80 ≡ v % 128 + 128
group_byte v =
    let e : bit_and (v % 2 ^ 8) 0x7f ≡ v % 128 = low_bits (v % 2 ^ 8) (omega arith) ∙ omega arith in
    rw e (set_top_bit (v % 128) (omega arith))

-- W's loop writes `v` and stops, or a group of it and goes on.
varint_loop_cases :
    (v : ℕ) (w : Acc ◌<◌ v)
    → ((v < 128) × (Writer.varint_loop v w ≡ v ∷ []))
      ⊎ ((127 < v)
          × ((w' : Acc ◌<◌ (v / 128)) × (Writer.varint_loop v w
                ≡ (v % 128 + 128) ∷ Writer.varint_loop (v / 128) w')))
unfolding Writer.varint_loop
varint_loop_cases v (Acc.intro _ smaller) = elim (dec_lt 127 v) [
  | no few ↦ inl (omega arith, dif_neg (dec_lt 127 v) few _ _)
  | yes many ↦ inr (
    many,
    (
      smaller _ (Writer.shift_shrinks v many),
      dif_pos (dec_lt 127 v) le_prop many _ _ ∙ rw (group_byte v),
    ),
  )
]

-- The lowest group of `v` and the rest, both from bit `s` on.
split_group : (v s : ℕ) → v * 2 ^ s ≡ v % 128 * 2 ^ s + v / 128 * 2 ^ (s + 7)
split_group v s = omega (
  arith,
  ap (λ (t : ℕ). t * 2 ^ s) (div-add-mod v 128),
  ap (λ (t : ℕ). v / 128 * t) (shift_seven s),
)
  where
    shift_seven : (s : ℕ) → 2 ^ (s + 7) ≡ 128 * 2 ^ s
    shift_seven s = simp towards_suc (omega arith)

-- A header whose name and value have lengths of 64 bits.
abbrev pub Short : Bytes × Bytes → Type 0
Short (k, v) = (length k < 2 ^ 64) × (length v < 2 ^ 64)

module _ (d : Bytes) (small : length d < 2 ^ 63) where
  -- The frame from `i` on.
  abbrev pub At : ℕ → Bytes → Type 0
  At i s = (drop i d ≡ s) × (i ≤ length d)

  -- `m` reads `a` where `e` stands, and stops behind it.
  abbrev pub Reads : {A : Type 0} → Read A → A → Bytes → Type 0
  Reads m a e = (i : ℕ) (r : Bytes) → At i (e ++ r) → (j : ℕ) × (m i ≡ ok (a, j)) × At j r

  pub Reads-pure : {A : Type 0} (a : A) → Reads (pure a) a []
  Reads-pure a i r h = (i, refl, h)

  pub Reads->>= :
      {A B : Type 0} (m : Read A) (f : A → Read B) (a : A) (b : B) (e e' : Bytes)
      → Reads m a e
      → Reads (f a) b e'
      → Reads (m >>= f) b (e ++ e')
  Reads->>= m f a b e e' hm hf i r h =
      let (j, p, q) = hm i (e' ++ r) (rw append_assoc at h) in
      let (k, p', q') = hf j r q in (k, rw (p, ◌>>=◌) p', q')

  At-length : (i : ℕ) (s : Bytes) → At i s → i + length s ≡ length d
  At-length i s h = omega (arith, ap length h.0, length-drop i d, h.1)

  At-append : (i : ℕ) (e r : Bytes) → At i (e ++ r) → At (i + length e) r
  At-append i e r h = (
    drop_add d (length e) i ∙ rw h.0 (drop-append e r),
    omega (arith, At-length i (e ++ r) h, length-append e r),
  )

  next-Reads : (b : ℕ) → Reads (Reader.next d) b (b ∷ [])
  unfolding Reader.next
  next-Reads b i r h =
      (i + 1, rw (get_elem?-of_drop d i b r h.0, Reader.next), At-append i (b ∷ []) r h)

  need-At : (i n : ℕ) (e r : Bytes) → n ≡ length e → At i (e ++ r) → Reader.need d n i ≡ ok (tt, i)
  unfolding Reader.need
  need-At i n e r q h = ground (arith, At-length i (e ++ r) h, length-append e r)

  -- A check that the text at hand is there, and what reads it.
  need-Reads :
      {A : Type 0} (n : ℕ) (m : Read A) (a : A) (e : Bytes)
      → n ≡ length e
      → Reads m a e
      → Reads (Reader.need d n >> m) a e
  need-Reads n m a e q hm i r h =
      let (j, p, k) = hm i r h in (j, rw (need-At i n e r q h, ◌>>=◌) p, k)

  u8-byte : (b : ℕ) → Reads (Reader.u8 d) b (b ∷ [])
  unfolding Reader.u8
  u8-byte b = need-Reads 1 (Reader.next d) b (b ∷ []) refl (next-Reads b)

  pub u8-Reads : (b : ℕ) → b < 2 ^ 8 → Reads (Reader.u8 d) b (Writer.u8 b)
  unfolding Writer.u8
  u8-Reads b h = let e : b % 2 ^ 8 ≡ b = omega arith in rw e (u8-byte b)

  u16_pair : (lo hi : ℕ) → Reads (Reader.u16 d) (lo + hi * 2 ^ 8) (lo ∷ hi ∷ [])
  unfolding Reader.u16
  u16_pair lo hi = need-Reads 2 _ _ (lo ∷ hi ∷ []) refl (
      Reads->>= (Reader.next d) _ lo _ (lo ∷ []) (hi ∷ []) (next-Reads lo)
        (Reads->>= (Reader.next d) _ hi _ (hi ∷ []) [] (next-Reads hi) (Reads-pure _)))

  pub u16-Reads : (v : ℕ) → v < 2 ^ 16 → Reads (Reader.u16 d) v (Writer.u16 v)
  unfolding Writer.u16
  u16-Reads v h =
      let e : v % 2 ^ 8 + v / 2 ^ 8 % 2 ^ 8 * 2 ^ 8 ≡ v = omega arith in
      subst (λ x. Reads (Reader.u16 d) x (v % 2 ^ 8 ∷ (v / 2 ^ 8 % 2 ^ 8) ∷ [])) e (u16_pair _ _)

  varint_round_last :
      (more : ℕ → ℕ → Read ℕ) (b v shift : ℕ)
      → b < 128
      → Reads (Reader.varint_round d more v shift) (v + b * 2 ^ shift % 2 ^ 64) (b ∷ [])
  unfolding Reader.varint_round
  varint_round_last more b v shift h =
      Reads->>= (Reader.u8 d) _ b _ (b ∷ []) [] (u8-byte b) (rw (stops, value) (Reads-pure _))
    where
      value : bit_and b 0x7f ≡ b
      value = low_bits b (omega arith) ∙ omega arith

      stops : (bit_and b 0x80 == 0) ≡ true
      stops = rw (top_bit b (omega arith)) (ground arith)

  varint_round_inner :
      (more : ℕ → ℕ → Read ℕ) (g v shift a : ℕ) (e : Bytes)
      → g < 128
      → shift + 7 ≤ 63
      → Reads (more (v + g * 2 ^ shift % 2 ^ 64) (shift + 7)) a e
      → Reads (Reader.varint_round d more v shift) a ((g + 128) ∷ e)
  unfolding Reader.varint_round
  varint_round_inner more g v shift a e h k hm =
      Reads->>= (Reader.u8 d) _ (g + 128) _ ((g + 128) ∷ []) e (u8-byte (g + 128))
        (rw (goes_on, value, room) hm)
    where
      value : bit_and (g + 128) 0x7f ≡ g
      value = low_bits (g + 128) (omega arith) ∙ omega arith

      goes_on : (bit_and (g + 128) 0x80 == 0) ≡ false
      goes_on = rw (top_bit (g + 128) (omega arith)) (ground arith)

      room : ltb 63 (shift + 7) ≡ false
      room = ground arith

  last :
      (more : ℕ → ℕ → Read ℕ) (acc shift v : ℕ)
      → v < 128
      → acc + v * 2 ^ shift < 2 ^ 64
      → Reads (Reader.varint_round d more acc shift) (acc + v * 2 ^ shift) (v ∷ [])
  last more acc shift v few fits =
      let n : v * 2 ^ shift % 2 ^ 64 ≡ v * 2 ^ shift = omega arith in
      rw n at (varint_round_last more v acc shift few)

  -- The groups of seven bits of `v` from bit `shift` on; the shift is seven for each byte read.
  varint_loop-Reads :
      (rounds acc shift v : ℕ) (w : Acc ◌<◌ v)
      → shift + 7 * suc rounds ≡ 70
      → acc + v * 2 ^ shift < 2 ^ 64
      → Reads
          (Reader.varint_loop d (suc rounds) acc shift)
          (acc + v * 2 ^ shift)
          (Writer.varint_loop v w)
  unfolding Reader.varint_loop
  varint_loop-Reads zero acc shift v w q fits =
      let low : v < 2 = (let e : shift ≡ 63 = omega arith in omega (arith, rw e at fits)) in
      elim (varint_loop_cases v w) [
        | inl (few, e) ↦ rw e (last (Reader.varint_loop d zero) acc shift v few fits)
        | inr (many, _) ↦ absurd (omega arith)
      ]
  varint_loop-Reads (suc rounds) acc shift v w q fits = elim (varint_loop_cases v w) [
    | inl (few, e) ↦ rw e (last (Reader.varint_loop d (suc rounds)) acc shift v few fits)
    | inr (many, (w', e)) ↦
        let g : v % 128 * 2 ^ shift % 2 ^ 64 ≡ v % 128 * 2 ^ shift =
          omega (arith, split_group v shift) in
        let sum : acc + v % 128 * 2 ^ shift + v / 128 * 2 ^ (shift + 7) ≡ acc + v * 2 ^ shift =
          omega (arith, split_group v shift) in
        let rest =
          varint_loop-Reads rounds (acc + v % 128 * 2 ^ shift) (shift + 7) (v / 128) w'
            (omega arith) (omega (arith, sum)) in
        rw e (
          varint_round_inner (Reader.varint_loop d (suc rounds)) (v % 128) acc shift _ _
            (omega arith) (omega arith) (rw g (rw sum at rest)))
  ]

  -- A uint64_t is read back from its groups.
  pub varint-Reads : (v : ℕ) → v < 2 ^ 64 → Reads (Reader.varint d) v (Writer.varint v)
  unfolding Reader.varint Writer.varint
  varint-Reads v h =
      let e : 0 + v * 2 ^ 0 ≡ v = omega arith in
      rw e at (varint_loop-Reads 9 0 0 v (lt_wf.apply v) refl (omega arith))

  substr-Reads : (s : Bytes) → Reads (Reader.substr d (length s)) s s
  unfolding Reader.substr
  substr-Reads s i r h =
      let l = At-length i (s ++ r) h in
      let fits : (i + length s) % 2 ^ 64 ≡ i + length s = omega (arith, l, length-append s r) in
      let inside : ltb (length d) i ≡ false = ground arith in
      (i + length s, rw (inside, Reader.substr, h.0, take-append s r, fits), At-append i s r h)

  -- A string or a byte sequence of any content, also one with no bytes.
  pub str-Reads : (s : Bytes) → length s < 2 ^ 64 → Reads (Reader.str d) s (Writer.str s)
  unfolding Reader.str Writer.str
  str-Reads s h =
      Reads->>= (Reader.varint d) _ (length s) s (Writer.varint (length s)) s
        (varint-Reads (length s) h)
        (need-Reads (length s) (Reader.substr d (length s)) s s refl (substr-Reads s))

  pub bytes-Reads : (s : Bytes) → length s < 2 ^ 64 → Reads (Reader.bytes d) s (Writer.bytes s)
  unfolding Reader.bytes Writer.bytes Writer.str
  bytes-Reads s h = str-Reads s h

  headers_loop-Reads :
      (h acc : Dict Bytes Bytes)
      → All Short h
      → Reads (Reader.headers_loop d (length h) acc) (insert_all acc h) (Writer.header_list h)
  unfolding Reader.headers_loop Writer.header_list insert_all
  headers_loop-Reads [] acc s = Reads-pure acc
  headers_loop-Reads ((k, v) ∷ h) acc s =
      Reads->>= (Reader.str d)
        (λ key. Reader.str d >>= λ w. Reader.headers_loop d (length h) (insert key w acc)) k _
        (Writer.str k) _ (str-Reads k s.0.0)
        (Reads->>= (Reader.str d) (λ w. Reader.headers_loop d (length h) (insert k w acc)) v _
          (Writer.str v) _ (str-Reads v s.0.1) (headers_loop-Reads h (insert k v acc) s.1))

  -- At most 65535 headers in any order, such as a hash map has, end up in the map.
  pub header_list-Reads :
      (h : Dict Bytes Bytes)
      → length h < 2 ^ 16
      → All Short h
      → Reads (Reader.headers d) (insert_all [] h) (Writer.headers h)
  unfolding Reader.headers Writer.headers
  header_list-Reads h few short =
      let n : length h % 2 ^ 16 ≡ length h = omega arith in
      rw n (
        Reads->>= (Reader.u16 d) (λ n. Reader.headers_loop d n []) (length h) _
          (Writer.u16 (length h)) (Writer.header_list h) (u16-Reads (length h) few)
          (headers_loop-Reads h [] short))

  -- A map comes back as it was.
  pub headers-Reads :
      (h : Dict Bytes Bytes)
      → Sorted h
      → length h < 2 ^ 16
      → All Short h
      → Reads (Reader.headers d) h (Writer.headers h)
  headers-Reads h sorted few short =
      rw (insert_all-Sorted [] h sorted) at (header_list-Reads h few short)
