-- ===== src/Client/Streams/Growth.antt =====
-- What one step of the machine does to what an object has taken in.
use samryetha_tunnel.Base.{
  ℕ, ◌≡◌, ◌≢◌, refl, sym, ap, ◌∙◌, true, Bool-cases, Option-cases, inl, inr, some, List, [], ◌∷◌,
  ◌++◌, append_assoc, append-nil, arith,
}
use samryetha_tunnel.Base.Dict.{Dict, lookup, lookup-insert_self, lookup-insert_ne}
use samryetha_tunnel.Base.Order.{nat_order}
use samryetha_tunnel.Base.Text.{Bytes}
use mathlib.Core.Path.{subst}
use native.Mathlib.Decide.{ℕ_discrete}
use samryetha_tunnel.Client.Streams.{
  Pc, Stream, Out, State, update, send, take_chunk, close_stream, at_pc, flush, close_all,
}

-- What an object has taken in: the bytes written to the local service, and those that wait.
abbrev pub content : Stream → Bytes
content st = st.written ++ st.pending

-- Nothing waits once the connection is there.
abbrev pub IsClean : Stream → Type 0
IsClean st = st.connected ≡ true → st.pending ≡ []

-- The step from `st` to `st'` takes in `more`.
abbrev Takes : Stream → Stream → Bytes → Type 0
Takes st st' more = IsClean st → IsClean st' × (content st' ≡ content st ++ more)

-- Object `o` is there before and after, and has taken in `more`.
abbrev pub Grows : ℕ → Dict ℕ Stream → Dict ℕ Stream → Bytes → Type 0
Grows o objects objects' more =
    (st : Stream)
    → lookup o objects ≡ some st
    → IsClean st
    → (st' : Stream) × (lookup o objects' ≡ some st')
      × IsClean st'
      × (content st' ≡ content st ++ more)

pub Grows-refl : (o : ℕ) (objects : Dict ℕ Stream) → Grows o objects objects []
Grows-refl o objects st e c = (st, e, c, sym (append-nil (content st)))

pub Grows-trans :
    (o : ℕ) (a b c : Dict ℕ Stream) (x y : Bytes)
    → Grows o a b x
    → Grows o b c y
    → Grows o a c (x ++ y)
Grows-trans o a b c x y h k st e clean =
    let (st', e', clean', p) = h st e clean in
    let (st'', e'', clean'', q) = k st' e' clean' in
    (st'', e'', clean'', q ∙ rw p (append_assoc (content st) x y))

Takes-none : (st st' : Stream) → IsClean st' → content st' ≡ content st → Takes st st' []
Takes-none st st' c e clean = (c, e ∙ sym (append-nil (content st)))

pub flush-Takes : (st : Stream) → Takes st (flush st) []
unfolding flush
flush-Takes st = Takes-none st (flush st) (λ _. refl) (append-nil (content st))

pub take_chunk-Takes : (b : Bytes) (st : Stream) → Takes st (take_chunk b st) b
unfolding take_chunk
take_chunk-Takes b st clean = elim (Bool-cases st.connected) [
  | inl e ↦
      rw (e, clean e)
        (λ _. refl, append-nil (st.written ++ b) ∙ ap (λ x. x ++ b) (sym (append-nil st.written)))
  | inr e ↦ rw e (λ h. ground arith, sym (append_assoc st.written st.pending b))
]

-- An update of object `o`, at the object itself and at any other.
pub update_same :
    (o : ℕ) (f : Stream → Stream) (s : State) (more : Bytes)
    → ((st : Stream) → Takes st (f st) more)
    → Grows o s.objects (update o f s).objects more
unfolding update
update_same o f s more h st e clean =
    rw (e, update) (f st, lookup-insert_self o (f st) s.objects, (h st clean).0, (h st clean).1)

pub update_other :
    (o j : ℕ) (f : Stream → Stream) (s : State)
    → o ≢ j
    → Grows j s.objects (update o f s).objects []
unfolding update
update_other o j f s ne st e clean = elim (Option-cases (lookup o s.objects)) [
  | inl n ↦ rw (n, update) (st, e, clean, sym (append-nil (content st)))
  | inr (x, n) ↦
      rw (n, update)
        (st, lookup-insert_ne o j (f x) s.objects ne ∙ e, clean, sym (append-nil (content st)))
]

-- An update that takes in nothing.
pub update_none :
    (o j : ℕ) (f : Stream → Stream) (s : State)
    → ((st : Stream) → Takes st (f st) [])
    → Grows j s.objects (update o f s).objects []
update_none o j f s h = elim (ℕ_discrete o j) [
  | yes p ↦ rw (sym p) (update_same o f s [] h)
  | no p ↦ update_other o j f s p
]

-- Steps that only touch the table, the jobs or what is sent.
pub send-objects : (m : Out) (s : State) → (send m s).objects ≡ s.objects
unfolding send
send-objects m s = elim (Bool-cases s.alive) [ inl e ↦ rw e refl | inr e ↦ rw e refl ]

pub at_pc-Takes : (pc : Pc) (st : Stream) → Takes st (at_pc pc st) []
unfolding at_pc
at_pc-Takes pc st clean = Takes-none st (at_pc pc st) clean refl clean

pub close_stream-Takes : (st : Stream) → Takes st (close_stream st) []
unfolding close_stream
close_stream-Takes st clean = Takes-none st (close_stream st) clean refl clean

pub send-update :
    (o j : ℕ) (pc : Pc) (m : Out) (s : State)
    → Grows j s.objects (update o (at_pc pc) (send m s)).objects []
send-update o j pc m s =
    subst (λ x. Grows j x (update o (at_pc pc) (send m s)).objects []) (send-objects m s)
      (update_none o j (at_pc pc) (send m s) (at_pc-Takes pc))

pub close_all-Grows :
    (o : ℕ) (l : List (ℕ × ℕ)) (s : State) → Grows o s.objects (close_all l s).objects []
unfolding close_all
close_all-Grows o [] s = Grows-refl o s.objects
close_all-Grows o ((sid, j) ∷ l) s =
    Grows-trans o s.objects (update j close_stream s).objects
      (close_all l (update j close_stream s)).objects [] []
      (update_none j o close_stream s close_stream-Takes)
      (close_all-Grows o l (update j close_stream s))
