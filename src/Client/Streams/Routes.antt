-- ===== src/Client/Streams/Routes.antt =====
-- Which stream the table leads to an object.
use samryetha_tunnel.Base.{
  ℕ, ◌<◌, ◌≡◌, ◌≢◌, refl, sym, ap, ◌∙◌, Bool, true, false, ◌==◌, Option, none, some, List, [],
  if◌then◌else◌, arith,
}
use samryetha_tunnel.Base.Dict.{
  Dict, lookup, lookup-insert_self, lookup-insert_ne, lookup-erase_self, lookup-erase_ne,
}
use samryetha_tunnel.Base.Order.{nat_order}
use samryetha_tunnel.Base.Text.{Bytes}
use samryetha_tunnel.Codec.Types.{TunnelCfg}
use native.Mathlib.Decide.{ℕ_discrete}
use samryetha_tunnel.Client.Streams.{State, Step, chunk_in, step}
use samryetha_tunnel.Client.Streams.Steps.{delivers}
use samryetha_tunnel.Client.Streams.Table.{
  Touch, nothing, all, opens, drops, touch, after, step-streams,
}

-- A chunk for the stream.
unfoldable pub chunk_of : ℕ → Step → Bytes
chunk_of sid (chunk_in i b) = if i == sid then b else []
chunk_of sid e = []

-- Whether the number is given up.
unfoldable pub ends : ℕ → Touch → Bool
ends sid nothing = false
ends sid all = true
ends sid (opens k) = k == sid
ends sid (drops k) = k == sid

-- The table leads to the object from this number alone, or from none.
abbrev pub IsGone : ℕ → Dict ℕ ℕ → Type 0
IsGone o d = (i : ℕ) → lookup i d ≢ some o

abbrev pub IsAt : ℕ → ℕ → Dict ℕ ℕ → Type 0
IsAt sid o d = (lookup sid d ≡ some o) × ((i : ℕ) → lookup i d ≡ some o → i ≡ sid)

-- An entry for the object in the table after a step was there before.
pub from_before :
    (o i : ℕ) (t : Touch) (next : ℕ) (d : Dict ℕ ℕ)
    → o < next
    → lookup i (after t next d) ≡ some o
    → (lookup i d ≡ some o) × (ends i t ≡ false)
unfolding after ends
from_before o i nothing next d below h = (h, refl)
from_before o i all next d below h = unfold lookup in ground arith
from_before o i (opens k) next d below h = elim (ℕ_discrete k i) [
  | yes p ↦ ground (arith, p, lookup-insert_self k next d)
  | no p ↦ (sym (lookup-insert_ne k i next d p) ∙ h, ground arith)
]
from_before o i (drops k) next d below h = elim (ℕ_discrete k i) [
  | yes p ↦ ground (arith, p, lookup-erase_self k d)
  | no p ↦ (sym (lookup-erase_ne k i d p) ∙ h, ground arith)
]

-- An entry that a step does not give up stays.
kept :
    (o i : ℕ) (t : Touch) (next : ℕ) (d : Dict ℕ ℕ)
    → ends i t ≡ false
    → lookup i d ≡ some o
    → lookup i (after t next d) ≡ some o
unfolding after ends
kept o i nothing next d e h = h
kept o i all next d e h = ground arith
kept o i (opens k) next d e h = lookup-insert_ne k i next d (λ p. ground arith) ∙ h
kept o i (drops k) next d e h = lookup-erase_ne k i d (λ p. ground arith) ∙ h

pub IsGone-step :
    (o : ℕ) (tunnels : List TunnelCfg) (e : Step) (s : State)
    → o < s.next
    → IsGone o s.streams
    → IsGone o (step tunnels e s).streams
IsGone-step o tunnels e s below gone =
    rw (step-streams tunnels e s)
      (λ i h. gone i (from_before o i (touch tunnels e s) s.next s.streams below h).0)

pub IsAt-step :
    (sid o : ℕ) (tunnels : List TunnelCfg) (e : Step) (s : State)
    → o < s.next
    → IsAt sid o s.streams
    → ends sid (touch tunnels e s) ≡ false
    → IsAt sid o (step tunnels e s).streams
IsAt-step sid o tunnels e s below (here, only) p = rw (step-streams tunnels e s) (
  kept o sid (touch tunnels e s) s.next s.streams p here,
  λ i h. only i (from_before o i (touch tunnels e s) s.next s.streams below h).0,
)

pub gone-delivers : (o : ℕ) (e : Step) (s : State) → IsGone o s.streams → delivers o e s ≡ []
unfolding delivers
gone-delivers o (chunk_in i b) s gone = go (lookup i s.streams) refl
  where
    go :
        (found : Option ℕ)
        → lookup i s.streams ≡ found
        → elim found [ none ↦ [] | some j ↦ if j == o then b else [] ] ≡ []
    go none p = refl
    go (some j) p = elim (ℕ_discrete j o) [
      | yes q ↦ absurd (gone i (p ∙ ap some q))
      | no q ↦ ground arith
    ]
gone-delivers o e s gone = refl

pub at-delivers :
    (sid o : ℕ) (e : Step) (s : State) → IsAt sid o s.streams → delivers o e s ≡ chunk_of sid e
unfolding delivers chunk_of
at-delivers sid o (chunk_in i b) s (here, only) = go (lookup i s.streams) refl
  where
    go :
        (found : Option ℕ)
        → lookup i s.streams ≡ found
        → elim found [ none ↦ [] | some j ↦ if j == o then b else [] ]
          ≡ (if i == sid then b else [])
    go none p = elim (ℕ_discrete i sid) [
      | yes q ↦ ground (arith, sym p ∙ ap (λ x. lookup x s.streams) q ∙ here)
      | no q ↦ ground arith
    ]
    go (some j) p = elim (ℕ_discrete j o) [
      | yes q ↦ let same : i ≡ sid = only i (p ∙ ap some q) in ground arith
      | no q ↦ elim (ℕ_discrete i sid) [
        | yes r ↦ ground (arith, sym p ∙ ap (λ x. lookup x s.streams) r ∙ here)
        | no r ↦ ground arith
      ]
    ]
at-delivers sid o e s at = refl

-- A step that gives the number up delivers nothing to the object, and leaves nothing that leads to it.
end-delivers :
    (sid o : ℕ) (tunnels : List TunnelCfg) (e : Step) (s : State)
    → ends sid (touch tunnels e s) ≡ true
    → delivers o e s ≡ []
unfolding delivers touch ends
end-delivers sid o tunnels (chunk_in i b) s q = ground arith
end-delivers sid o tunnels e s q = refl

pub end-step :
    (sid o : ℕ) (tunnels : List TunnelCfg) (e : Step) (s : State)
    → o < s.next
    → IsAt sid o s.streams
    → ends sid (touch tunnels e s) ≡ true
    → (delivers o e s ≡ []) × IsGone o (step tunnels e s).streams
end-step sid o tunnels e s below (here, only) p =
    (end-delivers sid o tunnels e s p, rw (step-streams tunnels e s) gone)
  where
    t : Touch
    t = touch tunnels e s

    gone : IsGone o (after t s.next s.streams)
    gone i h =
        let (old, stays) = from_before o i t s.next s.streams below h in
        let ended : ends i t ≡ true = ap (λ x. ends x t) (only i old) ∙ p in
        ground (arith, stays, ended)
