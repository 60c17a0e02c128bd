-- ===== src/Client/Streams/Below.antt =====
-- The table leads only to objects that were opened.
use samryetha_tunnel.Base.{
  ℕ, ◌<◌, ◌≤◌, ◌≡◌, ◌≢◌, refl, sym, ap, ◌∙◌, Bool, true, false, Bool-cases, inl, inr, Option, none,
  some, List, [], ◌∷◌, arith,
}
use samryetha_tunnel.Base.Dict.{
  Dict, lookup, insert, erase, lookup-insert_self, lookup-insert_ne, lookup-erase_self,
  lookup-erase_ne,
}
use samryetha_tunnel.Base.Order.{nat_order}
use samryetha_tunnel.Codec.Types.{TunnelCfg}
use mathlib.Core.Path.{subst}
use native.Mathlib.Decide.{ℕ_discrete}
use samryetha_tunnel.Client.Streams.{State, Step, step}
use samryetha_tunnel.Client.Streams.Table.{
  Touch, nothing, all, opens, drops, touch, after, step-streams,
}
use samryetha_tunnel.Client.Streams.Numbers.{step-next}
use samryetha_tunnel.Client.Streams.{
  Pc, erasing, Input, tick, Stream, run, open_stream, tcp, work, on_open, local_of,
}
use samryetha_tunnel.Client.Streams.Table.{last_of_thread, last_of_job}
use samryetha_tunnel.Client.Http.Forward.{Answer}
use samryetha_tunnel.Base.Text.{codes, bytes_eq, is_empty}

-- The table holds no object that has not been opened yet.
abbrev pub IsBelow : State → Type 0
IsBelow s = (i o : ℕ) → lookup i s.streams ≡ some o → o < s.next

opening : Touch → Bool
opening (opens k) = true
opening t = false

last_of_thread-opening :
    (pc : Pc) (input : Input) (id : ℕ) → opening (last_of_thread pc input id) ≡ false
unfolding opening last_of_thread
last_of_thread-opening erasing tick id = refl
last_of_thread-opening pc input id = refl

last_of_job-opening : (left : List Answer) (id : ℕ) → opening (last_of_job left id) ≡ false
unfolding opening last_of_job
last_of_job-opening [] id = refl
last_of_job-opening (a ∷ rest) id = refl

-- A step that puts an object into the table opens the next one.
opening-next :
    (tunnels : List TunnelCfg) (e : Step) (s : State)
    → opening (touch tunnels e s) ≡ true
    → s.next < (step tunnels e s).next
unfolding opening touch step on_open
opening-next tunnels (open_stream os) s h =
    elim (Bool-cases (is_empty (local_of os.tunnel_id [] tunnels))) [
      | inl p ↦ ground (arith, h, p)
      | inr p ↦ elim (Bool-cases (bytes_eq os.proto (codes "tcp"))) [
        | inl q ↦ rw (p, q) (omega arith)
        | inr q ↦ rw (p, q) (omega arith)
      ]
    ]
opening-next tunnels (tcp o input) s h = absurd (go (lookup o s.objects) h)
  where
    go :
        (found : Option Stream)
        → ¬ (
            opening (elim found [ none ↦ nothing | some st ↦ last_of_thread st.pc input st.id ])
            ≡ true)
    go none p = ground arith
    go (some st) p = ground (arith, p, last_of_thread-opening st.pc input st.id)
opening-next tunnels (work o) s h = absurd (go (lookup o s.workers) h)
  where
    go :
        (job : Option (ℕ × List Answer))
        → ¬ (opening (elim job [ none ↦ nothing | some (id, left) ↦ last_of_job left id ]) ≡ true)
    go none p = ground arith
    go (some (id, left)) p = ground (arith, p, last_of_job-opening left id)
opening-next tunnels e s h = ground (arith, h)

gone_entry : (k i o : ℕ) (d : Dict ℕ ℕ) → k ≡ i → lookup i (erase k d) ≢ some o
gone_entry k i o d same h =
    ground (arith, lookup-erase_self k d, subst (λ x. lookup x (erase k d) ≡ some o) (sym same) h)

step-IsBelow :
    (tunnels : List TunnelCfg) (e : Step) (s : State) → IsBelow s → IsBelow (step tunnels e s)
unfolding after opening lookup
step-IsBelow tunnels e s below i o h = go (touch tunnels e s) refl
  where
    later : s.next ≤ (step tunnels e s).next
    later = step-next tunnels e s

    there : lookup i (after (touch tunnels e s) s.next s.streams) ≡ some o
    there = ap (lookup i) (sym (step-streams tunnels e s)) ∙ h

    go : (t : Touch) → touch tunnels e s ≡ t → o < (step tunnels e s).next
    go nothing p = omega (arith, later, below i o (rw p at there))
    go all p = absurd (ground (arith, rw p at there))
    go (opens k) p =
        let grown = opening-next tunnels e s (ap opening p) in
        elim (ℕ_discrete k i) [
          | yes q ↦
              let self = lookup-insert_self k s.next s.streams in
              let found : lookup k (insert k s.next s.streams) ≡ some o =
                subst (λ x. lookup x (insert k s.next s.streams) ≡ some o) (sym q)
                  (rw p at there) in
              ground (arith, self, found, grown)
          | no q ↦
              let old = sym (lookup-insert_ne k i s.next s.streams q) ∙ (rw p at there) in
              omega (arith, later, below i o old)
        ]
    go (drops k) p = elim (ℕ_discrete k i) [
      | yes q ↦ absurd (gone_entry k i o s.streams q (rw p at there))
      | no q ↦
          let old = sym (lookup-erase_ne k i s.streams q) ∙ (rw p at there) in
          omega (arith, later, below i o old)
    ]

pub run-IsBelow :
    (tunnels : List TunnelCfg) (es : List Step) (s : State) → IsBelow s → IsBelow (run tunnels es s)
unfolding run
run-IsBelow tunnels [] s below = below
run-IsBelow tunnels (e ∷ es) s below =
    run-IsBelow tunnels es (step tunnels e s) (step-IsBelow tunnels e s below)

pub empty-IsBelow : (s : State) → s.streams ≡ [] → IsBelow s
unfolding lookup
empty-IsBelow s e i o h = absurd (ground (arith, sym (ap (lookup i) e) ∙ h))
