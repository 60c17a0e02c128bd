-- ===== src/Client/Args/Usable.antt =====
-- The tunnels of an accepted command line can be registered.
use samryetha_tunnel.Base.{
  ◌≡◌, refl, Bool, true, false, not, ◌&&◌, if◌then◌else◌, Option, none, some, List, [], ◌∷◌, ◌++◌,
  All,
}
use samryetha_tunnel.Base.Text.{Bytes, is_empty, to_lower}
use samryetha_tunnel.Codec.Types.{Mode, TunnelCfg}
use samryetha_tunnel.Client.Options.{default_cfg, parse_tunnel_spec}
use samryetha_tunnel.Client.Args.{
  Args, no_args, Wish, info, set_server, set_token, set_dev_token, set_client_id, set_config,
  set_proto, set_tunnel, no_reconnect, isolate, other, wish_of, Outcome, going, leave, mode_of,
  add_spec, assign, takes_value, then_parse, parse_args,
}

-- A name and a local address are there.
abbrev pub IsUsable : TunnelCfg → Type 0
IsUsable t = not (is_empty t.id) && not (is_empty t.local) ≡ true

-- Where `main` goes on, its tunnels are usable.
abbrev pub Accepts : Outcome → Type 0
Accepts (going a) = All IsUsable a.tunnels
Accepts (leave code) = Unit

All-snoc :
    (ts : List TunnelCfg) (t : TunnelCfg)
    → All IsUsable ts
    → IsUsable t
    → All IsUsable (ts ++ t ∷ [])
All-snoc [] t h u = (u, tt)
All-snoc (s ∷ ts) t h u = (h.0, All-snoc ts t h.1 u)

parsed :
    (spec : Bytes) (d : TunnelCfg)
    → (parse_tunnel_spec spec d).0 ≡ true
    → IsUsable (parse_tunnel_spec spec d).1
unfolding parse_tunnel_spec
parsed spec d e = e

add_spec-Accepts : (spec : Bytes) (a : Args) → All IsUsable a.tunnels → Accepts (add_spec spec a)
unfolding add_spec
add_spec-Accepts spec a h = go (parse_tunnel_spec spec default_cfg).0 refl
  where
    cfg : TunnelCfg
    cfg = (parse_tunnel_spec spec default_cfg).1

    go :
        (accepted : Bool)
        → (parse_tunnel_spec spec default_cfg).0 ≡ accepted
        → Accepts
            (if accepted then going (record a { tunnels = a.tunnels ++ cfg ∷ [] }) else leave 2)
    go true e = All-snoc a.tunnels cfg h (parsed spec default_cfg e)
    go false e = tt

assign-Accepts :
    (w : Wish) (v : Option Bytes) (a : Args) → All IsUsable a.tunnels → Accepts (assign w v a)
unfolding assign
assign-Accepts set_proto v a h = go (mode_of (to_lower (elim v [ none ↦ [] | some s ↦ s ])))
  where
    go :
        (m : Option Mode)
        → Accepts (elim m [ none ↦ leave 2 | some m ↦ going (record a { mode = m }) ])
    go none = tt
    go (some m) = h
assign-Accepts set_tunnel v a h = add_spec-Accepts (elim v [ none ↦ [] | some s ↦ s ]) a h
assign-Accepts set_server none a h = h
assign-Accepts set_token none a h = h
assign-Accepts set_dev_token none a h = h
assign-Accepts set_client_id none a h = h
assign-Accepts set_config none a h = h
assign-Accepts set_server (some v) a h = h
assign-Accepts set_token (some v) a h = h
assign-Accepts set_dev_token (some v) a h = h
assign-Accepts set_client_id (some v) a h = h
assign-Accepts set_config (some v) a h = h
assign-Accepts info v a h = tt
assign-Accepts no_reconnect v a h = h
assign-Accepts isolate v a h = h
assign-Accepts other v a h = h

then_parse-Accepts :
    (o : Outcome) (next : Args → Outcome)
    → Accepts o
    → ((a : Args) → All IsUsable a.tunnels → Accepts (next a))
    → Accepts (then_parse o next)
unfolding then_parse
then_parse-Accepts (going a) next h g = g a h
then_parse-Accepts (leave code) next h g = tt

parse_args-Accepts_from :
    (args : List Bytes) (a : Args) → All IsUsable a.tunnels → Accepts (parse_args args a)
unfolding parse_args
parse_args-Accepts_from [] a h = h
parse_args-Accepts_from (x ∷ []) a h = assign-Accepts (wish_of x) none a h
parse_args-Accepts_from (x ∷ v ∷ rest) a h =
    go (takes_value (wish_of x)) (λ b g. parse_args-Accepts_from rest b g)
      (λ b g. parse_args-Accepts_from (v ∷ rest) b g)
  where
    go :
        (takes : Bool)
        → ((b : Args) → All IsUsable b.tunnels → Accepts (parse_args rest b))
        → ((b : Args) → All IsUsable b.tunnels → Accepts (parse_args (v ∷ rest) b))
        → Accepts (elim takes [
          | true ↦ then_parse (assign (wish_of x) (some v) a) (λ b. parse_args rest b)
          | false ↦ then_parse (assign (wish_of x) none a) (λ b. parse_args (v ∷ rest) b)
        ])
    go true next later =
        then_parse-Accepts (assign (wish_of x) (some v) a) (λ b. parse_args rest b)
          (assign-Accepts (wish_of x) (some v) a h) next
    go false next later =
        then_parse-Accepts (assign (wish_of x) none a) (λ b. parse_args (v ∷ rest) b)
          (assign-Accepts (wish_of x) none a h) later

-- Whatever the command line is, its loop in `main` returns a code, or each tunnel that it has read has a
-- name and a local address.
pub parse_args-Accepts : (args : List Bytes) → Accepts (parse_args args no_args)
parse_args-Accepts args = parse_args-Accepts_from args no_args tt
