-- ===== src/Client/Args.antt =====
-- The command line and the configuration file of `main`.
pub mod Usable
use samryetha_tunnel.Base.{
  ℕ, Bool, true, false, if◌then◌else◌, Option, none, some, List, [], ◌∷◌, ◌++◌,
}
use samryetha_tunnel.Base.Text.{Bytes, codes, bytes_eq, is_empty, to_lower}
use samryetha_tunnel.Json.Number.{Doubles}
use samryetha_tunnel.Json.Value.{J, Items, nil, item, at, str, items_of}
use samryetha_tunnel.Json.Parse.{parse}
use samryetha_tunnel.Codec.Types.{Mode, json, binary, TunnelCfg}
use samryetha_tunnel.Client.Options.{default_cfg, is_one_of, parse_tunnel_spec}

-- The variables of `main`, and `g_mode`.
pub record Args : Type 0 where
  pub server : Bytes
  pub token : Bytes
  pub dev_token : Bytes
  pub client_id : Bytes
  pub config_path : Bytes
  pub tunnels : List TunnelCfg
  pub no_reconnect : Bool
  pub isolate : Bool
  pub mode : Mode

abbrev pub no_args : Args
no_args = record {
  server = [];
  token = [];
  dev_token = [];
  client_id = codes "lite";
  config_path = [];
  tunnels = [];
  no_reconnect = false;
  isolate = false;
  mode = json;
}

-- What an argument asks for: help or the version, a setting with a value behind it, one without, nothing.
pub data Wish : Type 0 where
  info : Wish
  set_server set_token set_dev_token set_client_id set_config set_proto set_tunnel : Wish
  no_reconnect isolate other : Wish

unfoldable pub wish_of : Bytes → Wish
unfolding is_one_of
wish_of a =
    if is_one_of a (codes "-h" ∷ codes "--help" ∷ codes "-v" ∷ codes "--version" ∷ [])
    then info
    else if is_one_of a (codes "-s" ∷ codes "--server" ∷ [])
    then set_server
    else if is_one_of a (codes "-t" ∷ codes "--token" ∷ [])
    then set_token
    else if bytes_eq a (codes "--dev-token")
    then set_dev_token
    else if bytes_eq a (codes "--client-id")
    then set_client_id
    else if is_one_of a (codes "-c" ∷ codes "--config" ∷ [])
    then set_config
    else if bytes_eq a (codes "--no-reconnect")
    then no_reconnect
    else if bytes_eq a (codes "--isolate")
    then isolate
    else if bytes_eq a (codes "--proto")
    then set_proto
    else if bytes_eq a (codes "--tunnel")
    then set_tunnel
    else other

-- What follows an argument: the settings so far, or the code that `main` returns.
pub data Outcome : Type 0 where
  going : Args → Outcome
  leave : ℕ → Outcome

-- `g_mode` by the name of the protocol.
unfoldable pub mode_of : Bytes → Option Mode
unfolding is_one_of
mode_of p =
    if is_one_of p (codes "binary" ∷ codes "bin" ∷ codes "v3" ∷ [])
    then some binary
    else if bytes_eq p (codes "json")
    then some json
    else none

unfoldable pub add_spec : Bytes → Args → Outcome
unfolding parse_tunnel_spec
add_spec spec a =
    let parsed = parse_tunnel_spec spec default_cfg in
    if parsed.0 then going (record a { tunnels = a.tunnels ++ parsed.1 ∷ [] }) else leave 2

-- A setting with its value; `none` where the command line ends before it, and nothing is assigned.
unfoldable pub assign : Wish → Option Bytes → Args → Outcome
unfolding mode_of add_spec
assign set_proto v a = elim (mode_of (to_lower (elim v [ none ↦ [] | some s ↦ s ]))) [
  | none ↦ leave 2
  | some m ↦ going (record a { mode = m })
]
assign set_tunnel v a = add_spec (elim v [ none ↦ [] | some s ↦ s ]) a
assign set_server (some v) a = going (record a { server = v })
assign set_token (some v) a = going (record a { token = v })
assign set_dev_token (some v) a = going (record a { dev_token = v })
assign set_client_id (some v) a = going (record a { client_id = v })
assign set_config (some v) a = going (record a { config_path = v })
assign info v a = leave 0
assign no_reconnect v a = going (record a { no_reconnect = true })
assign isolate v a = going (record a { isolate = true })
assign w v a = going a

unfoldable pub takes_value : Wish → Bool
takes_value info = false
takes_value no_reconnect = false
takes_value isolate = false
takes_value other = false
takes_value w = true

-- Goes on with `next` unless `main` returns.
unfoldable pub then_parse : Outcome → (Args → Outcome) → Outcome
then_parse (going a) next = next a
then_parse (leave code) next = leave code

unfoldable pub parse_args : List Bytes → Args → Outcome
unfolding wish_of assign takes_value then_parse
parse_args [] a = going a
parse_args (x ∷ []) a = assign (wish_of x) none a
parse_args (x ∷ v ∷ rest) a = elim (takes_value (wish_of x)) [
  | true ↦ then_parse (assign (wish_of x) (some v) a) (λ b. parse_args rest b)
  | false ↦ then_parse (assign (wish_of x) none a) (λ b. parse_args (v ∷ rest) b)
]

module _ (n : Doubles) where
  open n use {Double}

  unfoldable pub config_tunnel : J Double → TunnelCfg
  config_tunnel t = record default_cfg {
    id = str (codes "tunnel_id") [] t;
    proto = str (codes "proto") (codes "http") t;
    sub = str (codes "subdomain") [] t;
    path = str (codes "path_prefix") [] t;
    local = str (codes "local_addr") [] t;
  }

  unfoldable pub config_tunnels : Items Double → List TunnelCfg
  unfolding config_tunnel
  config_tunnels nil = []
  config_tunnels (item t ts) =
      let rest = config_tunnels ts in
      if is_empty (config_tunnel t).id then rest else config_tunnel t ∷ rest

  -- The text of the file fills in what the command line left out.
  unfoldable pub apply_config : Bytes → Args → Args
  unfolding config_tunnels
  apply_config text a =
      let cfg = parse n text in
      record a {
        server = if is_empty a.server then str (codes "server_url") [] cfg else a.server;
        token = if is_empty a.token then str (codes "api_token") [] cfg else a.token;
        client_id =
            if bytes_eq a.client_id (codes "lite")
            then str (codes "client_id") a.client_id cfg
            else a.client_id;
        tunnels = elim a.tunnels [
          | [] ↦ config_tunnels (items_of (at (codes "tunnels") cfg))
          | t ∷ ts ↦ t ∷ ts
        ];
      }
