-- ===== src/Client/Options.antt =====
-- What the command line and the addresses are read as (`parseTunnelSpec`, `httpBaseFromWs`, `splitAddr`).
pub mod Spec
use samryetha_tunnel.Base.{
  ℕ, suc, ◌+◌, ◌-◌, ◌==◌, Bool, true, false, not, ◌&&◌, ◌||◌, if◌then◌else◌, Option, none, some,
  List, [], ◌∷◌, ◌++◌, take, drop, length,
}
use samryetha_tunnel.Base.Int.{ℤ, pos, atoi}
use samryetha_tunnel.Base.Text.{
  Bytes, codes, bytes_eq, is_empty, find_byte, rfind_byte, find_bytes, starts_with, to_lower,
  getline_parts,
}
use samryetha_tunnel.Codec.Types.{TunnelCfg}

abbrev pub default_cfg : TunnelCfg
default_cfg = record { id = []; proto = []; sub = []; path = []; local = []; conn = [] }

unfoldable pub is_one_of : Bytes → List Bytes → Bool
is_one_of k [] = false
is_one_of k (n ∷ ns) = bytes_eq k n || is_one_of k ns

-- The assignments of `parseTunnelSpec`, by the key in lower case.
unfoldable pub set_field : Bytes → Bytes → TunnelCfg → TunnelCfg
unfolding is_one_of
set_field k v d =
    if is_one_of k (codes "id" ∷ codes "tunnel_id" ∷ [])
    then record d { id = v }
    else if is_one_of k (codes "proto" ∷ [])
    then record d { proto = v }
    else if is_one_of k (codes "sub" ∷ codes "subdomain" ∷ [])
    then record d { sub = v }
    else if is_one_of k (codes "path" ∷ codes "prefix" ∷ codes "path_prefix" ∷ [])
    then record d { path = v }
    else if is_one_of k (codes "local" ∷ codes "local_addr" ∷ [])
    then record d { local = v }
    else if is_one_of k (codes "conn" ∷ [])
    then record d { conn = v }
    else d

unfoldable pub set_part : Bytes → TunnelCfg → TunnelCfg
unfolding set_field
set_part part d = elim (find_byte b'=' part) [
  | none ↦ d
  | some eq ↦ set_field (to_lower (take eq part)) (drop (suc eq) part) d
]

unfoldable pub set_parts : List Bytes → TunnelCfg → TunnelCfg
unfolding set_part
set_parts [] d = d
set_parts (part ∷ parts) d = set_parts parts (set_part part d)

-- What `d` is then, and whether the text is taken.
unfoldable pub parse_tunnel_spec : Bytes → TunnelCfg → Bool × TunnelCfg
unfolding set_parts
parse_tunnel_spec spec d =
    let e = set_parts (getline_parts b',' spec) d in
    (not (is_empty e.id) && not (is_empty e.local), e)

-- `while (!s.empty() && s.back() == '/') s.pop_back();`
unfoldable pub trim_slashes : Bytes → Bytes
trim_slashes [] = []
trim_slashes (c ∷ cs) =
    let rest = trim_slashes cs in if c == b'/' && is_empty rest then [] else c ∷ rest

unfoldable pub http_base_from_ws : Bytes → Bytes
unfolding trim_slashes
http_base_from_ws ws =
    let s =
      if starts_with (codes "wss://") ws
      then codes "https://" ++ drop 6 ws
      else if starts_with (codes "ws://") ws
      then codes "http://" ++ drop 5 ws
      else ws in
    trim_slashes (elim (find_bytes (codes "/tunnel") s) [ none ↦ s | some p ↦ take p s ])

-- The host and the port.
unfoldable pub split_addr : Bytes → Bytes × ℤ
split_addr addr = elim (rfind_byte b':' addr) [
  | none ↦ (addr, pos 80)
  | some c ↦ (take c addr, atoi (drop (suc c) addr))
]
