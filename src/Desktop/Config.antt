-- ===== src/Desktop/Config.antt =====
-- Config.cpp: the configuration of the Qt client and its file.
pub mod RoundTrip
use samryetha_tunnel.Base.{
  ℕ, zero, suc, Bool, true, false, not, ◌&&◌, Option, none, some, List, [], ◌∷◌, ◌++◌, map,
  if◌then◌else◌, length, take, ◌-◌, ◌==◌,
}
use samryetha_tunnel.Base.Dict.{Dict, insert}
use samryetha_tunnel.Base.Int.{ℤ, pos, negsuc}
use samryetha_tunnel.Base.Order.{bytes_order}
use samryetha_tunnel.Base.Text.{Bytes, codes, bytes_eq, is_empty}
use samryetha_tunnel.Desktop.Qt.{Qt}
use samryetha_tunnel.Desktop.Protocol.{TunnelDef, put_given, text_at}

pub record ClientConfig : Type 0 where
  pub server_url : Bytes
  pub api_token : Bytes
  pub client_id : Bytes
  pub base_domain : Bytes
  pub api_base : Bytes
  pub auto_reconnect : Bool
  pub tunnels : List TunnelDef

-- `ClientConfig c;`
unfoldable pub default_config : ClientConfig
default_config = record {
  server_url = codes "wss://frp.example.com/tunnel";
  api_token = [];
  client_id = codes "client";
  base_domain = codes "frp.example.com";
  api_base = [];
  auto_reconnect = true;
  tunnels = [];
}

-- `m[t.tunnelId] = t.localAddr` for each tunnel
unfoldable pub map_of : List TunnelDef → Dict Bytes Bytes → Dict Bytes Bytes
unfolding insert
map_of [] m = m
map_of (t ∷ ts) m = map_of ts (insert t.tunnel_id t.local_addr m)

unfoldable pub local_map : ClientConfig → Dict Bytes Bytes
unfolding map_of
local_map c = map_of c.tunnels []

-- `path.endsWith("/tunnel")`
unfoldable pub ends_with : Bytes → Bytes → Bool
unfolding bytes_eq
ends_with tail [] = bytes_eq [] tail
ends_with tail (c ∷ cs) =
    let rest = ends_with tail cs in if bytes_eq (c ∷ cs) tail then true else rest

-- `while (path.endsWith('/')) path.chop(1);`
unfoldable pub chop_slashes : Bytes → Bytes
unfolding is_empty
chop_slashes [] = []
chop_slashes (c ∷ cs) =
    let rest = chop_slashes cs in if is_empty rest && c == b'/' then [] else c ∷ rest

unfoldable pub http_scheme : Bytes → Bytes
unfolding bytes_eq
http_scheme s =
    if bytes_eq s (codes "wss")
    then codes "https"
    else if bytes_eq s (codes "ws")
    then codes "http"
    else s

-- The port, where it is positive and not that of the scheme.
unfoldable pub port_part : Qt → Bytes → ℤ → Bytes
unfolding bytes_eq
port_part q scheme (negsuc n) = []
port_part q scheme (pos zero) = []
port_part q scheme (pos (suc n)) =
    if suc n == (if bytes_eq scheme (codes "https") then 443 else 80)
    then []
    else codes ":" ++ q.show_number (pos (suc n))

unfoldable pub http_base_from_ws : Qt → Bytes → Bytes
unfolding http_scheme ends_with chop_slashes port_part
http_base_from_ws q url =
    let scheme = http_scheme (q.url_scheme url) in
    let path = q.url_path url in
    let tunnel = codes "/tunnel" in
    let short = if ends_with tunnel path then take (length path - length tunnel) path else path in
    scheme
    ++ (codes "://"
        ++ (q.url_host url ++ (port_part q scheme (q.url_port url) ++ chop_slashes short)))

unfoldable pub effective_api_base : Qt → ClientConfig → Bytes
unfolding is_empty http_base_from_ws
effective_api_base q c =
    if is_empty (q.trimmed c.api_base)
    then http_base_from_ws q c.server_url
    else q.trimmed c.api_base

module _ (q : Qt) where
  -- `if (o.contains(k)) field = o.value(k).toString();`
  unfoldable pub text_or_kept : q.Object → Bytes → Bytes → Bytes
  unfolding text_at
  text_or_kept o k kept = if q.contains o k then text_at q o k else kept

  unfoldable pub load_tunnel : q.Value → TunnelDef
  unfolding text_at
  load_tunnel v =
      let t = q.to_object v in
      record {
        tunnel_id = text_at q t (codes "tunnel_id");
        proto = q.to_text_or (codes "http") (q.value t (codes "proto"));
        subdomain = text_at q t (codes "subdomain");
        path_prefix = text_at q t (codes "path_prefix");
        local_addr = text_at q t (codes "local_addr");
      }

  unfoldable pub load_object : q.Object → ClientConfig → ClientConfig
  unfolding text_or_kept load_tunnel
  load_object o c = record {
    server_url = text_or_kept o (codes "server_url") c.server_url;
    api_token = text_or_kept o (codes "api_token") c.api_token;
    client_id = text_or_kept o (codes "client_id") c.client_id;
    base_domain = text_or_kept o (codes "base_domain") c.base_domain;
    api_base = text_or_kept o (codes "api_base") c.api_base;
    auto_reconnect =
        if q.contains o (codes "auto_reconnect")
        then q.to_bool (q.value o (codes "auto_reconnect"))
        else c.auto_reconnect;
    tunnels =
        if q.contains o (codes "tunnels")
        then map load_tunnel (q.to_array (q.value o (codes "tunnels")))
        else c.tunnels;
  }

  -- The file's text, `none` where it cannot be opened.
  unfoldable pub load : Option q.Document → ClientConfig
  unfolding load_object default_config
  load none = default_config
  load (some text) = elim (q.from_json text) [
    | none ↦ default_config
    | some o ↦ load_object o default_config
  ]

  unfoldable pub save_tunnel : TunnelDef → q.Object
  unfolding put_given
  save_tunnel t = q.put (codes "local_addr") (q.of_text t.local_addr) (
      put_given q (codes "path_prefix") t.path_prefix (
        put_given q (codes "subdomain") t.subdomain (
          q.put (codes "proto") (q.of_text t.proto)
            (q.put (codes "tunnel_id") (q.of_text t.tunnel_id) q.empty))))

  unfoldable pub save_object : ClientConfig → q.Object
  unfolding save_tunnel
  save_object c =
      q.put (codes "tunnels") (q.of_array (map (λ t. q.of_object (save_tunnel t)) c.tunnels)) (
        q.put (codes "auto_reconnect") (q.of_bool c.auto_reconnect) (
          q.put (codes "api_base") (q.of_text c.api_base) (
            q.put (codes "base_domain") (q.of_text c.base_domain) (
              q.put (codes "client_id") (q.of_text c.client_id) (
                q.put (codes "api_token") (q.of_text c.api_token)
                  (q.put (codes "server_url") (q.of_text c.server_url) q.empty))))))

  -- Whether the file could be opened, which is what is returned, and the file after it. A file that cannot be
  -- opened is left as it was.
  unfoldable pub save : Bool → ClientConfig → Option q.Document → Bool × Option q.Document
  unfolding save_object
  save opened c file =
      if opened then (true, some (q.to_json_indented (save_object c))) else (false, file)
