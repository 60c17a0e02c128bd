-- ===== src/Client/Options/Spec.antt =====
-- The text of a tunnel's options is read back, and so is an address.
use samryetha_tunnel.Base.{
  ℕ, suc, ◌≡◌, refl, ◌∙◌, true, false, [], ◌∷◌, ◌++◌, drop, length, take-append, arith,
}
use samryetha_tunnel.Base.Int.{atoi}
use samryetha_tunnel.Base.Text.{
  Bytes, codes, is_empty, Without, find_byte-append, rfind_byte-append, getline_parts,
  getline_parts-cons, getline_parts_last, to_lower, bytes_eq,
}
use samryetha_tunnel.Codec.Types.{TunnelCfg}
use samryetha_tunnel.Client.Options.{set_field, set_part, set_parts, parse_tunnel_spec, split_addr}

drop-suc : (p s : Bytes) (c : ℕ) → drop (suc (length p)) (p ++ c ∷ s) ≡ s
drop-suc [] s c = refl
drop-suc (x ∷ p) s c = drop-suc p s c

set_part-append :
    (k v : Bytes) (d : TunnelCfg)
    → Without b'=' k
    → set_part (k ++ b'=' ∷ v) d ≡ set_field (to_lower k) v d
unfolding set_part
set_part-append k v d h =
    rw (find_byte-append b'=' k v h, set_part, take-append k (b'=' ∷ v), drop-suc k v b'=') refl

-- `key=value`
abbrev pub option : Bytes → Bytes → Bytes
option k v = k ++ b'=' ∷ v

-- The options of a tunnel as the usage text writes them.
unfoldable pub spec_text : TunnelCfg → Bytes
spec_text d =
    option (codes "id") d.id
    ++ b','
      ∷ (option (codes "proto") d.proto
          ++ b','
            ∷ (option (codes "sub") d.sub
                ++ b','
                  ∷ (option (codes "path") d.path
                      ++ b','
                        ∷ (option (codes "local") d.local ++ b',' ∷ option (codes "conn") d.conn))))

-- The values have no comma, and the name and the local address are there.
pub record IsPlain (d : TunnelCfg) : Type 0 where
  pub id : Without b',' d.id
  pub proto : Without b',' d.proto
  pub sub : Without b',' d.sub
  pub path : Without b',' d.path
  pub local : Without b',' d.local
  pub conn : Without b',' d.conn
  pub named : is_empty d.id ≡ false
  pub placed : is_empty d.local ≡ false

Without-append : (c : ℕ) (p s : Bytes) → Without c p → Without c s → Without c (p ++ s)
Without-append c [] s h g = g
Without-append c (x ∷ p) s h g = (h.0, Without-append c p s h.1 g)

-- One option at the front of the text.
next_option :
    (k v rest : Bytes) (d : TunnelCfg)
    → Without b',' k
    → Without b'=' k
    → Without b',' v
    → set_parts (getline_parts b',' (option k v ++ b',' ∷ rest)) d
      ≡ set_parts (getline_parts b',' rest) (set_field (to_lower k) v d)
unfolding set_parts
next_option k v rest d comma equals h =
    let whole = Without-append b',' k (b'=' ∷ v) comma (ground arith, h) in
    rw (getline_parts-cons b',' (option k v) rest whole, set_parts, set_part-append k v d equals)
      refl

last_option :
    (x : ℕ) (k v : Bytes) (d : TunnelCfg)
    → Without b',' (x ∷ k)
    → Without b'=' (x ∷ k)
    → Without b',' v
    → set_parts (getline_parts b',' (option (x ∷ k) v)) d ≡ set_field (to_lower (x ∷ k)) v d
unfolding set_parts
last_option x k v d comma equals h =
    let whole = Without-append b',' (x ∷ k) (b'=' ∷ v) comma (ground arith, h) in
    rw
      (
        getline_parts_last b',' x (k ++ b'=' ∷ v) whole,
        set_parts,
        set_part-append (x ∷ k) v d equals,
      )
      refl

all_options : (d e : TunnelCfg) → IsPlain d → set_parts (getline_parts b',' (spec_text d)) e ≡ d
unfolding spec_text set_field to_lower getline_parts set_parts bytes_eq
all_options d e h =
    let e1 : TunnelCfg = record e { id = d.id } in
    let e2 : TunnelCfg = record e1 { proto = d.proto } in
    let e3 : TunnelCfg = record e2 { sub = d.sub } in
    let e4 : TunnelCfg = record e3 { path = d.path } in
    let e5 : TunnelCfg = record e4 { local = d.local } in
    let t6 = option (codes "conn") d.conn in
    let t5 = option (codes "local") d.local ++ b',' ∷ t6 in
    let t4 = option (codes "path") d.path ++ b',' ∷ t5 in
    let t3 = option (codes "sub") d.sub ++ b',' ∷ t4 in
    let t2 = option (codes "proto") d.proto ++ b',' ∷ t3 in
    next_option (codes "id") d.id t2 e (ground arith) (ground arith) h.id
    ∙ next_option (codes "proto") d.proto t3 e1 (ground arith) (ground arith) h.proto
    ∙ next_option (codes "sub") d.sub t4 e2 (ground arith) (ground arith) h.sub
    ∙ next_option (codes "path") d.path t5 e3 (ground arith) (ground arith) h.path
    ∙ next_option (codes "local") d.local t6 e4 (ground arith) (ground arith) h.local
    ∙ last_option b'c' (codes "onn") d.conn e5 (ground arith) (ground arith) h.conn

-- A tunnel whose values have no comma, with a name and a local address, is read back from the text of its
-- options, whatever stood in `e` before.
pub parse_tunnel_spec-spec_text :
    (d e : TunnelCfg) → IsPlain d → parse_tunnel_spec (spec_text d) e ≡ (true, d)
unfolding parse_tunnel_spec
parse_tunnel_spec-spec_text d e h =
    rw (parse_tunnel_spec, all_options d e h, h.named, h.placed) refl

-- `host:port` is split at its last colon, where the port's text has no colon; the port is read by `atoi`.
pub split_addr-append :
    (host port : Bytes) → Without b':' port → split_addr (host ++ b':' ∷ port) ≡ (host, atoi port)
unfolding split_addr
split_addr-append host port h =
    rw
      (
        rfind_byte-append b':' host port h,
        split_addr,
        take-append host (b':' ∷ port),
        drop-suc host port b':',
      )
      refl
