-- ===== src/Desktop/Config/RoundTrip.antt =====
-- What `save` writes is what `load` reads.
use mathlib.Core.Path.{subst}
use samryetha_tunnel.Base.{
  Option, true, false, ◌≡◌, refl, sym, ap, ◌∙◌, true, false, Bool-cases, inl, inr, List, [], ◌∷◌,
  map,
}
use samryetha_tunnel.Base.Text.{Bytes, codes, bytes_eq, bytes_eq_refl, is_empty}
use samryetha_tunnel.Desktop.Qt.{Qt, QtLaws}
use samryetha_tunnel.Desktop.Protocol.{TunnelDef, put_given, text_at}
use samryetha_tunnel.Desktop.Protocol.RoundTrip.{value-put_other}
use samryetha_tunnel.Desktop.Config.{
  ClientConfig, default_config, text_or_kept, load_tunnel, load_object, load, save_tunnel,
  save_object, save,
}

module _ (q : Qt) (laws : QtLaws q) where
  -- The member `k` of `o` is `v`.
  record Holds (o : q.Object) (k : Bytes) (v : q.Value) : Type 0 where
    has : q.contains o k ≡ true
    is : q.value o k ≡ v

  put_member : (k : Bytes) (v : q.Value) (o : q.Object) → Holds (q.put k v o) k v
  put_member k v o = record { has = laws.contains-put_self k v o; is = laws.value-put_self k v o }

  skip_member :
      {v : q.Value} (w : q.Value) (o : q.Object) (k j : Bytes)
      → bytes_eq k j ≡ false
      → Holds o j v
      → Holds (q.put k w o) j v
  skip_member w o k j h g = record {
    has =
        laws.contains-put_ne k j w o (λ e. clash (subst (λ x. bytes_eq k x ≡ false) (sym e) h))
        ∙ g.has;
    is = value-put_other q laws k j w o h ∙ g.is;
  }
    where
      clash : bytes_eq k k ≡ false → ⊥
      clash e = cc (e, bytes_eq_refl k)

  loaded_text : (o : q.Object) (k s d : Bytes) → Holds o k (q.of_text s) → text_or_kept q o k d ≡ s
  unfolding text_or_kept text_at
  loaded_text o k s d h = rw (h.has) (ap q.to_text h.is ∙ laws.to_text-of_text s)

  -- A member that is left out where it is empty.
  given_skip :
      (s : Bytes) (o : q.Object) (k j : Bytes)
      → bytes_eq k j ≡ false
      → q.value (put_given q k s o) j ≡ q.value o j
  unfolding put_given
  given_skip s o k j h = elim (Bool-cases (is_empty s)) [
    | inl e ↦ rw e refl
    | inr e ↦ rw e (value-put_other q laws k j (q.of_text s) o h)
  ]

  given_put :
      (k s : Bytes) (o : q.Object)
      → q.value o k ≡ q.value q.empty k
      → text_at q (put_given q k s o) k ≡ s
  unfolding put_given text_at is_empty
  given_put k [] o h = ap q.to_text h ∙ laws.to_text-value_empty k
  given_put k (c ∷ s) o h =
      ap q.to_text (laws.value-put_self k (q.of_text (c ∷ s)) o) ∙ laws.to_text-of_text (c ∷ s)

  skip :
      (k j : Bytes) (v : q.Value) (o : q.Object)
      → bytes_eq k j ≡ false
      → q.value (q.put k v o) j ≡ q.value o j
  skip k j v o h = value-put_other q laws k j v o h

  load_tunnel-save_tunnel : (t : TunnelDef) → load_tunnel q (q.of_object (save_tunnel q t)) ≡ t
  unfolding load_tunnel save_tunnel text_at bytes_eq
  load_tunnel-save_tunnel t =
      let a = q.put (codes "tunnel_id") (q.of_text t.tunnel_id) q.empty in
      let b = q.put (codes "proto") (q.of_text t.proto) a in
      let c = put_given q (codes "subdomain") t.subdomain b in
      let d = put_given q (codes "path_prefix") t.path_prefix c in
      let s = q.put (codes "local_addr") (q.of_text t.local_addr) d in
      let object = laws.to_object-of_object s in
      let id : q.to_text (q.value s (codes "tunnel_id")) ≡ t.tunnel_id =
        ap q.to_text (
          skip (codes "local_addr") (codes "tunnel_id") (q.of_text t.local_addr) d refl
          ∙ given_skip t.path_prefix c (codes "path_prefix") (codes "tunnel_id") refl
          ∙ given_skip t.subdomain b (codes "subdomain") (codes "tunnel_id") refl
          ∙ skip (codes "proto") (codes "tunnel_id") (q.of_text t.proto) a refl
          ∙ laws.value-put_self (codes "tunnel_id") (q.of_text t.tunnel_id) q.empty)
        ∙ laws.to_text-of_text t.tunnel_id in
      let proto : q.to_text_or (codes "http") (q.value s (codes "proto")) ≡ t.proto =
        ap (q.to_text_or (codes "http")) (
          skip (codes "local_addr") (codes "proto") (q.of_text t.local_addr) d refl
          ∙ given_skip t.path_prefix c (codes "path_prefix") (codes "proto") refl
          ∙ given_skip t.subdomain b (codes "subdomain") (codes "proto") refl
          ∙ laws.value-put_self (codes "proto") (q.of_text t.proto) a)
        ∙ laws.to_text_or-of_text (codes "http") t.proto in
      let sub : q.to_text (q.value s (codes "subdomain")) ≡ t.subdomain =
        ap q.to_text (
          skip (codes "local_addr") (codes "subdomain") (q.of_text t.local_addr) d refl
          ∙ given_skip t.path_prefix c (codes "path_prefix") (codes "subdomain") refl)
        ∙ given_put (codes "subdomain") t.subdomain b (
            skip (codes "proto") (codes "subdomain") (q.of_text t.proto) a refl
            ∙ skip (codes "tunnel_id") (codes "subdomain") (q.of_text t.tunnel_id) q.empty refl) in
      let path : q.to_text (q.value s (codes "path_prefix")) ≡ t.path_prefix =
        ap q.to_text
          (skip (codes "local_addr") (codes "path_prefix") (q.of_text t.local_addr) d refl)
        ∙ given_put (codes "path_prefix") t.path_prefix c (
            given_skip t.subdomain b (codes "subdomain") (codes "path_prefix") refl
            ∙ skip (codes "proto") (codes "path_prefix") (q.of_text t.proto) a refl
            ∙ skip (codes "tunnel_id") (codes "path_prefix") (q.of_text t.tunnel_id) q.empty
                refl) in
      let addr : q.to_text (q.value s (codes "local_addr")) ≡ t.local_addr =
        ap q.to_text (laws.value-put_self (codes "local_addr") (q.of_text t.local_addr) d)
        ∙ laws.to_text-of_text t.local_addr in
      rw (object, id, proto, sub, path, addr) refl

  load_tunnels :
      (ts : List TunnelDef) → map (load_tunnel q) (map (λ t. q.of_object (save_tunnel q t)) ts) ≡ ts
  load_tunnels [] = refl
  load_tunnels (t ∷ ts) = rw (load_tunnel-save_tunnel t, load_tunnels ts) refl

  saved_text :
      (c : ClientConfig) (d : Bytes)
      → (text_or_kept q (save_object q c) (codes "server_url") d ≡ c.server_url)
        × (text_or_kept q (save_object q c) (codes "api_token") d ≡ c.api_token)
        × (text_or_kept q (save_object q c) (codes "client_id") d ≡ c.client_id)
        × (text_or_kept q (save_object q c) (codes "base_domain") d ≡ c.base_domain)
        × (text_or_kept q (save_object q c) (codes "api_base") d ≡ c.api_base)
  unfolding save_object bytes_eq
  saved_text c d =
      let o = save_object q c in
      (
        loaded_text o (codes "server_url") c.server_url d (
            skip_member _ _ (codes "tunnels") (codes "server_url") refl (
              skip_member _ _ (codes "auto_reconnect") (codes "server_url") refl (
                skip_member _ _ (codes "api_base") (codes "server_url") refl (
                  skip_member _ _ (codes "base_domain") (codes "server_url") refl (
                    skip_member _ _ (codes "client_id") (codes "server_url") refl (
                      skip_member _ _ (codes "api_token") (codes "server_url") refl
                        (put_member (codes "server_url") (q.of_text c.server_url) _))))))),
        loaded_text o (codes "api_token") c.api_token d (
            skip_member _ _ (codes "tunnels") (codes "api_token") refl (
              skip_member _ _ (codes "auto_reconnect") (codes "api_token") refl (
                skip_member _ _ (codes "api_base") (codes "api_token") refl (
                  skip_member _ _ (codes "base_domain") (codes "api_token") refl (
                    skip_member _ _ (codes "client_id") (codes "api_token") refl
                      (put_member (codes "api_token") (q.of_text c.api_token) _)))))),
        loaded_text o (codes "client_id") c.client_id d (
            skip_member _ _ (codes "tunnels") (codes "client_id") refl (
              skip_member _ _ (codes "auto_reconnect") (codes "client_id") refl (
                skip_member _ _ (codes "api_base") (codes "client_id") refl (
                  skip_member _ _ (codes "base_domain") (codes "client_id") refl
                    (put_member (codes "client_id") (q.of_text c.client_id) _))))),
        loaded_text o (codes "base_domain") c.base_domain d (
            skip_member _ _ (codes "tunnels") (codes "base_domain") refl (
              skip_member _ _ (codes "auto_reconnect") (codes "base_domain") refl (
                skip_member _ _ (codes "api_base") (codes "base_domain") refl
                  (put_member (codes "base_domain") (q.of_text c.base_domain) _)))),
        loaded_text o (codes "api_base") c.api_base d (
            skip_member _ _ (codes "tunnels") (codes "api_base") refl (
              skip_member _ _ (codes "auto_reconnect") (codes "api_base") refl
                (put_member (codes "api_base") (q.of_text c.api_base) _))),
      )

  saved_auto :
      (c : ClientConfig)
      → Holds (save_object q c) (codes "auto_reconnect") (q.of_bool c.auto_reconnect)
  unfolding save_object bytes_eq
  saved_auto c =
      (skip_member _ _ (codes "tunnels") (codes "auto_reconnect") refl
        (put_member (codes "auto_reconnect") (q.of_bool c.auto_reconnect) _))

  saved_tunnels :
      (c : ClientConfig)
      → Holds
          (save_object q c)
          (codes "tunnels")
          (q.of_array (map (λ t. q.of_object (save_tunnel q t)) c.tunnels))
  unfolding save_object
  saved_tunnels c =
      (put_member (codes "tunnels")
        (q.of_array (map (λ t. q.of_object (save_tunnel q t)) c.tunnels)) _)

  load_object-save_object : (c d : ClientConfig) → load_object q (save_object q c) d ≡ c
  unfolding load_object
  load_object-save_object c d =
      let auto = saved_auto c in
      let tunnels = saved_tunnels c in
      rw
        (
          (saved_text c d.server_url).0,
          (saved_text c d.api_token).1,
          (saved_text c d.client_id).2,
          (saved_text c d.base_domain).3,
          (saved_text c d.api_base).4,
          auto.has,
          auto.is,
          laws.to_bool-of_bool c.auto_reconnect,
          tunnels.has,
          tunnels.is,
          laws.to_array-of_array (map (λ t. q.of_object (save_tunnel q t)) c.tunnels),
          load_tunnels c.tunnels,
        )
        refl

  -- A configuration that was saved is loaded whole, whatever the file held; where it cannot be opened, the
  -- caller is told, and what is loaded is what it was before.
  pub load-save :
      (c : ClientConfig) (file : Option q.Document)
      → ((save q true c file).0 ≡ true)
        × (load q (save q true c file).1 ≡ c)
        × ((save q false c file).0 ≡ false)
        × (load q (save q false c file).1 ≡ load q file)
  unfolding load save
  load-save c file = (
    refl,
    rw (laws.from_json-to_json_indented (save_object q c), load)
        (load_object-save_object c default_config),
    refl,
    refl,
  )
