-- ===== src/Desktop/Session/Opening.antt =====
-- Streams that the server opens, and ends that are sent.
use samryetha_tunnel.Base.{
  ℕ, suc, ◌≡◌, ◌≢◌, ◌⊎◌, ◌<◌, sym, ap, ◌∙◌, true, false, Bool-cases, ◌==◌, inl, inr, none, some,
  List, ◌∷◌, arith,
}
use samryetha_tunnel.Base.Dict.{Dict, lookup, insert, lookup-insert_self, lookup-insert_ne}
use samryetha_tunnel.Base.Order.{nat_order}
use samryetha_tunnel.Desktop.Protocol.{Frame}
use samryetha_tunnel.Desktop.Client.{StreamState, Object}
use samryetha_tunnel.Desktop.Session.Maps.{ℕ-cases, insert_inv}
use samryetha_tunnel.Desktop.Session.Good.{about, ends, closed, quiet, mem, Good}

quiet_of :
    (id : ℕ) (f : Frame) (fs : List Frame)
    → quiet id fs ≡ true
    → (about id f ≡ false) ⊎ (closed id fs ≡ false)
    → quiet id (f ∷ fs) ≡ true
unfolding quiet
quiet_of id f fs q (inl e) = rw e q
quiet_of id f fs q (inr e) = elim (Bool-cases (about id f)) [ inl b ↦ rw (b, e) q | inr b ↦ rw b q ]

module _ {ids : List ℕ} {streams : Dict ℕ StreamState} {objects : Dict ℕ Object} {next : ℕ}
    {sent : List Frame} where
  -- The server opens a new stream.
  pub fresh-Good :
      (id : ℕ) → Good ids streams objects next sent → Good (id ∷ ids) streams objects next sent
  unfolding mem
  fresh-Good id g = record {
    open_streams = λ j sj lj. let (c, m) = g.open_streams j sj lj in (c, rw m (ground arith));
    attached_objects = g.attached_objects;
    handles = g.handles;
    is_quiet = g.is_quiet;
    known = λ j c. let m = g.known j c in rw m (ground arith);
  }

  pub open-Good :
      (id : ℕ) (st : StreamState) (o : Object)
      → Good ids streams objects next sent
      → mem id ids ≡ true
      → closed id sent ≡ false
      → lookup id streams ≡ none
      → st.fwd ≡ next
      → o.fwd.req.stream_id ≡ id
      → Good ids (insert id st streams) (insert next o objects) (suc next) sent
  open-Good id st o g m c l e r = record {
    open_streams = λ j sj lj. opened j sj (insert_inv id j st streams sj lj);
    attached_objects = λ k p lk a. owned k p a (insert_inv next k o objects p lk);
    handles = λ k p lk. below k p (insert_inv next k o objects p lk);
    is_quiet = g.is_quiet;
    known = g.known;
  }
    where
      opened :
          (j : ℕ) (sj : StreamState)
          → ((id ≡ j) × (sj ≡ st)) ⊎ ((id ≢ j) × (lookup j streams ≡ some sj))
          → (closed j sent ≡ false) × (mem j ids ≡ true)
      opened j sj (inl (p, q)) = (rw p at c, rw p at m)
      opened j sj (inr (p, q)) = g.open_streams j sj q

      owned :
          (k : ℕ) (p : Object)
          → p.attached ≡ true
          → ((next ≡ k) × (p ≡ o)) ⊎ ((next ≢ k) × (lookup k objects ≡ some p))
          → (sk : StreamState) × (lookup p.fwd.req.stream_id (insert id st streams) ≡ some sk)
            × (sk.fwd ≡ k)
      owned k p a (inl (q, s)) =
          let same : p.fwd.req.stream_id ≡ id = ap (λ (x : Object). x.fwd.req.stream_id) s ∙ r in
          (
            st,
            ap (λ x. lookup x (insert id st streams)) same ∙ lookup-insert_self id st streams,
            e ∙ q,
          )
      owned k p a (inr (q, s)) =
          let (sk, lk, f) = g.attached_objects k p s a in
          let other : id ≢ p.fwd.req.stream_id = λ x. clash (rw (sym x) at lk) in
          (sk, lookup-insert_ne id p.fwd.req.stream_id st streams other ∙ lk, f)
        where
          clash : {sk : StreamState} → lookup id streams ≡ some sk → ⊥
          clash t = cc (t, l)

      below :
          (k : ℕ) (p : Object)
          → ((next ≡ k) × (p ≡ o)) ⊎ ((next ≢ k) × (lookup k objects ≡ some p))
          → k < suc next
      below k p (inl (q, s)) = omega (arith, q)
      below k p (inr (q, s)) = omega (arith, g.handles k p s)

  -- The end of a stream that is no longer open is sent.
  pub close-Good :
      (id : ℕ) (f : Frame)
      → Good ids streams objects next sent
      → ((j : ℕ) → ends j f ≡ (id == j))
      → ((j : ℕ) → about j f ≡ (id == j))
      → mem id ids ≡ true
      → closed id sent ≡ false
      → lookup id streams ≡ none
      → Good ids streams objects next (f ∷ sent)
  unfolding closed quiet
  close-Good id f g e a m c l = record {
    open_streams =
        λ j sj lj. let (cj, mj) = g.open_streams j sj lj in (rw (e j, other j sj lj) cj, mj);
    attached_objects = g.attached_objects;
    handles = g.handles;
    is_quiet = λ j. still j (ℕ-cases id j);
    known = λ j cj. seen j cj (ℕ-cases id j);
  }
    where
      other : (j : ℕ) (sj : StreamState) → lookup j streams ≡ some sj → (id == j) ≡ false
      other j sj lj = elim (ℕ-cases id j) [
        | inl p ↦ let t = rw p at l in absurd (cc (t, lj))
        | inr p ↦ ground (arith, p)
      ]

      still : (j : ℕ) → (id ≡ j) ⊎ (id ≢ j) → quiet j (f ∷ sent) ≡ true
      still j (inl p) = quiet_of j f sent (g.is_quiet j) (inr (rw p at c))
      still j (inr p) = quiet_of j f sent (g.is_quiet j) (inl (a j ∙ ground (arith, p)))

      seen : (j : ℕ) → closed j (f ∷ sent) ≡ true → (id ≡ j) ⊎ (id ≢ j) → mem j ids ≡ true
      seen j cj (inl p) = rw p at m
      seen j cj (inr p) = g.known j (ground (arith, p, e j, cj))
