-- ===== src/Desktop/Session/Good.antt =====
-- Streams, forwarders and sent messages that fit together, and the changes that keep them so.
use mathlib.Core.Path.{subst}
use samryetha_tunnel.Base.{
  ℕ, ◌≡◌, ◌≢◌, ◌⊎◌, ◌<◌, sym, ap, ◌∙◌, Bool, true, false, not, ◌&&◌, ◌||◌, ◌==◌, inl, inr, some,
  List, [], ◌∷◌, arith,
}
use samryetha_tunnel.Base.Dict.{
  Dict, lookup, insert, erase, lookup-insert_self, lookup-insert_ne, lookup-erase_ne,
}
use samryetha_tunnel.Base.Order.{nat_order}
use samryetha_tunnel.Desktop.Protocol.{Frame}
use samryetha_tunnel.Desktop.Client.{StreamState, Object, detach}
use samryetha_tunnel.Desktop.Session.Maps.{ℕ-cases, some_inj, erase_inv, insert_inv, lookup-detach}

-- A frame about stream `id`, and one that ends it.
unfoldable pub about : ℕ → Frame → Bool
about id (Frame.response_head s n h) = s == id
about id (Frame.chunk s b) = s == id
about id (Frame.end s) = s == id
about id (Frame.abort s r) = s == id
about id other = false

unfoldable pub ends : ℕ → Frame → Bool
ends id (Frame.end s) = s == id
ends id (Frame.abort s r) = s == id
ends id other = false

-- The messages, newest first, have ended stream `id`.
unfoldable pub closed : ℕ → List Frame → Bool
unfolding ends
closed id [] = false
closed id (f ∷ fs) = ends id f || closed id fs

-- Nothing about stream `id` stands behind its end.
unfoldable pub quiet : ℕ → List Frame → Bool
unfolding about closed
quiet id [] = true
quiet id (f ∷ fs) = not (about id f && closed id fs) && quiet id fs

unfoldable pub mem : ℕ → List ℕ → Bool
mem n [] = false
mem n (m ∷ ms) = m == n || mem n ms

-- `ids` are the streams that the server has opened.
pub record Good (ids : List ℕ) (streams : Dict ℕ StreamState) (objects : Dict ℕ Object) (next : ℕ)
    (sent : List Frame) : Type 0 where
  pub open_streams :
      (id : ℕ) (st : StreamState)
      → lookup id streams ≡ some st
      → (closed id sent ≡ false) × (mem id ids ≡ true)
  pub attached_objects :
      (h : ℕ) (o : Object)
      → lookup h objects ≡ some o
      → o.attached ≡ true
      → (st : StreamState) × (lookup o.fwd.req.stream_id streams ≡ some st) × (st.fwd ≡ h)
  pub handles : (h : ℕ) (o : Object) → lookup h objects ≡ some o → h < next
  pub is_quiet : (id : ℕ) → quiet id sent ≡ true
  pub known : (id : ℕ) → closed id sent ≡ true → mem id ids ≡ true

module _ {ids : List ℕ} {streams : Dict ℕ StreamState} {objects : Dict ℕ Object} {next : ℕ}
    {sent : List Frame} where
  pub send-Good :
      (f : Frame)
      → Good ids streams objects next sent
      → ((id : ℕ) → ends id f ≡ false)
      → ((id : ℕ) → about id f ≡ true → closed id sent ≡ false)
      → Good ids streams objects next (f ∷ sent)
  unfolding closed quiet
  send-Good f g e a = record {
    open_streams = λ id st l. (rw (e id) (g.open_streams id st l).0, (g.open_streams id st l).1);
    attached_objects = g.attached_objects;
    handles = g.handles;
    is_quiet = λ id. ground (arith, g.is_quiet id, a id);
    known = λ id c. g.known id (ground (arith, e id, c));
  }

  -- Stream `id` is given up.
  pub erase-Good :
      (id : ℕ) (st : StreamState)
      → Good ids streams objects next sent
      → lookup id streams ≡ some st
      → Good ids (erase id streams) (detach st.fwd objects) next sent
  erase-Good id st g l = record {
    open_streams = λ j sj lj. g.open_streams j sj (erase_inv id j streams sj lj).0;
    attached_objects = λ h o lo a. others h o a (lookup-detach st.fwd h objects o lo);
    handles = λ h o lo. let (p, lp, e, c) = lookup-detach st.fwd h objects o lo in g.handles h p lp;
    is_quiet = g.is_quiet;
    known = g.known;
  }
    where
      kept :
          (h k : ℕ) (sk : StreamState)
          → lookup k streams ≡ some sk
          → sk.fwd ≡ h
          → st.fwd ≢ h
          → lookup k (erase id streams) ≡ some sk
      kept h k sk lk e ne = elim (ℕ-cases id k) [
        | inl p ↦
            let same : sk ≡ st = some_inj (sym lk ∙ rw p at l) in
            absurd (ne (ap (λ (x : StreamState). x.fwd) (sym same) ∙ e))
        | inr p ↦ lookup-erase_ne id k streams p ∙ lk
      ]

      others :
          (h : ℕ) (o : Object)
          → o.attached ≡ true
          → (p : Object) × (lookup h objects ≡ some p)
            × (o.fwd ≡ p.fwd)
            × ((o.attached ≡ false) ⊎ ((st.fwd ≢ h) × (o ≡ p)))
          → (sk : StreamState) × (lookup o.fwd.req.stream_id (erase id streams) ≡ some sk)
            × (sk.fwd ≡ h)
      others h o a (p, lp, e, inl f) = absurd (cc (a, f))
      others h o a (p, lp, e, inr (ne, q)) =
          let (sk, lk, f) = g.attached_objects h o (rw q lp) a in
          (sk, kept h o.fwd.req.stream_id sk lk f ne, f)

  -- Its status or its bytes change.
  pub change-Good :
      (id : ℕ) (st new : StreamState)
      → Good ids streams objects next sent
      → lookup id streams ≡ some st
      → new.fwd ≡ st.fwd
      → Good ids (insert id new streams) objects next sent
  change-Good id st new g l e = record {
    open_streams = λ j sj lj. opened j sj (insert_inv id j new streams sj lj);
    attached_objects = λ h o lo a.
        let (sk, lk, f) = g.attached_objects h o lo a in kept h o.fwd.req.stream_id sk lk f;
    handles = g.handles;
    is_quiet = g.is_quiet;
    known = g.known;
  }
    where
      opened :
          (j : ℕ) (sj : StreamState)
          → ((id ≡ j) × (sj ≡ new)) ⊎ ((id ≢ j) × (lookup j streams ≡ some sj))
          → (closed j sent ≡ false) × (mem j ids ≡ true)
      opened j sj (inl (p, q)) = g.open_streams j st (rw p at l)
      opened j sj (inr (p, q)) = g.open_streams j sj q

      kept :
          (h k : ℕ) (sk : StreamState)
          → lookup k streams ≡ some sk
          → sk.fwd ≡ h
          → (x : StreamState) × (lookup k (insert id new streams) ≡ some x) × (x.fwd ≡ h)
      kept h k sk lk f = elim (ℕ-cases id k) [
        | inl p ↦
            let same : sk ≡ st = some_inj (sym lk ∙ rw p at l) in
            (
              new,
              rw p (lookup-insert_self k new streams),
              e ∙ ap (λ (x : StreamState). x.fwd) (sym same) ∙ f,
            )
        | inr p ↦ (sk, lookup-insert_ne id k new streams p ∙ lk, f)
      ]

  -- A forwarder goes on.
  pub update-Good :
      (h : ℕ) (o new : Object)
      → Good ids streams objects next sent
      → lookup h objects ≡ some o
      → new.attached ≡ o.attached
      → new.fwd.req ≡ o.fwd.req
      → Good ids streams (insert h new objects) next sent
  update-Good h o new g l e r = record {
    open_streams = g.open_streams;
    attached_objects = λ k p lk a. owned k p a (insert_inv h k new objects p lk);
    handles = λ k p lk. below k p (insert_inv h k new objects p lk);
    is_quiet = g.is_quiet;
    known = g.known;
  }
    where
      owned :
          (k : ℕ) (p : Object)
          → p.attached ≡ true
          → ((h ≡ k) × (p ≡ new)) ⊎ ((h ≢ k) × (lookup k objects ≡ some p))
          → (sk : StreamState) × (lookup p.fwd.req.stream_id streams ≡ some sk) × (sk.fwd ≡ k)
      owned k p a (inl (q, s)) =
          let on : o.attached ≡ true = sym e ∙ ap (λ (x : Object). x.attached) (sym s) ∙ a in
          let same : p.fwd.req ≡ o.fwd.req = ap (λ (x : Object). x.fwd.req) s ∙ r in
          let (sk, lk, f) = g.attached_objects h o l on in
          (sk, ap (λ x. lookup x.stream_id streams) same ∙ lk, f ∙ q)
      owned k p a (inr (q, s)) = g.attached_objects k p s a

      below :
          (k : ℕ) (p : Object)
          → ((h ≡ k) × (p ≡ new)) ⊎ ((h ≢ k) × (lookup k objects ≡ some p))
          → k < next
      below k p (inl (q, s)) = subst (λ x. x < next) q (g.handles h o l)
      below k p (inr (q, s)) = g.handles k p s
