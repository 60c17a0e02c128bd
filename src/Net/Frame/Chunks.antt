-- ===== src/Net/Frame/Chunks.antt =====
-- Receiving over the events of a socket is receiving from the stream of its bytes.
use samryetha_tunnel.Base.{
  ℕ, zero, suc, ◌+◌, ◌<◌, ◌++◌, length, All, ◌≡◌, refl, sym, ◌∙◌, Bool, true, false, Option, none,
  some, List, [], ◌∷◌, ◌==◌, if◌then◌else◌, not,
}
use Prim.Native.Nat.{bit_and}
use samryetha_tunnel.Base.Text.{Bytes}
use samryetha_tunnel.Net.Socket.{Event, read_exact}
use samryetha_tunnel.Net.Socket.Laws.{incoming, read_plain, flat, read_exact-flat}
use samryetha_tunnel.Net.Frame.Mask.{nth}
use samryetha_tunnel.Net.Frame.Reassemble.{
  Sent, wires, is_data, Sane, Inner, ahead, recv_message-wires,
}
use samryetha_tunnel.Net.Frame.Receive.{
  Frame, Progress, read_length, read_some, read_mask, read_frame, Outcome, received, failed, closed,
  stuck, add_data, handle, round, recv_message,
}

flat_of : {A : Type 0} → Option (A × List Event) → Option (A × Bytes)
flat_of none = none
flat_of (some (a, es)) = some (a, incoming es)

-- The two readers agree on every run of the socket.
record Same {A : Type 0} (m : List Event → Option (A × List Event))
    (m' : Bytes → Option (A × Bytes)) : Type 0 where
  agree : (es : List Event) → flat_of (m es) ≡ m' (incoming es)

bind-Same :
    {A B : Type 0} (m : List Event → Option (A × List Event)) (m' : Bytes → Option (A × Bytes))
    (f : A → List Event → Option (B × List Event)) (f' : A → Bytes → Option (B × Bytes))
    → Same m m'
    → ((a : A) → Same (f a) (f' a))
    → Same
        (λ es. elim (m es) [ none ↦ none | some (a, es') ↦ f a es' ])
        (λ s. elim (m' s) [ none ↦ none | some (a, s') ↦ f' a s' ])
unfolding flat_of
bind-Same {A} {B} m m' f f' hm hf = record { agree = λ es. rw (sym (hm.agree es)) (go (m es)) }
  where
    go :
        (r : Option (A × List Event))
        → flat_of (
            let x : Option (B × List Event) = elim r [ none ↦ none | some (a, es') ↦ f a es' ] in x)
          ≡ (let y : Option (B × Bytes) = elim (flat_of r) [
            | none ↦ none
            | some (a, s') ↦ f' a s'
          ] in
              y)
    go none = refl
    go (some (a, es')) = (hf a).agree es'

flat-flat_of : (r : Option (Bytes × List Event)) → flat_of r ≡ flat r
unfolding flat_of
flat-flat_of none = refl
flat-flat_of (some (got, es)) = refl

read_exact-Same : (n : ℕ) → Same (read_exact n) (read_plain n)
read_exact-Same n = record { agree = λ es. flat-flat_of (read_exact n es) ∙ read_exact-flat n es }

pure-Same : {A : Type 0} (a : A) → Same (λ es. some (a, es)) (λ s. some (a, s))
unfolding flat_of
pure-Same a = record { agree = λ es. refl }

if-Same :
    {A : Type 0} (b : Bool) {m n : List Event → Option (A × List Event)}
    {m' n' : Bytes → Option (A × Bytes)}
    → Same m m'
    → Same n n'
    → Same (if b then m else n) (if b then m' else n')
if-Same true h k = h
if-Same false h k = k

read_length-Same : (len : ℕ) → Same (read_length read_exact len) (read_length read_plain len)
unfolding read_length
read_length-Same len =
    if-Same (len == 126) (bind-Same _ _ _ _ (read_exact-Same 2) λ e. pure-Same _)
      (if-Same (len == 127) (bind-Same _ _ _ _ (read_exact-Same 8) λ e. pure-Same _) (pure-Same _))

read_mask-Same : (masked : Bool) → Same (read_mask read_exact masked) (read_mask read_plain masked)
unfolding read_mask
read_mask-Same masked = if-Same masked (read_exact-Same 4) (pure-Same _)

read_some-Same : (n : ℕ) → Same (read_some read_exact n) (read_some read_plain n)
unfolding read_some
read_some-Same n = if-Same (n == 0) (pure-Same _) (read_exact-Same n)

read_frame-Same : Same (read_frame read_exact) (read_frame read_plain)
unfolding read_frame
read_frame-Same = bind-Same _ _ _ _ (read_exact-Same 2) λ hdr.
    bind-Same _ _ _ _ (read_length-Same (bit_and (nth hdr 1) 0x7F)) λ lens.
      bind-Same _ _ _ _ (read_mask-Same (not (bit_and (nth hdr 1) 0x80 == 0)))
        λ mask. bind-Same _ _ _ _ (read_some-Same lens.0) λ payload. pure-Same _

-- The outcome over the bytes that an outcome over events stands for.
unfoldable pub plain_outcome : Outcome read_exact → Outcome read_plain
plain_outcome (received p es) = received p (incoming es)
plain_outcome (failed p) = failed p
plain_outcome (closed p) = closed p
plain_outcome stuck = stuck

if-plain :
    (b : Bool) (x y : Outcome read_exact) {x' y' : Outcome read_plain}
    → plain_outcome x ≡ x'
    → plain_outcome y ≡ y'
    → plain_outcome (if b then x else y) ≡ (if b then x' else y')
if-plain true x y h k = h
if-plain false x y h k = k

handle-plain :
    (more : Progress → List Event → Outcome read_exact)
    (more' : Progress → Bytes → Outcome read_plain)
    → ((p : Progress) (es : List Event) → plain_outcome (more p es) ≡ more' p (incoming es))
    → (p : Progress) (f : Frame) (es : List Event)
    → plain_outcome (handle read_exact more p f es) ≡ handle read_plain more' p f (incoming es)
unfolding handle
handle-plain more more' h p f es =
    if-plain (is_data f.opcode) _ _
      (if-plain f.fin _ _ (unfold plain_outcome in refl) (h (add_data p f.opcode f.payload) es))
      (if-plain (f.opcode == 8) _ _ (unfold plain_outcome in refl) (
        if-plain (f.opcode == 9) _ _ (h (record p { pongs = p.pongs ++ f.payload ∷ [] }) es)
          (h p es)))

round-plain :
    (more : Progress → List Event → Outcome read_exact)
    (more' : Progress → Bytes → Outcome read_plain)
    → ((p : Progress) (es : List Event) → plain_outcome (more p es) ≡ more' p (incoming es))
    → (p : Progress) (es : List Event)
    → plain_outcome (round read_exact more p es) ≡ round read_plain more' p (incoming es)
unfolding round
round-plain more more' h p es =
    go (read_frame read_exact es) (read_frame read_plain (incoming es)) (read_frame-Same.agree es)
  where
    counted : Frame → Progress
    counted f = record p { rx_bytes = p.rx_bytes + f.size }

    go :
        (r : Option (Frame × List Event)) (t : Option (Frame × Bytes))
        → flat_of r ≡ t
        → plain_outcome (
            let x : Outcome read_exact = elim r [
              | none ↦ failed p
              | some (f, es') ↦ handle read_exact more (counted f) f es'
            ] in
            x)
          ≡ (let y : Outcome read_plain = elim t [
            | none ↦ failed p
            | some (f, s) ↦ handle read_plain more' (counted f) f s
          ] in
              y)
    go none t e = rw (← e) (unfold flat_of plain_outcome in refl)
    go (some (f, es')) t e =
        rw (← e) (unfold flat_of in handle-plain more more' h (counted f) f es')

-- `recvMessage` over a socket does what it does on the bytes that arrive there, in one piece: the
-- chunks and the timeouts before the stop flag change neither the message nor what is left.
pub recv_message-plain :
    (fuel : ℕ) (p : Progress) (es : List Event)
    → plain_outcome (recv_message read_exact fuel p es)
      ≡ recv_message read_plain fuel p (incoming es)
unfolding recv_message plain_outcome
recv_message-plain zero p es = refl
recv_message-plain (suc fuel) p es =
    round-plain (λ q t. recv_message read_exact fuel q t) (λ q t. recv_message read_plain fuel q t)
      (λ q t. recv_message-plain fuel q t) p es

-- Frames below 2 ^ 64 bytes with opcodes below 16, fragments but the last and control frames other than close
-- before a last fragment: where the bytes that arrive are those of the frames and `s`, over any chunks and
-- with timeouts before the stop flag between them, and with fuel above the number of frames before the last,
-- `recvMessage` ends with the joined message, the pings answered, and `s` left to read.
pub recv_message-events :
    (fs : List Sent) (fuel : ℕ) (p : Progress) (last : Sent) (s : Bytes) (es : List Event)
    → incoming es ≡ wires (fs ++ last ∷ []) ++ s
    → All Sane fs
    → All Inner fs
    → Sane last
    → is_data last.opcode ≡ true
    → last.fin ≡ true
    → length fs < fuel
    → plain_outcome (recv_message read_exact fuel p es) ≡ received (ahead p (fs ++ last ∷ [])) s
recv_message-events fs fuel p last s es e hs hi h k f m =
    recv_message-plain fuel p es ∙ rw e (recv_message-wires fs fuel p last s hs hi h k f m)
