-- ===== src/Net/Frame/Reassemble.antt =====
-- A message in fragments, with control frames between them.
use Prim.Native.Nat.{bit_and}
use samryetha_tunnel.Base.{
  ℕ, zero, suc, ◌+◌, ◌^◌, ◌<◌, ◌≡◌, refl, sym, ◌∙◌, Bool, true, false, not, ◌||◌, Option, none,
  some, List, [], ◌∷◌, ◌++◌, ◌==◌, length, if◌then◌else◌, arith, length-append, All, append_assoc,
  append-nil, ◌≢◌,
}
use samryetha_tunnel.Base.Bits.{top_bit}
use samryetha_tunnel.Base.Text.{Bytes}
use samryetha_tunnel.Net.Socket.Laws.{read_plain}
use samryetha_tunnel.Net.Frame.Laws.{len_code, len_tail, read_frame_lem, low_four}
use samryetha_tunnel.Net.Frame.Receive.{
  Frame, Progress, read_frame, Outcome, received, add_data, handle, round, recv_message,
}

-- A frame as a server sends it: without a mask.
pub record Sent : Type 0 where
  pub fin : Bool
  pub opcode : ℕ
  pub payload : Bytes

unfoldable pub wire : Sent → Bytes
wire f =
    (f.opcode + (if f.fin then 128 else 0))
    ∷ len_code (length f.payload)
    ∷ (len_tail (length f.payload) ++ f.payload)

unfoldable pub wires : List Sent → Bytes
wires [] = []
wires (f ∷ fs) = wire f ++ wires fs

abbrev pub is_data : ℕ → Bool
is_data c = c == 1 || (c == 2 || c == 0)

abbrev pub Sane : Sent → Type 0
Sane f = (f.opcode < 16) × (length f.payload < 2 ^ 64)

-- What may stand before the last fragment: a fragment, or a control frame other than close.
abbrev pub Inner : Sent → Type 0
Inner f = (if is_data f.opcode then f.fin ≡ false else f.opcode ≢ 8)

frame_of : Sent → Frame
frame_of f = record { fin = f.fin; opcode = f.opcode; payload = f.payload; size = length (wire f) }

read_frame-wire :
    (f : Sent) (s : Bytes) → Sane f → read_frame read_plain (wire f ++ s) ≡ some (frame_of f, s)
unfolding wire frame_of
read_frame-wire f s h = rw (append_assoc (len_tail (length f.payload)) f.payload s) (
    rw (zero_mask, ends, code, size) at
      (read_frame_lem first false [] f.payload s (first_lt f.fin) refl h.1))
  where
    first : ℕ
    first = f.opcode + (if f.fin then 128 else 0)

    first_lt : (b : Bool) → f.opcode + (if b then 128 else 0) < 256
    first_lt true = omega arith
    first_lt false = omega arith

    zero_mask : len_code (length f.payload) + 0 ≡ len_code (length f.payload)
    zero_mask = omega arith

    code_of : (b : Bool) → bit_and (f.opcode + (if b then 128 else 0)) 0x0F ≡ f.opcode
    code_of true = low_four (f.opcode + 128) (omega arith) ∙ omega arith
    code_of false = low_four (f.opcode + 0) (omega arith) ∙ omega arith

    code : bit_and first 0x0F ≡ f.opcode
    code = code_of f.fin

    ends_of : (b : Bool) → not (bit_and (f.opcode + (if b then 128 else 0)) 0x80 == 0) ≡ b
    ends_of true = ground (arith, top_bit (f.opcode + 128) (omega arith))
    ends_of false = ground (arith, top_bit (f.opcode + 0) (omega arith))

    ends : not (bit_and first 0x80 == 0) ≡ f.fin
    ends = ends_of f.fin

    size :
        2 + length (len_tail (length f.payload)) + 0 + length f.payload
        ≡ suc (suc (length (len_tail (length f.payload) ++ f.payload)))
    size = omega (arith, length-append (len_tail (length f.payload)) f.payload)

-- The payloads of the fragments, one after the other.
pub joined : List Sent → Bytes
joined [] = []
joined (f ∷ fs) = (if is_data f.opcode then f.payload else []) ++ joined fs

-- The payloads of the pings.
pub pinged : List Sent → List Bytes
pinged [] = []
pinged (f ∷ fs) = (if f.opcode == 9 then f.payload ∷ [] else []) ++ pinged fs

-- The opcode of the first fragment that is no continuation.
pub kind : List Sent → Option ℕ
kind [] = none
kind (f ∷ fs) = if f.opcode == 1 || f.opcode == 2 then some f.opcode else kind fs

-- The progress behind the frames.
unfoldable pub ahead : Progress → List Sent → Progress
ahead p fs = record {
  message = p.message ++ joined fs;
  is_bin = if p.have_op then p.is_bin else elim (kind fs) [ none ↦ p.is_bin | some c ↦ c == 2 ];
  have_op = p.have_op || elim (kind fs) [ none ↦ false | some c ↦ true ];
  pongs = p.pongs ++ pinged fs;
  rx_bytes = p.rx_bytes + length (wires fs);
}

-- One frame in front of others.
one : Progress → Sent → Progress
one p f =
    let q = record p { rx_bytes = p.rx_bytes + length (wire f) } in
    if is_data f.opcode
    then add_data q f.opcode f.payload
    else if f.opcode == 9
    then record q { pongs = q.pongs ++ f.payload ∷ [] }
    else q

ahead-one : (p : Progress) (f : Sent) (fs : List Sent) → ahead (one p f) fs ≡ ahead p (f ∷ fs)
unfolding ahead one add_data joined pinged kind wires
ahead-one p f fs = ground (
  arith,
  append_assoc p.message f.payload (joined fs),
  append_assoc p.pongs (f.payload ∷ []) (pinged fs),
  length-append (wire f) (wires fs),
)

handle-Inner :
    (more : Progress → Bytes → Outcome read_plain) (p : Progress) (f : Sent) (s : Bytes)
    → Inner f
    → handle read_plain more (record p { rx_bytes = p.rx_bytes + length (wire f) }) (frame_of f) s
      ≡ more (one p f) s
unfolding handle one frame_of
handle-Inner more p f s k = ground arith

handle_last :
    (more : Progress → Bytes → Outcome read_plain) (p : Progress) (f : Sent) (s : Bytes)
    → is_data f.opcode ≡ true
    → f.fin ≡ true
    → handle read_plain more (record p { rx_bytes = p.rx_bytes + length (wire f) }) (frame_of f) s
      ≡ received (one p f) s
unfolding handle one frame_of
handle_last more p f s k e = ground arith

recv-Inner :
    (fuel : ℕ) (p : Progress) (f : Sent) (s : Bytes)
    → Sane f
    → Inner f
    → recv_message read_plain (suc fuel) p (wire f ++ s) ≡ recv_message read_plain fuel (one p f) s
unfolding recv_message round frame_of
recv-Inner fuel p f s h k =
    rw (read_frame-wire f s h, round)
      (handle-Inner (λ q t. recv_message read_plain fuel q t) p f s k)

recv_last :
    (fuel : ℕ) (p : Progress) (f : Sent) (s : Bytes)
    → Sane f
    → is_data f.opcode ≡ true
    → f.fin ≡ true
    → recv_message read_plain (suc fuel) p (wire f ++ s) ≡ received (one p f) s
unfolding recv_message round frame_of
recv_last fuel p f s h k e =
    rw (read_frame-wire f s h, round)
      (handle_last (λ q t. recv_message read_plain fuel q t) p f s k e)

ahead-none : (p : Progress) (f : Sent) → ahead p (f ∷ []) ≡ one p f
unfolding ahead one add_data joined pinged kind wires
ahead-none p f =
    ground
      (arith, append-nil f.payload, append-nil p.message, append-nil p.pongs, append-nil (wire f))

-- Frames below 2 ^ 64 bytes with opcodes below 16, fragments but the last and control frames other than close
-- before a last fragment: with fuel above the number of frames before the last, the message comes out whole,
-- the pings have been answered, and what follows the last fragment is left.
pub recv_message-wires :
    (fs : List Sent) (fuel : ℕ) (p : Progress) (last : Sent) (s : Bytes)
    → All Sane fs
    → All Inner fs
    → Sane last
    → is_data last.opcode ≡ true
    → last.fin ≡ true
    → length fs < fuel
    → recv_message read_plain fuel p (wires (fs ++ last ∷ []) ++ s)
      ≡ received (ahead p (fs ++ last ∷ [])) s
unfolding wires
recv_message-wires fs zero p last s hs hi h k e m = elim m [ ]
recv_message-wires [] (suc fuel) p last s hs hi h k e m =
    rw (ahead-none p last) (rw (append-nil (wire last)) (recv_last fuel p last s h k e))
recv_message-wires (f ∷ fs) (suc fuel) p last s hs hi h k e m =
    rw (sym (ahead-one p f (fs ++ last ∷ []))) (
      rw (append_assoc (wire f) (wires (fs ++ last ∷ [])) s) (
        recv-Inner fuel p f (wires (fs ++ last ∷ []) ++ s) hs.0 hi.0
        ∙ recv_message-wires fs fuel (one p f) last s hs.1 hi.1 h k e (omega arith)))
