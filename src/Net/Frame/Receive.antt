-- ===== src/Net/Frame/Receive.antt =====
-- WebSocket::recvMessage, over any way to read exactly `n` bytes.
use Prim.Native.Nat.{bit_and}
use samryetha_tunnel.Base.{
  ℕ, zero, suc, ◌+◌, ◌*◌, ◌%◌, ◌^◌, Bool, true, not, ◌&&◌, ◌||◌, Option, none, some, List, [], ◌∷◌,
  ◌++◌, ◌==◌, if◌then◌else◌,
}
use samryetha_tunnel.Base.Text.{Bytes}
use samryetha_tunnel.Net.Frame.Mask.{nth, mask_payload}

-- `len = (len << 8) | e[i]` over the bytes.
unfoldable pub from_big_endian : ℕ → Bytes → ℕ
from_big_endian len [] = len
from_big_endian len (e ∷ es) = from_big_endian ((len * 2 ^ 8 + e) % 2 ^ 64) es

-- A frame as it was read; `size` is what it adds to `rxBytes_`.
pub record Frame : Type 0 where
  pub fin : Bool
  pub opcode : ℕ
  pub payload : Bytes
  pub size : ℕ

-- The variables of `recvMessage`, the payloads that it answered with a pong, and `rxBytes_`.
pub record Progress : Type 0 where
  pub message : Bytes
  pub is_bin : Bool
  pub have_op : Bool
  pub pongs : List Bytes
  pub rx_bytes : ℕ

-- The cases text, binary and continuation.
unfoldable pub add_data : Progress → ℕ → Bytes → Progress
add_data p opcode payload =
    let first = not p.have_op && not (opcode == 0) in
    record p {
      message = p.message ++ payload;
      is_bin = if first then opcode == 2 else p.is_bin;
      have_op = if first then true else p.have_op;
    }

module _ {S : Type 0} (read : ℕ → S → Option (Bytes × S)) where
  abbrev pub M : Type 0 → Type 0
  M A = S → Option (A × S)

  infixl 5 ◌>>=◌
  abbrev ◌>>=◌ : {A B : Type 0} → M A → (A → M B) → M B
  ◌>>=◌ m f s = elim (m s) [ none ↦ none | some (a, s') ↦ f a s' ]

  abbrev pure : {A : Type 0} → A → M A
  pure a s = some (a, s)

  -- The length, and the number of bytes behind the second one that held it.
  unfoldable pub read_length : ℕ → M (ℕ × ℕ)
  read_length len =
      if len == 126
      then (read 2 >>= λ e. pure (nth e 0 * 2 ^ 8 + nth e 1, 2))
      else if len == 127
      then (read 8 >>= λ e. pure (from_big_endian 0 e, 8))
      else pure (len, 0)

  -- `if (n && !readExact(p, n)) return false;`
  unfoldable pub read_some : ℕ → M Bytes
  read_some n = if n == 0 then pure [] else read n

  unfoldable pub read_mask : Bool → M Bytes
  read_mask masked = if masked then read 4 else pure (0 ∷ 0 ∷ 0 ∷ 0 ∷ [])

  unfoldable pub read_frame : M Frame
  read_frame = do
    hdr ← read 2
    let masked = not (bit_and (nth hdr 1) 0x80 == 0)
    lens ← read_length (bit_and (nth hdr 1) 0x7F)
    mask ← read_mask masked
    payload ← read_some lens.0
    pure (record {
      fin = not (bit_and (nth hdr 0) 0x80 == 0);
      opcode = bit_and (nth hdr 0) 0x0F;
      payload = if masked then mask_payload mask payload else payload;
      size = 2 + lens.1 + (if masked then 4 else 0) + lens.0;
    })

  -- How `recvMessage` ends: with a message, with `false`, by a close frame; or out of fuel.
  pub data Outcome : Type 0 where
    received : Progress → S → Outcome
    failed closed : Progress → Outcome
    stuck : Outcome

  -- The switch on the opcode, behind the count of the bytes.
  unfoldable pub handle : (Progress → S → Outcome) → Progress → Frame → S → Outcome
  handle more p f s =
      if f.opcode == 1 || (f.opcode == 2 || f.opcode == 0)
      then (let q = add_data p f.opcode f.payload in if f.fin then received q s else more q s)
      else if f.opcode == 8
      then closed p
      else if f.opcode == 9
      then more (record p { pongs = p.pongs ++ f.payload ∷ [] }) s
      else more p s

  unfoldable pub round : (Progress → S → Outcome) → Progress → S → Outcome
  round more p s = elim (read_frame s) [
    | none ↦ failed p
    | some (f, s') ↦ handle more (record p { rx_bytes = p.rx_bytes + f.size }) f s'
  ]

  -- `for (;;)` with fuel for the frames.
  unfoldable pub recv_message : ℕ → Progress → S → Outcome
  recv_message zero p s = stuck
  recv_message (suc fuel) p s = round (recv_message fuel) p s
