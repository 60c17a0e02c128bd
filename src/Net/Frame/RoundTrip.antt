-- ===== src/Net/Frame/RoundTrip.antt =====
-- A frame that the client sends, read by the rules that it reads by.
use Prim.Native.Nat.{bit_and}
use samryetha_tunnel.Base.{
  ℕ, suc, ◌+◌, ◌^◌, ◌<◌, ◌≡◌, refl, ap, ◌∙◌, true, not, some, [], ◌∷◌, ◌++◌, ◌==◌, length, arith,
  length-append, All, append_assoc, ltb, leb, Bool-cases, inl, inr,
}
use samryetha_tunnel.Base.Bits.{top_bit, set_top_bit}
use samryetha_tunnel.Base.Text.{Bytes, IsByte}
use samryetha_tunnel.Base64.{b64encode}
use samryetha_tunnel.Base64.Laws.{tbl-lt}
use samryetha_tunnel.Net.Socket.Laws.{read_plain}
use samryetha_tunnel.Net.Frame.Mask.{mask_payload, mask_payload_twice, length-mask_payload}
use samryetha_tunnel.Net.Frame.Send.{length_bytes, mask_of, send_frame}
use samryetha_tunnel.Net.Frame.Laws.{len_code, len_tail, read_frame_lem, low_four}
use samryetha_tunnel.Net.Frame.Receive.{read_frame}

length_bytes-eq : (len : ℕ) → length_bytes len ≡ (len_code len + 128) ∷ len_tail len
unfolding length_bytes len_code len_tail
length_bytes-eq len = elim (Bool-cases (ltb len 126)) [
  | inl short ↦ rw short (ground (arith, set_top_bit len (ground arith)))
  | inr long ↦ elim (Bool-cases (leb len 0xFFFF)) [ inl e ↦ rw (long, e) | inr e ↦ rw (long, e) ]
]

-- `b64encode` of four bytes begins with four characters of the table.
mask_of-shape :
    (a b c e : ℕ)
    → (length (mask_of (a ∷ b ∷ c ∷ e ∷ [])) ≡ 4) × All IsByte (mask_of (a ∷ b ∷ c ∷ e ∷ []))
unfolding mask_of b64encode
mask_of-shape a b c e = (refl, omega (arith, tbl-lt))

-- A frame that `sendFrame` writes, with an opcode below 16, a payload of bytes below 2 ^ 64 long and any four
-- bytes drawn for the mask, is read back by `recvMessage` with its opcode, as the end of its message, with its
-- payload and as many bytes as it has; what follows it is left.
pub read_frame-send_frame :
    (opcode a b c e : ℕ) (payload s : Bytes)
    → opcode < 16
    → All IsByte payload
    → length payload < 2 ^ 64
    → read_frame read_plain (send_frame opcode (a ∷ b ∷ c ∷ e ∷ []) payload ++ s)
      ≡ some (
        record {
          fin = true;
          opcode = opcode;
          payload = payload;
          size = length (send_frame opcode (a ∷ b ∷ c ∷ e ∷ []) payload);
        },
        s,
      )
unfolding send_frame
read_frame-send_frame opcode a b c e payload s ho hp hl =
    rw (set_top_bit opcode (omega arith), length_bytes-eq (length payload), split)
      (rw (sent_len, ends, code, back, size) at
        (read_frame_lem (opcode + 128) true mask body s (omega arith) shape.0
          (omega (arith, sent_len))))
  where
    mask : Bytes
    mask = mask_of (a ∷ b ∷ c ∷ e ∷ [])

    shape : (length mask ≡ 4) × All IsByte mask
    shape = mask_of-shape a b c e

    body : Bytes
    body = mask_payload mask payload

    sent_len : length body ≡ length payload
    sent_len = length-mask_payload mask payload

    tail : Bytes
    tail = len_tail (length payload)

    split : (tail ++ (mask ++ body)) ++ s ≡ tail ++ (mask ++ (body ++ s))
    split = append_assoc tail (mask ++ body) s ∙ ap (◌++◌ tail) (append_assoc mask body s)

    code : bit_and (opcode + 128) 0x0F ≡ opcode
    code = low_four (opcode + 128) (omega arith) ∙ omega arith

    ends : not (bit_and (opcode + 128) 0x80 == 0) ≡ true
    ends = ground (arith, top_bit (opcode + 128) (omega arith))

    back : mask_payload mask body ≡ payload
    back = mask_payload_twice mask payload shape.1 hp

    size :
        2 + length tail + length mask + length payload ≡ suc (suc (length (tail ++ (mask ++ body))))
    size = omega (arith, length-append tail (mask ++ body), length-append mask body, sent_len)
