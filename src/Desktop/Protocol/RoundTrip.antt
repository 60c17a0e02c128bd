-- ===== src/Desktop/Protocol/RoundTrip.antt =====
-- What the `build` functions write is what `parseServerMessage` reads.
use mathlib.Core.Path.{subst}
use samryetha_tunnel.Base.{ℕ, ◌≡◌, sym, ap, ◌∙◌, false}
use samryetha_tunnel.Base.Text.{Bytes, codes, bytes_eq, bytes_eq_refl}
use samryetha_tunnel.Desktop.Qt.{Qt, QtLaws}
use samryetha_tunnel.Desktop.Protocol.{MsgType, ParsedMsg, no_message, Frame, text_at}

-- The stream that a frame is about, 0 if it is about none.
abbrev pub frame_stream : Frame → ℕ
frame_stream (Frame.register c t) = 0
frame_stream Frame.pong = 0
frame_stream (Frame.response_head s n h) = s
frame_stream (Frame.chunk s b) = s
frame_stream (Frame.end s) = s
frame_stream (Frame.abort s r) = s
frame_stream (Frame.mgmt r m p b) = 0

-- What the parser keeps of a frame that the client sends.
abbrev pub kept : Frame → ParsedMsg
kept (Frame.register c t) = record no_message { type = MsgType.register }
kept Frame.pong = record no_message { type = MsgType.pong }
kept (Frame.response_head s n h) = record no_message { type = MsgType.response_head }
kept (Frame.chunk s b) = record no_message { type = MsgType.server_chunk; stream_id = s; chunk = b }
kept (Frame.end s) = record no_message { type = MsgType.end; stream_id = s }
kept (Frame.abort s r) = record no_message { type = MsgType.abort; stream_id = s }
kept (Frame.mgmt r m p b) = no_message

-- The member `type` of a frame.
abbrev frame_type : Frame → Bytes
frame_type (Frame.register c t) = codes "register"
frame_type Frame.pong = codes "pong"
frame_type (Frame.response_head s n h) = codes "response_head"
frame_type (Frame.chunk s b) = codes "chunk"
frame_type (Frame.end s) = codes "end"
frame_type (Frame.abort s r) = codes "abort"
frame_type (Frame.mgmt r m p b) = codes "mgmt"

module _ (q : Qt) (laws : QtLaws q) where
  pub value-put_other :
      (k j : Bytes) (v : q.Value) (o : q.Object)
      → bytes_eq k j ≡ false
      → q.value (q.put k v o) j ≡ q.value o j
  value-put_other k j v o h =
      laws.value-put_ne k j v o (λ e. clash (subst (λ x. bytes_eq k x ≡ false) (sym e) h))
    where
      clash : bytes_eq k k ≡ false → ⊥
      clash e = cc (e, bytes_eq_refl k)

  pub text_put : (k s : Bytes) (o : q.Object) → text_at q (q.put k (q.of_text s) o) k ≡ s
  unfolding text_at
  text_put k s o = ap q.to_text (laws.value-put_self k (q.of_text s) o) ∙ laws.to_text-of_text s

  -- Other members do not count.
  pub text_skip :
      {t : Bytes} (v : q.Value) (o : q.Object) (k j : Bytes)
      → bytes_eq k j ≡ false
      → text_at q o j ≡ t
      → text_at q (q.put k v o) j ≡ t
  unfolding text_at
  text_skip v o k j h e = ap q.to_text (value-put_other k j v o h) ∙ e
