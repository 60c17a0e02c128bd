-- ===== src/Net/Handshake/Answer.antt =====
-- What the server's answer makes of the connection.
use samryetha_tunnel.Base.{Bool, false, not, ◌&&◌, [], ◌∷◌, ◌++◌}
use samryetha_tunnel.Base.Text.{Bytes}
use samryetha_tunnel.Net.Url.{Url}
use samryetha_tunnel.Net.Handshake.{is_whole_head}

-- Behind `before`, the head ends with the last byte of `h`, and not before.
unfoldable pub is_one_head : Bytes → Bytes → Bool
is_one_head before [] = false
is_one_head before (c ∷ []) = is_whole_head (before ++ c ∷ [])
is_one_head before (c ∷ d ∷ h) =
    not (is_whole_head (before ++ c ∷ [])) && is_one_head (before ++ c ∷ []) (d ∷ h)
