-- ===== src/Ws/Protocol/Ids.antt =====
-- ValidMessageID of backend/internal/ws/protocol.go; validConvID and safeConvForLog of
-- backend/internal/ws/hub_features.go; safeFrameID of backend/internal/ws/hub_hall.go.
pub mod Format
use custom_service.Common.{
  ℕ, Bool, true, false, ◌&&◌, ◌||◌, [], ◌∷◌, map, ltb, leb, ◌==◌, if◌then◌else◌, length, take, Str,
}

unfoldable pub in_range : ℕ → ℕ → ℕ → Bool
in_range lo hi b = leb lo b && leb b hi

-- The loop over the bytes of an ID: every byte is accepted by `p`.
unfoldable pub every_byte : (ℕ → Bool) → Str → Bool
every_byte p [] = true
every_byte p (b ∷ s) = if p b then every_byte p s else false

unfoldable pub message_id_byte : ℕ → Bool
unfolding in_range
message_id_byte b =
    in_range b'a' b'z' b || in_range b'A' b'Z' b || in_range b'0' b'9' b || b == b'-'

unfoldable pub valid_message_id : Str → Bool
unfolding every_byte message_id_byte
valid_message_id id =
    if length id == 0 || ltb 36 (length id) then false else every_byte message_id_byte id

unfoldable pub conv_id_byte : ℕ → Bool
unfolding in_range
conv_id_byte b = in_range b'0' b'9' b || in_range b'a' b'f' b || in_range b'A' b'F' b || b == b'-'

unfoldable pub valid_conv_id : Str → Bool
unfolding every_byte conv_id_byte
valid_conv_id id = if length id == 36 then every_byte conv_id_byte id else false

unfoldable pub mask_control : ℕ → ℕ
mask_control ch = if ltb ch 0x20 || ch == 0x7f then b'?' else ch

unfoldable pub safe_conv_for_log : Str → Str
unfolding valid_conv_id mask_control
safe_conv_for_log id =
    if valid_conv_id id
    then id
    else map mask_control (if ltb 40 (length id) then take 40 id else id)

unfoldable pub safe_frame_id : Str → Str
unfolding valid_message_id
safe_frame_id id = if valid_message_id id then id else []
