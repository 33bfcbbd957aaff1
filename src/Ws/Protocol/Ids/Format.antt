-- ===== src/Ws/Protocol/Ids/Format.antt =====
-- What the checks of Ws/Protocol/Ids accept, against a description by classes of bytes.
use custom_service.Common.{
  ℕ, ◌≤◌, ◌≡◌, refl, ◌≢◌, ◌↔◌, ◌⊎◌, inl, inr, Bool, true, false, [], ◌∷◌, map, arith, Bool-cases,
  length, take, All, length-take-le, Str, if◌then◌else◌, ltb,
}
use custom_service.Ws.Protocol.Ids.{
  every_byte, message_id_byte, valid_message_id, conv_id_byte, valid_conv_id, mask_control,
  safe_conv_for_log,
}

abbrev pub IsBetween : ℕ → ℕ → ℕ → Type 0
IsBetween lo hi b = (lo ≤ b) × (b ≤ hi)

abbrev pub IsMessageIdByte : ℕ → Type 0
IsMessageIdByte b =
    IsBetween b'a' b'z' b ⊎ IsBetween b'A' b'Z' b ⊎ IsBetween b'0' b'9' b ⊎ (b ≡ b'-')

abbrev pub IsConvIdByte : ℕ → Type 0
IsConvIdByte b = IsBetween b'0' b'9' b ⊎ IsBetween b'a' b'f' b ⊎ IsBetween b'A' b'F' b ⊎ (b ≡ b'-')

message_id_byte_iff : (b : ℕ) → (message_id_byte b ≡ true) ↔ IsMessageIdByte b
unfolding message_id_byte
message_id_byte_iff b = (λ h. ground arith, λ h. ground arith)

conv_id_byte_iff : (b : ℕ) → (conv_id_byte b ≡ true) ↔ IsConvIdByte b
unfolding conv_id_byte
conv_id_byte_iff b = (λ h. ground arith, λ h. ground arith)

pub every_byte→All :
    (p : ℕ → Bool) (P : ℕ → Type 0) (s : Str)
    → ((b : ℕ) → p b ≡ true → P b)
    → every_byte p s ≡ true
    → All P s
unfolding every_byte
every_byte→All p P [] f h = tt
every_byte→All p P (b ∷ s) f h = elim (Bool-cases (p b)) [
  | inl e ↦ (f b e, every_byte→All p P s f (rw e at h))
  | inr e ↦ let h' : false ≡ true = rw e at h in cc
]

pub All→every_byte :
    (p : ℕ → Bool) (P : ℕ → Type 0) (s : Str)
    → ((b : ℕ) → P b → p b ≡ true)
    → All P s
    → every_byte p s ≡ true
unfolding every_byte
All→every_byte p P [] f h = refl
All→every_byte p P (b ∷ s) f h = rw (f b h.0) (All→every_byte p P s f h.1)

-- A message ID is accepted exactly when it has 1 to 36 bytes, each of them an ASCII letter, a digit
-- or a dash.
pub valid_message_id_iff :
    (id : Str)
    → (valid_message_id id ≡ true) ↔ ((1 ≤ length id) × (length id ≤ 36) × All IsMessageIdByte id)
unfolding valid_message_id
valid_message_id_iff id = (
  λ h. (
    ground arith,
    ground arith,
    every_byte→All _ _ id (λ b. (message_id_byte_iff b).0) (ground arith),
  ),
  λ h.
      let e = All→every_byte _ _ id (λ b. (message_id_byte_iff b).1) h.2 in
      ground (arith, h.0, h.1),
)

-- A conversation ID is accepted exactly when it has 36 bytes, each of them a hexadecimal digit or a
-- dash.
pub valid_conv_id_iff :
    (id : Str) → (valid_conv_id id ≡ true) ↔ ((length id ≡ 36) × All IsConvIdByte id)
unfolding valid_conv_id
valid_conv_id_iff id = (
  λ h. (ground arith, every_byte→All _ _ id (λ b. (conv_id_byte_iff b).0) (ground arith)),
  λ h. let e = All→every_byte _ _ id (λ b. (conv_id_byte_iff b).1) h.1 in ground (arith, h.0),
)

abbrev pub IsLoggable : ℕ → Type 0
IsLoggable b = (0x20 ≤ b) × (b ≢ 0x7f)

mask_control-IsLoggable : (b : ℕ) → IsLoggable (mask_control b)
unfolding mask_control
mask_control-IsLoggable b = (ground arith, ground arith)

mask-All : (s : Str) → All IsLoggable (map mask_control s)
mask-All [] = tt
mask-All (b ∷ s) = (mask_control-IsLoggable b, mask-All s)

conv_id-All : (s : Str) → All IsConvIdByte s → All IsLoggable s
conv_id-All [] h = tt
conv_id-All (b ∷ s) h = ((ground (arith, h.0), ground (arith, h.0)), conv_id-All s h.1)

length-mask : (s : Str) → length (map mask_control s) ≡ length s
length-mask [] = refl
length-mask (b ∷ s) = omega (arith, length-mask s)

abbrev cut : Str → Str
cut id = if ltb 40 (length id) then take 40 id else id

length-cut : (id : Str) → length (cut id) ≤ 40
length-cut id = ground (arith, length-take-le 40 id)

-- What a conversation parameter leaves in the log: no control byte and at most 40 bytes, whatever
-- the client sent; and a valid ID is logged as it is.
pub safe_conv_for_log_IsSafe :
    (id : Str)
    → All IsLoggable (safe_conv_for_log id)
      × (length (safe_conv_for_log id) ≤ 40)
      × ((safe_conv_for_log id ≡ id) ⊎ (valid_conv_id id ≡ false))
unfolding safe_conv_for_log
safe_conv_for_log_IsSafe id = elim (Bool-cases (valid_conv_id id)) [
  | inl e ↦
      let (len, bytes) = (valid_conv_id_iff id).0 e in
      rw e (conv_id-All id bytes, omega (arith, len), inl refl)
  | inr e ↦ rw e (mask-All (cut id), omega (arith, length-mask (cut id), length-cut id), inr refl)
]
