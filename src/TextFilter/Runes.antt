-- ===== src/TextFilter/Runes.antt =====
-- The types of backend/internal/textfilter/textfilter.go and its views of single runes.
use custom_service.Common.{
  ℕ, ◌-◌, Bool, true, false, ◌&&◌, ◌||◌, ◌==◌, Option, none, some, [], ◌∷◌, ltb, leb, if◌then◌else◌,
  Str,
}

pub data Category : Type 0 where
  ad link porn gambling contact custom : Category

-- The default of the switch in categoryOrder is `custom`.
unfoldable pub category_order : Category → ℕ
category_order ad = 0
category_order link = 1
category_order porn = 2
category_order gambling = 3
category_order contact = 4
category_order custom = 5

pub data Mode : Type 0 where
  mask whole : Mode

-- A hit, from its first rune up to but not including `stop`.
pub record Hit : Type 0 where
  pub category : Category
  pub start : ℕ
  pub stop : ℕ

-- The functions of package unicode. `is_format` is unicode.Is(unicode.Cf, r).
pub record Unicode : Type 0 where
  pub to_lower : ℕ → ℕ
  pub is_letter : ℕ → Bool
  pub is_digit : ℕ → Bool
  pub is_format : ℕ → Bool

-- The ASCII form of a full-width character, and the full stops of other scripts as a dot.
unfoldable pub narrow : ℕ → ℕ
narrow r =
    if leb 65281 r && leb r 65374
    then r - 65248
    else if r == 12288
    then 32
    else if r == 12290 || r == 65377 || r == 8228 || r == 65106
    then 46
    else r

module _ (U : Unicode) where
  unfoldable pub fold_rune : ℕ → ℕ
  unfolding narrow
  fold_rune r = U.to_lower (narrow r)

  unfoldable pub compact_rune : ℕ → Option ℕ
  unfolding fold_rune
  compact_rune r = let c = fold_rune r in if U.is_letter c || U.is_digit c then some c else none

  unfoldable pub is_ascii_alnum : ℕ → Bool
  is_ascii_alnum r = ltb r 128 && (U.is_letter r || U.is_digit r)

  unfoldable pub is_ascii_letter : ℕ → Bool
  is_ascii_letter r = ltb r 128 && U.is_letter r

  -- NormalizeWord
  unfoldable pub normalize_word : Str → Str
  unfolding compact_rune
  normalize_word [] = []
  normalize_word (r ∷ rs) = elim (compact_rune r) [
    | none ↦ normalize_word rs
    | some c ↦ c ∷ normalize_word rs
  ]

unfoldable pub is_ascii_word : Str → Bool
is_ascii_word [] = true
is_ascii_word (r ∷ rs) = if leb 128 r then false else is_ascii_word rs

-- The rune at an index, as a slice of Go has it.
unfoldable pub rune_at : Str → ℕ → Option ℕ
rune_at [] i = none
rune_at (r ∷ rs) i = if i == 0 then some r else rune_at rs (i - 1)
