-- ===== src/TextFilter/Views.antt =====
-- buildViews, runeSpan and asciiBoundary of backend/internal/textfilter/textfilter.go: the two views of
-- a text in which it is searched.
pub mod Compact
pub mod Words
pub mod Bytes
use custom_service.Common.{
  zero, ℕ, suc, ◌+◌, ◌-◌, Bool, true, false, ◌&&◌, ◌||◌, not, ◌==◌, Option, none, some, List, [],
  ◌∷◌, ◌++◌, ltb, leb, if◌then◌else◌, Str, length, drop,
}
use custom_service.TextFilter.Runes.{
  Unicode, fold_rune, compact_rune, is_ascii_alnum, is_ascii_letter, rune_at,
}

-- `compact_idx` holds for each rune of the compact view where it stands in the text.
pub record Views : Type 0 where
  pub orig : Str
  pub compact : Str
  pub compact_idx : List ℕ
  pub link : Str
  pub link_byte : List ℕ

-- The number of bytes of a rune in a Go string.
unfoldable pub rune_len : ℕ → ℕ
rune_len r =
    if ltb r 128
    then 1
    else if ltb r 2048
    then 2
    else if leb 55296 r && leb r 57343
    then 3
    else if ltb r 65536
    then 3
    else if ltb r 1114112
    then 4
    else 3

unfoldable pub zeros : ℕ → List ℕ
zeros zero = []
zeros (suc n) = 0 ∷ zeros n

-- linkByte from the rune with index i on: the index at the first byte of each rune and at the end, and
-- 0 elsewhere.
unfoldable pub link_bytes : ℕ → Str → List ℕ
unfolding rune_len zeros
link_bytes i [] = i ∷ []
link_bytes i (r ∷ rs) = (i ∷ zeros (rune_len r - 1)) ++ link_bytes (suc i) rs

unfoldable pub byte_index : List ℕ → ℕ → ℕ
byte_index [] b = 0
byte_index (i ∷ is) b = if b == 0 then i else byte_index is (b - 1)

-- The nearest rune that is no space, to the left of an index and from one on.
unfoldable pub before_spaces : Str → Option ℕ
before_spaces [] = none
before_spaces (r ∷ rs) = if r == 32 then before_spaces rs else some r

unfoldable pub holds : (ℕ → Bool) → Option ℕ → Bool
holds f none = false
holds f (some r) = f r

module _ (U : Unicode) where
  unfoldable pub compact_from : ℕ → Str → Str
  unfolding compact_rune
  compact_from i [] = []
  compact_from i (r ∷ rs) = elim (compact_rune U r) [
    | none ↦ compact_from (suc i) rs
    | some c ↦ c ∷ compact_from (suc i) rs
  ]

  unfoldable pub compact_idx_from : ℕ → Str → List ℕ
  unfolding compact_rune
  compact_idx_from i [] = []
  compact_idx_from i (r ∷ rs) = elim (compact_rune U r) [
    | none ↦ compact_idx_from (suc i) rs
    | some c ↦ i ∷ compact_idx_from (suc i) rs
  ]

  unfoldable pub link_rune : ℕ → ℕ
  unfolding fold_rune
  link_rune r = if U.is_format r then 32 else fold_rune U r

  unfoldable pub link_runes : Str → Str
  unfolding link_rune
  link_runes [] = []
  link_runes (r ∷ rs) = link_rune r ∷ link_runes rs

  -- The character 点 between a letter or digit and a letter, with spaces or without, is a dot. `left`
  -- holds what stands before, the nearest first, with the dots that were put there.
  unfoldable pub dot_rune : Str → ℕ → Str → ℕ
  unfolding before_spaces holds is_ascii_alnum is_ascii_letter
  dot_rune left r right =
      if r == 28857
        && holds (is_ascii_alnum U) (before_spaces left)
        && holds (is_ascii_letter U) (before_spaces right)
      then 46
      else r

  unfoldable pub dots : Str → Str → Str
  unfolding dot_rune
  dots left [] = []
  dots left (r ∷ rs) = let d = dot_rune left r rs in d ∷ dots (d ∷ left) rs

  unfoldable pub build_views : Str → Views
  unfolding compact_from compact_idx_from link_runes dots link_bytes
  build_views orig =
      let link = dots [] (link_runes orig) in
      record {
        orig = orig;
        compact = compact_from 0 orig;
        compact_idx = compact_idx_from 0 orig;
        link = link;
        link_byte = link_bytes 0 link;
      }

  -- Whether the rune at an index is an ASCII letter or digit.
  unfoldable pub alnum_at : Str → ℕ → Bool
  unfolding rune_at holds is_ascii_alnum
  alnum_at text i = holds (is_ascii_alnum U) (rune_at text i)

  unfoldable pub ascii_boundary : Str → ℕ → ℕ → Bool
  unfolding alnum_at
  ascii_boundary text start stop =
      not (ltb 0 start && alnum_at text (start - 1))
      && not (ltb (stop + 1) (length text) && alnum_at text (stop + 1))
