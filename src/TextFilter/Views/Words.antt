-- ===== src/TextFilter/Views/Words.antt =====
-- NormalizeWord and the compact view of buildViews in backend/internal/textfilter/textfilter.go give a
-- word the same form.
use custom_service.Common.{
  some, Option, ◌||◌, if◌then◌else◌, none, ◌≤◌, ◌+◌, sym, arith, false, ◌≡◌, refl, ap, ◌∙◌, ℕ, suc,
  [], ◌∷◌, ◌++◌, Str, inl, inr, Option-cases,
}
use custom_service.TextFilter.Runes.{narrow, fold_rune, Unicode, compact_rune, normalize_word}
use custom_service.TextFilter.Views.{compact_from, build_views}

module _ (U : Unicode) where
  compact_from-normalize_word : (i : ℕ) (rs : Str) → compact_from U i rs ≡ normalize_word U rs
  unfolding compact_from normalize_word
  compact_from-normalize_word i [] = refl
  compact_from-normalize_word i (r ∷ rs) =
      let ih = compact_from-normalize_word (suc i) rs in
      elim (Option-cases (compact_rune U r)) [
        | inl e ↦ rw (e, compact_from, normalize_word) ih
        | inr (c, e) ↦ rw (e, compact_from, normalize_word) (ap (λ z. c ∷ z) ih)
      ]

  normalize_word-append :
      (a b : Str) → normalize_word U (a ++ b) ≡ normalize_word U a ++ normalize_word U b
  unfolding normalize_word
  normalize_word-append [] b = refl
  normalize_word-append (r ∷ a) b =
      let ih = normalize_word-append a b in
      elim (Option-cases (compact_rune U r)) [
        | inl e ↦ rw (e, normalize_word) ih
        | inr (c, e) ↦ rw (e, normalize_word) (ap (λ z. c ∷ z) ih)
      ]

-- A text that stands for a word: the word's visible ASCII characters may be full-width ones, and spaces
-- of both widths may stand in between.
pub data Disguises : Str → Str → Type 0 where
  done : Disguises [] []
  plain : (r : ℕ) {s w : Str} → Disguises s w → Disguises (r ∷ s) (r ∷ w)
  wide :
      (r : ℕ) {s w : Str} → 33 ≤ r → r ≤ 126 → Disguises s w → Disguises ((r + 65248) ∷ s) (r ∷ w)
  space : {s w : Str} → Disguises s w → Disguises (32 ∷ s) w
  wide_space : {s w : Str} → Disguises s w → Disguises (12288 ∷ s) w

-- The space is neither a letter nor a digit, and has no lower case that is.
pub record SpaceLaws (U : Unicode) : Type 0 where
  pub no_letter : U.is_letter (U.to_lower 32) ≡ false
  pub no_digit : U.is_digit (U.to_lower 32) ≡ false

narrow-wide : (r : ℕ) → 33 ≤ r → r ≤ 126 → narrow (r + 65248) ≡ r
unfolding narrow
narrow-wide r low high = ground arith

narrow-ascii : (r : ℕ) → r ≤ 126 → narrow r ≡ r
unfolding narrow
narrow-ascii r high = ground arith

module _ (U : Unicode) where
  kept_rune : ℕ → Option ℕ
  kept_rune c = if U.is_letter c || U.is_digit c then some c else none

  compact_rune-kept : (r q : ℕ) → narrow r ≡ q → compact_rune U r ≡ kept_rune (U.to_lower q)
  unfolding compact_rune fold_rune kept_rune
  compact_rune-kept r q e = ap (λ n. kept_rune (U.to_lower n)) e

  compact_rune-space : SpaceLaws U → (r : ℕ) → narrow r ≡ 32 → compact_rune U r ≡ none
  unfolding kept_rune
  compact_rune-space law r e = compact_rune-kept r 32 e ∙ rw (law.no_letter, law.no_digit) refl

  normalize_word-none :
      (r : ℕ) (s : Str) → compact_rune U r ≡ none → normalize_word U (r ∷ s) ≡ normalize_word U s
  unfolding normalize_word
  normalize_word-none r s e = rw (e, normalize_word) refl

  normalize_word-cons :
      (r q : ℕ) (s t : Str)
      → compact_rune U r ≡ compact_rune U q
      → normalize_word U s ≡ normalize_word U t
      → normalize_word U (r ∷ s) ≡ normalize_word U (q ∷ t)
  unfolding normalize_word
  normalize_word-cons r q s t e h = elim (Option-cases (compact_rune U q)) [
    | inl n ↦ rw (e, n, normalize_word) h
    | inr (c, n) ↦ rw (e, n, normalize_word) (ap (λ z. c ∷ z) h)
  ]

  normalize_word-Disguises :
      SpaceLaws U → {s w : Str} → Disguises s w → normalize_word U s ≡ normalize_word U w
  unfolding narrow
  normalize_word-Disguises law done = refl
  normalize_word-Disguises law (plain r {s} {w} d) =
      normalize_word-cons r r s w refl (normalize_word-Disguises law d)
  normalize_word-Disguises law (wide r {s} {w} low high d) =
      normalize_word-cons (r + 65248) r s w
        (compact_rune-kept (r + 65248) r (narrow-wide r low high)
          ∙ sym (compact_rune-kept r r (narrow-ascii r high)))
        (normalize_word-Disguises law d)
  normalize_word-Disguises law (space {s} d) =
      normalize_word-none 32 s (compact_rune-space law 32 refl) ∙ normalize_word-Disguises law d
  normalize_word-Disguises law (wide_space {s} d) =
      normalize_word-none 12288 s (compact_rune-space law 12288 refl)
      ∙ normalize_word-Disguises law d

-- Wherever a word stands in a text, with any of its visible ASCII characters in full width and with
-- spaces of either width in between: the word's own normal form stands in the compact view of the text,
-- between the normal forms of what stands before and behind. Package unicode takes the space for no
-- letter and no digit.
pub build_views-Disguises :
    (U : Unicode) (law : SpaceLaws U) (a s w b : Str)
    → Disguises s w
    → (build_views U (a ++ (s ++ b))).compact
      ≡ normalize_word U a ++ (normalize_word U w ++ normalize_word U b)
unfolding build_views
build_views-Disguises U law a s w b d =
    compact_from-normalize_word U 0 (a ++ (s ++ b))
    ∙ normalize_word-append U a (s ++ b)
    ∙ ap (λ z. normalize_word U a ++ z)
        (normalize_word-append U s b
          ∙ ap (λ z. z ++ normalize_word U b) (normalize_word-Disguises U law d))
