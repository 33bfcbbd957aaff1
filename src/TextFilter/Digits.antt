-- ===== src/TextFilter/Digits.antt =====
-- Runs of digits in backend/internal/textfilter/textfilter.go: digitValue to digitRunHits. The two loops run
-- on fuel; `none` means that it ran out.
pub mod Total
use custom_service.Common.{
  ℕ, zero, suc, ◌+◌, ◌-◌, Bool, true, false, ◌&&◌, ◌||◌, not, ◌==◌, Option, none, some, List, [],
  ◌∷◌, ◌++◌, ltb, leb, if◌then◌else◌, Str, length, drop, take,
}
use custom_service.TextFilter.Runes.{Unicode, Category, contact, Hit, fold_rune, rune_at}
use custom_service.TextFilter.Mask.{slice}

-- Whether a rune is one of some runes.
unfoldable pub one_of : ℕ → Str → Bool
one_of r [] = false
one_of r (c ∷ cs) = r == c || one_of r cs

-- The cases of the switch, in turn: Chinese and circled numerals, by their code points.
unfoldable pub numeral : ℕ → Option ℕ
unfolding one_of
numeral r =
    if one_of r (38646 ∷ 12295 ∷ 9450 ∷ [])
    then some b'0'
    else if one_of r (19968 ∷ 22777 ∷ 24186 ∷ 9312 ∷ [])
    then some b'1'
    else if one_of r (20108 ∷ 36144 ∷ 9313 ∷ [])
    then some b'2'
    else if one_of r (19977 ∷ 21441 ∷ 9314 ∷ [])
    then some b'3'
    else if one_of r (22235 ∷ 32902 ∷ 9315 ∷ [])
    then some b'4'
    else if one_of r (20116 ∷ 20237 ∷ 9316 ∷ [])
    then some b'5'
    else if one_of r (20845 ∷ 38470 ∷ 9317 ∷ [])
    then some b'6'
    else if one_of r (19971 ∷ 26578 ∷ 9318 ∷ [])
    then some b'7'
    else if one_of r (20843 ∷ 25420 ∷ 9319 ∷ [])
    then some b'8'
    else if one_of r (20061 ∷ 29590 ∷ 9320 ∷ [])
    then some b'9'
    else none

unfoldable pub is_digit_separator : ℕ → Bool
unfolding one_of
is_digit_separator r = one_of r (
    b' ' ∷ b'-' ∷ b'_' ∷ b'.' ∷ 183 ∷ 12289 ∷ b',' ∷ 65292 ∷ b'/' ∷ b'|' ∷ 9 ∷ 8212 ∷ 65293 ∷ b'~'
    ∷ b'*' ∷ [])

unfoldable pub all_digits : ℕ → Str → Bool
all_digits zero rs = true
all_digits (suc n) [] = false
all_digits (suc n) (r ∷ rs) = leb b'0' r && leb r b'9' && all_digits n rs

-- The regular expression 1[3-9][0-9]{9} at the start of the digits, and anywhere in them.
unfoldable pub mobile_here : Str → Bool
unfolding all_digits
mobile_here (r ∷ s ∷ rs) = r == b'1' && leb b'3' s && leb s b'9' && all_digits 9 rs
mobile_here (r ∷ []) = false
mobile_here [] = false

unfoldable pub has_mobile : Str → Bool
unfolding mobile_here
has_mobile [] = false
has_mobile (r ∷ rs) = mobile_here (r ∷ rs) || has_mobile rs

-- What the inner loop leaves behind.
pub record Run : Type 0 where
  pub digits : Str
  pub stop : ℕ

module _ (U : Unicode) where
  unfoldable pub digit_value : ℕ → Option ℕ
  unfolding fold_rune numeral
  digit_value r = let c = fold_rune U r in if leb b'0' c && leb c b'9' then some c else numeral c

  unfoldable pub digit_at : Str → ℕ → Option ℕ
  unfolding rune_at digit_value
  digit_at text i = elim (rune_at text i) [ none ↦ none | some r ↦ digit_value r ]

  -- From an index past at most so many separators.
  unfoldable pub skip_separators : ℕ → Str → ℕ → ℕ
  unfolding rune_at is_digit_separator fold_rune
  skip_separators zero text k = k
  skip_separators (suc n) text k = elim (rune_at text k) [
    | none ↦ k
    | some r ↦
        let rest = skip_separators n text (suc k) in
        if is_digit_separator (fold_rune U r) then rest else k
  ]

  unfoldable pub digit_run : ℕ → Str → ℕ → Str → ℕ → Option Run
  unfolding digit_at skip_separators
  digit_run zero text j digits stop = none
  digit_run (suc fuel) text j digits stop = elim (digit_at text j) [
    | some d ↦ digit_run fuel text (suc j) (digits ++ d ∷ []) (suc j)
    | none ↦
        let k = skip_separators 2 text j in
        elim (digit_at text k) [
          | some d ↦ digit_run fuel text k digits stop
          | none ↦ some (record { digits = digits; stop = stop })
        ]
  ]

  -- The switch: whether a run that starts at an index of the link view is a contact. `hint` is the
  -- regular expression for the words before a short number.
  unfoldable pub is_contact : (Str → Bool) → Str → ℕ → Str → Bool
  unfolding has_mobile slice
  is_contact hint link start digits =
      let n = length digits in
      if leb 11 n && has_mobile digits
      then true
      else if leb 9 n
      then true
      else if leb 5 n
      then hint (slice link (start - 12) start)
      else false

  -- The loop goes on behind the run.
  unfoldable pub next_start : ℕ → Run → ℕ
  next_start i run = if run.stop == i then suc i else run.stop

  unfoldable pub add_run : (Str → Bool) → Str → ℕ → Run → List Hit → List Hit
  unfolding is_contact
  add_run hint link i run hits =
      if not (run.stop == i) && is_contact hint link i run.digits
      then record { category = contact; start = i; stop = run.stop } ∷ hits
      else hits

  unfoldable pub digit_run_hits : ℕ → (Str → Bool) → Str → Str → ℕ → Option (List Hit)
  unfolding digit_at digit_run next_start add_run
  digit_run_hits zero hint text link i = none
  digit_run_hits (suc fuel) hint text link i = elim (rune_at text i) [
    | none ↦ some []
    | some r ↦ elim (digit_value r) [
      | none ↦ digit_run_hits fuel hint text link (suc i)
      | some d ↦ elim (digit_run (suc (length text)) text i [] i) [
        | none ↦ none
        | some run ↦ elim (digit_run_hits fuel hint text link (next_start i run)) [
          | none ↦ none
          | some hits ↦ some (add_run hint link i run hits)
        ]
      ]
    ]
  ]
