-- ===== src/TextFilter/Check/Within.antt =====
-- Every hit that Check works with is not empty and lies within the text.
use custom_service.Common.{
  ℕ, zero, suc, ◌+◌, ◌≤◌, ◌<◌, ◌≡◌, arith, Bool, false, List, [], ◌∷◌, ◌++◌, Str, length, take,
  some, Option-cases, if_cases, if_both, inl, inr, if◌then◌else◌, is_empty, All,
}
use custom_service.TextFilter.Runes.{Category, Hit, ad, porn, gambling, custom, normalize_word}
use custom_service.TextFilter.Views.Bytes.{byte_len}
use custom_service.TextFilter.Automaton.{
  Automaton, Pattern, Found, pattern_at, report, advance, node_at, scan_from,
}
use custom_service.TextFilter.Digits.Total.{InOrder}
use custom_service.TextFilter.Mask.{Span}
use custom_service.TextFilter.Mask.Merge.{Within}
use custom_service.TextFilter.Compile.{
  Library, Config, Entry, patterns_of, automaton_of, entries, keyword_entries, compile,
}

-- A match of a regular expression in the link view: not empty, from the first byte of a rune to the
-- end of a rune.
abbrev pub IsMatch : Str → Span → Type 0
IsMatch text m =
    (a : ℕ) × (b : ℕ) × (a < b)
    × (b ≤ length text)
    × (m.from ≡ byte_len (take a text))
    × (m.to ≡ byte_len (take b text))

-- What package regexp promises of FindAllStringIndex for patterns that do not match the empty text.
pub record Regexes (L : Library) : Type 0 where
  pub urls : (text : Str) → All (IsMatch text) (L.find_urls text)
  pub domains : (text : Str) → All (IsMatch text) (L.find_domains text)
  pub contacts : (text : Str) → All (IsMatch text) (L.find_contacts text)
  pub emails : (text : Str) → All (IsMatch text) (L.find_emails text)
  pub handles : (text : Str) → All (IsMatch text) (L.find_handles text)

pub Within-append : (n : ℕ) (hs ks : List Hit) → Within n hs → Within n ks → Within n (hs ++ ks)
Within-append n [] ks a b = b
Within-append n (h ∷ hs) ks (more, fits, a) b = (more, fits, Within-append n hs ks a b)

pub InOrder-Within : (n lo : ℕ) (hs : List Hit) → InOrder n lo hs → Within n hs
InOrder-Within n lo [] ord = tt
InOrder-Within n lo (h ∷ hs) (from, more, fits, ord) = (more, fits, InOrder-Within n h.stop hs ord)

-- A word that was found: it is not empty, and ends in the compact view.
abbrev pub Good : ℕ → Found → Type 0
Good n f = (f.stop < n) × (1 ≤ f.pattern.length_of)

abbrev pub Named : Pattern → Type 0
Named p = 1 ≤ p.length_of

pattern_at-Named :
    (ps : List Pattern) (i : ℕ) (p : Pattern) → All Named ps → pattern_at ps i ≡ some p → Named p
unfolding pattern_at
pattern_at-Named [] i p a h = absurd (cc)
pattern_at-Named (q ∷ ps) zero p (named, a) h = let same : q ≡ p = cc in rw (← same) named
pattern_at-Named (q ∷ ps) (suc i) p (named, a) h = pattern_at-Named ps i p a (ground (arith, h))

report-Good :
    (n i : ℕ) (pats : List Pattern) (ps : List ℕ)
    → All Named pats
    → i < n
    → All (Good n) (report pats i ps)
unfolding report
report-Good n i pats [] named lt = tt
report-Good n i pats (p ∷ ps) named lt = elim (Option-cases (pattern_at pats p)) [
  | inl h ↦ rw (h, report) (report-Good n i pats ps named lt)
  | inr (q, h) ↦
      rw (h, report) ((lt, pattern_at-Named pats p q named h), report-Good n i pats ps named lt)
]

Good-append :
    (n : ℕ) (fs gs : List Found) → All (Good n) fs → All (Good n) gs → All (Good n) (fs ++ gs)
Good-append n [] gs a b = b
Good-append n (f ∷ fs) gs (g, a) b = (g, Good-append n fs gs a b)

pub scan_from-Good :
    (a : Automaton) (n cur i : ℕ) (rs : Str)
    → All Named a.pats
    → i + length rs ≤ n
    → All (Good n) (scan_from a cur i rs)
unfolding scan_from
scan_from-Good a n cur i [] named le = tt
scan_from-Good a n cur i (r ∷ rs) named le =
    Good-append n (report a.pats i (node_at a.nodes (advance a.nodes cur r)).out) _
      (report-Good n i a.pats _ named (omega (arith, le)))
      (scan_from-Good a n (advance a.nodes cur r) (suc i) rs named (omega (arith, le)))

patterns-append :
    (es ds : List Entry)
    → All (λ (e : Entry). Named e.pattern) es
    → All (λ (e : Entry). Named e.pattern) ds
    → All (λ (e : Entry). Named e.pattern) (es ++ ds)
patterns-append [] ds a b = b
patterns-append (e ∷ es) ds (p, a) b = (p, patterns-append es ds a b)

patterns_of-Named :
    (es : List Entry) → All (λ (e : Entry). Named e.pattern) es → All Named (patterns_of es)
unfolding patterns_of
patterns_of-Named [] a = tt
patterns_of-Named (e ∷ es) (p, a) = (p, patterns_of-Named es a)

long : (s : Str) → is_empty s ≡ false → 1 ≤ length s
unfolding is_empty
long [] h = absurd (cc)
long (r ∷ s) h = omega arith

module _ (L : Library) where
  entries-Named :
      (cat : Category) (ws : List Str) → All (λ (e : Entry). Named e.pattern) (entries L cat ws)
  unfolding entries
  entries-Named cat [] = tt
  entries-Named cat (w ∷ ws) =
      if_cases (All (λ (e : Entry). Named e.pattern)) (is_empty (normalize_word L.unicode w))
        (λ none_left. entries-Named cat ws)
        (λ some_there. (long (normalize_word L.unicode w) some_there, entries-Named cat ws))

  list-Named :
      (b : Bool) (cat : Category) (ws : List Str)
      → All (λ (e : Entry). Named e.pattern) (if b then entries L cat ws else [])
  list-Named b cat ws = if_both (All (λ (e : Entry). Named e.pattern)) b (entries-Named cat ws) tt

  pub keywords-Named : (cfg : Config) → All Named (compile L cfg).keywords.pats
  unfolding compile automaton_of keyword_entries
  keywords-Named cfg = patterns_of-Named (keyword_entries L cfg) (
      patterns-append _ _ (list-Named (cfg.has_category ad) ad L.builtin_ad) (
        patterns-append _ _ (list-Named (cfg.has_category porn) porn L.builtin_porn) (
          patterns-append _ _ (list-Named (cfg.has_category gambling) gambling L.builtin_gambling)
            (entries-Named custom cfg.custom_words))))
