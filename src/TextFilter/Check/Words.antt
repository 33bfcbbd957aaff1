-- ===== src/TextFilter/Check/Words.antt =====
-- What the automaton of a compiled filter in backend/internal/textfilter/textfilter.go finds: the words of
-- the configuration and of the built-in lists, in their normal form.
use custom_service.Common.{
  ◌≡◌, refl, subst, ℕ, zero, suc, false, if◌then◌else◌, if_cases, some, List, [], ◌∷◌, Str, length,
  All, is_empty, inl, inr, ◌⊎◌,
}
use custom_service.TextFilter.Runes.{
  Category, ad, link, porn, gambling, contact, custom, normalize_word,
}
use custom_service.TextFilter.Automaton.{Pattern, Found, pattern_at, scan}
use custom_service.TextFilter.Automaton.Labels.{word_at, All-++}
use custom_service.TextFilter.Automaton.Sound.{Occurs, IsFound, scan-IsFound}
use custom_service.TextFilter.Compile.{
  Library, Config, Entry, words_of, patterns_of, automaton_of, entries, keyword_entries, compile,
}

abbrev pub Listed : Str → List Str → Type 0
Listed x [] = ⊥
Listed x (y ∷ ys) = (x ≡ y) ⊎ Listed x ys

-- The words that a configuration looks for under a category.
abbrev pub words_under : Library → Config → Category → List Str
words_under L cfg ad = if cfg.has_category ad then L.builtin_ad else []
words_under L cfg porn = if cfg.has_category porn then L.builtin_porn else []
words_under L cfg gambling = if cfg.has_category gambling then L.builtin_gambling else []
words_under L cfg custom = cfg.custom_words
words_under L cfg link = []
words_under L cfg contact = []

-- A pattern and a word that come from a word of the pattern's category.
abbrev pub IsSource : Library → Config → Pattern → Str → Type 0
IsSource L cfg p w =
    (x : Str) × Listed x (words_under L cfg p.cat)
    × (w ≡ normalize_word L.unicode x)
    × (is_empty w ≡ false)
    × (p.length_of ≡ length w)

-- The word of the pattern that is reported, in its normal form, stands where it is reported.
abbrev pub IsWordFound : Library → Config → Str → Found → Type 0
IsWordFound L cfg text f = (w : Str) × IsSource L cfg f.pattern w × Occurs w text f.stop

Listed-All : (P : Str → Type 0) (ws : List Str) → ((x : Str) → Listed x ws → P x) → All P ws
Listed-All P [] h = tt
Listed-All P (w ∷ ws) h = (h w (inl refl), Listed-All P ws (λ x l. h x (inr l)))

module _ (L : Library) (cfg : Config) where
  HasSource : Entry → Type 0
  HasSource e = IsSource L cfg e.pattern e.word

  entries-HasSource :
      (cat : Category) (ws : List Str)
      → All (λ x. Listed x (words_under L cfg cat)) ws
      → All HasSource (entries L cat ws)
  unfolding entries HasSource
  entries-HasSource cat [] h = tt
  entries-HasSource cat (w ∷ ws) (l, h) =
      let ih = entries-HasSource cat ws h in
      if_cases (All HasSource) (is_empty (normalize_word L.unicode w)) (λ e. ih)
        (λ there. ((w, l, refl, there, refl), ih))

  enabled-HasSource :
      (cat : Category) (ws : List Str)
      → words_under L cfg cat ≡ (if cfg.has_category cat then ws else [])
      → All HasSource (if cfg.has_category cat then entries L cat ws else [])
  enabled-HasSource cat ws e =
      if_cases (All HasSource) (cfg.has_category cat)
        (λ on.
          entries-HasSource cat ws
            (Listed-All (λ x. Listed x (words_under L cfg cat)) ws (λ x l. rw (e, on) l)))
        (λ off. tt)

  keyword_entries-HasSource : All HasSource (keyword_entries L cfg)
  unfolding keyword_entries
  keyword_entries-HasSource = All-++ HasSource _ _ (enabled-HasSource ad L.builtin_ad refl) (
      All-++ HasSource _ _ (enabled-HasSource porn L.builtin_porn refl) (
        All-++ HasSource _ _ (enabled-HasSource gambling L.builtin_gambling refl) (
          entries-HasSource custom cfg.custom_words
            (Listed-All (λ x. Listed x cfg.custom_words) cfg.custom_words (λ x l. l)))))

  entry_at :
      (es : List Entry) (k : ℕ) (p : Pattern) (w : Str)
      → All HasSource es
      → pattern_at (patterns_of es) k ≡ some p
      → word_at (words_of es) k ≡ some w
      → IsSource L cfg p w
  unfolding patterns_of words_of pattern_at HasSource
  entry_at [] k p w h a b = absurd (cc)
  entry_at (e ∷ es) zero p w (s, h) a b =
      let x : e.pattern ≡ p = cc in
      let y : e.word ≡ w = cc in
      subst (λ q. IsSource L cfg q w) x (subst (λ z. IsSource L cfg e.pattern z) y s)
  entry_at (e ∷ es) (suc k) p w (s, h) a b = entry_at es k p w h a b

  All-IsWordFound :
      (es : List Entry) (text : Str) (fs : List Found)
      → All HasSource es
      → All (IsFound (words_of es) (patterns_of es) text) fs
      → All (IsWordFound L cfg text) fs
  All-IsWordFound es text [] h a = tt
  All-IsWordFound es text (f ∷ fs) h ((k, w, p, q, o), a) =
      ((w, entry_at es k f.pattern w h p q, o), All-IsWordFound es text fs h a)

-- Whatever the keywords of a compiled filter find in a compact view comes from a word that the
-- configuration has for the category that is reported, custom or built in under an enabled category:
-- the normal form of the word is not empty, has the length that is reported, and stands there.
pub compile-IsWordFound :
    (L : Library) (cfg : Config) (text : Str)
    → All (IsWordFound L cfg text) (scan (compile L cfg).keywords text)
unfolding compile automaton_of
compile-IsWordFound L cfg text =
    let es = keyword_entries L cfg in
    All-IsWordFound L cfg es text _ (keyword_entries-HasSource L cfg)
      (scan-IsFound (words_of es) (patterns_of es) text)
