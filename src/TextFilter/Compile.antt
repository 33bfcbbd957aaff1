-- ===== src/TextFilter/Compile.antt =====
-- Compile of backend/internal/textfilter/textfilter.go. The regular expressions of the file and the word
-- lists are parameters.
use custom_service.Common.{Bool, List, [], ◌∷◌, ◌++◌, if◌then◌else◌, Str, is_empty, length}
use custom_service.TextFilter.Runes.{
  Unicode, Category, ad, porn, gambling, custom, Mode, normalize_word, is_ascii_word,
}
use custom_service.TextFilter.Automaton.{Automaton, Pattern, build_automaton}
use custom_service.TextFilter.Mask.{Span}

-- What FindAllStringIndex answers: byte offsets in the link view. `contact_hint` is the test of the
-- words before a short number. The built-in lists are those of wordlists.go.
pub record Library : Type 0 where
  pub unicode : Unicode
  pub find_urls : Str → List Span
  pub find_domains : Str → List Span
  pub find_contacts : Str → List Span
  pub find_emails : Str → List Span
  pub find_handles : Str → List Span
  pub contact_hint : Str → Bool
  pub clean_domain : Str → Str
  pub builtin_ad : List Str
  pub builtin_porn : List Str
  pub builtin_gambling : List Str

pub record Config : Type 0 where
  pub enabled : Bool
  pub mode : Mode
  pub has_category : Category → Bool
  pub custom_words : List Str
  pub allow_words : List Str
  pub allow_domains : List Str

pub record Filter : Type 0 where
  pub cfg : Config
  pub keywords : Automaton
  pub allow : Automaton
  pub domains : List Str

-- A word in its normal form, with what the automaton knows of it.
pub record Entry : Type 0 where
  pub word : Str
  pub pattern : Pattern

unfoldable pub words_of : List Entry → List Str
words_of [] = []
words_of (e ∷ es) = e.word ∷ words_of es

unfoldable pub patterns_of : List Entry → List Pattern
patterns_of [] = []
patterns_of (e ∷ es) = e.pattern ∷ patterns_of es

unfoldable pub automaton_of : List Entry → Automaton
unfolding words_of patterns_of build_automaton
automaton_of es = build_automaton (words_of es) (patterns_of es)

module _ (L : Library) where
  -- A word whose normal form is empty is left out.
  unfoldable pub entries : Category → List Str → List Entry
  unfolding normalize_word is_ascii_word
  entries cat [] = []
  entries cat (w ∷ ws) =
      let n = normalize_word L.unicode w in
      let rest = entries cat ws in
      if is_empty n
      then rest
      else record {
        word = n;
        pattern = record { length_of = length n; cat = cat; ascii = is_ascii_word n };
      }
        ∷ rest

  unfoldable pub keyword_entries : Config → List Entry
  unfolding entries
  keyword_entries cfg =
      (if cfg.has_category ad then entries ad L.builtin_ad else [])
      ++ ((if cfg.has_category porn then entries porn L.builtin_porn else [])
          ++ ((if cfg.has_category gambling then entries gambling L.builtin_gambling else [])
              ++ entries custom cfg.custom_words))

  -- strings.Trim(strings.ToLower(strings.TrimSpace d), ".") is `clean_domain`.
  unfoldable pub clean_domains : List Str → List Str
  clean_domains [] = []
  clean_domains (d ∷ ds) =
      let rest = clean_domains ds in
      let c = L.clean_domain d in if is_empty c then rest else c ∷ rest

  unfoldable pub compile : Config → Filter
  unfolding keyword_entries automaton_of clean_domains
  compile cfg = record {
    cfg = cfg;
    keywords = automaton_of (keyword_entries cfg);
    allow = automaton_of (entries custom cfg.allow_words);
    domains = clean_domains cfg.allow_domains;
  }
