-- ===== src/TextFilter/Tests.antt =====
-- The theorems about the text filter at work on small texts.
use custom_service.TextFilter.Check.Words.{IsWordFound, compile-IsWordFound}
use custom_service.TextFilter.Runes.{normalize_word, Unicode, Hit, custom, mask}
use custom_service.TextFilter.Views.Words.{
  Disguises, done, plain, wide, space, wide_space, SpaceLaws, build_views-Disguises,
}
use custom_service.Common.{
  ◌++◌, ◌↔◌, ◌≢◌, str_eq, ◌+◌, ◌≡◌, refl, true, false, ◌&&◌, List, [], ◌∷◌, Str, codes, length,
  take, All, leb, is_empty, arith,
}
use custom_service.TextFilter.Automaton.{Pattern, scan, build_automaton}
use custom_service.TextFilter.Automaton.Sound.{IsFound, scan-IsFound}
use custom_service.TextFilter.Hosts.{host_of, allowed_host}
use custom_service.TextFilter.Hosts.Allowed.{UnderOne, allowed_host_iff}
use custom_service.TextFilter.Views.{build_views, link_bytes, byte_index}
use custom_service.TextFilter.Views.Bytes.{byte_len, byte_index-byte_len}
use custom_service.TextFilter.Digits.{digit_run_hits}
use custom_service.TextFilter.Digits.Total.{AllFound, digit_run_hits-AllFound}
use custom_service.TextFilter.Mask.{Span, mask_hits, sort_hits}
use custom_service.TextFilter.Mask.Redact.{redact}
use custom_service.TextFilter.Mask.Merge.{Within, covered_by}
use custom_service.TextFilter.Mask.Sorted.{mask_hits-redact}
use custom_service.TextFilter.Check.{check, kept_hits}
use custom_service.TextFilter.Compile.{Library, Config, compile}
use custom_service.TextFilter.Check.Within.{IsMatch, Regexes}
use custom_service.TextFilter.Check.Kept.{check-redact}

abbrev ascii : Unicode
ascii = record {
  to_lower = λ r. r;
  is_letter = λ r. leb b'a' r && leb r b'z';
  is_digit = λ r. leb b'0' r && leb r b'9';
  is_format = λ r. false;
}

-- A regular expression that matches the first rune.
abbrev first_rune : Str → List Span
first_rune [] = []
first_rune (r ∷ rs) = record { from = 0; to = byte_len (r ∷ []) } ∷ []

first_rune-IsMatch : (text : Str) → All (IsMatch text) (first_rune text)
unfolding byte_len
first_rune-IsMatch [] = tt
first_rune-IsMatch (r ∷ rs) = ((0, 1, omega arith, omega arith, refl, refl), tt)

abbrev small_library : Library
small_library = record {
  unicode = ascii;
  find_urls = λ text. [];
  find_domains = λ text. [];
  find_contacts = λ text. [];
  find_emails = first_rune;
  find_handles = λ text. [];
  contact_hint = λ text. false;
  clean_domain = λ d. d;
  builtin_ad = [];
  builtin_porn = [];
  builtin_gambling = [];
}

small-Regexes : Regexes small_library
small-Regexes = record {
  urls = λ text. tt;
  domains = λ text. tt;
  contacts = λ text. tt;
  emails = first_rune-IsMatch;
  handles = λ text. tt;
}

abbrev strict : Config
strict = record {
  enabled = true;
  mode = mask;
  has_category = λ c. true;
  custom_words = codes "bad" ∷ [];
  allow_words = [];
  allow_domains = [];
}

abbrev bad_text : Str
bad_text = codes "so b a d, 13800138000!"

check-redact_example :
    ((check small_library (compile small_library strict) bad_text).masked
      ≡ redact
          (covered_by
            (kept_hits small_library (compile small_library strict) (build_views ascii bad_text)))
          false
          0
          bad_text)
    × Within
        (length bad_text)
        (kept_hits small_library (compile small_library strict) (build_views ascii bad_text))
unfolding is_empty
check-redact_example = check-redact small_library strict bad_text small-Regexes refl refl refl

abbrev two_hits : List Hit
two_hits =
    record { category = custom; start = 3; stop = 5 }
    ∷ record { category = custom; start = 1; stop = 3 }
    ∷ []

mask_hits-redact_example :
    mask_hits (codes "abcdefg") (sort_hits two_hits)
    ≡ redact (covered_by two_hits) false 0 (codes "abcdefg")
mask_hits-redact_example = mask_hits-redact (codes "abcdefg") two_hits (omega arith)

masked_once : mask_hits (codes "abcdefg") (sort_hits two_hits) ≡ codes "a**fg"
unfolding mask_hits sort_hits
masked_once = refl

-- The word is found, since the spaces and the dash within it do not count; the first rune is matched by
-- the parameter.
found_word :
    (check small_library (compile small_library strict) (codes "- b-a d!")).masked ≡ codes "** **!"
unfolding check compile build_views is_empty byte_len
found_word = refl

digit_run_hits-AllFound_example :
    AllFound 11 0
      (digit_run_hits ascii 12 (λ s. false) (codes "13800138000") (codes "13800138000") 0)
digit_run_hits-AllFound_example =
    digit_run_hits-AllFound ascii 12 (λ s. false) (codes "13800138000") (codes "13800138000") 0
      (omega arith) (omega arith)

byte_index-byte_len_example :
    byte_index (link_bytes 0 (28857 ∷ 97 ∷ [])) (byte_len (take 1 (28857 ∷ 97 ∷ []))) ≡ 0 + 1
byte_index-byte_len_example = byte_index-byte_len 0 1 (28857 ∷ 97 ∷ []) (omega arith)

allowed_host_iff_example :
    (allowed_host (codes "a.cn" ∷ []) (codes "x.a.cn") ≡ true)
    ↔ (codes "x.a.cn" ≢ []) × UnderOne (codes "x.a.cn") (codes "a.cn" ∷ [])
allowed_host_iff_example = allowed_host_iff (codes "a.cn" ∷ []) (codes "x.a.cn")

not_below : allowed_host (codes "a.cn" ∷ []) (host_of (codes "https://me@ba.cn:80/x")) ≡ false
unfolding allowed_host host_of is_empty str_eq
not_below = refl

abbrev two_words : List Str
two_words = codes "ab" ∷ codes "b" ∷ []

abbrev two_patterns : List Pattern
two_patterns =
    record { length_of = 2; cat = custom; ascii = false }
    ∷ record { length_of = 1; cat = custom; ascii = false }
    ∷ []

scan-IsFound_example :
    All
      (IsFound two_words two_patterns (codes "xab"))
      (scan (build_automaton two_words two_patterns) (codes "xab"))
scan-IsFound_example = scan-IsFound two_words two_patterns (codes "xab")

both_found : length (scan (build_automaton two_words two_patterns) (codes "xab")) ≡ 2
unfolding scan build_automaton
both_found = refl

ascii-SpaceLaws : SpaceLaws ascii
ascii-SpaceLaws = record { no_letter = refl; no_digit = refl }

-- "b a d", with a full-width a and two spaces.
wide_bad : Disguises (98 ∷ 32 ∷ 65345 ∷ 12288 ∷ 100 ∷ []) (codes "bad")
wide_bad = plain 98 (space (wide 97 (omega arith) (omega arith) (wide_space (plain 100 done))))

build_views-Disguises_example :
    (build_views ascii (codes "so " ++ ((98 ∷ 32 ∷ 65345 ∷ 12288 ∷ 100 ∷ []) ++ codes "!"))).compact
    ≡ normalize_word ascii (codes "so ")
      ++ (normalize_word ascii (codes "bad") ++ normalize_word ascii (codes "!"))
build_views-Disguises_example =
    build_views-Disguises ascii ascii-SpaceLaws (codes "so ") (98 ∷ 32 ∷ 65345 ∷ 12288 ∷ 100 ∷ [])
      (codes "bad") (codes "!") wide_bad

compile-IsWordFound_example :
    All
      (IsWordFound small_library strict (codes "sobad"))
      (scan (compile small_library strict).keywords (codes "sobad"))
compile-IsWordFound_example = compile-IsWordFound small_library strict (codes "sobad")

one_found : length (scan (compile small_library strict).keywords (codes "sobad")) ≡ 1
unfolding scan compile build_automaton is_empty
one_found = refl
