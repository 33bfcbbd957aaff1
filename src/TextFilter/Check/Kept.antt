-- ===== src/TextFilter/Check/Kept.antt =====
-- Check against its description: the kept hits lie in the text, and the text is masked by them.
use custom_service.Common.{
  ℕ, suc, ◌+◌, ◌-◌, ◌≤◌, ◌<◌, ◌≡◌, ◌∙◌, refl, ap, sym, arith, Bool, true, false, List, [], ◌∷◌,
  ◌++◌, Str, length, if_both, if◌then◌else◌, is_empty, All,
}
use custom_service.TextFilter.Runes.{Hit, mask, link, contact}
use custom_service.TextFilter.Views.{Views, build_views, byte_index}
use custom_service.TextFilter.Views.Bytes.{byte_index-byte_len, length-link}
use custom_service.TextFilter.Views.Compact.{
  compact_idx-Increasing, length-compact_idx, index_order,
}
use custom_service.TextFilter.Automaton.{Found, scan}
use custom_service.TextFilter.Digits.Total.{digit_run_hits-AllFound}
use custom_service.TextFilter.Hosts.{allowed_host, host_of}
use custom_service.TextFilter.Mask.{slice, Span}
use custom_service.TextFilter.Mask.Redact.{redact, redact-cong, none-covered}
use custom_service.TextFilter.Mask.Merge.{Within, covered_by}
use custom_service.TextFilter.Mask.Sorted.{mask_hits-redact}
use custom_service.TextFilter.Check.{
  span_found, counts, keyword_hits, rune_span, after_rune, hit_at, url_hits, passes_domain,
  domain_hits, link_hits, contact_matches, run_hits, contact_hits, all_hits, uncovered, is_covered,
  kept_hits, result_of, check,
}
use custom_service.TextFilter.Compile.{Library, Config, Filter, compile}
use custom_service.TextFilter.Check.Within.{
  IsMatch, Regexes, Within-append, InOrder-Within, Good, scan_from-Good, keywords-Named,
}

module _ (L : Library) (text : Str) where
  v : Views
  v = build_views L.unicode text

  -- The place of a word.
  keyword-fits :
      (f : Found)
      → Good (length v.compact) f
      → ((span_found L v f).from < (span_found L v f).to) × ((span_found L v f).to ≤ length text)
  unfolding v build_views span_found
  keyword-fits f (ends, named) =
      let inc = compact_idx-Increasing L.unicode (length text) 0 text (omega arith) in
      let same = length-compact_idx L.unicode 0 text in
      let (le, lt) =
        index_order (length text) 0 (f.stop + 1 - f.pattern.length_of) f.stop _ inc
          (omega (arith, named)) (omega (arith, same, ends)) in
      (omega (arith, le), omega (arith, lt))

  keyword_hits-Within :
      (fs : List Found)
      → All (Good (length v.compact)) fs
      → Within (length text) (keyword_hits L v fs)
  unfolding keyword_hits
  keyword_hits-Within [] a = tt
  keyword_hits-Within (f ∷ fs) (g, a) =
      let (more, fits) = keyword-fits f g in
      if_both (Within (length text)) (counts L v f) (more, fits, keyword_hits-Within fs a)
        (keyword_hits-Within fs a)

  -- The place of a match.
  match-fits :
      (m : Span)
      → IsMatch v.link m
      → ((rune_span L v m).from < (rune_span L v m).to) × ((rune_span L v m).to ≤ length text)
  unfolding v build_views rune_span
  match-fits m (a, b, lt, le, from, to) =
      let link_len = length-link L.unicode text in
      let p : byte_index v.link_byte m.from ≡ 0 + a =
        rw from (byte_index-byte_len 0 a v.link (omega (arith, lt, le))) in
      let q : byte_index v.link_byte m.to ≡ 0 + b = rw to (byte_index-byte_len 0 b v.link le) in
      (omega (arith, p, q, lt), omega (arith, q, le, link_len))

  url_hits-Within :
      (ds : List Str) (ms : List Span)
      → All (IsMatch v.link) ms
      → Within (length text) (url_hits L ds v ms)
  unfolding url_hits hit_at
  url_hits-Within ds [] a = tt
  url_hits-Within ds (m ∷ ms) (g, a) =
      let (more, fits) = match-fits m g in
      let s = rune_span L v m in
      let here : Within (length text) (hit_at L link s ∷ url_hits L ds v ms) =
        (more, fits, url_hits-Within ds ms a) in
      if_both (Within (length text)) (allowed_host ds (host_of (slice v.link s.from s.to)))
        (url_hits-Within ds ms a) here

  domain_hits-Within :
      (ds : List Str) (hits : List Hit) (ms : List Span)
      → Within (length text) hits
      → All (IsMatch v.link) ms
      → Within (length text) (domain_hits L ds v hits ms)
  unfolding domain_hits hit_at
  domain_hits-Within ds hits [] w a = w
  domain_hits-Within ds hits (m ∷ ms) w (g, a) =
      let (more, fits) = match-fits m g in
      let s = rune_span L v m in
      domain_hits-Within ds
        (if passes_domain L ds v hits s then hits else hits ++ hit_at L link s ∷ []) ms
        (if_both (Within (length text)) (passes_domain L ds v hits s) w
          (Within-append (length text) hits (hit_at L link s ∷ []) w (more, fits, tt)))
        a

  contact_matches-Within :
      (f : ℕ → Bool) (ms : List Span)
      → All (IsMatch v.link) ms
      → Within (length text) (contact_matches L f v ms)
  unfolding contact_matches hit_at
  contact_matches-Within f [] a = tt
  contact_matches-Within f (m ∷ ms) (g, a) =
      let (more, fits) = match-fits m g in
      if_both (Within (length text)) (after_rune L f v.link (rune_span L v m).from)
        (contact_matches-Within f ms a) (more, fits, contact_matches-Within f ms a)

  run_hits-Within : Within (length text) (run_hits L v)
  unfolding run_hits v build_views
  run_hits-Within =
      let r =
        digit_run_hits-AllFound L.unicode (suc (length text)) L.contact_hint text v.link 0
          (omega arith) (omega arith) in
      rw r.done (InOrder-Within (length text) 0 r.found r.ordered)

  contact_hits-Within : Regexes L → Within (length text) (contact_hits L v)
  unfolding contact_hits
  contact_hits-Within law =
      let n = length text in
      Within-append n _ _ (contact_matches-Within _ _ (law.contacts v.link)) (
        Within-append n _ _ (contact_matches-Within _ _ (law.emails v.link))
          (Within-append n _ _ (contact_matches-Within _ _ (law.handles v.link)) run_hits-Within))

  link_hits-Within : (f : Filter) → Regexes L → Within (length text) (link_hits L f v)
  unfolding link_hits
  link_hits-Within f law =
      domain_hits-Within f.domains _ _ (url_hits-Within f.domains _ (law.urls v.link))
        (law.domains v.link)

  all_hits-Within : (cfg : Config) → Regexes L → Within (length text) (all_hits L (compile L cfg) v)
  unfolding all_hits scan
  all_hits-Within cfg law =
      let n = length text in
      let f = compile L cfg in
      let found =
        scan_from-Good f.keywords (length v.compact) 0 0 v.compact (keywords-Named L cfg)
          (omega arith) in
      Within-append n _ _ (keyword_hits-Within _ found) (
        Within-append n _ _
          (if_both (Within n) (f.cfg.has_category link) (link_hits-Within f law) tt)
          (if_both (Within n) (f.cfg.has_category contact) (contact_hits-Within law) tt))

  uncovered-Within :
      (ss : List Span) (hs : List Hit)
      → Within (length text) hs
      → Within (length text) (uncovered L ss hs)
  unfolding uncovered
  uncovered-Within ss [] w = tt
  uncovered-Within ss (h ∷ hs) (more, fits, w) =
      if_both (Within (length text)) (is_covered L h ss) (uncovered-Within ss hs w)
        (more, fits, uncovered-Within ss hs w)

  kept_hits-Within :
      (cfg : Config) → Regexes L → Within (length text) (kept_hits L (compile L cfg) v)
  unfolding kept_hits
  kept_hits-Within cfg law = uncovered-Within _ _ (all_hits-Within cfg law)

  result_of-redact :
      (hits : List Hit)
      → Within (length text) hits
      → (result_of L mask text hits).masked ≡ redact (covered_by hits) false 0 text
  unfolding result_of covered_by
  result_of-redact [] w = sym (
      redact-cong (covered_by []) (λ p. false) false 0 text (λ p le. refl)
      ∙ none-covered false 0 text)
  result_of-redact (h ∷ hs) w = mask_hits-redact text (h ∷ hs) w

compile-cfg : (L : Library) (cfg : Config) → (compile L cfg).cfg ≡ cfg
unfolding compile
compile-cfg L cfg = refl

check-result_of :
    (L : Library) (f : Filter) (text : Str)
    → f.cfg.enabled ≡ true
    → is_empty text ≡ false
    → check L f text ≡ result_of L f.cfg.mode text (kept_hits L f (build_views L.unicode text))
unfolding check
check-result_of L f text on there = simp (on, there) refl

-- A compiled filter that is enabled and masks, on a text that is not empty, and with the matches of
-- the regular expressions from rune to rune: the masked text is the text with every longest run of
-- runes covered by a kept hit replaced by one mask. The kept hits are the words, links and contacts
-- that are found, without those that lie in a word that is allowed; each is not empty and lies
-- within the text.
pub check-redact :
    (L : Library) (cfg : Config) (text : Str)
    → Regexes L
    → cfg.enabled ≡ true
    → cfg.mode ≡ mask
    → is_empty text ≡ false
    → ((check L (compile L cfg) text).masked
        ≡ redact
            (covered_by (kept_hits L (compile L cfg) (build_views L.unicode text)))
            false
            0
            text)
      × Within (length text) (kept_hits L (compile L cfg) (build_views L.unicode text))
unfolding v
check-redact L cfg text law on masks there =
    let w = kept_hits-Within L text cfg law in
    let hits = kept_hits L (compile L cfg) (build_views L.unicode text) in
    let same = compile-cfg L cfg in
    let checked = check-result_of L (compile L cfg) text (ap (λ c. c.enabled) same ∙ on) there in
    (
      ap (λ r. r.masked) checked
          ∙ ap (λ m. (result_of L m text hits).masked) (ap (λ c. c.mode) same ∙ masks)
          ∙ result_of-redact L text hits w,
      w,
    )
