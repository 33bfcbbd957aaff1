-- ===== src/TextFilter/Check.antt =====
-- Check of backend/internal/textfilter/textfilter.go.
pub mod Kept
pub mod Within
pub mod Words
use custom_service.Common.{
  ℕ, suc, ◌+◌, ◌-◌, Bool, true, false, ◌&&◌, ◌||◌, not, ◌==◌, Option, none, some, List, [], ◌∷◌,
  ◌++◌, ltb, leb, if◌then◌else◌, Str, is_empty, length,
}
use custom_service.TextFilter.Runes.{
  Unicode, Category, ad, link, porn, gambling, contact, custom, category_order, Mode, mask, whole,
  Hit, normalize_word, is_ascii_word, rune_at, is_ascii_alnum,
}
use custom_service.TextFilter.Views.{Views, build_views, byte_index, holds, ascii_boundary}
use custom_service.TextFilter.Automaton.{Automaton, Pattern, Found, build_automaton, scan}
use custom_service.TextFilter.Digits.{digit_run_hits}
use custom_service.TextFilter.Hosts.{host_of, allowed_host}
use custom_service.TextFilter.Mask.{Span, mask_text, slice, sort_hits, mask_hits}
use custom_service.TextFilter.Compile.{Library, Config, Filter}

pub record HitText : Type 0 where
  pub category : Category
  pub text : Str

pub record Result : Type 0 where
  pub filtered : Bool
  pub masked : Str
  pub categories : List Category
  pub hits : List HitText

module _ (L : Library) where
  -- What a word found in the compact view is in the text.
  unfoldable pub span_found : Views → Found → Span
  unfolding byte_index
  span_found v f =
      let start = f.stop + 1 - f.pattern.length_of in
      record { from = byte_index v.compact_idx start; to = byte_index v.compact_idx f.stop + 1 }

  unfoldable pub counts : Views → Found → Bool
  unfolding ascii_boundary
  counts v f =
      not f.pattern.ascii
      || ascii_boundary L.unicode v.compact (f.stop + 1 - f.pattern.length_of) f.stop

  unfoldable pub keyword_hits : Views → List Found → List Hit
  unfolding counts span_found
  keyword_hits v [] = []
  keyword_hits v (f ∷ fs) =
      let rest = keyword_hits v fs in
      let s = span_found v f in
      if counts v f
      then record { category = f.pattern.cat; start = s.from; stop = s.to } ∷ rest
      else rest

  unfoldable pub rune_span : Views → Span → Span
  unfolding byte_index
  rune_span v m = record { from = byte_index v.link_byte m.from; to = byte_index v.link_byte m.to }

  -- Whether a class of runes stands right before an index of the link view.
  unfoldable pub after_rune : (ℕ → Bool) → Str → ℕ → Bool
  unfolding rune_at holds
  after_rune f text s = ltb 0 s && holds f (rune_at text (s - 1))

  unfoldable pub hit_at : Category → Span → Hit
  hit_at cat s = record { category = cat; start = s.from; stop = s.to }

  unfoldable pub url_hits : List Str → Views → List Span → List Hit
  unfolding rune_span host_of allowed_host slice hit_at
  url_hits domains v [] = []
  url_hits domains v (m ∷ ms) =
      let rest = url_hits domains v ms in
      let s = rune_span v m in
      if allowed_host domains (host_of (slice v.link s.from s.to))
      then rest
      else hit_at link s ∷ rest

  unfoldable pub taken : List Hit → Span → Bool
  taken [] s = false
  taken (h ∷ hs) s = leb h.start s.from && leb s.to h.stop || taken hs s

  unfoldable pub is_name_rune : ℕ → Bool
  unfolding is_ascii_alnum
  is_name_rune r = is_ascii_alnum L.unicode r || r == b'@' || r == b'.' || r == b'-' || r == b'_'

  unfoldable pub passes_domain : List Str → Views → List Hit → Span → Bool
  unfolding taken after_rune is_name_rune host_of allowed_host slice
  passes_domain domains v hits s =
      taken hits s
      || after_rune is_name_rune v.link s.from
      || allowed_host domains (host_of (slice v.link s.from s.to))

  -- The second loop: `hits` are those so far.
  unfoldable pub domain_hits : List Str → Views → List Hit → List Span → List Hit
  unfolding rune_span passes_domain hit_at
  domain_hits domains v hits [] = hits
  domain_hits domains v hits (m ∷ ms) =
      let s = rune_span v m in
      domain_hits domains v
        (if passes_domain domains v hits s then hits else hits ++ hit_at link s ∷ []) ms

  unfoldable pub link_hits : Filter → Views → List Hit
  unfolding url_hits domain_hits
  link_hits f v =
      domain_hits f.domains v (url_hits f.domains v (L.find_urls v.link)) (L.find_domains v.link)

  -- The matches of a class of patterns, but for those right after a class of runes.
  unfoldable pub contact_matches : (ℕ → Bool) → Views → List Span → List Hit
  unfolding rune_span after_rune hit_at
  contact_matches f v [] = []
  contact_matches f v (m ∷ ms) =
      let rest = contact_matches f v ms in
      let s = rune_span v m in if after_rune f v.link s.from then rest else hit_at contact s ∷ rest

  unfoldable pub run_hits : Views → List Hit
  unfolding digit_run_hits
  run_hits v =
      elim (digit_run_hits L.unicode (suc (length v.orig)) L.contact_hint v.orig v.link 0) [
        | none ↦ []
        | some hits ↦ hits
      ]

  unfoldable pub contact_hits : Views → List Hit
  unfolding contact_matches run_hits is_ascii_alnum
  contact_hits v =
      contact_matches (is_ascii_alnum L.unicode) v (L.find_contacts v.link)
      ++ (contact_matches (λ r. false) v (L.find_emails v.link)
          ++ (contact_matches (λ r. is_ascii_alnum L.unicode r || r == b'.') v
                (L.find_handles v.link)
              ++ run_hits v))

  unfoldable pub all_hits : Filter → Views → List Hit
  unfolding keyword_hits scan link_hits contact_hits
  all_hits f v =
      keyword_hits v (scan f.keywords v.compact)
      ++ ((if f.cfg.has_category link then link_hits f v else [])
          ++ (if f.cfg.has_category contact then contact_hits v else []))

  unfoldable pub allow_spans : Views → List Found → List Span
  unfolding counts span_found
  allow_spans v [] = []
  allow_spans v (g ∷ gs) =
      let rest = allow_spans v gs in if counts v g then span_found v g ∷ rest else rest

  unfoldable pub is_covered : Hit → List Span → Bool
  is_covered h [] = false
  is_covered h (s ∷ ss) = leb s.from h.start && leb h.stop s.to || is_covered h ss

  unfoldable pub uncovered : List Span → List Hit → List Hit
  unfolding is_covered
  uncovered spans [] = []
  uncovered spans (h ∷ hs) =
      let rest = uncovered spans hs in if is_covered h spans then rest else h ∷ rest

  unfoldable pub kept_hits : Filter → Views → List Hit
  unfolding all_hits allow_spans uncovered scan
  kept_hits f v = uncovered (allow_spans v (scan f.allow v.compact)) (all_hits f v)

  unfoldable pub eq_category : Category → Category → Bool
  unfolding category_order
  eq_category a b = category_order a == category_order b

  unfoldable pub seen : Category → List Category → Bool
  unfolding eq_category
  seen c [] = false
  seen c (d ∷ ds) = eq_category c d || seen c ds

  unfoldable pub insert_category : Category → List Category → List Category
  unfolding category_order
  insert_category c [] = c ∷ []
  insert_category c (d ∷ ds) =
      let rest = insert_category c ds in
      if ltb (category_order d) (category_order c) then d ∷ rest else c ∷ d ∷ ds

  -- The categories of the hits, each once, in the order of categoryOrder.
  unfoldable pub categories_of : List Hit → List Category
  unfolding seen insert_category
  categories_of [] = []
  categories_of (h ∷ hs) =
      let rest = categories_of hs in
      if seen h.category rest then rest else insert_category h.category rest

  unfoldable pub hit_texts : Str → List Hit → List HitText
  unfolding slice
  hit_texts text [] = []
  hit_texts text (h ∷ hs) =
      record { category = h.category; text = slice text h.start h.stop } ∷ hit_texts text hs

  abbrev pub untouched : Str → Result
  untouched text = record { filtered = false; masked = text; categories = []; hits = [] }

  unfoldable pub result_of : Mode → Str → List Hit → Result
  unfolding categories_of hit_texts sort_hits mask_hits
  result_of mode text [] = untouched text
  result_of mode text (h ∷ hs) =
      let sorted = sort_hits (h ∷ hs) in
      record {
        filtered = true;
        masked = elim mode [ whole ↦ mask_text | mask ↦ mask_hits text sorted ];
        categories = categories_of sorted;
        hits = hit_texts text sorted;
      }

  unfoldable pub check : Filter → Str → Result
  unfolding build_views kept_hits result_of
  check f text =
      if not f.cfg.enabled || is_empty text
      then untouched text
      else result_of f.cfg.mode text (kept_hits f (build_views L.unicode text))
