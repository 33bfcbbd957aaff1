-- ===== src/TextFilter/Mask.antt =====
-- The last part of Check in backend/internal/textfilter/textfilter.go: hits are sorted, merged where
-- they overlap or touch, and replaced.
pub mod Redact
pub mod Merge
pub mod Sorted
use custom_service.Common.{
  ℕ, ◌-◌, Bool, true, false, ◌&&◌, ◌||◌, ◌==◌, not, List, [], ◌∷◌, ◌++◌, ltb, leb, if◌then◌else◌,
  take, drop, Str,
}
use custom_service.TextFilter.Runes.{Hit}

-- A span of the text, as Go's [2]int.
pub record Span : Type 0 where
  pub from : ℕ
  pub to : ℕ

abbrev pub mask_text : Str
mask_text = b'*' ∷ b'*' ∷ []

-- text[a:b]
unfoldable pub slice : Str → ℕ → ℕ → Str
slice text a b = take (b - a) (drop a text)

-- The order of sort.Slice: by the start, and the longer one first.
unfoldable pub hit_before : Hit → Hit → Bool
hit_before h k = if h.start == k.start then ltb k.stop h.stop else ltb h.start k.start

unfoldable pub insert_hit : Hit → List Hit → List Hit
unfolding hit_before
insert_hit h [] = h ∷ []
insert_hit h (k ∷ ks) = if hit_before k h then k ∷ insert_hit h ks else h ∷ k ∷ ks

unfoldable pub sort_hits : List Hit → List Hit
unfolding insert_hit
sort_hits [] = []
sort_hits (h ∷ hs) = insert_hit h (sort_hits hs)

unfoldable pub span_of : Hit → Span
span_of h = record { from = h.start; to = h.stop }

-- The loop over the sorted hits, with the last span so far.
unfoldable pub merge_from : Span → List Hit → List Span
unfolding span_of
merge_from s [] = s ∷ []
merge_from s (h ∷ hs) = elim (leb h.start s.to) [
  | true ↦ merge_from (record s { to = if ltb s.to h.stop then h.stop else s.to }) hs
  | false ↦ s ∷ merge_from (span_of h) hs
]

unfoldable pub merge_hits : List Hit → List Span
unfolding merge_from span_of
merge_hits [] = []
merge_hits (h ∷ hs) = merge_from (span_of h) hs

-- The text from `last` on, each span replaced.
unfoldable pub mask_from : Str → ℕ → List Span → Str
unfolding slice
mask_from text last [] = drop last text
mask_from text last (s ∷ ss) = slice text last s.from ++ (mask_text ++ mask_from text s.to ss)

unfoldable pub mask_hits : Str → List Hit → Str
unfolding mask_from merge_hits
mask_hits text hits = mask_from text 0 (merge_hits hits)
