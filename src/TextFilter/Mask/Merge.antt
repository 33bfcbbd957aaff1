-- ===== src/TextFilter/Mask/Merge.antt =====
-- The loop that merges the sorted hits: the spans are separate and cover the same runes.
use custom_service.Common.{
  ℕ, suc, ◌≤◌, ◌<◌, ◌≡◌, refl, Bool, false, ◌&&◌, ◌||◌, List, [], ◌∷◌, arith, ltb, leb,
  if◌then◌else◌, elim_cases,
}
use custom_service.TextFilter.Runes.{Hit}
use custom_service.TextFilter.Mask.{Span, span_of, merge_from, merge_hits}
use custom_service.TextFilter.Mask.Redact.{in_span, in_spans, Separate}

-- Whether a hit covers the rune.
unfoldable pub covered_by : List Hit → ℕ → Bool
covered_by [] p = false
covered_by (h ∷ hs) p = leb h.start p && ltb p h.stop || covered_by hs p

-- Hits that are not empty and lie within a text of length n.
abbrev pub Within : ℕ → List Hit → Type 0
Within n [] = Unit
Within n (h ∷ hs) = (h.start < h.stop) × (h.stop ≤ n) × Within n hs

-- Every hit starts where the one before does, or later.
abbrev pub Ascending : ℕ → List Hit → Type 0
Ascending lo [] = Unit
Ascending lo (h ∷ hs) = (lo ≤ h.start) × Ascending h.start hs

Ascending-weaken : (lo hi : ℕ) (hs : List Hit) → lo ≤ hi → Ascending hi hs → Ascending lo hs
Ascending-weaken lo hi [] le asc = tt
Ascending-weaken lo hi (h ∷ hs) le (le', asc) = (omega (arith, le, le'), asc)

wide_more :
    (s : Span) (h : Hit) → s.from < s.to → s.from < (if ltb s.to h.stop then h.stop else s.to)
wide_more s h more = ground (arith, more)

merge_from-covers :
    (n : ℕ) (s : Span) (hs : List Hit) (p : ℕ)
    → s.from < s.to
    → Ascending s.from hs
    → Within n hs
    → in_spans (merge_from s hs) p ≡ in_span p s || covered_by hs p
unfolding merge_from in_spans in_span span_of covered_by
merge_from-covers n s [] p more asc within = refl
merge_from-covers n s (h ∷ hs) p more (le, asc) (some_there, fits, within) =
    elim_cases (λ (ss : List Span). in_spans ss p ≡ in_span p s || covered_by (h ∷ hs) p)
      (leb h.start s.to)
      (λ touches.
        let wide : Span = record s { to = if ltb s.to h.stop then h.stop else s.to } in
        let asc' = Ascending-weaken s.from h.start hs le asc in
        let ih = merge_from-covers n wide hs p (wide_more s h more) asc' within in
        ground (arith, ih, touches, le, more))
      (λ apart.
        let ih = merge_from-covers n (span_of h) hs p some_there asc within in ground (arith, ih))

wide_fits :
    (n : ℕ) (s : Span) (h : Hit)
    → s.to ≤ n
    → h.stop ≤ n
    → (if ltb s.to h.stop then h.stop else s.to) ≤ n
wide_fits n s h a b = ground (arith, a, b)

merge_from-Separate :
    (n lo : ℕ) (s : Span) (hs : List Hit)
    → lo ≤ s.from
    → s.from < s.to
    → s.to ≤ n
    → Ascending s.from hs
    → Within n hs
    → Separate n lo (merge_from s hs)
unfolding merge_from span_of
merge_from-Separate n lo s [] le more fits asc within = (le, more, fits, tt)
merge_from-Separate n lo s (h ∷ hs) le more fits (from, asc) (some_there, h_fits, within) =
    elim_cases (Separate n lo) (leb h.start s.to)
      (λ touches.
        merge_from-Separate n lo (record s { to = if ltb s.to h.stop then h.stop else s.to }) hs le
          (wide_more s h more) (wide_fits n s h fits h_fits)
          (Ascending-weaken s.from h.start hs from asc) within)
      (λ apart. (
        le,
        more,
        fits,
        merge_from-Separate n (suc s.to) (span_of h) hs (ground (arith, apart)) some_there h_fits
            asc within,
      ))

pub merge_hits-covers :
    (n : ℕ) (hs : List Hit) (p : ℕ)
    → Ascending 0 hs
    → Within n hs
    → in_spans (merge_hits hs) p ≡ covered_by hs p
unfolding merge_hits covered_by in_span span_of in_spans
merge_hits-covers n [] p asc within = refl
merge_hits-covers n (h ∷ hs) p (le, asc) (some_there, fits, within) =
    merge_from-covers n (span_of h) hs p some_there asc within

pub merge_hits-Separate :
    (n : ℕ) (hs : List Hit) → Ascending 0 hs → Within n hs → Separate n 0 (merge_hits hs)
unfolding merge_hits span_of
merge_hits-Separate n [] asc within = tt
merge_hits-Separate n (h ∷ hs) (le, asc) (some_there, fits, within) =
    merge_from-Separate n 0 (span_of h) hs le some_there fits asc within
