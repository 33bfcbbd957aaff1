-- ===== src/TextFilter/Mask/Sorted.antt =====
-- Sorting the hits, and the whole of masking against its description.
use custom_service.Common.{
  ℕ, ◌≤◌, ◌<◌, ◌≡◌, ◌∙◌, refl, false, List, [], ◌∷◌, arith, if_cases, Str, length,
}
use custom_service.TextFilter.Runes.{Hit}
use custom_service.TextFilter.Mask.{hit_before, insert_hit, sort_hits, merge_hits, mask_hits}
use custom_service.TextFilter.Mask.Redact.{redact, redact-cong, in_spans, mask_from-redact}
use custom_service.TextFilter.Mask.Merge.{
  covered_by, Within, Ascending, merge_hits-covers, merge_hits-Separate,
}

insert_hit-covers :
    (h : Hit) (hs : List Hit) (p : ℕ) → covered_by (insert_hit h hs) p ≡ covered_by (h ∷ hs) p
unfolding insert_hit covered_by
insert_hit-covers h [] p = refl
insert_hit-covers h (k ∷ ks) p = ground (arith, insert_hit-covers h ks p)

sort_hits-covers : (hs : List Hit) (p : ℕ) → covered_by (sort_hits hs) p ≡ covered_by hs p
unfolding sort_hits covered_by
sort_hits-covers [] p = refl
sort_hits-covers (h ∷ hs) p =
    let ih = sort_hits-covers hs p in
    let one = insert_hit-covers h (sort_hits hs) p in ground (arith, ih, one)

insert_hit-Within :
    (n : ℕ) (h : Hit) (hs : List Hit)
    → h.start < h.stop
    → h.stop ≤ n
    → Within n hs
    → Within n (insert_hit h hs)
unfolding insert_hit
insert_hit-Within n h [] more fits within = (more, fits, tt)
insert_hit-Within n h (k ∷ ks) more fits (k_more, k_fits, within) =
    if_cases (Within n) (hit_before k h)
      (λ later. (k_more, k_fits, insert_hit-Within n h ks more fits within))
      (λ here. (more, fits, (k_more, k_fits, within)))

sort_hits-Within : (n : ℕ) (hs : List Hit) → Within n hs → Within n (sort_hits hs)
unfolding sort_hits
sort_hits-Within n [] within = tt
sort_hits-Within n (h ∷ hs) (more, fits, within) =
    insert_hit-Within n h (sort_hits hs) more fits (sort_hits-Within n hs within)

insert_hit-Ascending :
    (lo : ℕ) (h : Hit) (hs : List Hit)
    → lo ≤ h.start
    → Ascending lo hs
    → Ascending lo (insert_hit h hs)
unfolding insert_hit hit_before
insert_hit-Ascending lo h [] le asc = (le, tt)
insert_hit-Ascending lo h (k ∷ ks) le (k_le, asc) =
    if_cases (Ascending lo) (hit_before k h)
      (λ later. (k_le, insert_hit-Ascending k.start h ks (ground (arith, later)) asc))
      (λ here. (le, (ground (arith, here), asc)))

sort_hits-Ascending : (hs : List Hit) → Ascending 0 (sort_hits hs)
unfolding sort_hits
sort_hits-Ascending [] = tt
sort_hits-Ascending (h ∷ hs) =
    insert_hit-Ascending 0 h (sort_hits hs) (omega arith) (sort_hits-Ascending hs)

-- For hits that are not empty and lie within the text, sorting, merging and replacing them does what
-- a description rune by rune says: every longest run of runes that some hit covers becomes one
-- mask, and every other rune stays as it is, in its place. The order of the hits does not matter.
pub mask_hits-redact :
    (text : Str) (hits : List Hit)
    → Within (length text) hits
    → mask_hits text (sort_hits hits) ≡ redact (covered_by hits) false 0 text
unfolding mask_hits
mask_hits-redact text hits within =
    let sorted = sort_hits hits in
    let asc = sort_hits-Ascending hits in
    let ins = sort_hits-Within (length text) hits within in
    mask_from-redact text 0 0 (merge_hits sorted) (omega arith)
      (merge_hits-Separate (length text) sorted asc ins)
    ∙ redact-cong (in_spans (merge_hits sorted)) (covered_by hits) false 0 text
        (λ p le. merge_hits-covers (length text) sorted p asc ins ∙ sort_hits-covers hits p)
