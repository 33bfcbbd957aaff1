-- ===== src/TextFilter/Views/Compact.antt =====
-- The compact view, and where its runes stand in the text.
use custom_service.Common.{
  ℕ, zero, suc, ◌+◌, ◌≤◌, ◌<◌, ◌≡◌, refl, ap, arith, List, [], ◌∷◌, Str, length, Option-cases, inl,
  inr,
}
use custom_service.TextFilter.Runes.{Unicode, compact_rune}
use custom_service.TextFilter.Views.{compact_from, compact_idx_from, byte_index}

-- Indices from `lo` on, below n, each larger than the one before.
abbrev pub Increasing : ℕ → ℕ → List ℕ → Type 0
Increasing n lo [] = Unit
Increasing n lo (i ∷ is) = (lo ≤ i) × (i < n) × Increasing n (suc i) is

weaken : (n lo hi : ℕ) (is : List ℕ) → lo ≤ hi → Increasing n hi is → Increasing n lo is
weaken n lo hi [] le inc = tt
weaken n lo hi (i ∷ is) le (from, lt, inc) = (omega (arith, le, from), lt, inc)

pub compact_idx-Increasing :
    (U : Unicode) (n i : ℕ) (rs : Str)
    → i + length rs ≤ n
    → Increasing n i (compact_idx_from U i rs)
unfolding compact_idx_from
compact_idx-Increasing U n i [] le = tt
compact_idx-Increasing U n i (r ∷ rs) le =
    let ih = compact_idx-Increasing U n (suc i) rs (omega (arith, le)) in
    elim (Option-cases (compact_rune U r)) [
      | inl h ↦ rw (h, compact_idx_from) (weaken n i (suc i) _ (omega arith) ih)
      | inr (c, h) ↦ rw (h, compact_idx_from) (omega arith, omega (arith, le), ih)
    ]

pub length-compact_idx :
    (U : Unicode) (i : ℕ) (rs : Str)
    → length (compact_idx_from U i rs) ≡ length (compact_from U i rs)
unfolding compact_idx_from compact_from
length-compact_idx U i [] = refl
length-compact_idx U i (r ∷ rs) =
    let ih = length-compact_idx U (suc i) rs in
    elim (Option-cases (compact_rune U r)) [
      | inl h ↦ rw (h, compact_idx_from, compact_from) ih
      | inr (c, h) ↦ rw (h, compact_idx_from, compact_from) (ap suc ih)
    ]

index-from :
    (n lo b : ℕ) (is : List ℕ)
    → Increasing n lo is
    → b < length is
    → (lo ≤ byte_index is b) × (byte_index is b < n)
unfolding byte_index
index-from n lo b [] inc lt = absurd (ground (arith, lt))
index-from n lo zero (i ∷ is) (from, below, inc) lt = (from, below)
index-from n lo (suc b) (i ∷ is) (from, below, inc) lt =
    let (p, q) = index-from n (suc i) b is inc (omega (arith, lt)) in ground (arith, p, q, from)

-- A word of the compact view, from its first rune to its last, lies in the text.
pub index_order :
    (n lo a b : ℕ) (is : List ℕ)
    → Increasing n lo is
    → a ≤ b
    → b < length is
    → (byte_index is a ≤ byte_index is b) × (byte_index is b < n)
unfolding byte_index
index_order n lo a b [] inc le lt = absurd (ground (arith, lt))
index_order n lo zero zero (i ∷ is) (from, below, inc) le lt = (omega arith, below)
index_order n lo zero (suc b) (i ∷ is) (from, below, inc) le lt =
    let (p, q) = index-from n (suc i) b is inc (omega (arith, lt)) in ground (arith, p, q)
index_order n lo (suc a) zero (i ∷ is) inc le lt = absurd (ground (arith, le))
index_order n lo (suc a) (suc b) (i ∷ is) (from, below, inc) le lt =
    let (p, q) = index_order n (suc i) a b is inc (omega (arith, le)) (omega (arith, lt)) in
    ground (arith, p, q)
