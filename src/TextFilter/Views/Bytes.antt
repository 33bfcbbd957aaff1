-- ===== src/TextFilter/Views/Bytes.antt =====
-- The way back from the bytes of the link view to its runes.
use custom_service.Common.{
  ℕ, zero, suc, ◌+◌, ◌-◌, ◌≤◌, ◌≡◌, ◌∙◌, refl, ap, arith, List, [], ◌∷◌, ◌++◌, Str, length, take,
}
use custom_service.TextFilter.Runes.{Unicode}
use custom_service.TextFilter.Views.{
  rune_len, zeros, link_bytes, byte_index, link_runes, dot_rune, dots, build_views,
}

-- The number of bytes of a text.
unfoldable pub byte_len : Str → ℕ
unfolding rune_len
byte_len [] = 0
byte_len (r ∷ rs) = rune_len r + byte_len rs

rune_len-positive : (r : ℕ) → 1 ≤ rune_len r
unfolding rune_len
rune_len-positive r = ground arith

zeros-length : (n : ℕ) → length (zeros n) ≡ n
unfolding zeros
zeros-length zero = refl
zeros-length (suc n) = omega (arith, zeros-length n)

index-append : (xs ys : List ℕ) (k : ℕ) → byte_index (xs ++ ys) (length xs + k) ≡ byte_index ys k
unfolding byte_index
index-append [] ys k = let p : 0 + k ≡ k = omega arith in rw p refl
index-append (x ∷ xs) ys k = ground (arith, index-append xs ys k)

first_byte : (i : ℕ) (rs : Str) → byte_index (link_bytes i rs) 0 ≡ i
unfolding link_bytes byte_index
first_byte i [] = refl
first_byte i (r ∷ rs) = refl

-- The byte at which a rune of the link view begins, or the view ends, leads back to the index of the
-- rune, or to the number of runes.
pub byte_index-byte_len :
    (i k : ℕ) (link : Str)
    → k ≤ length link
    → byte_index (link_bytes i link) (byte_len (take k link)) ≡ i + k
unfolding link_bytes byte_len
byte_index-byte_len i zero link le = first_byte i link ∙ omega arith
byte_index-byte_len i (suc k) [] le = absurd (ground (arith, le))
byte_index-byte_len i (suc k) (r ∷ rs) le =
    let at : rune_len r + byte_len (take k rs)
        ≡ length (i ∷ zeros (rune_len r - 1)) + byte_len (take k rs) =
      omega (arith, zeros-length (rune_len r - 1), rune_len-positive r) in
    rw at (
      index-append (i ∷ zeros (rune_len r - 1)) (link_bytes (suc i) rs) (byte_len (take k rs))
      ∙ byte_index-byte_len (suc i) k rs (omega (arith, le))
      ∙ omega arith)

length-dots : (U : Unicode) (left rs : Str) → length (dots U left rs) ≡ length rs
unfolding dots
length-dots U left [] = refl
length-dots U left (r ∷ rs) = ap suc (length-dots U (dot_rune U left r rs ∷ left) rs)

length-link_runes : (U : Unicode) (rs : Str) → length (link_runes U rs) ≡ length rs
unfolding link_runes
length-link_runes U [] = refl
length-link_runes U (r ∷ rs) = ap suc (length-link_runes U rs)

-- The link view is as long as the text.
pub length-link : (U : Unicode) (text : Str) → length (build_views U text).link ≡ length text
unfolding build_views
length-link U text = length-dots U [] (link_runes U text) ∙ length-link_runes U text
