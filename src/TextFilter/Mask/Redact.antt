-- ===== src/TextFilter/Mask/Redact.antt =====
-- A description of masking without spans, rune by rune, and the loop over separate spans against it.
use custom_service.Common.{
  ℕ, zero, suc, ◌+◌, ◌-◌, ◌≤◌, ◌<◌, ◌≡◌, ◌∙◌, refl, ap, sym, Bool, true, false, ◌&&◌, ◌||◌, List,
  [], ◌∷◌, ◌++◌, arith, ltb, leb, length, take, drop, Str,
}
use custom_service.TextFilter.Mask.{Span, mask_text, slice, mask_from}

-- What becomes of a rune: whether it is covered, and the rune before.
unfoldable pub mark : Bool → Bool → ℕ → Str → Str
mark true true r rest = rest
mark true false r rest = mask_text ++ rest
mark false before r rest = r ∷ rest

-- Every longest run of covered runes is replaced by one mask; `before` tells whether the rune before
-- was covered.
unfoldable pub redact : (ℕ → Bool) → Bool → ℕ → Str → Str
unfolding mark
redact covered before i [] = []
redact covered before i (r ∷ rs) = mark (covered i) before r (redact covered (covered i) (suc i) rs)

unfoldable pub in_span : ℕ → Span → Bool
in_span p s = leb s.from p && ltb p s.to

unfoldable pub in_spans : List Span → ℕ → Bool
unfolding in_span
in_spans [] p = false
in_spans (s ∷ ss) p = in_span p s || in_spans ss p

-- Spans from `lo` on that are not empty, end within the text of length n and leave a gap between
-- them.
abbrev pub Separate : ℕ → ℕ → List Span → Type 0
Separate n lo [] = Unit
Separate n lo (s ∷ ss) = (lo ≤ s.from) × (s.from < s.to) × (s.to ≤ n) × Separate n (suc s.to) ss

drop-drop : (m n k : ℕ) (xs : Str) → k ≡ m + n → drop n (drop m xs) ≡ drop k xs
drop-drop zero n k xs e = let p : n ≡ k = omega (arith, e) in rw p refl
drop-drop (suc m) n zero xs e = absurd (ground (arith, e))
drop-drop (suc m) n (suc k) [] e = nothing n
  where
    nothing : (n : ℕ) → drop {A = ℕ} n [] ≡ []
    nothing zero = refl
    nothing (suc n) = refl
drop-drop (suc m) n (suc k) (x ∷ xs) e = drop-drop m n k xs (omega (arith, e))

length-drop : (n : ℕ) (xs : Str) → length (drop n xs) ≡ length xs - n
length-drop zero xs = omega arith
length-drop (suc n) [] = omega arith
length-drop (suc n) (x ∷ xs) = omega (arith, length-drop n xs)

-- Only the runes from here on count.
pub redact-cong :
    (c d : ℕ → Bool) (b : Bool) (i : ℕ) (xs : Str)
    → ((p : ℕ) → i ≤ p → c p ≡ d p)
    → redact c b i xs ≡ redact d b i xs
unfolding redact
redact-cong c d b i [] same = refl
redact-cong c d b i (x ∷ xs) same =
    rw (same i (omega arith))
      (ap (mark (d i) b x) (redact-cong c d (d i) (suc i) xs (λ p le. same p (omega (arith, le)))))

-- A gap of n runes, up to j.
redact-gap :
    (c : ℕ → Bool) (n i j : ℕ) (xs : Str)
    → j ≡ i + n
    → ((p : ℕ) → i ≤ p → p < j → c p ≡ false)
    → redact c false i xs ≡ take n xs ++ redact c false j (drop n xs)
unfolding redact
redact-gap c zero i j xs e gap = let p : j ≡ i = omega (arith, e) in rw p refl
redact-gap c (suc n) i j [] e gap = refl
redact-gap c (suc n) i j (x ∷ xs) e gap = rw (gap i (omega arith) (omega (arith, e))) (
    ap (λ r. x ∷ r)
      (redact-gap c n (suc i) j xs (omega (arith, e)) (λ p le. gap p (omega (arith, le)))))

-- A run that has begun.
redact-run :
    (c : ℕ → Bool) (n i j : ℕ) (xs : Str)
    → j ≡ i + n
    → ((p : ℕ) → i ≤ p → p < j → c p ≡ true)
    → redact c true i xs ≡ redact c true j (drop n xs)
unfolding redact
redact-run c zero i j xs e run = let p : j ≡ i = omega (arith, e) in rw p refl
redact-run c (suc n) i j [] e run = refl
redact-run c (suc n) i j (x ∷ xs) e run =
    rw (run i (omega arith) (omega (arith, e)))
      (redact-run c n (suc i) j xs (omega (arith, e)) (λ p le. run p (omega (arith, le))))

-- A run that begins.
redact-begin :
    (c : ℕ → Bool) (n i j : ℕ) (xs : Str)
    → j ≡ i + n
    → 0 < n
    → n ≤ length xs
    → ((p : ℕ) → i ≤ p → p < j → c p ≡ true)
    → redact c false i xs ≡ mask_text ++ redact c true j (drop n xs)
unfolding redact
redact-begin c zero i j xs e more fits run = absurd (ground (arith, more))
redact-begin c (suc n) i j [] e more fits run = absurd (ground (arith, fits))
redact-begin c (suc n) i j (x ∷ xs) e more fits run = rw (run i (omega arith) (omega (arith, e))) (
    ap (λ r. mask_text ++ r)
      (redact-run c n (suc i) j xs (omega (arith, e)) (λ p le. run p (omega (arith, le)))))

-- After the end of a run it does not matter that one was there.
redact-end :
    (c : ℕ → Bool) (i : ℕ) (xs : Str) → c i ≡ false → redact c true i xs ≡ redact c false i xs
unfolding redact
redact-end c i [] out = refl
redact-end c i (x ∷ xs) out = rw out refl

pub none-covered : (b : Bool) (i : ℕ) (xs : Str) → redact (λ p. false) b i xs ≡ xs
unfolding redact
none-covered b i [] = refl
none-covered b i (x ∷ xs) = ap (λ r. x ∷ r) (none-covered false (suc i) xs)

early : (n lo p : ℕ) (ss : List Span) → Separate n lo ss → p < lo → in_spans ss p ≡ false
unfolding in_spans in_span
early n lo p [] sep lt = refl
early n lo p (s ∷ ss) (gap, some_there, fits, sep) lt =
    ground (arith, early n (suc s.to) p ss sep (omega (arith, lt, gap, some_there)), lt, gap)

-- What the first of the spans says of a rune.
before_first :
    (s : Span) (ss : List Span) (p : ℕ) (n : ℕ)
    → Separate n (suc s.to) ss
    → s.from < s.to
    → p < s.from
    → in_spans (s ∷ ss) p ≡ false
unfolding in_spans in_span
before_first s ss p n sep more lt =
    ground (arith, early n (suc s.to) p ss sep (omega (arith, lt, more)), lt)

within_first :
    (s : Span) (ss : List Span) (p : ℕ) → s.from ≤ p → p < s.to → in_spans (s ∷ ss) p ≡ true
unfolding in_spans in_span
within_first s ss p le lt = ground (arith, le, lt)

after_first : (s : Span) (ss : List Span) (p : ℕ) → s.to ≤ p → in_spans (s ∷ ss) p ≡ in_spans ss p
unfolding in_spans in_span
after_first s ss p le = ground (arith, le)

module _ (text : Str) (s : Span) (ss : List Span) (some_there : s.from < s.to)
    (fits : s.to ≤ length text) (sep : Separate (length text) (suc s.to) ss) where
  -- From the end of the first span on.
  rest_of :
      redact (in_spans (s ∷ ss)) true s.to (drop s.to text)
      ≡ redact (in_spans ss) false s.to (drop s.to text)
  rest_of =
      redact-end (in_spans (s ∷ ss)) s.to (drop s.to text) (
        after_first s ss s.to (omega arith)
        ∙ early (length text) (suc s.to) s.to ss sep (omega arith))
      ∙ redact-cong (in_spans (s ∷ ss)) (in_spans ss) false s.to (drop s.to text) (after_first s ss)

  span_of_mask :
      redact (in_spans (s ∷ ss)) false s.from (drop s.from text)
      ≡ mask_text ++ redact (in_spans ss) false s.to (drop s.to text)
  span_of_mask =
      redact-begin (in_spans (s ∷ ss)) (s.to - s.from) s.from s.to (drop s.from text)
        (omega (arith, some_there)) (omega (arith, some_there))
        (omega (arith, length-drop s.from text, fits)) (within_first s ss)
      ∙ rw (drop-drop s.from (s.to - s.from) s.to text (omega (arith, some_there)))
          (ap (λ r. mask_text ++ r) rest_of)

  gap_before :
      (last : ℕ)
      → last ≤ s.from
      → redact (in_spans (s ∷ ss)) false last (drop last text)
        ≡ slice text last s.from ++ (mask_text ++ redact (in_spans ss) false s.to (drop s.to text))
  unfolding slice
  gap_before last le =
      redact-gap (in_spans (s ∷ ss)) (s.from - last) last s.from (drop last text)
        (omega (arith, le)) (λ p from lt. before_first s ss p (length text) sep some_there lt)
      ∙ rw (drop-drop last (s.from - last) s.from text (omega (arith, le)))
          (ap (λ r. take (s.from - last) (drop last text) ++ r) span_of_mask)

-- The loop does what the description says.
pub mask_from-redact :
    (text : Str) (last lo : ℕ) (ss : List Span)
    → last ≤ lo
    → Separate (length text) lo ss
    → mask_from text last ss ≡ redact (in_spans ss) false last (drop last text)
unfolding mask_from in_spans
mask_from-redact text last lo [] le sep = sym (
    redact-cong (in_spans []) (λ p. false) false last (drop last text) (λ p q. refl)
    ∙ none-covered false last (drop last text))
mask_from-redact text last lo (s ∷ ss) le (gap, some_there, fits, sep) =
    let ih = mask_from-redact text s.to (suc s.to) ss (omega arith) sep in
    ap (λ r. slice text last s.from ++ (mask_text ++ r)) ih
    ∙ sym (gap_before text s ss some_there fits sep last (omega (arith, le, gap)))
