-- ===== src/TextFilter/Hosts/Allowed.antt =====
-- What allowedHost of backend/internal/textfilter/textfilter.go accepts, without its tests.
use custom_service.Common.{
  ◌≡◌, refl, ap, sym, ◌∙◌, ℕ, zero, ◌+◌, ◌-◌, suc, Bool, true, false, ◌&&◌, ◌||◌, List, [], ◌∷◌,
  ◌++◌, leb, Str, str_eq, str_eq_iff, is_empty, length, length-append, take, drop, drop-append,
  arith, ◌↔◌, ◌⊎◌, inl, inr, ◌≢◌,
}
use custom_service.TextFilter.Hosts.{has_suffix, under_domain, any_domain, allowed_host}

-- The host is the domain, or ends in a dot and the domain.
unfoldable pub IsUnder : Str → Str → Type 0
IsUnder host d = (host ≡ d) ⊎ ((p : Str) × (host ≡ p ++ b'.' ∷ d))

-- The host is under one of the domains.
abbrev pub UnderOne : Str → List Str → Type 0
UnderOne host [] = ⊥
UnderOne host (d ∷ ds) = IsUnder host d ⊎ UnderOne host ds

take-drop : (n : ℕ) (s : Str) → take n s ++ drop n s ≡ s
take-drop zero s = refl
take-drop (suc n) [] = refl
take-drop (suc n) (r ∷ s) = rw (take-drop n s) refl

false≢true : false ≢ true
false≢true h = ground arith

and_true : (a b : Bool) → a && b ≡ true → (a ≡ true) × (b ≡ true)
and_true true b h = (refl, h)
and_true false b h = ground arith

has_suffix→ : (s p : Str) → has_suffix s p ≡ true → (q : Str) × (s ≡ q ++ p)
unfolding has_suffix
has_suffix→ s p h =
    let n = length s - length p in
    let e = (str_eq_iff (drop n s) p).0 (and_true (leb (length p) (length s)) _ h).1 in
    (take n s, sym (ap (λ z. take n s ++ z) (sym e) ∙ take-drop n s))

suffix_length : (a b : ℕ) → a + b - b ≡ a
suffix_length a b = omega arith

leb_sum : (a b : ℕ) → leb b (a + b) ≡ true
leb_sum a b = ground arith

has_suffix-append : (q p : Str) → has_suffix (q ++ p) p ≡ true
unfolding has_suffix
has_suffix-append q p =
    rw
      (
        length-append q p,
        suffix_length (length q) (length p),
        drop-append q p,
        leb_sum (length q) (length p),
        (str_eq_iff p p).1 refl,
      )
      refl

or_iff : (a b : Bool) {P Q : Type 0} → (a ≡ true) ↔ P → (b ≡ true) ↔ Q → (a || b ≡ true) ↔ P ⊎ Q
or_iff true b p q = (λ h. inl (p.0 refl), λ h. refl)
or_iff false b {P} {Q} p q = (λ h. inr (q.0 h), go)
  where
    go : P ⊎ Q → b ≡ true
    go (inl x) = elim (false≢true (p.1 x)) [ ]
    go (inr y) = q.1 y

has_suffix_iff : (s p : Str) → (has_suffix s p ≡ true) ↔ ((q : Str) × (s ≡ q ++ p))
has_suffix_iff s p = (has_suffix→ s p, λ (q, e). rw e (has_suffix-append q p))

under_domain_iff : (host d : Str) → (under_domain host d ≡ true) ↔ IsUnder host d
unfolding under_domain IsUnder
under_domain_iff host d =
    or_iff (str_eq host d) (has_suffix host (b'.' ∷ d)) (str_eq_iff host d)
      (has_suffix_iff host (b'.' ∷ d))

any_domain_iff : (host : Str) (ds : List Str) → (any_domain host ds ≡ true) ↔ UnderOne host ds
unfolding any_domain
any_domain_iff host [] = (λ h. elim (false≢true h) [ ], λ h. elim h [ ])
any_domain_iff host (d ∷ ds) =
    or_iff (under_domain host d) (any_domain host ds) (under_domain_iff host d)
      (any_domain_iff host ds)

-- A host is allowed exactly if it is not empty and is one of the domains or ends in a dot and one of
-- them.
pub allowed_host_iff :
    (domains : List Str) (host : Str)
    → (allowed_host domains host ≡ true) ↔ (host ≢ []) × UnderOne host domains
unfolding allowed_host is_empty
allowed_host_iff domains [] = (λ h. elim (false≢true h) [ ], λ h. elim (h.0 refl) [ ])
allowed_host_iff domains (r ∷ host) =
    let q = any_domain_iff (r ∷ host) domains in
    (λ h. (λ e. ground (arith, e), q.0 h), λ h. q.1 h.1)
