-- ===== src/TextFilter/Digits/Total.antt =====
-- The loops over runs of digits come to an end, and their hits lie in the text.
use custom_service.Common.{
  subst, ℕ, zero, suc, ◌+◌, ◌≤◌, ◌<◌, ◌≡◌, ◌∙◌, refl, sym, arith, Bool, ◌&&◌, not, List, [], ◌∷◌,
  ◌++◌, Str, length, ◌==◌, Option, none, some, Option-cases, Bool-cases, if_cases, if_both, inl,
  inr,
}
use custom_service.TextFilter.Runes.{Unicode, Hit, rune_at, fold_rune}
use custom_service.TextFilter.Digits.{
  Run, digit_value, digit_at, skip_separators, digit_run, is_contact, next_start, add_run,
  digit_run_hits, is_digit_separator,
}

rune_at-lt : (text : Str) (i r : ℕ) → rune_at text i ≡ some r → i < length text
unfolding rune_at
rune_at-lt [] i r h = absurd (cc)
rune_at-lt (x ∷ xs) zero r h = omega arith
rune_at-lt (x ∷ xs) (suc i) r h =
    let ih = rune_at-lt xs i r (ground (arith, h)) in omega (arith, ih)

digit_at-lt : (U : Unicode) (text : Str) (i d : ℕ) → digit_at U text i ≡ some d → i < length text
unfolding digit_at
digit_at-lt U text i d h = elim (Option-cases (rune_at text i)) [
  | inl e ↦ let q : none ≡ some d = rw (e, digit_at) at h in absurd (cc)
  | inr (r, e) ↦ rune_at-lt text i r e
]

skip-le : (U : Unicode) (n : ℕ) (text : Str) (k : ℕ) → k ≤ skip_separators U n text k
unfolding skip_separators
skip-le U zero text k = omega arith
skip-le U (suc n) text k =
    let ih = skip-le U n text (suc k) in
    elim (Option-cases (rune_at text k)) [
      | inl e ↦ rw (e, skip_separators) (omega arith)
      | inr (r, e) ↦
          rw (e, skip_separators)
            (if_cases (λ m. k ≤ m) (is_digit_separator (fold_rune U r)) (λ sep. omega (arith, ih))
              (λ other. omega arith))
    ]

-- A run that ends, not before `stop` and within the text.
record Ends (n stop : ℕ) (o : Option Run) : Type 0 where
  run : Run
  done : o ≡ some run
  later : stop ≤ run.stop
  inside : run.stop ≤ n

further : (n stop mid : ℕ) (o : Option Run) → stop ≤ mid → Ends n mid o → Ends n stop o
further n stop mid o le e = record {
  run = e.run;
  done = e.done;
  later = omega (arith, le, e.later);
  inside = e.inside;
}

-- Where there is no digit here and one behind the separators, something was skipped.
skipped :
    (U : Unicode) (text : Str) (j k d : ℕ)
    → digit_at U text j ≡ none
    → digit_at U text k ≡ some d
    → j ≤ k
    → j < k
skipped U text j k d none_here here le = elim (Bool-cases (j == k)) [
  | inl same ↦
      let p : j ≡ k = ground (arith, same) in
      let q : none ≡ some d = sym none_here ∙ rw p here in absurd (cc)
  | inr other ↦ ground (arith, other, le)
]

digit_run-Ends :
    (U : Unicode) (fuel : ℕ) (text : Str) (j : ℕ) (digits : Str) (stop : ℕ)
    → length text < j + fuel
    → stop ≤ j
    → j ≤ length text
    → Ends (length text) stop (digit_run U fuel text j digits stop)
unfolding digit_run
digit_run-Ends U zero text j digits stop enough le fits = absurd (ground (arith, enough, fits))
digit_run-Ends U (suc fuel) text j digits stop enough le fits =
    elim (Option-cases (digit_at U text j)) [
      | inr (d, e) ↦
          let lt = digit_at-lt U text j d e in
          rw (e, digit_run)
            (further (length text) stop (suc j) _ (omega (arith, le)) (
              digit_run-Ends U fuel text (suc j) (digits ++ d ∷ []) (suc j) (omega (arith, enough))
                (omega arith) (omega (arith, lt))))
      | inl e ↦
          let k = skip_separators U 2 text j in
          let jk = skip-le U 2 text j in
          elim (Option-cases (digit_at U text k)) [
            | inl e' ↦
                rw (e, digit_run)
                  (rw (e', digit_run)
                    (record {
                      run = record { digits = digits; stop = stop };
                      done = refl;
                      later = omega arith;
                      inside = omega (arith, le, fits);
                    }))
            | inr (d, e') ↦
                let lt = skipped U text j k d e e' jk in
                let below = digit_at-lt U text k d e' in
                rw (e, digit_run)
                  (rw (e', digit_run)
                    (digit_run-Ends U fuel text k digits stop (omega (arith, enough, lt))
                      (omega (arith, le, lt)) (omega (arith, below))))
          ]
    ]

-- A run from a digit on goes past it.
first_digit :
    (U : Unicode) (text : Str) (i d : ℕ)
    → digit_at U text i ≡ some d
    → Ends (length text) (suc i) (digit_run U (suc (length text)) text i [] i)
unfolding digit_run
first_digit U text i d e =
    let lt = digit_at-lt U text i d e in
    rw (e, digit_run)
      (digit_run-Ends U (length text) text (suc i) (d ∷ []) (suc i) (omega arith) (omega arith)
        (omega (arith, lt)))

-- Hits that begin at `lo` or later, in order and apart, not empty and within the text.
abbrev pub InOrder : ℕ → ℕ → List Hit → Type 0
InOrder n lo [] = Unit
InOrder n lo (h ∷ hs) = (lo ≤ h.start) × (h.start < h.stop) × (h.stop ≤ n) × InOrder n h.stop hs

InOrder-weaken : (n lo hi : ℕ) (hs : List Hit) → lo ≤ hi → InOrder n hi hs → InOrder n lo hs
InOrder-weaken n lo hi [] le ord = tt
InOrder-weaken n lo hi (h ∷ hs) le (from, more, fits, ord) =
    (omega (arith, le, from), more, fits, ord)

pub record AllFound (n lo : ℕ) (o : Option (List Hit)) : Type 0 where
  pub found : List Hit
  pub done : o ≡ some found
  pub ordered : InOrder n lo found

from_later : (n lo hi : ℕ) (o : Option (List Hit)) → lo ≤ hi → AllFound n hi o → AllFound n lo o
from_later n lo hi o le a = record {
  found = a.found;
  done = a.done;
  ordered = InOrder-weaken n lo hi a.found le a.ordered;
}

next_start_later :
    (U : Unicode) (i : ℕ) (run : Run) → suc i ≤ run.stop → next_start U i run ≡ run.stop
unfolding next_start
next_start_later U i run later = ground (arith, later)

add_run-InOrder :
    (U : Unicode) (hint : Str → Bool) (link : Str) (n i : ℕ) (run : Run) (hits : List Hit)
    → suc i ≤ run.stop
    → run.stop ≤ n
    → InOrder n run.stop hits
    → InOrder n i (add_run U hint link i run hits)
unfolding add_run
add_run-InOrder U hint link n i run hits later inside ord =
    if_both (InOrder n i) (not (run.stop == i) && is_contact U hint link i run.digits)
      (omega arith, later, inside, ord)
      (InOrder-weaken n i run.stop hits (omega (arith, later)) ord)

-- With one unit of fuel for each rune and one more the loop ends, and its hits are in order, apart,
-- not empty and within the text.
pub digit_run_hits-AllFound :
    (U : Unicode) (fuel : ℕ) (hint : Str → Bool) (text link : Str) (i : ℕ)
    → length text < i + fuel
    → i ≤ length text
    → AllFound (length text) i (digit_run_hits U fuel hint text link i)
unfolding digit_run_hits
digit_run_hits-AllFound U zero hint text link i enough fits = absurd (ground (arith, enough, fits))
digit_run_hits-AllFound U (suc fuel) hint text link i enough fits =
    elim (Option-cases (rune_at text i)) [
      | inl e ↦ rw (e, digit_run_hits) (record { found = []; done = refl; ordered = tt })
      | inr (r, e) ↦
          let lt = rune_at-lt text i r e in
          elim (Option-cases (digit_value U r)) [
            | inl v ↦
                rw (e, digit_run_hits)
                  (rw (v, digit_run_hits)
                    (from_later (length text) i (suc i) _ (omega arith) (
                      digit_run_hits-AllFound U fuel hint text link (suc i) (omega (arith, enough))
                        (omega (arith, lt)))))
            | inr (d, v) ↦
                let es = first_digit U text i d (rw (e, digit_at) v) in
                let next = next_start_later U i es.run es.later in
                let ih =
                  digit_run_hits-AllFound U fuel hint text link (next_start U i es.run)
                    (omega (arith, enough, es.later, next)) (rw next es.inside) in
                rw (e, digit_run_hits)
                  (rw (v, digit_run_hits)
                    (rw (es.done, digit_run_hits)
                      (rw (ih.done, digit_run_hits)
                        (record {
                          found = add_run U hint link i es.run ih.found;
                          done = refl;
                          ordered =
                              add_run-InOrder U hint link (length text) i es.run ih.found es.later
                                es.inside
                                (subst (λ lo. InOrder (length text) lo ih.found) next ih.ordered);
                        }))))
          ]
    ]
