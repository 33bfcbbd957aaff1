-- ===== src/Security/RateLimit/Tests.antt =====
-- A small Redis that keeps the laws, and the theorems about the limiter at work on it.
use custom_service.Security.RateLimit.Captcha.{AfterUse, KeyLaws, verify_captcha-issue_captcha}
use custom_service.Security.RateLimit.Locks.{
  IsLocked, Cleared, LockLaws, login_locked-record_login_failure,
}
use custom_service.Security.RateLimit.{
  fail_keys, lock_keys, Redis, Limiter, fixed_window, window_ms, allow, record_login_failure,
  clear_login_failures, issue_captcha, verify_captcha, captcha_key,
}
use custom_service.Common.{
  ◌++◌, ◌≡◌, refl, ap, sym, suc, ℕ, Bool, true, false, Option, none, some, List, [], ◌∷◌, Str,
  codes, str_eq, str_eq_refl, contains, is_empty, if◌then◌else◌, ℤ, pos, leb_ℤ, ◌≤ℤ◌,
}
use custom_service.Security.RateLimit.Windows.{Laws, IsCounted, some_inj, allow-IsCounted}

record Store : Type 0 where
  counts : Str → ℕ
  ttls : Str → ℤ
  values : Str → Option Str

abbrev put : {A : Type 0} → Str → A → (Str → A) → Str → A
put k a f j = if str_eq k j then a else f j

abbrev bump : List Str → (Str → ℕ) → Str → ℕ
bump ks f j = if contains j ks then suc (f j) else f j

abbrev replies : List Str → (Str → ℕ) → List ℕ
replies [] f = []
replies (k ∷ ks) f = suc (f k) ∷ replies ks f

abbrev there : Option Str → Bool
there none = false
there (some v) = true

abbrev small : Redis
small = record {
  State = Store;
  incr = λ k s. some (record s { counts = put k (suc (s.counts k)) s.counts }, suc (s.counts k));
  pttl = λ k s. some (s.ttls k);
  pexpire = λ k ms s. some (record s { ttls = put k ms s.ttls });
  exists = λ k s. some (there (s.values k));
  get = λ k s. s.values k;
  get_int = λ k s. some (pos (s.counts k));
  set = λ k v ttl s. some (record s { values = put k (some v) s.values });
  del = λ ks s. some (record s { values = λ j. if contains j ks then none else s.values j });
  exec_incr = λ ks ttl s. some (record s { counts = bump ks s.counts }, replies ks s.counts);
  exec_set =
      λ ks v ttl s. some (record s { values = λ j. if contains j ks then some v else s.values j });
}

abbrev limiter : Limiter
limiter = record {
  redis = small;
  configured = true;
  hash_dimension = λ v. v;
  is_blank = λ v. false;
}

abbrev four_times : Store
four_times = record { counts = λ k. 4; ttls = λ k. pos 100; values = λ k. none }

abbrev small_laws : Laws small
small_laws = record {
  count = λ k s. s.counts k;
  ttl = λ k s. s.ttls k;
  incr_count = λ k s s' n h.
      let p = some_inj _ (s', n) h in
      (sym (ap (λ x. x.1) p), rw (← ap (λ x. x.0) p, str_eq_refl k) (ap (λ x. x.1) p));
  incr_ttl = λ k s s' n h more. let p = some_inj _ (s', n) h in rw (← ap (λ x. x.0) p) refl;
  pttl_ttl = λ k s t h. sym (some_inj (s.ttls k) t h);
  pexpire_count = λ k ms s s' h. let p = some_inj _ s' h in rw (← p) refl;
  pexpire_ttl = λ k ms s s' h. let p = some_inj _ s' h in rw (← p, str_eq_refl k) refl;
}

small-KeyLaws : KeyLaws small
unfolding contains
small-KeyLaws = record {
  get_set = λ k v ttl s s' h. let p = some_inj _ s' h in rw (← p, str_eq_refl k) refl;
  get_del = λ k s s' h. let p = some_inj _ s' h in rw (← p, str_eq_refl k) refl;
}

small-LockLaws : LockLaws small
unfolding contains
small-LockLaws = record {
  exists_set = λ k v ks ttl s s' has h. let p = some_inj _ s' h in rw (← p, has) refl;
  exists_del = λ k ks s s' has h. let p = some_inj _ s' h in rw (← p, has) refl;
}

-- The fifth call where five are allowed.
allow-IsCounted_example :
    IsCounted small small_laws
      (codes "k")
      (window_ms (pos 100))
      four_times
      (record four_times { counts = put (codes "k") 5 four_times.counts })
      5
    × (true ≡ leb_ℤ (pos 5) (pos 5))
    × (pos 1 ≤ℤ window_ms (pos 100))
unfolding allow fixed_window window_ms
allow-IsCounted_example =
    allow-IsCounted small small_laws (codes "k") (pos 5) (pos 100) four_times
      (record four_times { counts = put (codes "k") 5 four_times.counts }) true refl

abbrev issued : Store
issued = record four_times {
  values = put (captcha_key limiter (codes "s") (codes "i")) (some (codes "1234")) (λ k. none);
}

verify_captcha-issue_captcha_example :
    ((verify_captcha limiter (codes "s") (codes "i") (codes "1234") issued).1 ≡ true)
    × AfterUse limiter
        (codes "s")
        (codes "i")
        (codes "1234")
        (small.del (captcha_key limiter (codes "s") (codes "i") ∷ []) issued)
        (verify_captcha limiter (codes "s") (codes "i") (codes "1234") issued).0
unfolding is_empty issue_captcha
verify_captcha-issue_captcha_example =
    verify_captcha-issue_captcha limiter small-KeyLaws (codes "s") (codes "i") (codes "1234")
      four_times issued refl refl refl refl

abbrev after_five : Store
after_five = (record_login_failure limiter (codes "u") (codes "ip") four_times).state

login_locked-record_login_failure_example :
    IsLocked limiter (codes "u") (codes "ip") after_five
    × Cleared limiter
        (codes "u")
        (codes "ip")
        (small.del
          (fail_keys limiter (codes "u") (codes "ip") ++ lock_keys limiter (codes "u") (codes "ip"))
          after_five)
        (clear_login_failures limiter (codes "u") (codes "ip") after_five)
unfolding record_login_failure
login_locked-record_login_failure_example =
    login_locked-record_login_failure limiter small-LockLaws (codes "u") (codes "ip") four_times
      refl
