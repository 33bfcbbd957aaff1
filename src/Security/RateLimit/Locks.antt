-- ===== src/Security/RateLimit/Locks.antt =====
-- When LoginLocked of backend/internal/security/ratelimit.go says that a login is locked.
use custom_service.Common.{
  Option, none, Bool, ◌≡◌, refl, inl, inr, true, false, some, List, [], ◌∷◌, ◌++◌, Bool-cases,
  Option-cases, Str, ℤ, leb, contains, str_eq_refl, codes, arith,
}
use custom_service.Security.RateLimit.{
  drop_keys, Redis, Limiter, lock_keys, fail_keys, any_exists, login_locked, largest, lock_window,
  lock_login, record_login_failure, clear_login_failures,
}

-- EXISTS after SET and DEL, where they succeed.
pub record LockLaws (R : Redis) : Type 0 where
  pub exists_set :
      (k v : Str) (ks : List Str) (ttl : ℤ) (s s' : R.State)
      → contains k ks ≡ true
      → R.exec_set ks v ttl s ≡ some s'
      → R.exists k s' ≡ some true
  pub exists_del :
      (k : Str) (ks : List Str) (s s' : R.State)
      → contains k ks ≡ true
      → R.del ks s ≡ some s'
      → R.exists k s' ≡ some false

-- The account is locked from every address, and every account from the address.
pub record IsLocked (L : Limiter) (username ip : Str) (s : L.redis.State) : Type 0 where
  pub account : (ip' : Str) → login_locked L username ip' s ≡ (true, false)
  pub address : (username' : Str) → (login_locked L username' ip s).0 ≡ true

first : (a b : Str) → contains a (a ∷ b ∷ []) ≡ true
unfolding contains
first a b = ground (arith, str_eq_refl a)

second : (a b : Str) → contains b (a ∷ b ∷ []) ≡ true
unfolding contains
second a b = ground (arith, str_eq_refl b)

keys-IsLocked :
    (L : Limiter) (username ip : Str) (s : L.redis.State)
    → L.configured ≡ true
    → L.redis.exists (codes "auth:lock:user:" ++ L.hash_dimension username) s ≡ some true
    → L.redis.exists (codes "auth:lock:ip:" ++ L.hash_dimension ip) s ≡ some true
    → IsLocked L username ip s
unfolding login_locked any_exists lock_keys
keys-IsLocked L username ip s on u i = record {
  account = λ ip'. rw on (rw u refl);
  address = λ username'.
      go username' (L.redis.exists (codes "auth:lock:user:" ++ L.hash_dimension username') s) refl;
}
  where
    go :
        (username' : Str) (o : Option Bool)
        → L.redis.exists (codes "auth:lock:user:" ++ L.hash_dimension username') s ≡ o
        → (login_locked L username' ip s).0 ≡ true
    go username' none e = rw on (rw e refl)
    go username' (some true) e = rw on (rw e refl)
    go username' (some false) e = rw on (rw e (rw i refl))

module _ (L : Limiter) (law : LockLaws L.redis) (username ip : Str) where
  lock_login-IsLocked :
      (s : L.redis.State)
      → L.configured ≡ true
      → (lock_login L username ip s).locked ≡ true
      → IsLocked L username ip (lock_login L username ip s).state
  unfolding lock_login lock_keys
  lock_login-IsLocked s on locked =
      let ks = lock_keys L username ip in
      elim (Option-cases (L.redis.exec_set ks (codes "1") lock_window s)) [
        | inl e ↦ let q : false ≡ true = rw (e, lock_login) at locked in absurd (cc)
        | inr (s', e) ↦
            rw (e, lock_login)
              (keys-IsLocked L username ip s' on
                (law.exists_set _ (codes "1") ks lock_window s s' (first _ _) e)
                (law.exists_set _ (codes "1") ks lock_window s s' (second _ _) e))
      ]

third : (k a b c : Str) → contains k (a ∷ b ∷ k ∷ c ∷ []) ≡ true
unfolding contains
third k a b c = ground (arith, str_eq_refl k)

fourth : (k a b c : Str) → contains k (a ∷ b ∷ c ∷ k ∷ []) ≡ true
unfolding contains
fourth k a b c = ground (arith, str_eq_refl k)

unlocked :
    (L : Limiter) (username ip : Str) (t : L.redis.State)
    → L.configured ≡ true
    → L.redis.exists (codes "auth:lock:user:" ++ L.hash_dimension username) t ≡ some false
    → L.redis.exists (codes "auth:lock:ip:" ++ L.hash_dimension ip) t ≡ some false
    → login_locked L username ip t ≡ (false, false)
unfolding login_locked any_exists lock_keys
unlocked L username ip t on u i = rw on (rw u (rw i refl))

-- What ClearLoginFailures leaves: no lock where DEL succeeds, and the old state where it does not.
abbrev pub Cleared : (L : Limiter) → Str → Str → Option L.redis.State → L.redis.State → Type 0
Cleared L username ip (some s') s = login_locked L username ip s ≡ (false, false)
Cleared L username ip none s = IsLocked L username ip s

clear-drop_keys :
    (L : Limiter) (username ip : Str) (s : L.redis.State)
    → L.configured ≡ true
    → clear_login_failures L username ip s
      ≡ drop_keys L.redis (fail_keys L username ip ++ lock_keys L username ip) s
unfolding clear_login_failures
clear-drop_keys L username ip s on = rw on refl

clear-Cleared :
    (L : Limiter) (law : LockLaws L.redis) (username ip : Str) (s : L.redis.State)
    → L.configured ≡ true
    → IsLocked L username ip s
    → Cleared L username ip
        (L.redis.del (fail_keys L username ip ++ lock_keys L username ip) s)
        (clear_login_failures L username ip s)
unfolding lock_keys fail_keys drop_keys
clear-Cleared L law username ip s on locked =
    let keys = fail_keys L username ip ++ lock_keys L username ip in
    rw (clear-drop_keys L username ip s on) (elim (Option-cases (L.redis.del keys s)) [
      | inl lost ↦ rw (lost, drop_keys) locked
      | inr (s', done) ↦
          rw (done, drop_keys)
            (unlocked L username ip s' on
              (law.exists_del (codes "auth:lock:user:" ++ L.hash_dimension username) keys s s'
                (third _ _ _ _) done)
              (law.exists_del (codes "auth:lock:ip:" ++ L.hash_dimension ip) keys s s'
                (fourth _ _ _ _) done))
    ])

-- The one way to a lock.
locked-inv :
    (L : Limiter) (username ip : Str) (s : L.redis.State)
    → (record_login_failure L username ip s).locked ≡ true
    → (L.configured ≡ true)
      × ((s0 : L.redis.State) × (record_login_failure L username ip s
            ≡ lock_login L username ip s0))
unfolding record_login_failure
locked-inv L username ip s h = elim (Bool-cases L.configured) [
  | inr off ↦ let q : false ≡ true = rw (off, record_login_failure) at h in absurd (cc)
  | inl on ↦ elim (Option-cases (L.redis.exec_incr (fail_keys L username ip) lock_window s)) [
    | inl e ↦ let q : false ≡ true = rw e at (rw (on, record_login_failure) at h) in absurd (cc)
    | inr (r, e) ↦ elim (Bool-cases (leb 5 (largest r.1))) [
      | inl many ↦ (on, (r.0, rw (on, record_login_failure) (rw e (rw many refl))))
      | inr few ↦
          let q : false ≡ true = rw few at (rw e at (rw (on, record_login_failure) at h)) in
          absurd (cc)
    ]
  ]
]

-- By the laws of EXISTS after SET and DEL where they succeed: right after RecordLoginFailure has said
-- that the login is locked, LoginLocked says so of the account from every address and of the address
-- with every account. Right after a ClearLoginFailures then, whose DEL succeeds, the login is not
-- locked; where the DEL fails, it is locked as before.
pub login_locked-record_login_failure :
    (L : Limiter) (law : LockLaws L.redis) (username ip : Str) (s : L.redis.State)
    → (record_login_failure L username ip s).locked ≡ true
    → let after = (record_login_failure L username ip s).state in
      IsLocked L username ip after
      × Cleared L username ip
          (L.redis.del (fail_keys L username ip ++ lock_keys L username ip) after)
          (clear_login_failures L username ip after)
login_locked-record_login_failure L law username ip s locked =
    let (on, (s0, p)) = locked-inv L username ip s locked in
    let l : (lock_login L username ip s0).locked ≡ true = rw p at locked in
    let shut : IsLocked L username ip (record_login_failure L username ip s).state =
      rw p (lock_login-IsLocked L law username ip s0 on l) in
    (shut, clear-Cleared L law username ip (record_login_failure L username ip s).state on shut)
