-- ===== src/Security/RateLimit/Windows.antt =====
-- The fixed windows of the rate limiter, by laws of the Redis commands.
use custom_service.Common.{
  ℕ, ◌≡◌, ◌≤◌, ◌∙◌, inl, inr, ◌⊎◌, suc, ◌==◌, Bool, true, false, none, some, Bool-cases,
  Option-cases, Str, ℤ, pos, negsuc, leb_ℤ, ◌≤ℤ◌, arith, ap, sym,
}
use custom_service.Security.RateLimit.{Redis, renew, is_minus_one, fixed_window, window_ms, allow}

-- What the documentation of Redis says of the commands of the script. `count` is the number under a
-- key, 0 where there is none, and `ttl` the answer of PTTL: -1 is a key that never expires.
pub record Laws (R : Redis) : Type 0 where
  pub count : Str → R.State → ℕ
  pub ttl : Str → R.State → ℤ
  pub incr_count :
      (k : Str) (s s' : R.State) (n : ℕ)
      → R.incr k s ≡ some (s', n)
      → (n ≡ suc (count k s)) × (count k s' ≡ n)
  pub incr_ttl :
      (k : Str) (s s' : R.State) (n : ℕ)
      → R.incr k s ≡ some (s', n)
      → 1 ≤ count k s
      → ttl k s' ≡ ttl k s
  pub pttl_ttl : (k : Str) (s : R.State) (t : ℤ) → R.pttl k s ≡ some t → t ≡ ttl k s
  pub pexpire_count :
      (k : Str) (ms : ℤ) (s s' : R.State) → R.pexpire k ms s ≡ some s' → count k s' ≡ count k s
  pub pexpire_ttl : (k : Str) (ms : ℤ) (s s' : R.State) → R.pexpire k ms s ≡ some s' → ttl k s' ≡ ms

-- What a call of the script leaves behind: the count has grown by one, the key expires, and a
-- window that has begun goes on as it was.
pub record IsCounted (R : Redis) (law : Laws R) (k : Str) (ms : ℤ) (s s' : R.State) (n : ℕ)
    : Type 0 where
  pub counted : n ≡ suc (law.count k s)
  pub kept : law.count k s' ≡ n
  pub window :
      ((n ≡ 1) ⊎ (law.ttl k s ≡ negsuc 0)) × (law.ttl k s' ≡ ms)
      ⊎ (law.ttl k s' ≡ law.ttl k s) × (¬ (law.ttl k s' ≡ negsuc 0))

pub some_inj : {A : Type 0} (a b : A) → some a ≡ some b → a ≡ b
some_inj a b h = cc

pub no_some : {A : Type 0} (a : A) → none ≡ some a → ⊥
no_some a h = absurd (cc)

is_minus_one_iff : (t : ℤ) → is_minus_one t ≡ true → t ≡ negsuc 0
unfolding is_minus_one
is_minus_one_iff (pos n) h = absurd (cc)
is_minus_one_iff (negsuc n) h = let p : n ≡ 0 = ground arith in ap negsuc p

minus_one_iff : (t : ℤ) → is_minus_one t ≡ false → ¬ (t ≡ negsuc 0)
unfolding is_minus_one
minus_one_iff t h e = let p : is_minus_one (negsuc 0) ≡ false = rw e at h in absurd (cc)

module _ (R : Redis) (law : Laws R) (k : Str) (ms : ℤ) where
  renew-inv :
      (n m : ℕ) (s s' : R.State)
      → renew R k ms n s ≡ some (s', m)
      → (R.pexpire k ms s ≡ some s') × (m ≡ n)
  unfolding renew
  renew-inv n m s s' h = elim (Option-cases (R.pexpire k ms s)) [
    | inl e ↦ absurd (no_some (s', m) (rw (e, renew) at h))
    | inr (t, e) ↦
        let q : some (t, n) ≡ some (s', m) = rw (e, renew) at h in
        let p = some_inj (t, n) (s', m) q in (e ∙ ap (λ x. some (x.0)) p, sym (ap (λ x. x.1) p))
  ]

  -- The window is renewed where the count begins or where the key would never expire.
  renewed :
      (s s1 s' : R.State) (n m : ℕ)
      → R.incr k s ≡ some (s1, n)
      → (n ≡ 1) ⊎ (law.ttl k s ≡ negsuc 0)
      → renew R k ms n s1 ≡ some (s', m)
      → IsCounted R law k ms s s' m
  renewed s s1 s' n m e why h =
      let (x, p) = renew-inv n m s1 s' h in
      let (c, c') = law.incr_count k s s1 n e in
      record {
        counted = p ∙ c;
        kept = law.pexpire_count k ms s1 s' x ∙ c' ∙ sym p;
        window = inl (rw p why, law.pexpire_ttl k ms s1 s' x);
      }

  later :
      (s s1 : R.State) (n : ℕ)
      → R.incr k s ≡ some (s1, n)
      → n == 1 ≡ false
      → law.ttl k s1 ≡ law.ttl k s
  later s s1 n e more = law.incr_ttl k s s1 n e (ground (arith, (law.incr_count k s s1 n e).0))

  fixed_window-IsCounted :
      (s s' : R.State) (m : ℕ) → fixed_window R k ms s ≡ some (s', m) → IsCounted R law k ms s s' m
  unfolding fixed_window
  fixed_window-IsCounted s s' m h = elim (Option-cases (R.incr k s)) [
    | inl e ↦ absurd (no_some (s', m) (rw (e, fixed_window) at h))
    | inr ((s1, n), e) ↦ elim (Bool-cases (n == 1)) [
      | inl first ↦
          renewed s s1 s' n m e (inl (ground (arith, first)))
            (rw first at (rw (e, fixed_window) at h))
      | inr more ↦ elim (Option-cases (R.pttl k s1)) [
        | inl x ↦ absurd (no_some (s', m) (rw x at (rw more at (rw (e, fixed_window) at h))))
        | inr (t, x) ↦ elim (Bool-cases (is_minus_one t)) [
          | inl forever ↦
              renewed s s1 s' n m e
                (inr (
                  sym (later s s1 n e more)
                  ∙ sym (law.pttl_ttl k s1 t x)
                  ∙ is_minus_one_iff t forever))
                (rw forever at (rw x at (rw more at (rw (e, fixed_window) at h))))
          | inr expires ↦
              let p =
                some_inj (s1, n) (s', m)
                  (rw expires at (rw x at (rw more at (rw (e, fixed_window) at h)))) in
              rw (← ap (λ r. r.0) p, ← ap (λ r. r.1) p)
                (record {
                  counted = (law.incr_count k s s1 n e).0;
                  kept = (law.incr_count k s s1 n e).1;
                  window = inr (
                    later s s1 n e more,
                    λ z. minus_one_iff t expires (law.pttl_ttl k s1 t x ∙ z),
                  );
                })
        ]
      ]
    ]
  ]

-- The limiter on one key, by the laws of the commands: where Redis answers, the call is allowed exactly if it is among the first
-- `limit` of its window, and it is counted. The first call of a window lets the key expire when the
-- window is over, at least a millisecond later, and so does a call that finds a key which would
-- never expire; every other call leaves the end of the window where it was, and no call leaves a
-- key that never expires.
pub allow-IsCounted :
    (R : Redis) (law : Laws R) (k : Str) (limit w : ℤ) (s s' : R.State) (ok : Bool)
    → allow R k limit w s ≡ some (s', ok)
    → IsCounted R law k (window_ms w) s s' (suc (law.count k s))
      × (ok ≡ leb_ℤ (pos (suc (law.count k s))) limit)
      × (pos 1 ≤ℤ window_ms w)
unfolding allow window_ms
allow-IsCounted R law k limit w s s' ok h = elim (Option-cases (fixed_window R k (window_ms w) s)) [
  | inl e ↦ absurd (no_some (s', ok) (rw (e, allow) at h))
  | inr ((t, n), e) ↦
      let p = some_inj (t, leb_ℤ (pos n) limit) (s', ok) (rw (e, allow) at h) in
      let c = fixed_window-IsCounted R law k (window_ms w) s t n e in
      (
        rw (← ap (λ x. x.0) p, ← c.counted) c,
        rw (← c.counted) (sym (ap (λ x. x.1) p)),
        ground arith,
      )
]
