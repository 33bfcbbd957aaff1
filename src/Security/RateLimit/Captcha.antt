-- ===== src/Security/RateLimit/Captcha.antt =====
-- What the second check of a captcha says, in backend/internal/security/ratelimit.go.
use custom_service.Common.{
  Option, Option-cases, ap, ◌≡◌, refl, inl, inr, ◌||◌, not, ◌==◌, true, false, some, none, [], ◌∷◌,
  Bool-cases, Str, str_eq_refl, is_empty, length, ℤ, pos,
}
use custom_service.Security.RateLimit.{
  drop_keys, Redis, Limiter, captcha_key, issue_captcha, verify_captcha,
}

-- SET, GET and DEL of one key, where they succeed.
pub record KeyLaws (R : Redis) : Type 0 where
  pub get_set :
      (k v : Str) (ttl : ℤ) (s s' : R.State) → R.set k v ttl s ≡ some s' → R.get k s' ≡ some v
  pub get_del : (k : Str) (s s' : R.State) → R.del (k ∷ []) s ≡ some s' → R.get k s' ≡ none

module _ (L : Limiter) (subject id : Str) where
  verify-absent :
      (answer : Str) (s : L.redis.State)
      → L.redis.get (captcha_key L subject id) s ≡ none
      → (verify_captcha L subject id answer s).1 ≡ false
  unfolding verify_captcha
  verify-absent answer s gone =
      elim (Bool-cases (not L.configured || is_empty id || not (length answer == 4))) [
        | inl bad ↦ rw bad refl
        | inr fine ↦ rw fine (rw gone refl)
      ]

  verify-there :
      (answer : Str) (s : L.redis.State)
      → L.configured ≡ true
      → is_empty id ≡ false
      → length answer ≡ 4
      → L.redis.get (captcha_key L subject id) s ≡ some (L.hash_dimension answer)
      → verify_captcha L subject id answer s
        ≡ (drop_keys L.redis (captcha_key L subject id ∷ []) s, true)
  unfolding verify_captcha
  verify-there answer s on named four there =
      rw (on, named, four) (rw there (rw (str_eq_refl (L.hash_dimension answer)) refl))

-- What the next check of the same captcha says: it fails for every answer where the deletion has
-- succeeded, and where it has not, the same answer is accepted again.
abbrev pub AfterUse :
    (L : Limiter) → Str → Str → Str → Option L.redis.State → L.redis.State → Type 0
AfterUse L subject id answer (some s'') s =
    (again : Str) → (verify_captcha L subject id again s).1 ≡ false
AfterUse L subject id answer none s = (verify_captcha L subject id answer s).1 ≡ true

-- By the laws of SET, GET and DEL where they succeed, a captcha that has been issued is accepted with
-- the answer that was drawn. Right after that no answer is accepted if DEL has succeeded; if DEL has
-- failed, which the code passes over, the same answer is accepted again. The ID is not empty and the
-- answer has four characters.
pub verify_captcha-issue_captcha :
    (L : Limiter) (law : KeyLaws L.redis) (subject id answer : Str) (s s' : L.redis.State)
    → L.configured ≡ true
    → is_empty id ≡ false
    → length answer ≡ 4
    → issue_captcha L subject id answer s ≡ some s'
    → ((verify_captcha L subject id answer s').1 ≡ true)
      × AfterUse L subject id answer
          (L.redis.del (captcha_key L subject id ∷ []) s')
          (verify_captcha L subject id answer s').0
unfolding issue_captcha drop_keys
verify_captcha-issue_captcha L law subject id answer s s' on named four issued =
    let k = captcha_key L subject id in
    let there = law.get_set k (L.hash_dimension answer) (pos 300000) s s' (rw on at issued) in
    let accepted = verify-there L subject id answer s' on named four there in
    (
      ap (λ r. r.1) accepted,
      rw (ap (λ r. r.0) accepted) (elim (Option-cases (L.redis.del (k ∷ []) s')) [
        | inl lost ↦ rw (lost, drop_keys) (ap (λ r. r.1) accepted)
        | inr (s'', done) ↦
            rw (done, drop_keys)
              (λ again. verify-absent L subject id again s'' (law.get_del k s' s'' done))
      ]),
    )
