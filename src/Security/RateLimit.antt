-- ===== src/Security/RateLimit.antt =====
-- backend/internal/security/ratelimit.go. The Redis client, the hash and strings.TrimSpace are
-- parameters; `none` stands for an error. Writes to the log are left out.
pub mod Windows
pub mod Captcha
pub mod Locks
pub mod Tests
use custom_service.Common.{
  ◌==◌, ◌||◌, ◌&&◌, not, ℕ, Bool, true, false, Option, none, some, List, [], ◌∷◌, ◌++◌,
  if◌then◌else◌, Str, codes, str_eq, is_empty, length, ltb, leb, ℤ, pos, negsuc, leb_ℤ, ltb_ℤ,
}

-- The commands of go-redis that the limiter calls. The two `exec` are the transactions of
-- TxPipeline: one counts on each key and lets it expire, the other sets each key.
pub record Redis : Type 1 where
  pub State : Type 0
  pub incr : Str → State → Option (State × ℕ)
  pub pttl : Str → State → Option ℤ
  pub pexpire : Str → ℤ → State → Option State
  pub exists : Str → State → Option Bool
  pub get : Str → State → Option Str
  pub get_int : Str → State → Option ℤ
  pub set : Str → Str → ℤ → State → Option State
  pub del : List Str → State → Option State
  pub exec_incr : List Str → ℤ → State → Option (State × List ℕ)
  pub exec_set : List Str → Str → ℤ → State → Option State

-- `configured` tells whether the limiter and its client are there.
pub record Limiter : Type 1 where
  pub redis : Redis
  pub configured : Bool
  pub hash_dimension : Str → Str
  pub is_blank : Str → Bool

-- The script sets the expiry of a counter that has none, and answers with the count.
unfoldable pub renew : (R : Redis) → Str → ℤ → ℕ → R.State → Option (R.State × ℕ)
renew R key ms n s = elim (R.pexpire key ms s) [ none ↦ none | some s' ↦ some (s', n) ]

unfoldable pub is_minus_one : ℤ → Bool
is_minus_one (pos n) = false
is_minus_one (negsuc n) = n == 0

-- fixedWindowScript.
unfoldable pub fixed_window : (R : Redis) → Str → ℤ → R.State → Option (R.State × ℕ)
unfolding renew is_minus_one
fixed_window R key ms s = elim (R.incr key s) [
  | none ↦ none
  | some r ↦ if r.1 == 1 then renew R key ms r.1 r.0 else elim (R.pttl key r.0) [
    | none ↦ none
    | some t ↦ if is_minus_one t then renew R key ms r.1 r.0 else some r
  ]
]

-- A window below a millisecond counts as one.
unfoldable pub window_ms : ℤ → ℤ
window_ms w = if ltb_ℤ w (pos 1) then pos 1 else w

unfoldable pub allow : (R : Redis) → Str → ℤ → ℤ → R.State → Option (R.State × Bool)
unfolding fixed_window window_ms
allow R key limit window s = elim (fixed_window R key (window_ms window) s) [
  | none ↦ none
  | some r ↦ some (r.0, leb_ℤ (pos r.1) limit)
]

unfoldable pub action_key : Limiter → Str → Str → Str
action_key L action dimension = codes "rl:" ++ action ++ codes ":" ++ L.hash_dimension dimension

unfoldable pub allow_each :
    (L : Limiter) → Str → ℤ → ℤ → List Str → L.redis.State → Option (L.redis.State × Bool)
unfolding allow action_key
allow_each L action limit window [] s = some (s, true)
allow_each L action limit window (d ∷ ds) s =
    if L.is_blank d
    then allow_each L action limit window ds s
    else elim (allow L.redis (action_key L action d) limit window s) [
      | none ↦ none
      | some r ↦ if r.1 then allow_each L action limit window ds r.0 else some (r.0, false)
    ]

unfoldable pub allow_action :
    (L : Limiter) → Str → ℤ → ℤ → List Str → L.redis.State → Option (L.redis.State × Bool)
unfolding allow_each
allow_action L action limit window dimensions s =
    if not L.configured || leb_ℤ limit (pos 0)
    then some (s, true)
    else allow_each L action limit window dimensions s

unfoldable pub allow_visitor_message :
    (L : Limiter) → Str → ℤ → L.redis.State → Option (L.redis.State × Bool)
unfolding allow
allow_visitor_message L visitor_id pm s =
    if leb_ℤ pm (pos 0)
    then some (s, true)
    else allow L.redis (codes "rl:vmsg:" ++ visitor_id) pm (pos 60000) s

unfoldable pub lock_keys : Limiter → Str → Str → List Str
lock_keys L username ip =
    (codes "auth:lock:user:" ++ L.hash_dimension username)
    ∷ (codes "auth:lock:ip:" ++ L.hash_dimension ip)
    ∷ []

unfoldable pub fail_keys : Limiter → Str → Str → List Str
fail_keys L username ip =
    (codes "auth:fail:user:" ++ L.hash_dimension username)
    ∷ (codes "auth:fail:ip:" ++ L.hash_dimension ip)
    ∷ []

-- Whether one of the keys is there, and whether a lookup failed: `none` then stands for an error,
-- with which the caller gets `true`.
unfoldable pub any_exists : (R : Redis) → List Str → R.State → Option Bool
any_exists R [] s = some false
any_exists R (k ∷ ks) s = elim (R.exists k s) [
  | none ↦ none
  | some here ↦ if here then some true else any_exists R ks s
]

-- The answer, and whether there was an error.
unfoldable pub login_locked : (L : Limiter) → Str → Str → L.redis.State → Bool × Bool
unfolding any_exists lock_keys
login_locked L username ip s =
    if not L.configured
    then (false, false)
    else elim (any_exists L.redis (lock_keys L username ip) s) [
      | none ↦ (true, true)
      | some locked ↦ (locked, false)
    ]

unfoldable pub largest : List ℕ → ℕ
largest [] = 0
largest (n ∷ ns) = let m = largest ns in if ltb m n then n else m

abbrev pub lock_window : ℤ
lock_window = pos 900000

-- What RecordLoginFailure answers: the state, `locked`, `captchaRequired` and whether there was an
-- error.
pub record Failure (State : Type 0) : Type 0 where
  pub state : State
  pub locked : Bool
  pub captcha_required : Bool
  pub failed : Bool

unfoldable pub lock_login : (L : Limiter) → Str → Str → L.redis.State → Failure L.redis.State
unfolding lock_keys
lock_login L username ip s =
    elim (L.redis.exec_set (lock_keys L username ip) (codes "1") lock_window s) [
      | none ↦ record { state = s; locked = false; captcha_required = true; failed = true }
      | some s' ↦ record { state = s'; locked = true; captcha_required = true; failed = false }
    ]

unfoldable pub record_login_failure :
    (L : Limiter) → Str → Str → L.redis.State → Failure L.redis.State
unfolding fail_keys largest lock_login
record_login_failure L username ip s =
    if not L.configured
    then record { state = s; locked = false; captcha_required = false; failed = false }
    else elim (L.redis.exec_incr (fail_keys L username ip) lock_window s) [
      | none ↦ record { state = s; locked = false; captcha_required = false; failed = true }
      | some r ↦ if leb 5 (largest r.1) then lock_login L username ip r.0 else record {
        state = r.0;
        locked = false;
        captcha_required = leb 3 (largest r.1);
        failed = false;
      }
    ]

-- DEL, whose error is passed over.
unfoldable pub drop_keys : (R : Redis) → List Str → R.State → R.State
drop_keys R ks s = elim (R.del ks s) [ none ↦ s | some s' ↦ s' ]

unfoldable pub clear_login_failures : (L : Limiter) → Str → Str → L.redis.State → L.redis.State
unfolding lock_keys fail_keys drop_keys
clear_login_failures L username ip s =
    if not L.configured
    then s
    else drop_keys L.redis (fail_keys L username ip ++ lock_keys L username ip) s

unfoldable pub any_at_least : (R : Redis) → ℤ → List Str → R.State → Bool
any_at_least R n [] s = false
any_at_least R n (k ∷ ks) s = elim (R.get_int k s) [
  | none ↦ any_at_least R n ks s
  | some v ↦ if leb_ℤ n v then true else any_at_least R n ks s
]

unfoldable pub login_captcha_required : (L : Limiter) → Str → Str → L.redis.State → Bool
unfolding any_at_least fail_keys
login_captcha_required L username ip s =
    L.configured && any_at_least L.redis (pos 3) (fail_keys L username ip) s

unfoldable pub captcha_key : Limiter → Str → Str → Str
captcha_key L subject id = codes "captcha:" ++ L.hash_dimension subject ++ codes ":" ++ id

-- IssueCaptcha from the answer that it has drawn and the ID that it has made: what is stored.
unfoldable pub issue_captcha :
    (L : Limiter) → Str → Str → Str → L.redis.State → Option L.redis.State
unfolding captcha_key
issue_captcha L subject id answer s =
    if not L.configured
    then some s
    else L.redis.set (captcha_key L subject id) (L.hash_dimension answer) (pos 300000) s

unfoldable pub verify_captcha :
    (L : Limiter) → Str → Str → Str → L.redis.State → L.redis.State × Bool
unfolding captcha_key drop_keys
verify_captcha L subject id answer s =
    if not L.configured || is_empty id || not (length answer == 4)
    then (s, false)
    else elim (L.redis.get (captcha_key L subject id) s) [
      | none ↦ (s, false)
      | some want ↦
          if str_eq want (L.hash_dimension answer)
          then (drop_keys L.redis (captcha_key L subject id ∷ []) s, true)
          else (s, false)
    ]

-- RecordViolation: the count of a day. An error is passed over.
unfoldable pub record_violation : (R : Redis) → Str → R.State → R.State
record_violation R key s = elim (R.exec_incr ((codes "viol:" ++ key) ∷ []) (pos 86400000) s) [
  | none ↦ s
  | some r ↦ r.0
]
