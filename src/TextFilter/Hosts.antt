-- ===== src/TextFilter/Hosts.antt =====
-- hostOf and allowedHost of backend/internal/textfilter/textfilter.go.
pub mod Allowed
use custom_service.Common.{
  ℕ, ◌+◌, ◌-◌, suc, Bool, true, false, ◌&&◌, ◌||◌, not, ◌==◌, Option, none, some, List, [], ◌∷◌,
  ◌++◌, ltb, leb, if◌then◌else◌, Str, str_eq, is_empty, has_prefix, length, take, drop, codes,
}

-- strings.ReplaceAll u " " ""
unfoldable pub remove_spaces : Str → Str
remove_spaces [] = []
remove_spaces (r ∷ rs) = if r == b' ' then remove_spaces rs else r ∷ remove_spaces rs

-- u[strings.Index(u, p)+len(p):], or u without p.
unfoldable pub after_text : Str → Str → Option Str
unfolding has_prefix
after_text p [] = none
after_text p (r ∷ rs) =
    if has_prefix (r ∷ rs) p then some (drop (length p) (r ∷ rs)) else after_text p rs

unfoldable pub strip_scheme : Str → Str
unfolding after_text
strip_scheme u = elim (after_text (codes "://") u) [ none ↦ u | some rest ↦ rest ]

-- The part before the first rune of a class.
unfoldable pub until : (ℕ → Bool) → Str → Str
until f [] = []
until f (r ∷ rs) = if f r then [] else r ∷ until f rs

-- The part after the last @.
unfoldable pub after_last_at : Str → Option Str
after_last_at [] = none
after_last_at (r ∷ rs) = elim (after_last_at rs) [
  | some rest ↦ some rest
  | none ↦ if r == b'@' then some rs else none
]

unfoldable pub strip_user : Str → Str
unfolding after_last_at
strip_user u = elim (after_last_at u) [ none ↦ u | some rest ↦ rest ]

unfoldable pub is_path_start : ℕ → Bool
is_path_start r = r == b'/' || r == b'?' || r == b'#'

unfoldable pub trim_left_dots : Str → Str
trim_left_dots [] = []
trim_left_dots (r ∷ rs) = if r == b'.' then trim_left_dots rs else r ∷ rs

unfoldable pub trim_right_dots : Str → Str
trim_right_dots [] = []
trim_right_dots (r ∷ rs) =
    let rest = trim_right_dots rs in if r == b'.' && is_empty rest then [] else r ∷ rest

unfoldable pub host_of : Str → Str
unfolding remove_spaces strip_scheme until strip_user is_path_start trim_left_dots trim_right_dots
host_of u = trim_right_dots (
    trim_left_dots
      (until (λ r. r == b':') (strip_user (until is_path_start (strip_scheme (remove_spaces u))))))

-- strings.HasSuffix s p
unfoldable pub has_suffix : Str → Str → Bool
unfolding str_eq
has_suffix s p = leb (length p) (length s) && str_eq (drop (length s - length p) s) p

unfoldable pub under_domain : Str → Str → Bool
unfolding str_eq has_suffix
under_domain host d = str_eq host d || has_suffix host (b'.' ∷ d)

unfoldable pub any_domain : Str → List Str → Bool
unfolding under_domain
any_domain host [] = false
any_domain host (d ∷ ds) = under_domain host d || any_domain host ds

unfoldable pub allowed_host : List Str → Str → Bool
unfolding is_empty any_domain
allowed_host domains host = if is_empty host then false else any_domain host domains
