-- ===== src/Service/Run/Slots.antt =====
-- The pools of tasks: their bounds, and what a predicate on tasks keeps through them.
use custom_service.Common.{ℕ, zero, suc, ◌≤◌, ◌≡◌, some, List, [], ◌∷◌, ◌++◌, arith, length, All}
use custom_service.Service.Run.{Task, nth, remove_nth}

pub length-remove_nth : (k : ℕ) (ts : List Task) → length (remove_nth k ts) ≤ length ts
unfolding remove_nth
length-remove_nth k [] = omega arith
length-remove_nth zero (t ∷ ts) = omega arith
length-remove_nth (suc k) (t ∷ ts) = omega (arith, length-remove_nth k ts)

pub All-append :
    (P : Task → Type 0) (ts : List Task) (t : Task) → All P ts → P t → All P (ts ++ t ∷ [])
All-append P [] t a p = (p, tt)
All-append P (u ∷ ts) t (b, a) p = (b, All-append P ts t a p)

pub All-remove_nth :
    (P : Task → Type 0) (k : ℕ) (ts : List Task) → All P ts → All P (remove_nth k ts)
unfolding remove_nth
All-remove_nth P k [] a = tt
All-remove_nth P zero (t ∷ ts) (b, a) = a
All-remove_nth P (suc k) (t ∷ ts) (b, a) = (b, All-remove_nth P k ts a)

pub All-nth :
    (P : Task → Type 0) (k : ℕ) (ts : List Task) (t : Task) → All P ts → nth k ts ≡ some t → P t
unfolding nth
All-nth P k [] t a h = absurd (cc)
All-nth P zero (u ∷ ts) t (b, a) h = let q : u ≡ t = cc in rw (← q) b
All-nth P (suc k) (u ∷ ts) t (b, a) h = All-nth P k ts t a h
