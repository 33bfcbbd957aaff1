-- ===== src/Common/Maps.antt =====
-- Go maps and sync.Map with string keys, as association lists; a set of strings as a list.
use mathlib.Core.Path.{◌≡◌, refl}
use mathlib.Core.Bool.{Bool, true, false, ◌||◌, ◌&&◌, not}
use mathlib.Core.Option
use mathlib.Core.Option.{Option, none, some}
use mathlib.Core.List.{List, [], ◌∷◌}
use native.Mathlib.Omega.{arith}
use mathlib.Core.Logic.{inl, inr}
use custom_service.Common.Tests.{if◌then◌else◌, Bool-cases, Option-cases}
use custom_service.Common.Text.{Str, str_eq, str_eq_iff}

abbrev pub Map {ℓ} : Type ℓ → Type ℓ
Map V = List (Str × V)

module _ {ℓ} {V : Type ℓ} where
  unfoldable pub lookup : Str → Map V → Option V
  lookup k [] = none
  lookup k ((j, v) ∷ m) = if str_eq j k then some v else lookup k m

  unfoldable pub store : Str → V → Map V → Map V
  store k v [] = (k, v) ∷ []
  store k v ((j, w) ∷ m) = if str_eq j k then (k, v) ∷ m else (j, w) ∷ store k v m

  unfoldable pub delete : Str → Map V → Map V
  delete k [] = []
  delete k ((j, w) ∷ m) = if str_eq j k then delete k m else (j, w) ∷ delete k m

  -- A write through the pointer that is stored under the key.
  unfoldable pub modify : Str → (V → V) → Map V → Map V
  modify k f [] = []
  modify k f ((j, w) ∷ m) = if str_eq j k then (j, f w) ∷ modify k f m else (j, w) ∷ modify k f m

  unfoldable pub has_key : Str → Map V → Bool
  has_key k [] = false
  has_key k ((j, w) ∷ m) = if str_eq j k then true else has_key k m

  pub has_key-store : (k : Str) (v : V) (m : Map V) → has_key k (store k v m) ≡ true
  unfolding has_key store
  has_key-store k v [] = ground (arith, str_eq_iff k k)
  has_key-store k v ((i, w) ∷ m) =
      ground (arith, str_eq_iff k k, str_eq_iff i k, has_key-store k v m)

  pub lookup-store :
      (k j : Str) (v : V) (m : Map V)
      → lookup j (store k v m) ≡ (if str_eq k j then some v else lookup j m)
  unfolding lookup store
  lookup-store k j v [] = refl
  lookup-store k j v ((i, w) ∷ m) =
      ground (arith, str_eq_iff k j, str_eq_iff i k, str_eq_iff i j, lookup-store k j v m)

  pub lookup-delete :
      (k j : Str) (m : Map V) → lookup j (delete k m) ≡ (if str_eq k j then none else lookup j m)
  unfolding lookup delete
  lookup-delete k j [] = ground arith
  lookup-delete k j ((i, w) ∷ m) =
      ground (arith, str_eq_iff k j, str_eq_iff i k, str_eq_iff i j, lookup-delete k j m)

  pub lookup-modify :
      (k j : Str) (f : V → V) (m : Map V)
      → lookup j (modify k f m) ≡ (if str_eq k j then Option.map f (lookup j m) else lookup j m)
  unfolding lookup modify
  lookup-modify k j f [] = ground arith
  lookup-modify k j f ((i, w) ∷ m) =
      ground (arith, str_eq_iff k j, str_eq_iff i k, str_eq_iff i j, lookup-modify k j f m)

  -- A predicate of the values, entry by entry as a lookup meets them.
  abbrev pub Every {κ} : (V → Type κ) → Map V → Type (ℓ ⊔ κ)
  Every Q m = (k : Str) (v : V) → lookup k m ≡ some v → Q v

  pub modify-Every {κ} :
      (Q : V → Type κ) (conn : Str) (f : V → V) (m : Map V)
      → ((v : V) → lookup conn m ≡ some v → Q (f v))
      → Every Q m
      → Every Q (modify conn f m)
  modify-Every Q conn f m new old k v e = elim (Bool-cases (str_eq conn k)) [
    | inl same ↦ elim (Option-cases (lookup k m)) [
      | inl missing ↦ absurd (ground (arith, lookup-modify conn k f m))
      | inr (w, found) ↦
          let p : v ≡ f w = ground (arith, lookup-modify conn k f m) in
          rw p (new w (rw ((str_eq_iff conn k).0 same) found))
    ]
    | inr other ↦ old k v (ground (arith, lookup-modify conn k f m))
  ]

-- sync.Map whose keys are the connection IDs of its values: a set of connection IDs.
unfoldable pub contains : Str → List Str → Bool
contains k [] = false
contains k (j ∷ s) = str_eq j k || contains k s

unfoldable pub add : Str → List Str → List Str
unfolding contains
add k s = if contains k s then s else k ∷ s

unfoldable pub remove : Str → List Str → List Str
remove k [] = []
remove k (j ∷ s) = if str_eq j k then remove k s else j ∷ remove k s

pub contains-add : (k j : Str) (s : List Str) → contains j (add k s) ≡ str_eq k j || contains j s
unfolding add contains
contains-add k j s = ground (arith, str_eq_iff k j)

pub contains-remove :
    (k j : Str) (s : List Str) → contains j (remove k s) ≡ not (str_eq k j) && contains j s
unfolding remove contains
contains-remove k j [] = ground arith
contains-remove k j (i ∷ s) =
    ground (arith, str_eq_iff k j, str_eq_iff i k, str_eq_iff i j, contains-remove k j s)

-- A list without repetitions.
abbrev pub Distinct : List Str → Type 0
Distinct [] = Unit
Distinct (k ∷ s) = (contains k s ≡ false) × Distinct s
