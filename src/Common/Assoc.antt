-- ===== src/Common/Assoc.antt =====
-- Predicates on all entries of an association list, and sets of connections under keys.
use mathlib.Core.Path.{◌≡◌, refl}
use mathlib.Core.Logic.{inl, inr}
use mathlib.Core.Bool.{true, false, ◌||◌}
use mathlib.Core.Option.{none, some}
use mathlib.Core.List.{List, [], ◌∷◌, ◌++◌}
use native.Mathlib.Omega.{arith}
use custom_service.Common.Tests.{Bool-cases}
use custom_service.Common.Text.{Str, str_eq, str_eq_iff}
use custom_service.Common.Maps.{
  Map, lookup, store, delete, modify, contains, add, remove, contains-remove, Distinct,
}

module _ {ℓ κ} {V : Type ℓ} where
  abbrev pub Entries : (Str → V → Type κ) → Map V → Type κ
  Entries P [] = Unit
  Entries P ((k, v) ∷ m) = P k v × Entries P m

  pub Entries-lookup :
      (P : Str → V → Type κ) (m : Map V) (k : Str) (v : V)
      → Entries P m
      → lookup k m ≡ some v
      → P k v
  unfolding lookup
  Entries-lookup P [] k v h e = absurd (ground arith)
  Entries-lookup P ((j, w) ∷ m) k v h e = elim (Bool-cases (str_eq j k)) [
    | inr ne ↦ Entries-lookup P m k v h.1 (rw ne at e)
    | inl same ↦
        let p : some w ≡ some v = rw same at e in
        let q : w ≡ v = cc in rw (← (str_eq_iff j k).0 same, ← q) (h.0)
  ]

  pub Entries-store :
      (P : Str → V → Type κ) (m : Map V) (k : Str) (v : V)
      → P k v
      → Entries P m
      → Entries P (store k v m)
  unfolding store
  Entries-store P [] k v new h = (new, tt)
  Entries-store P ((j, w) ∷ m) k v new h = elim (Bool-cases (str_eq j k)) [
    | inr ne ↦ rw ne (h.0, Entries-store P m k v new h.1)
    | inl same ↦ rw same (new, h.1)
  ]

  pub Entries-delete :
      (P : Str → V → Type κ) (m : Map V) (k : Str) → Entries P m → Entries P (delete k m)
  unfolding delete
  Entries-delete P [] k h = tt
  Entries-delete P ((j, w) ∷ m) k h = elim (Bool-cases (str_eq j k)) [
    | inr ne ↦ rw ne (h.0, Entries-delete P m k h.1)
    | inl same ↦ rw same (Entries-delete P m k h.1)
  ]

  pub Entries-modify :
      (P : Str → V → Type κ) (m : Map V) (k : Str) (f : V → V)
      → ((j : Str) (v : V) → P j v → P j (f v))
      → Entries P m
      → Entries P (modify k f m)
  unfolding modify
  Entries-modify P [] k f g h = tt
  Entries-modify P ((j, w) ∷ m) k f g h = elim (Bool-cases (str_eq j k)) [
    | inr ne ↦ rw ne (h.0, Entries-modify P m k f g h.1)
    | inl same ↦ rw same (g j w h.0, Entries-modify P m k f g h.1)
  ]

  pub Entries-map :
      (P Q : Str → V → Type κ) (m : Map V)
      → ((j : Str) (v : V) → P j v → Q j v)
      → Entries P m
      → Entries Q m
  Entries-map P Q [] g h = tt
  Entries-map P Q ((j, w) ∷ m) g h = (g j w h.0, Entries-map P Q m g h.1)

  -- The change of one key, where the predicate changes too.
  pub Entries-modify_key :
      (P Q : Str → V → Type κ) (m : Map V) (k : Str) (f : V → V)
      → ((v : V) → P k v → Q k (f v))
      → ((j : Str) (v : V) → str_eq j k ≡ false → P j v → Q j v)
      → Entries P m
      → Entries Q (modify k f m)
  unfolding modify
  Entries-modify_key P Q [] k f g o h = tt
  Entries-modify_key P Q ((j, w) ∷ m) k f g o h =
      let rest = Entries-modify_key P Q m k f g o h.1 in
      elim (Bool-cases (str_eq j k)) [
        | inr ne ↦ rw ne (o j w ne h.0, rest)
        | inl same ↦
            let p : P k w = rw (← (str_eq_iff j k).0 same) (h.0) in
            let q : Q j (f w) = rw ((str_eq_iff j k).0 same) (g w p) in rw same (q, rest)
      ]

  pub Entries-delete_key :
      (P Q : Str → V → Type κ) (m : Map V) (k : Str)
      → ((j : Str) (v : V) → str_eq j k ≡ false → P j v → Q j v)
      → Entries P m
      → Entries Q (delete k m)
  unfolding delete
  Entries-delete_key P Q [] k o h = tt
  Entries-delete_key P Q ((j, w) ∷ m) k o h =
      let rest = Entries-delete_key P Q m k o h.1 in
      elim (Bool-cases (str_eq j k)) [
        | inr ne ↦ rw ne (o j w ne h.0, rest)
        | inl same ↦ rw same rest
      ]

  -- A key that is looked up in vain has no entry.
  pub Entries-missing :
      (P Q : Str → V → Type κ) (m : Map V) (k : Str)
      → lookup k m ≡ none
      → ((j : Str) (v : V) → str_eq j k ≡ false → P j v → Q j v)
      → Entries P m
      → Entries Q m
  unfolding lookup
  Entries-missing P Q [] k e o h = tt
  Entries-missing P Q ((j, w) ∷ m) k e o h = elim (Bool-cases (str_eq j k)) [
    | inr ne ↦ (o j w ne h.0, Entries-missing P Q m k (rw ne at e) o h.1)
    | inl same ↦ absurd (ground (arith, e))
  ]

pub Distinct-add : (k : Str) (s : List Str) → Distinct s → Distinct (add k s)
unfolding add
Distinct-add k s d = elim (Bool-cases (contains k s)) [
  | inl old ↦ rw old d
  | inr new ↦ rw new (new, d)
]

pub Distinct-remove : (k : Str) (s : List Str) → Distinct s → Distinct (remove k s)
unfolding remove
Distinct-remove k [] d = tt
Distinct-remove k (j ∷ s) d = elim (Bool-cases (str_eq j k)) [
  | inl same ↦ rw same (Distinct-remove k s d.1)
  | inr ne ↦ rw ne ((ground (arith, contains-remove k j s, d.0)), Distinct-remove k s d.1)
]

pub contains-append :
    (k : Str) (s t : List Str) → contains k (s ++ t) ≡ contains k s || contains k t
unfolding contains
contains-append k [] t = refl
contains-append k (j ∷ s) t = ground (arith, contains-append k s t)

-- Two lists without a common element.
abbrev pub Apart : List Str → List Str → Type 0
Apart s t = (k : Str) → contains k s ≡ true → contains k t ≡ false

pub Distinct-append : (s t : List Str) → Distinct s → Distinct t → Apart s t → Distinct (s ++ t)
unfolding contains
Distinct-append [] t ds dt a = dt
Distinct-append (j ∷ s) t ds dt a = (
  ground (arith, contains-append j s t, ds.0, a j, str_eq_iff j j),
  Distinct-append s t ds.1 dt (λ k h. a k (ground arith)),
)

pub append-Distinct : (s t : List Str) → Distinct (s ++ t) → Distinct s × Distinct t × Apart s t
unfolding contains
append-Distinct [] t d = (tt, d, λ k h. ground arith)
append-Distinct (j ∷ s) t d =
    let (ds, dt, a) = append-Distinct s t d.1 in
    (
      (ground (arith, contains-append j s t, d.0), ds),
      dt,
      λ k h. ground (arith, contains-append j s t, d.0, str_eq_iff j k, a k),
    )
