-- ===== src/Ws/Index/Sets.antt =====
-- What the operations of the index do to its sets of connections.
use custom_service.Common.{
  ◌∙◌, ◌≡◌, refl, inl, inr, true, false, ◌||◌, List, [], ◌∷◌, arith, Bool-cases, Str, str_eq,
  str_eq_iff, Map, lookup, store, delete, modify, contains, add, remove, contains-add,
  contains-remove, Distinct, Entries, Distinct-add, Distinct-remove, contains-append,
  Distinct-append, append-Distinct,
}
use custom_service.Ws.Index.{conns_of, all_conns}

-- A connection of some account stands in the set of one of the accounts.
pub all_conns-Entries :
    (P : Str → Type 0) (m : Map (List Str)) (k : Str)
    → Entries (λ aid s. (conn : Str) → contains conn s ≡ true → P conn) m
    → contains k (all_conns m) ≡ true
    → P k
unfolding all_conns contains
all_conns-Entries P [] k h e = absurd (ground arith)
all_conns-Entries P ((aid, s) ∷ m) k h e = elim (Bool-cases (contains k s)) [
  | inl here ↦ h.0 k here
  | inr later ↦ all_conns-Entries P m k h.1 (ground (arith, contains-append k s (all_conns m)))
]

conns_of-here :
    (j aid : Str) (s : List Str) (m : Map (List Str))
    → str_eq j aid ≡ true
    → conns_of aid ((j, s) ∷ m) ≡ s
unfolding conns_of lookup
conns_of-here j aid s m h = rw (h, conns_of)

conns_of-later :
    (j aid : Str) (s : List Str) (m : Map (List Str))
    → str_eq j aid ≡ false
    → conns_of aid ((j, s) ∷ m) ≡ conns_of aid m
unfolding conns_of lookup
conns_of-later j aid s m h = rw (h, conns_of)

-- A connection that joins an account is the only one that is new.
all_conns-add :
    (aid conn k : Str) (m : Map (List Str)) (v : List Str)
    → v ≡ conns_of aid m
    → contains k (all_conns (store aid (add conn v) m)) ≡ str_eq conn k || contains k (all_conns m)
unfolding all_conns store
all_conns-add aid conn k [] v e =
    let e' : v ≡ [] = e ∙ (unfold conns_of lookup in refl) in
    rw e' (unfold contains add in ground arith)
all_conns-add aid conn k ((j, s) ∷ m) v e = elim (Bool-cases (str_eq j aid)) [
  | inl same ↦
      let e' : v ≡ s = e ∙ conns_of-here j aid s m same in
      rw (same, e')
        (ground (
          arith,
          contains-append k (add conn s) (all_conns m),
          contains-add conn k s,
          contains-append k s (all_conns m),
        ))
  | inr ne ↦ rw ne (
      ground (
        arith,
        contains-append k s (all_conns (store aid (add conn v) m)),
        contains-append k s (all_conns m),
        all_conns-add aid conn k m v (e ∙ conns_of-later j aid s m ne),
      ))
]

pub Distinct-all-add :
    (aid conn : Str) (m : Map (List Str)) (v : List Str)
    → v ≡ conns_of aid m
    → contains conn (all_conns m) ≡ false
    → Distinct (all_conns m)
    → Distinct (all_conns (store aid (add conn v) m))
unfolding all_conns store
Distinct-all-add aid conn [] v e f d =
    let e' : v ≡ [] = e ∙ (unfold conns_of lookup in refl) in
    rw e' (unfold add contains in (refl, tt))
Distinct-all-add aid conn ((j, s) ∷ m) v e f d =
    let (ds, dm, a) = append-Distinct s (all_conns m) d in
    elim (Bool-cases (str_eq j aid)) [
      | inl same ↦
          let e' : v ≡ s = e ∙ conns_of-here j aid s m same in
          rw (same, e')
            (Distinct-append (add conn s) (all_conns m) (Distinct-add conn s ds) dm (λ k h. ground (
              arith,
              contains-add conn k s,
              contains-append conn s (all_conns m),
              a k,
              str_eq_iff conn k,
            )))
      | inr ne ↦
          let e' : v ≡ conns_of aid m = e ∙ conns_of-later j aid s m ne in
          rw ne (
            Distinct-append s (all_conns (store aid (add conn v) m)) ds
              (Distinct-all-add aid conn m v e'
                (ground (arith, contains-append conn s (all_conns m))) dm)
              (λ k h. ground (
                arith,
                all_conns-add aid conn k m v e',
                a k,
                contains-append conn s (all_conns m),
                str_eq_iff conn k,
              )))
    ]

-- Fewer connections under a key, and fewer keys.
all_conns-modify :
    (aid conn k : Str) (m : Map (List Str))
    → contains k (all_conns m) ≡ false
    → contains k (all_conns (modify aid (remove conn) m)) ≡ false
unfolding all_conns modify
all_conns-modify aid conn k [] h = h
all_conns-modify aid conn k ((j, s) ∷ m) h = elim (Bool-cases (str_eq j aid)) [
  | inl same ↦ rw same (
      ground (
        arith,
        contains-append k (remove conn s) (all_conns (modify aid (remove conn) m)),
        contains-append k s (all_conns m),
        contains-remove conn k s,
        all_conns-modify aid conn k m,
      ))
  | inr ne ↦ rw ne (
      ground (
        arith,
        contains-append k s (all_conns (modify aid (remove conn) m)),
        contains-append k s (all_conns m),
        all_conns-modify aid conn k m,
      ))
]

all_conns-delete :
    (aid k : Str) (m : Map (List Str))
    → contains k (all_conns m) ≡ false
    → contains k (all_conns (delete aid m)) ≡ false
unfolding all_conns delete
all_conns-delete aid k [] h = h
all_conns-delete aid k ((j, s) ∷ m) h = elim (Bool-cases (str_eq j aid)) [
  | inl same ↦ rw same (ground (arith, contains-append k s (all_conns m), all_conns-delete aid k m))
  | inr ne ↦ rw ne (
      ground (
        arith,
        contains-append k s (all_conns (delete aid m)),
        contains-append k s (all_conns m),
        all_conns-delete aid k m,
      ))
]

pub Distinct-all-modify :
    (aid conn : Str) (m : Map (List Str))
    → Distinct (all_conns m)
    → Distinct (all_conns (modify aid (remove conn) m))
unfolding all_conns modify
Distinct-all-modify aid conn [] d = d
Distinct-all-modify aid conn ((j, s) ∷ m) d =
    let (ds, dm, a) = append-Distinct s (all_conns m) d in
    elim (Bool-cases (str_eq j aid)) [
      | inl same ↦ rw same (
          Distinct-append (remove conn s) _ (Distinct-remove conn s ds)
            (Distinct-all-modify aid conn m dm)
            (λ k h. all_conns-modify aid conn k m (ground (arith, a k, contains-remove conn k s))))
      | inr ne ↦ rw ne (
          Distinct-append s _ ds (Distinct-all-modify aid conn m dm)
            (λ k h. all_conns-modify aid conn k m (a k h)))
    ]

pub Distinct-all-delete :
    (aid : Str) (m : Map (List Str)) → Distinct (all_conns m) → Distinct (all_conns (delete aid m))
unfolding all_conns delete
Distinct-all-delete aid [] d = d
Distinct-all-delete aid ((j, s) ∷ m) d =
    let (ds, dm, a) = append-Distinct s (all_conns m) d in
    elim (Bool-cases (str_eq j aid)) [
      | inl same ↦ rw same (Distinct-all-delete aid m dm)
      | inr ne ↦ rw ne (
          Distinct-append s _ ds (Distinct-all-delete aid m dm)
            (λ k h. all_conns-delete aid k m (a k h)))
    ]
