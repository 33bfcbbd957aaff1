-- ===== src/TextFilter/Automaton/Nodes.antt =====
-- The nodes of the automaton of backend/internal/textfilter/automaton.go as a table, and the edges of a
-- node.
use custom_service.Common.{
  ◌≡◌, ◌≢◌, refl, ap, ℕ, zero, suc, ◌<◌, ◌==◌, ==_iff, some, List, [], ◌∷◌, ◌++◌, arith, length,
  All, Bool-cases, inl, inr,
}
use custom_service.TextFilter.Automaton.{Edge, Node, edge_to, node_at, change_node}

pub length-change_node :
    (i : ℕ) (f : Node → Node) (ns : List Node) → length (change_node i f ns) ≡ length ns
unfolding change_node
length-change_node i f [] = refl
length-change_node zero f (n ∷ ns) = refl
length-change_node (suc i) f (n ∷ ns) = ap suc (length-change_node i f ns)

pub node_at-change_node :
    (i : ℕ) (f : Node → Node) (ns : List Node)
    → i < length ns
    → node_at (change_node i f ns) i ≡ f (node_at ns i)
unfolding change_node node_at
node_at-change_node i f [] h = absurd (omega (arith, h))
node_at-change_node zero f (n ∷ ns) h = refl
node_at-change_node (suc i) f (n ∷ ns) h = node_at-change_node i f ns (omega (arith, h))

pub node_at-change_node_other :
    (i j : ℕ) (f : Node → Node) (ns : List Node)
    → j ≢ i
    → node_at (change_node i f ns) j ≡ node_at ns j
unfolding change_node node_at
node_at-change_node_other i j f [] h = refl
node_at-change_node_other zero zero f (n ∷ ns) h = absurd (h refl)
node_at-change_node_other zero (suc j) f (n ∷ ns) h = refl
node_at-change_node_other (suc i) zero f (n ∷ ns) h = refl
node_at-change_node_other (suc i) (suc j) f (n ∷ ns) h =
    node_at-change_node_other i j f ns (λ e. h (ap suc e))

pub node_at-append :
    (ns : List Node) (n : Node) (i : ℕ) → i < length ns → node_at (ns ++ n ∷ []) i ≡ node_at ns i
unfolding node_at
node_at-append [] n i h = absurd (omega (arith, h))
node_at-append (m ∷ ns) n zero h = refl
node_at-append (m ∷ ns) n (suc i) h = node_at-append ns n i (omega (arith, h))

pub node_at-append_last : (ns : List Node) (n : Node) → node_at (ns ++ n ∷ []) (length ns) ≡ n
unfolding node_at
node_at-append_last [] n = refl
node_at-append_last (m ∷ ns) n = node_at-append_last ns n

-- An edge that is found is among the edges.
pub edge_to-All :
    (P : Edge → Type 0) (es : List Edge) (r t : ℕ)
    → All P es
    → edge_to es r ≡ some t
    → P (record { rune = r; target = t })
unfolding edge_to
edge_to-All P [] r t h q = absurd (cc)
edge_to-All P (e ∷ es) r t h q = elim (Bool-cases (e.rune == r)) [
  | inl same ↦
      let a : e.rune ≡ r = (==_iff e.rune r).0 same in
      let b : e.target ≡ t = let q' : some e.target ≡ some t = rw (same, edge_to) at q in cc in
      rw (← a, ← b) (h.0)
  | inr other ↦ edge_to-All P es r t h.1 (rw (other, edge_to) at q)
]
