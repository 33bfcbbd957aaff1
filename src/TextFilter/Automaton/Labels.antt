-- ===== src/TextFilter/Automaton/Labels.antt =====
-- The text on the way to each node of the automaton of backend/internal/textfilter/automaton.go. A label
-- has the last rune first, so that the end of a text is the start of a label.
use custom_service.Common.{
  subst, ℕ_discrete, ◌≡◌, sym, ap, ◌∙◌, ℕ, zero, suc, ◌<◌, ◌≤◌, Option, none, some, List, [], ◌∷◌,
  ◌++◌, arith, Str, length, All,
}
use custom_service.TextFilter.Automaton.{change_node, go_to, Edge, Node, node_at}
use custom_service.TextFilter.Automaton.Nodes.{
  length-change_node, node_at-change_node, node_at-change_node_other, edge_to-All,
}
use mathlib.Core.List.{append-nil, append_assoc}

abbrev pub word_at : List Str → ℕ → Option Str
word_at [] i = none
word_at (w ∷ ws) zero = some w
word_at (w ∷ ws) (suc i) = word_at ws i

-- The reverse of a text, put before another.
abbrev pub onto : Str → Str → Str
onto [] acc = acc
onto (r ∷ rs) acc = onto rs (r ∷ acc)

abbrev pub Start : Str → Str → Type 0
Start p s = (t : Str) × (s ≡ p ++ t)

pub Start-refl : (p : Str) → Start p p
Start-refl p = ([], sym (append-nil p))

pub Start-trans : (p q s : Str) → Start p q → Start q s → Start p s
Start-trans p q s (t, e) (u, d) = (t ++ u, rw (d, e) (append_assoc p t u))

pub Start-cons : (r : ℕ) (p s : Str) → Start p s → Start (r ∷ p) (r ∷ s)
Start-cons r p s (t, e) = (t, ap (λ z. r ∷ z) e)

-- A word of the list, by its place, with which the label begins.
abbrev pub Ending : List Str → Str → ℕ → Type 0
Ending words s k = (w : Str) × (word_at words k ≡ some w) × Start (onto w []) s

-- A label that is shorter and ends the text of the other.
pub record IsShorter (p s : Str) : Type 0 where
  pub start : Start p s
  pub less : length p < length s

-- An edge of a node i leads to a node whose label is longer by its rune.
pub record IsEdge (lab : ℕ → Str) (n i : ℕ) (e : Edge) : Type 0 where
  pub label : lab e.target ≡ e.rune ∷ lab i
  pub inside : e.target < n
  pub later : 0 < e.target

-- What holds of the node i out of n.
pub record IsGood (words : List Str) (lab : ℕ → Str) (n i : ℕ) (d : Node) : Type 0 where
  pub edges : All (IsEdge lab n i) d.next
  pub falls : 0 < i → IsShorter (lab d.fail) (lab i)
  pub falls_inside : d.fail < n
  pub words_end : All (Ending words (lab i)) d.out
  pub size : length (lab i) ≤ i

pub record IsLabelled (words : List Str) (lab : ℕ → Str) (n : ℕ) (nodes : List Node) : Type 0 where
  pub count : length nodes ≡ n
  pub root : lab 0 ≡ []
  pub good : (i : ℕ) → i < n → IsGood words lab n i (node_at nodes i)

pub All-++ : {A : Type 0} (P : A → Type 0) (xs ys : List A) → All P xs → All P ys → All P (xs ++ ys)
All-++ P [] ys h k = k
All-++ P (x ∷ xs) ys (a, h) k = (a, All-++ P xs ys h k)

-- Labels that agree with the old ones below n are as good.
All-IsEdge :
    (lab new : ℕ → Str) (n m i : ℕ) (es : List Edge)
    → ((j : ℕ) → j < n → new j ≡ lab j)
    → n ≤ m
    → i < n
    → All (IsEdge lab n i) es
    → All (IsEdge new m i) es
All-IsEdge lab new n m i [] same le h es = tt
All-IsEdge lab new n m i (e ∷ es) same le h (g, gs) = (
  record {
    label = same e.target g.inside ∙ g.label ∙ ap (λ z. e.rune ∷ z) (sym (same i h));
    inside = omega (arith, g.inside, le);
    later = g.later;
  },
  All-IsEdge lab new n m i es same le h gs,
)

pub IsGood-extend :
    (words : List Str) (lab new : ℕ → Str) (n m i : ℕ) (d : Node)
    → ((j : ℕ) → j < n → new j ≡ lab j)
    → n ≤ m
    → i < n
    → IsGood words lab n i d
    → IsGood words new m i d
IsGood-extend words lab new n m i d same le h g = record {
  edges = All-IsEdge lab new n m i d.next same le h g.edges;
  falls = λ p. rw (same i h, same d.fail g.falls_inside) (g.falls p);
  falls_inside = omega (arith, g.falls_inside, le);
  words_end = rw (same i h) (g.words_end);
  size = rw (same i h) (g.size);
}

pub recount :
    (words : List Str) (lab : ℕ → Str) (n : ℕ) (nodes : List Node)
    → IsLabelled words lab n nodes
    → IsLabelled words lab (length nodes) nodes
recount words lab n nodes h = subst (λ m. IsLabelled words lab m nodes) (sym h.count) h

-- A change of one node that keeps it good.
pub change_node-IsLabelled :
    (words : List Str) (lab : ℕ → Str) (n i : ℕ) (f : Node → Node) (nodes : List Node)
    → i < n
    → (IsGood words lab n i (node_at nodes i) → IsGood words lab n i (f (node_at nodes i)))
    → IsLabelled words lab n nodes
    → IsLabelled words lab n (change_node i f nodes)
change_node-IsLabelled words lab n i f nodes lt keep h = record {
  count = length-change_node i f nodes ∙ h.count;
  root = h.root;
  good = λ j below. elim (ℕ_discrete j i) [
    | yes same ↦
        subst (λ k. IsGood words lab n k (node_at (change_node i f nodes) k)) (sym same)
          (rw (node_at-change_node i f nodes (omega (arith, lt, h.count))) (keep (h.good i lt)))
    | no other ↦ rw (node_at-change_node_other i j f nodes other) (h.good j below)
  ];
}

-- An edge that is taken is an edge of its node.
pub go_to-IsEdge :
    (words : List Str) (lab : ℕ → Str) (n : ℕ) (nodes : List Node) (i r t : ℕ)
    → IsLabelled words lab n nodes
    → i < n
    → go_to nodes i r ≡ some t
    → IsEdge lab n i (record { rune = r; target = t })
unfolding go_to
go_to-IsEdge words lab n nodes i r t h lt q =
    edge_to-All (IsEdge lab n i) (node_at nodes i).next r t (h.good i lt).edges q
