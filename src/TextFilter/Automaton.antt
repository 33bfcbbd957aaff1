-- ===== src/TextFilter/Automaton.antt =====
-- backend/internal/textfilter/automaton.go: the automaton that finds all words of a list at once. A node
-- is its index. The loop over a queue runs on fuel, one step for each node.
pub mod Nodes
pub mod Labels
pub mod Trie
pub mod Links
pub mod Sound
use custom_service.Common.{
  ℕ, zero, suc, ◌-◌, Bool, true, false, ◌==◌, Option, none, some, List, [], ◌∷◌, ◌++◌,
  if◌then◌else◌, Str, length,
}
use custom_service.TextFilter.Runes.{Category}

pub record Pattern : Type 0 where
  pub length_of : ℕ
  pub cat : Category
  pub ascii : Bool

pub record Edge : Type 0 where
  pub rune : ℕ
  pub target : ℕ

-- A node: the map `next`, the node to fall back on, and the words that end here.
pub record Node : Type 0 where
  pub next : List Edge
  pub fail : ℕ
  pub out : List ℕ

abbrev pub bare_node : Node
bare_node = record { next = []; fail = 0; out = [] }

unfoldable pub edge_to : List Edge → ℕ → Option ℕ
edge_to [] r = none
edge_to (e ∷ es) r = if e.rune == r then some e.target else edge_to es r

unfoldable pub node_at : List Node → ℕ → Node
node_at [] i = bare_node
node_at (n ∷ ns) zero = n
node_at (n ∷ ns) (suc i) = node_at ns i

unfoldable pub change_node : ℕ → (Node → Node) → List Node → List Node
change_node i f [] = []
change_node zero f (n ∷ ns) = f n ∷ ns
change_node (suc i) f (n ∷ ns) = n ∷ change_node i f ns

unfoldable pub go_to : List Node → ℕ → ℕ → Option ℕ
unfolding edge_to node_at
go_to nodes cur r = edge_to (node_at nodes cur).next r

-- The step of the loop over the runes of a word: a node is added where there is none.
unfoldable pub add_edge : ℕ → ℕ → List Node → List Node
unfolding change_node
add_edge cur r nodes =
    change_node cur (λ n. record n { next = record { rune = r; target = length nodes } ∷ n.next })
      nodes
    ++ bare_node ∷ []

unfoldable pub add_out : List ℕ → Node → Node
add_out ps n = record n { out = n.out ++ ps }

unfoldable pub add_word : ℕ → ℕ → Str → List Node → List Node
unfolding go_to add_edge change_node add_out
add_word pattern cur [] nodes = change_node cur (add_out (pattern ∷ [])) nodes
add_word pattern cur (r ∷ rs) nodes = elim (go_to nodes cur r) [
  | some next ↦ add_word pattern next rs nodes
  | none ↦ add_word pattern (length nodes) rs (add_edge cur r nodes)
]

unfoldable pub add_words : ℕ → List Str → List Node → List Node
unfolding add_word
add_words pattern [] nodes = nodes
add_words pattern (w ∷ ws) nodes = add_words (suc pattern) ws (add_word pattern 0 w nodes)

-- From a node back along `fail` until one has an edge for the rune, or the root.
unfoldable pub fall_back : ℕ → List Node → ℕ → ℕ → ℕ
unfolding go_to node_at
fall_back zero nodes f r = f
fall_back (suc fuel) nodes f r = elim (f == 0) [
  | true ↦ 0
  | false ↦ elim (go_to nodes f r) [
    | some next ↦ f
    | none ↦ fall_back fuel nodes (node_at nodes f).fail r
  ]
]

-- Where the search goes on for a child v that is reached by the rune r, given the node that its parent
-- falls back on.
unfoldable pub fail_of : List Node → ℕ → ℕ → ℕ → ℕ
unfolding fall_back go_to
fail_of nodes f r v = elim (go_to nodes (fall_back (length nodes) nodes f r) r) [
  | none ↦ 0
  | some next ↦ if next == v then 0 else next
]

unfoldable pub link_child : List Node → ℕ → Edge → List Node
unfolding fail_of change_node add_out node_at
link_child nodes u e =
    let f = fail_of nodes (node_at nodes u).fail e.rune e.target in
    let linked = change_node e.target (λ n. record n { fail = f }) nodes in
    change_node e.target (add_out (node_at linked f).out) linked

unfoldable pub link_children : ℕ → List Edge → List Node → List Node
unfolding link_child
link_children u [] nodes = nodes
link_children u (e ∷ es) nodes = link_children u es (link_child nodes u e)

unfoldable pub targets : List Edge → List ℕ
targets [] = []
targets (e ∷ es) = e.target ∷ targets es

unfoldable pub link_all : ℕ → List ℕ → List Node → List Node
unfolding link_children targets node_at
link_all zero queue nodes = nodes
link_all (suc fuel) [] nodes = nodes
link_all (suc fuel) (u ∷ queue) nodes =
    let es = (node_at nodes u).next in
    link_all fuel (queue ++ targets es) (link_children u es nodes)

pub record Automaton : Type 0 where
  pub nodes : List Node
  pub pats : List Pattern

-- The children of the root fall back on it already.
unfoldable pub build_automaton : List Str → List Pattern → Automaton
unfolding add_words link_all targets node_at
build_automaton words meta =
    let trie = add_words 0 words (bare_node ∷ []) in
    record { nodes = link_all (length trie) (targets (node_at trie 0).next) trie; pats = meta }

-- What scan reports: a pattern, and the index of the rune on which it ends.
pub record Found : Type 0 where
  pub pattern : Pattern
  pub stop : ℕ

unfoldable pub pattern_at : List Pattern → ℕ → Option Pattern
pattern_at [] i = none
pattern_at (p ∷ ps) zero = some p
pattern_at (p ∷ ps) (suc i) = pattern_at ps i

unfoldable pub report : List Pattern → ℕ → List ℕ → List Found
unfolding pattern_at
report pats i [] = []
report pats i (p ∷ ps) = elim (pattern_at pats p) [
  | none ↦ report pats i ps
  | some pat ↦ record { pattern = pat; stop = i } ∷ report pats i ps
]

-- The node after a rune.
unfoldable pub advance : List Node → ℕ → ℕ → ℕ
unfolding fall_back go_to
advance nodes cur r =
    let back = fall_back (length nodes) nodes cur r in
    elim (go_to nodes back r) [ none ↦ back | some next ↦ next ]

unfoldable pub scan_from : Automaton → ℕ → ℕ → Str → List Found
unfolding advance report node_at
scan_from a cur i [] = []
scan_from a cur i (r ∷ rs) =
    let next = advance a.nodes cur r in
    report a.pats i (node_at a.nodes next).out ++ scan_from a next (suc i) rs

unfoldable pub scan : Automaton → Str → List Found
unfolding scan_from
scan a text = scan_from a 0 0 text
