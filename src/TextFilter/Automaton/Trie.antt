-- ===== src/TextFilter/Automaton/Trie.antt =====
-- The words are put into the automaton of backend/internal/textfilter/automaton.go one after the other.
use custom_service.Common.{
  true, false, ◌≡◌, refl, sym, ap, ◌∙◌, subst, ℕ, suc, ◌+◌, ◌<◌, ◌==◌, if◌then◌else◌, some, List,
  [], ◌∷◌, ◌++◌, arith, Str, length, length-append, inl, inr, Option-cases, ℕ_discrete,
}
use custom_service.TextFilter.Automaton.{
  Node, bare_node, node_at, change_node, go_to, add_edge, add_out, add_word, add_words,
}
use custom_service.TextFilter.Automaton.Nodes.{
  length-change_node, node_at-change_node, node_at-change_node_other, node_at-append,
  node_at-append_last,
}
use custom_service.TextFilter.Automaton.Labels.{
  word_at, onto, Ending, Start-refl, IsEdge, IsGood, IsLabelled, IsGood-extend, recount, All-++,
  change_node-IsLabelled, go_to-IsEdge,
}

-- The labels with one more.
abbrev extend : (ℕ → Str) → ℕ → Str → ℕ → Str
extend lab n s j = if j == n then s else lab j

extend-old : (lab : ℕ → Str) (n : ℕ) (s : Str) (j : ℕ) → j < n → extend lab n s j ≡ lab j
extend-old lab n s j lt = let e : (j == n) ≡ false = ground (arith, lt) in rw e refl

extend-new : (lab : ℕ → Str) (n : ℕ) (s : Str) → extend lab n s n ≡ s
extend-new lab n s = let e : (n == n) ≡ true = ground arith in rw e refl

-- What add_edge does to the old nodes.
old_nodes-IsGood :
    (words : List Str) (lab : ℕ → Str) (nodes : List Node) (cur r i : ℕ)
    → IsLabelled words lab (length nodes) nodes
    → cur < length nodes
    → i < length nodes
    → IsGood words (extend lab (length nodes) (r ∷ lab cur)) (suc (length nodes)) i (
        node_at
          (change_node cur
            (λ n. record n { next = record { rune = r; target = length nodes } ∷ n.next })
            nodes)
          i)
old_nodes-IsGood words lab nodes cur r i h lt below =
    let s = r ∷ lab cur in
    let n = length nodes in
    let f : Node → Node = λ d. record d { next = record { rune = r; target = n } ∷ d.next } in
    let old : (j : ℕ) → j < n → extend lab n s j ≡ lab j = extend-old lab n s in
    elim (ℕ_discrete i cur) [
      | yes same ↦
          let g =
            IsGood-extend words lab (extend lab n s) n (suc n) cur (node_at nodes cur) old
              (omega arith) lt (h.good cur lt) in
          let e : IsEdge (extend lab n s) (suc n) cur (record { rune = r; target = n }) = record {
            label = extend-new lab n s ∙ ap (λ z. r ∷ z) (sym (old cur lt));
            inside = omega arith;
            later = omega (arith, lt);
          } in
          rw (same, node_at-change_node cur f nodes lt)
            (record {
              edges = (e, g.edges);
              falls = g.falls;
              falls_inside = g.falls_inside;
              words_end = g.words_end;
              size = g.size;
            })
      | no other ↦ rw (node_at-change_node_other cur i f nodes other) (
          IsGood-extend words lab (extend lab n s) n (suc n) i (node_at nodes i) old (omega arith)
            below (h.good i below))
    ]

new_node-IsGood :
    (words : List Str) (lab : ℕ → Str) (nodes : List Node) (cur r : ℕ)
    → IsLabelled words lab (length nodes) nodes
    → cur < length nodes
    → IsGood words
        (extend lab (length nodes) (r ∷ lab cur))
        (suc (length nodes))
        (length nodes)
        bare_node
new_node-IsGood words lab nodes cur r h lt = record {
  edges = tt;
  falls = λ p. record {
    start = (
      r ∷ lab cur,
      extend-new lab _ _
          ∙ ap (λ z. z ++ r ∷ lab cur)
              (sym (extend-old lab (length nodes) (r ∷ lab cur) 0 p ∙ h.root)),
    );
    less =
        rw
          (
            extend-new lab (length nodes) (r ∷ lab cur),
            extend-old lab (length nodes) (r ∷ lab cur) 0 p,
            h.root,
          )
          (omega arith);
  };
  falls_inside = omega arith;
  words_end = tt;
  size = rw (extend-new lab (length nodes) (r ∷ lab cur)) (omega (arith, (h.good cur lt).size, lt));
}

add_edge-IsLabelled :
    (words : List Str) (lab : ℕ → Str) (nodes : List Node) (cur r : ℕ)
    → IsLabelled words lab (length nodes) nodes
    → cur < length nodes
    → IsLabelled words
        (extend lab (length nodes) (r ∷ lab cur))
        (suc (length nodes))
        (add_edge cur r nodes)
unfolding add_edge
add_edge-IsLabelled words lab nodes cur r h lt =
    let f : Node → Node =
      λ n. record n { next = record { rune = r; target = length nodes } ∷ n.next } in
    let changed = change_node cur f nodes in
    let len = length-change_node cur f nodes in
    record {
      count = length-append changed (bare_node ∷ []) ∙ omega (arith, len);
      root = extend-old lab (length nodes) (r ∷ lab cur) 0 (omega (arith, lt)) ∙ h.root;
      good = λ i below. elim (ℕ_discrete i (length nodes)) [
        | yes same ↦
            subst
              (λ k.
                IsGood words (extend lab (length nodes) (r ∷ lab cur)) (suc (length nodes)) k
                  (node_at (changed ++ bare_node ∷ []) k))
              (sym same)
              (let last = node_at-append_last changed bare_node in
                rw (subst (λ k. node_at (changed ++ bare_node ∷ []) k ≡ bare_node) len last)
                  (new_node-IsGood words lab nodes cur r h lt))
        | no other ↦
            rw (node_at-append changed bare_node i (omega (arith, len, below, other)))
              (old_nodes-IsGood words lab nodes cur r i h lt (omega (arith, below, other)))
      ];
    }

-- The nodes with some labels.
abbrev pub Labelled : List Str → List Node → Type 0
Labelled words nodes =
    (lab : ℕ → Str) × (0 < length nodes) × IsLabelled words lab (length nodes) nodes

add_out-IsLabelled :
    (words : List Str) (k : ℕ) (w : Str) (lab : ℕ → Str) (n cur : ℕ) (nodes : List Node)
    → word_at words k ≡ some w
    → IsLabelled words lab n nodes
    → cur < n
    → lab cur ≡ onto w []
    → IsLabelled words lab n (change_node cur (add_out (k ∷ [])) nodes)
unfolding add_out
add_out-IsLabelled words k w lab n cur nodes is h lt e =
    let end : Ending words (lab cur) k = (w, is, rw e (Start-refl (onto w []))) in
    change_node-IsLabelled words lab n cur (add_out (k ∷ [])) nodes lt
      (λ g. record {
        edges = g.edges;
        falls = g.falls;
        falls_inside = g.falls_inside;
        words_end =
            All-++ (Ending words (lab cur)) (node_at nodes cur).out (k ∷ []) g.words_end (end, tt);
        size = g.size;
      })
      h

-- From a node on, with the rest of the word.
add_word-Labelled :
    (words : List Str) (k : ℕ) (w : Str) (lab : ℕ → Str) (cur : ℕ) (rs : Str) (nodes : List Node)
    → word_at words k ≡ some w
    → IsLabelled words lab (length nodes) nodes
    → cur < length nodes
    → onto rs (lab cur) ≡ onto w []
    → Labelled words (add_word k cur rs nodes)
unfolding add_word
add_word-Labelled words k w lab cur [] nodes is h lt e = (
  lab,
  omega (arith, length-change_node cur (add_out (k ∷ [])) nodes, lt),
  recount words lab (length nodes) (change_node cur (add_out (k ∷ [])) nodes)
      (add_out-IsLabelled words k w lab (length nodes) cur nodes is h lt e),
)
add_word-Labelled words k w lab cur (r ∷ rs) nodes is h lt e =
    elim (Option-cases (go_to nodes cur r)) [
      | inl q ↦
          let n = length nodes in
          let lab' = extend lab n (r ∷ lab cur) in
          let h' = add_edge-IsLabelled words lab nodes cur r h lt in
          rw (q, add_word)
            (add_word-Labelled words k w lab' n rs (add_edge cur r nodes) is
              (recount words lab' (suc n) (add_edge cur r nodes) h') (omega (arith, h'.count))
              (ap (λ z. onto rs z) (extend-new lab n (r ∷ lab cur)) ∙ e))
      | inr (next, q) ↦
          let g = go_to-IsEdge words lab (length nodes) nodes cur r next h lt q in
          rw (q, add_word)
            (add_word-Labelled words k w lab next rs nodes is h g.inside
              (ap (λ z. onto rs z) g.label ∙ e))
    ]

add_words-Labelled :
    (words : List Str) (k : ℕ) (ws : List Str) (nodes : List Node)
    → ((i j : ℕ) → j ≡ i + k → word_at words j ≡ word_at ws i)
    → Labelled words nodes
    → Labelled words (add_words k ws nodes)
unfolding add_words
add_words-Labelled words k [] nodes same l = l
add_words-Labelled words k (w ∷ ws) nodes same (lab, some_node, h) =
    add_words-Labelled words (suc k) ws (add_word k 0 w nodes)
      (λ i j e. same (suc i) j (omega (arith, e)))
      (add_word-Labelled words k w lab 0 w nodes (same 0 k (omega arith)) h some_node
        (ap (λ z. onto w z) h.root))

root-IsGood : (words : List Str) → IsGood words (λ i. []) 1 0 (node_at (bare_node ∷ []) 0)
unfolding node_at
root-IsGood words = record {
  edges = tt;
  falls = λ p. absurd (omega (arith, p));
  falls_inside = omega arith;
  words_end = tt;
  size = omega arith;
}

pub trie-Labelled : (words : List Str) → Labelled words (add_words 0 words (bare_node ∷ []))
trie-Labelled words =
    add_words-Labelled words 0 words (bare_node ∷ [])
      (λ i j e. let q : j ≡ i = omega (arith, e) in ap (λ z. word_at words z) q)
      (
        λ i. [],
        omega arith,
        record {
          count = refl;
          root = refl;
          good = λ i lt.
              subst (λ k. IsGood words (λ i. []) 1 k (node_at (bare_node ∷ []) k))
                (let z : 0 ≡ i = omega (arith, lt) in z) (root-IsGood words);
        },
      )
