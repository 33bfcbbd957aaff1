-- ===== src/TextFilter/Automaton/Links.antt =====
-- The links back from node to node in the automaton of backend/internal/textfilter/automaton.go: the
-- label of the node that a node falls back on is a shorter end of its own.
use custom_service.Common.{
  ◌≡◌, refl, ℕ, zero, suc, ◌<◌, ◌≤◌, ◌==◌, if_both, some, List, [], ◌∷◌, ◌++◌, arith, Str, length,
  All, inl, inr, ◌⊎◌, Option-cases, Bool-cases,
}
use custom_service.TextFilter.Automaton.{
  Edge, Node, Pattern, node_at, change_node, go_to, add_out, fall_back, fail_of, link_child,
  link_children, targets, link_all, build_automaton,
}
use custom_service.TextFilter.Automaton.Labels.{
  Ending, Start, Start-refl, Start-trans, Start-cons, IsShorter, IsEdge, IsLabelled, All-++,
  change_node-IsLabelled, go_to-IsEdge,
}
use custom_service.TextFilter.Automaton.Trie.{trie-Labelled}

-- A node whose label ends the text of f, or is that of f.
pub record IsBack (lab : ℕ → Str) (n f b : ℕ) : Type 0 where
  pub inside : b < n
  pub start : Start (lab b) (lab f)
  pub size : length (lab b) ≤ length (lab f)

module _ (words : List Str) (lab : ℕ → Str) (n : ℕ) (nodes : List Node)
    (h : IsLabelled words lab n nodes) where
  root-IsBack : (f : ℕ) → f < n → IsBack lab n f 0
  root-IsBack f lt = record {
    inside = omega (arith, lt);
    start = (lab f, rw (h.root) refl);
    size = rw (h.root) (omega arith);
  }

  pub fall_back-IsBack : (fuel f r : ℕ) → f < n → IsBack lab n f (fall_back fuel nodes f r)
  unfolding fall_back
  fall_back-IsBack zero f r lt = record {
    inside = lt;
    start = Start-refl (lab f);
    size = omega arith;
  }
  fall_back-IsBack (suc fuel) f r lt = elim (Bool-cases (f == 0)) [
    | inl e ↦ rw (e, fall_back) (root-IsBack f lt)
    | inr e ↦ elim (Option-cases (go_to nodes f r)) [
      | inr (t, q) ↦
          rw (e, q, fall_back)
            (record { inside = lt; start = Start-refl (lab f); size = omega arith })
      | inl q ↦
          let g = h.good f lt in
          let s = g.falls (ground (arith, e)) in
          let ih = fall_back-IsBack fuel (node_at nodes f).fail r g.falls_inside in
          rw (e, q, fall_back)
            (record {
              inside = ih.inside;
              start = Start-trans _ _ _ ih.start s.start;
              size = omega (arith, ih.size, s.less);
            })
    ]
  ]

  -- With enough fuel the way back ends at the root or at a node with an edge for the rune.
  pub fall_back-settled :
      (fuel f r : ℕ)
      → f < n
      → length (lab f) < fuel
      → (fall_back fuel nodes f r ≡ 0)
        ⊎ ((t : ℕ) × (go_to nodes (fall_back fuel nodes f r) r ≡ some t))
  unfolding fall_back
  fall_back-settled zero f r lt enough = absurd (omega (arith, enough))
  fall_back-settled (suc fuel) f r lt enough = elim (Bool-cases (f == 0)) [
    | inl e ↦ rw (e, fall_back) (inl refl)
    | inr e ↦ elim (Option-cases (go_to nodes f r)) [
      | inr (t, q) ↦ rw (e, q, fall_back) (inr (t, q))
      | inl q ↦
          let g = h.good f lt in
          let s = g.falls (ground (arith, e)) in
          rw (e, q, fall_back)
            (fall_back-settled fuel (node_at nodes f).fail r g.falls_inside
              (omega (arith, enough, s.less)))
    ]
  ]

  -- The node that a child falls back on.
  record IsFail (v f : ℕ) : Type 0 where
    shorter : IsShorter (lab f) (lab v)
    inside : f < n

  root-IsFail : (v r : ℕ) (s : Str) → 0 < n → lab v ≡ r ∷ s → IsFail v 0
  root-IsFail v r s some_node e = record {
    shorter = record { start = (lab v, rw (h.root) refl); less = rw (h.root, e) (omega arith) };
    inside = some_node;
  }

  fail_of-IsFail :
      (u f : ℕ) (e : Edge)
      → IsEdge lab n u e
      → f < n
      → IsShorter (lab f) (lab u)
      → IsFail e.target (fail_of nodes f e.rune e.target)
  unfolding fail_of
  fail_of-IsFail u f e g lt s =
      let b = fall_back (length nodes) nodes f e.rune in
      let back = fall_back-IsBack (length nodes) f e.rune lt in
      let root = root-IsFail e.target e.rune (lab u) (omega (arith, lt)) g.label in
      elim (Option-cases (go_to nodes b e.rune)) [
        | inl q ↦ rw (q, fail_of) root
        | inr (t, q) ↦
            let d = go_to-IsEdge words lab n nodes b e.rune t h back.inside q in
            rw (q, fail_of)
              (if_both (IsFail e.target) (t == e.target) root (record {
                shorter = record {
                  start =
                      rw (d.label, g.label)
                        (Start-cons e.rune (lab b) (lab u) (Start-trans _ _ _ back.start s.start));
                  less = rw (d.label, g.label) (omega (arith, back.size, s.less));
                };
                inside = d.inside;
              }))
      ]

pub longer-Ending :
    (words : List Str) (p s : Str) (ks : List ℕ)
    → Start p s
    → All (Ending words p) ks
    → All (Ending words s) ks
longer-Ending words p s [] st h = tt
longer-Ending words p s (k ∷ ks) st ((w, is, e), h) =
    ((w, is, Start-trans _ _ _ e st), longer-Ending words p s ks st h)

link_child-IsLabelled :
    (words : List Str) (lab : ℕ → Str) (n : ℕ) (nodes : List Node) (u : ℕ) (e : Edge)
    → IsLabelled words lab n nodes
    → 0 < u
    → u < n
    → IsEdge lab n u e
    → IsLabelled words lab n (link_child nodes u e)
unfolding link_child add_out
link_child-IsLabelled words lab n nodes u e h pos lt g =
    let d = h.good u lt in
    let f = fail_of nodes (node_at nodes u).fail e.rune e.target in
    let x =
      fail_of-IsFail words lab n nodes h u (node_at nodes u).fail e g d.falls_inside
        (d.falls pos) in
    let linked = change_node e.target (λ m. record m { fail = f }) nodes in
    let h' =
      change_node-IsLabelled words lab n e.target (λ m. record m { fail = f }) nodes g.inside
        (λ o. record {
          edges = o.edges;
          falls = λ p. x.shorter;
          falls_inside = x.inside;
          words_end = o.words_end;
          size = o.size;
        })
        h in
    change_node-IsLabelled words lab n e.target (add_out (node_at linked f).out) linked g.inside
      (λ o. record {
        edges = o.edges;
        falls = o.falls;
        falls_inside = o.falls_inside;
        words_end =
            All-++ (Ending words (lab e.target)) (node_at linked e.target).out
              (node_at linked f).out o.words_end
              (longer-Ending words (lab f) (lab e.target) (node_at linked f).out x.shorter.start
                (h'.good f x.inside).words_end);
        size = o.size;
      })
      h'

link_children-IsLabelled :
    (words : List Str) (lab : ℕ → Str) (n u : ℕ) (es : List Edge) (nodes : List Node)
    → IsLabelled words lab n nodes
    → 0 < u
    → u < n
    → All (IsEdge lab n u) es
    → IsLabelled words lab n (link_children u es nodes)
unfolding link_children
link_children-IsLabelled words lab n u [] nodes h pos lt g = h
link_children-IsLabelled words lab n u (e ∷ es) nodes h pos lt (g, gs) =
    link_children-IsLabelled words lab n u es (link_child nodes u e)
      (link_child-IsLabelled words lab n nodes u e h pos lt g) pos lt gs

-- A node other than the root.
Inner : ℕ → ℕ → Type 0
Inner n u = (0 < u) × (u < n)

targets-Inner :
    (lab : ℕ → Str) (n u : ℕ) (es : List Edge)
    → All (IsEdge lab n u) es
    → All (Inner n) (targets es)
unfolding targets Inner
targets-Inner lab n u [] h = tt
targets-Inner lab n u (e ∷ es) (g, h) = ((g.later, g.inside), targets-Inner lab n u es h)

link_all-IsLabelled :
    (words : List Str) (lab : ℕ → Str) (n fuel : ℕ) (queue : List ℕ) (nodes : List Node)
    → IsLabelled words lab n nodes
    → All (Inner n) queue
    → IsLabelled words lab n (link_all fuel queue nodes)
unfolding link_all Inner
link_all-IsLabelled words lab n zero queue nodes h q = h
link_all-IsLabelled words lab n (suc fuel) [] nodes h q = h
link_all-IsLabelled words lab n (suc fuel) (u ∷ queue) nodes h ((pos, lt), q) =
    let es = (node_at nodes u).next in
    let g = (h.good u lt).edges in
    link_all-IsLabelled words lab n fuel (queue ++ targets es) (link_children u es nodes)
      (link_children-IsLabelled words lab n u es nodes h pos lt g)
      (All-++ (Inner n) queue (targets es) q (targets-Inner lab n u es g))

-- The automaton of some words has labels.
pub build_automaton-IsLabelled :
    (words : List Str) (meta : List Pattern)
    → (lab : ℕ → Str) × (n : ℕ) × (0 < n)
      × IsLabelled words lab n (build_automaton words meta).nodes
unfolding build_automaton
build_automaton-IsLabelled words meta =
    let (lab, pos, h) = trie-Labelled words in
    (
      lab,
      _,
      pos,
      link_all-IsLabelled words lab _ _ _ _ h (targets-Inner lab _ 0 _ (h.good 0 pos).edges),
    )
