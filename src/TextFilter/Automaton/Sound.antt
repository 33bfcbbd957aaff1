-- ===== src/TextFilter/Automaton/Sound.antt =====
-- What scan of backend/internal/textfilter/automaton.go reports stands in the text.
use custom_service.Common.{
  ◌≡◌, refl, ap, ◌∙◌, ℕ, suc, ◌+◌, ◌<◌, some, List, [], ◌∷◌, ◌++◌, arith, Str, length,
  length-append, All, inl, inr, Option-cases,
}
use custom_service.TextFilter.Automaton.{
  Node, Pattern, Automaton, Found, node_at, go_to, fall_back, pattern_at, report, advance,
  scan_from, scan, build_automaton,
}
use custom_service.TextFilter.Automaton.Labels.{
  word_at, onto, Ending, Start, Start-trans, Start-cons, IsLabelled, All-++, go_to-IsEdge,
}
use custom_service.TextFilter.Automaton.Links.{
  fall_back-IsBack, fall_back-settled, build_automaton-IsLabelled, longer-Ending,
}

-- The word stands in the text and its last rune has the index `stop`.
abbrev pub Occurs : Str → Str → ℕ → Type 0
Occurs w text stop =
    (q : Str) × (rest : Str) × (text ≡ q ++ (w ++ rest)) × (suc stop ≡ length q + length w)

-- The pattern that is reported belongs to a word that stands there.
abbrev pub IsFound : List Str → List Pattern → Str → Found → Type 0
IsFound words meta text f =
    (k : ℕ) × (w : Str) × (pattern_at meta k ≡ some f.pattern)
    × (word_at words k ≡ some w)
    × Occurs w text f.stop

onto-append : (a b rs : Str) → onto (a ++ b) rs ≡ onto b (onto a rs)
onto-append [] b rs = refl
onto-append (r ∷ a) b rs = onto-append a b (r ∷ rs)

onto-onto : (w acc rs : Str) → onto (onto w acc) rs ≡ onto acc (w ++ rs)
onto-onto [] acc rs = refl
onto-onto (r ∷ w) acc rs = onto-onto w (r ∷ acc) rs

onto_end : (t acc x : Str) → onto t (acc ++ x) ≡ onto t acc ++ x
onto_end [] acc x = refl
onto_end (r ∷ t) acc x = onto_end t (r ∷ acc) x

length-onto : (a b : Str) → length (onto a b) ≡ length a + length b
length-onto [] b = omega arith
length-onto (r ∷ a) b = omega (arith, length-onto a (r ∷ b))

Ending-Occurs :
    (w past rs text : Str) (stop : ℕ)
    → Start (onto w []) past
    → text ≡ onto past rs
    → length past ≡ suc stop
    → Occurs w text stop
Ending-Occurs w past rs text stop (t, e) is len = (
  onto t [],
  rs,
  is
      ∙ ap (λ z. onto z rs) e
      ∙ onto-append (onto w []) t rs
      ∙ ap (λ z. onto t z) (onto-onto w [] rs)
      ∙ onto_end t [] (w ++ rs),
  omega (
    arith,
    len,
    ap (λ z. length z) e,
    length-append (onto w []) t,
    length-onto w [],
    length-onto t [],
  ),
)

module _ (words : List Str) (lab : ℕ → Str) (n : ℕ) (nodes : List Node)
    (h : IsLabelled words lab n nodes) where
  record IsNext (next : ℕ) (past : Str) : Type 0 where
    inside : next < n
    start : Start (lab next) past

  advance-IsNext :
      (cur r : ℕ) (past : Str) → IsNext cur past → IsNext (advance nodes cur r) (r ∷ past)
  unfolding advance
  advance-IsNext cur r past c =
      let b = fall_back (length nodes) nodes cur r in
      let back = fall_back-IsBack words lab n nodes h (length nodes) cur r c.inside in
      let settled =
        fall_back-settled words lab n nodes h (length nodes) cur r c.inside
          (omega (arith, h.count, c.inside, (h.good cur c.inside).size)) in
      elim (Option-cases (go_to nodes b r)) [
        | inr (t, q) ↦
            let d = go_to-IsEdge words lab n nodes b r t h back.inside q in
            rw (q, advance)
              (record {
                inside = d.inside;
                start =
                    rw (d.label) (Start-cons r (lab b) past (Start-trans _ _ _ back.start c.start));
              })
        | inl q ↦
            rw (q, advance)
              (elim settled [
                | inl root ↦ record {
                  inside = back.inside;
                  start = (r ∷ past, rw (root, h.root) refl);
                }
                | inr (t, p) ↦ absurd (cc)
              ])
      ]

  report-IsFound :
      (meta : List Pattern) (past rs text : Str) (stop : ℕ) (ks : List ℕ)
      → text ≡ onto past rs
      → length past ≡ suc stop
      → All (Ending words past) ks
      → All (IsFound words meta text) (report meta stop ks)
  unfolding report
  report-IsFound meta past rs text stop [] is len e = tt
  report-IsFound meta past rs text stop (k ∷ ks) is len ((w, at, s), es) =
      let ih = report-IsFound meta past rs text stop ks is len es in
      elim (Option-cases (pattern_at meta k)) [
        | inl q ↦ rw (q, report) ih
        | inr (p, q) ↦
            rw (q, report) ((k, w, q, at, Ending-Occurs w past rs text stop s is len), ih)
      ]

scan_from-IsFound :
    (words : List Str) (lab : ℕ → Str) (n : ℕ) (a : Automaton) (h : IsLabelled words lab n a.nodes)
    (text : Str) (cur i : ℕ) (past rs : Str)
    → text ≡ onto past rs
    → length past ≡ i
    → IsNext words lab n a.nodes h cur past
    → All (IsFound words a.pats text) (scan_from a cur i rs)
unfolding scan_from
scan_from-IsFound words lab n a h text cur i past [] is len c = tt
scan_from-IsFound words lab n a h text cur i past (r ∷ rs) is len c =
    let next = advance a.nodes cur r in
    let d = advance-IsNext words lab n a.nodes h cur r past c in
    All-++ (IsFound words a.pats text) (report a.pats i (node_at a.nodes next).out)
      (scan_from a next (suc i) rs)
      (report-IsFound words lab n a.nodes h a.pats (r ∷ past) rs text i (node_at a.nodes next).out
        is (omega (arith, len))
        (longer-Ending words (lab next) (r ∷ past) (node_at a.nodes next).out d.start
          (h.good next d.inside).words_end))
      (scan_from-IsFound words lab n a h text next (suc i) (r ∷ past) rs is (omega (arith, len)) d)

-- Whatever the automaton of some words reports of a text is the pattern of one of the words, which
-- stands in the text and ends at the index that is reported.
pub scan-IsFound :
    (words : List Str) (meta : List Pattern) (text : Str)
    → All (IsFound words meta text) (scan (build_automaton words meta) text)
unfolding scan build_automaton
scan-IsFound words meta text =
    let a = build_automaton words meta in
    let (lab, n, pos, h) = build_automaton-IsLabelled words meta in
    scan_from-IsFound words lab n a h text 0 0 [] text refl refl
      (record { inside = pos; start = ([], rw (h.root) refl) })
