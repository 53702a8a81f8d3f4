-- ===== src/Analysis/ControlFlow/Mirror.antt =====
-- Mirrored graphs: each edge is there in both directions, and the links lead to nodes of the graph.
use egalito.Base.{
  ℕ, ◌+◌, ◌<◌, ◌≡◌, refl, ◌∙◌, sym, ap, subst, Bool, true, List, [], ◌∷◌, ◌++◌, none, some, arith,
  get_elem?, set, length, length-set, if◌then◌else◌, Bool-cases, inl, inr, ◌==◌, ==_iff,
  get_elem?-set, get_elem?-lt,
}
use egalito.Base.Result.{Returns, bind-ok}
use egalito.Analysis.Graph.{
  Direction, get_links, Graph, Node, Link, forward, backward, add_link, add_reverse_link,
}
use egalito.Analysis.Walker.Trace.{IsGraph, AllBelow}
use egalito.Analysis.ControlFlow.{add_edge, change_node}

-- How many of some links lead to a node.
abbrev pub count_links : ℕ → List Link → ℕ
count_links x [] = 0
count_links x (l ∷ ls) = (if l.target == x then 1 else 0) + count_links x ls

abbrev pub links_of : Graph → ℕ → List Link
links_of g i = elim (get_elem? g i) [ none ↦ [] | some n ↦ n.links ]

abbrev pub reverse_links_of : Graph → ℕ → List Link
reverse_links_of g i = elim (get_elem? g i) [ none ↦ [] | some n ↦ n.reverse_links ]

-- A graph of k nodes with every edge in both directions.
pub record IsMirrored (k : ℕ) (g : Graph) : Type 0 where
  pub size : length g ≡ k
  pub out : IsGraph g forward
  pub back : IsGraph g backward
  pub mirrored : (a b : ℕ) → count_links b (links_of g a) ≡ count_links a (reverse_links_of g b)

count_links-snoc :
    (x : ℕ) (ls : List Link) (l : Link)
    → count_links x (ls ++ l ∷ []) ≡ count_links x ls + (if l.target == x then 1 else 0)
count_links-snoc x [] l = omega arith
count_links-snoc x (m ∷ ls) l = omega (arith, count_links-snoc x ls l)

AllBelow-snoc :
    (k : ℕ) (ls : List Link) (l : Link) → AllBelow k ls → l.target < k → AllBelow k (ls ++ l ∷ [])
AllBelow-snoc k [] l b h = (h, tt)
AllBelow-snoc k (m ∷ ls) l (a, b) h = (a, AllBelow-snoc k ls l b h)

-- A change of one node.
change_node-returns :
    (g : Graph) (i : ℕ) (f : Node → Node)
    → i < length g
    → Returns (change_node i f g) (λ g'.
      (n : Node) × (get_elem? g i ≡ some n)
      × (length g' ≡ length g)
      × ((j : ℕ) → get_elem? g' j ≡ (if i == j then some (f n) else get_elem? g j)))
unfolding change_node
change_node-returns g i f h =
    let (n, at) = get_elem?-lt g i h in
    (
      set g i (f n),
      ground (arith, at),
      (n, at, length-set g i (f n), λ j. get_elem?-set g i j (f n) h),
    )

module _ (g g' : Graph) (a : ℕ) (n : Node) (f : Node → Node) (at : get_elem? g a ≡ some n)
    (len : length g' ≡ length g)
    (same : (j : ℕ) → get_elem? g' j ≡ (if a == j then some (f n) else get_elem? g j)) where
  change-IsGraph :
      (dir : Direction)
      → (f n).id ≡ n.id
      → (AllBelow (length g) (get_links dir n) → AllBelow (length g) (get_links dir (f n)))
      → IsGraph g dir
      → IsGraph g' dir
  change-IsGraph dir id below graph i x e = elim (Bool-cases (a == i)) [
    | inl h ↦
        let x-is : f n ≡ x = ground (arith, e, same i, h) in
        let (id-a, b) = graph a n at in
        subst (λ y. (y.id ≡ i) × AllBelow (length g') (get_links dir y)) x-is
          (
            id ∙ id-a ∙ (==_iff a i).0 h,
            subst (λ k. AllBelow k (get_links dir (f n))) (sym len) (below b),
          )
    | inr h ↦
        let old : get_elem? g i ≡ some x = ground (arith, e, same i, h) in
        let (id-i, b) = graph i x old in
        (id-i, subst (λ k. AllBelow k (get_links dir x)) (sym len) b)
  ]

  -- How the links of a node have changed.
  change-links :
      (i : ℕ)
      → (links_of g' i ≡ (if a == i then (f n).links else links_of g i))
        × (reverse_links_of g' i ≡ (if a == i then (f n).reverse_links else reverse_links_of g i))
        × ((a == i) ≡ true → (links_of g i ≡ n.links) × (reverse_links_of g i ≡ n.reverse_links))
  change-links i = (
    ground (arith, same i),
    ground (arith, same i),
    λ h.
        let at' : get_elem? g i ≡ some n =
          subst (λ k. get_elem? g k ≡ some n) ((==_iff a i).0 h) at in
        (ground (arith, at'), ground (arith, at')),
  )

  links-kept : (i : ℕ) → (f n).links ≡ n.links → links_of g' i ≡ links_of g i
  links-kept i e = elim (Bool-cases (a == i)) [
    | inl h ↦ ground (arith, (change-links i).0, ((change-links i).2 h).0, h, e)
    | inr h ↦ ground (arith, (change-links i).0, h)
  ]

  reverse_links-kept :
      (i : ℕ) → (f n).reverse_links ≡ n.reverse_links → reverse_links_of g' i ≡ reverse_links_of g i
  reverse_links-kept i e = elim (Bool-cases (a == i)) [
    | inl h ↦ ground (arith, (change-links i).1, ((change-links i).2 h).1, h, e)
    | inr h ↦ ground (arith, (change-links i).1, h)
  ]

  links-added :
      (i x : ℕ) (l : Link)
      → (f n).links ≡ n.links ++ l ∷ []
      → count_links x (links_of g' i)
        ≡ count_links x (links_of g i) + (if a == i then (if l.target == x then 1 else 0) else 0)
  links-added i x l e = elim (Bool-cases (a == i)) [
    | inl h ↦
        let new : links_of g' i ≡ links_of g i ++ l ∷ [] =
          ground (arith, (change-links i).0, ((change-links i).2 h).0, h, e) in
        rw h (ap (count_links x) new ∙ count_links-snoc x (links_of g i) l)
    | inr h ↦
        let old : links_of g' i ≡ links_of g i = ground (arith, (change-links i).0, h) in
        rw h (ap (count_links x) old ∙ omega arith)
  ]

  reverse_links-added :
      (i x : ℕ) (l : Link)
      → (f n).reverse_links ≡ n.reverse_links ++ l ∷ []
      → count_links x (reverse_links_of g' i)
        ≡ count_links x (reverse_links_of g i)
          + (if a == i then (if l.target == x then 1 else 0) else 0)
  reverse_links-added i x l e = elim (Bool-cases (a == i)) [
    | inl h ↦
        let new : reverse_links_of g' i ≡ reverse_links_of g i ++ l ∷ [] =
          ground (arith, (change-links i).1, ((change-links i).2 h).1, h, e) in
        rw h (ap (count_links x) new ∙ count_links-snoc x (reverse_links_of g i) l)
    | inr h ↦
        let old : reverse_links_of g' i ≡ reverse_links_of g i =
          ground (arith, (change-links i).1, h) in
        rw h (ap (count_links x) old ∙ omega arith)
  ]

counts_agree :
    (k : ℕ) (g : Graph) (c d a b : ℕ) {p q s t : ℕ}
    → s ≡ p + (if a == c then (if b == d then 1 else 0) else 0)
    → t ≡ q + (if b == d then (if a == c then 1 else 0) else 0)
    → p ≡ q
    → s ≡ t
counts_agree k g c d a b e f h = ground arith

pub add_edge-IsMirrored :
    (k a b offset back : ℕ) (follow : Bool) (g : Graph)
    → IsMirrored k g
    → a < k
    → b < k
    → Returns (add_edge a b offset back follow g) (IsMirrored k)
unfolding add_edge
add_edge-IsMirrored k a b offset back follow g m ha hb =
    let l : Link = record { target = b; offset = offset; follow_jump = follow } in
    let r : Link = record { target = a; offset = back; follow_jump = follow } in
    let (g₁, run₁, (n, at, len₁, same₁)) =
      change_node-returns g a (add_link l) (omega (arith, m.size)) in
    let (g₂, run₂, (n', at', len₂, same₂)) =
      change_node-returns g₁ b (add_reverse_link r) (omega (arith, m.size, len₁)) in
    (
      g₂,
      bind-ok _ _ g₁ _ run₁ run₂,
      record {
        size = len₂ ∙ len₁ ∙ m.size;
        out =
            change-IsGraph g₁ g₂ b n' (add_reverse_link r) at' len₂ same₂ forward refl (λ h. h)
              (change-IsGraph g g₁ a n (add_link l) at len₁ same₁ forward refl
                (λ h. AllBelow-snoc (length g) n.links l h (omega (arith, m.size))) m.out);
        back =
            change-IsGraph g₁ g₂ b n' (add_reverse_link r) at' len₂ same₂ backward refl
              (λ h. AllBelow-snoc (length g₁) n'.reverse_links r h (omega (arith, m.size, len₁)))
              (change-IsGraph g g₁ a n (add_link l) at len₁ same₁ backward refl (λ h. h) m.back);
        mirrored = λ c d.
            let kept = links-kept g₁ g₂ b n' (add_reverse_link r) at' len₂ same₂ c refl in
            let added = links-added g g₁ a n (add_link l) at len₁ same₁ c d l refl in
            let kept' = reverse_links-kept g g₁ a n (add_link l) at len₁ same₁ d refl in
            let added' =
              reverse_links-added g₁ g₂ b n' (add_reverse_link r) at' len₂ same₂ d c r refl in
            counts_agree k g c d a b (ap (count_links d) kept ∙ added)
              (added'
                ∙ ap (λ ls. count_links c ls + (if b == d then (if a == c then 1 else 0) else 0))
                    kept')
              (m.mirrored c d);
      },
    )
