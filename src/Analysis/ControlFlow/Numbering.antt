-- ===== src/Analysis/ControlFlow/Numbering.antt =====
-- The nodes that the first loop of the construction makes, and the ids by which it knows the blocks.
use egalito.Base.{
  ℕ, zero, suc, ◌+◌, ◌<◌, ◌≡◌, refl, ◌∙◌, sym, ap, subst, true, List, [], ◌∷◌, ◌++◌, Option, none,
  some, arith, get_elem?, length, length-append, Bool-cases, inl, inr, ◌⊎◌, ◌==◌,
}
use egalito.Analysis.Graph.{Graph, Node}
use egalito.Analysis.Walker.{contains}
use egalito.Analysis.Walker.Trace.{AllBelow}
use egalito.Analysis.ControlFlow.{find_id, add_nodes}
use egalito.Analysis.ControlFlow.Mirror.{IsMirrored, count_links}

-- Nodes with their index as id and without links.
abbrev pub IsFresh : Graph → Type 0
IsFresh g =
    (i : ℕ) (n : Node)
    → get_elem? g i ≡ some n
    → (n.id ≡ i) × (n.links ≡ []) × (n.reverse_links ≡ [])

get_elem?-snoc {ℓ} :
    {A : Type ℓ} (xs : List A) (x y : A) (i : ℕ)
    → get_elem? (xs ++ x ∷ []) i ≡ some y
    → (get_elem? xs i ≡ some y) ⊎ ((i ≡ length xs) × (x ≡ y))
get_elem?-snoc [] x y zero e = inr (refl, ground (arith, e))
get_elem?-snoc [] x y (suc i) e = absurd (ground (arith, e))
get_elem?-snoc (z ∷ xs) x y zero e = inl e
get_elem?-snoc (z ∷ xs) x y (suc i) e = elim (get_elem?-snoc xs x y i e) [
  | inl h ↦ inl h
  | inr (i-is, x-is) ↦ inr (ap suc i-is, x-is)
]

snoc-IsFresh :
    (g : Graph) (b : ℕ)
    → IsFresh g
    → IsFresh (g ++ record { id = length g; block = b; links = []; reverse_links = [] } ∷ [])
snoc-IsFresh g b fresh i n e = elim (get_elem?-snoc g _ n i e) [
  | inl h ↦ fresh i n h
  | inr (i-is, n-is) ↦
      subst (λ n. (n.id ≡ i) × (n.links ≡ []) × (n.reverse_links ≡ [])) n-is (sym i-is, refl, refl)
]

-- The mapping knows some blocks, and maps to ids below k.
abbrev pub Maps : ℕ → (ℕ → Type 0) → List (ℕ × ℕ) → Type 0
Maps k Known mapping =
    ((b i : ℕ) → find_id b mapping ≡ some i → i < k)
    × ((b : ℕ) → Known b → (i : ℕ) × (find_id b mapping ≡ some i))

cons-below :
    (k b : ℕ) (mapping : List (ℕ × ℕ))
    → ((c i : ℕ) → find_id c mapping ≡ some i → i < k)
    → (c i : ℕ) → find_id c ((b, k) ∷ mapping) ≡ some i
    → i < suc k
unfolding find_id
cons-below k b mapping below c i e = elim (Bool-cases (b == c)) [
  | inl h ↦ ground (arith, e, h)
  | inr h ↦ let old = below c i (ground (arith, e, h)) in omega (arith, old)
]

cons-known :
    (k b c : ℕ) (mapping : List (ℕ × ℕ))
    → ((b == c) ≡ true) ⊎ ((i : ℕ) × (find_id c mapping ≡ some i))
    → (i : ℕ) × (find_id c ((b, k) ∷ mapping) ≡ some i)
unfolding find_id
cons-known k b c mapping (inl h) = (k, ground (arith, h))
cons-known k b c mapping (inr (i, e)) = elim (Bool-cases (b == c)) [
  | inl h ↦ (k, ground (arith, h))
  | inr h ↦ (i, ground (arith, h, e))
]

contains-cases :
    (c b : ℕ) (bs : List ℕ)
    → contains c (b ∷ bs) ≡ true
    → ((b == c) ≡ true) ⊎ (contains c bs ≡ true)
unfolding contains
contains-cases c b bs e = elim (Bool-cases (b == c)) [
  | inl h ↦ inl h
  | inr h ↦ inr (ground (arith, e, h))
]

-- What the first loop yields.
abbrev pub Numbers : ℕ → (ℕ → Type 0) → Graph × List (ℕ × ℕ) → Type 0
Numbers k Known (g, mapping) = IsFresh g × (length g ≡ k) × Maps k Known mapping

pub Numbers-map :
    {k k' : ℕ} {Known Known' : ℕ → Type 0} (p : Graph × List (ℕ × ℕ))
    → k ≡ k'
    → ((b : ℕ) → Known' b → Known b)
    → Numbers k Known p
    → Numbers k' Known' p
Numbers-map (g, mapping) e known (fresh, len, (below, knows)) =
    (fresh, len ∙ e, (λ b i h. subst (λ k. i < k) e (below b i h), λ b h. knows b (known b h)))

pub add_nodes-Numbers :
    (bs : List ℕ) (Known : ℕ → Type 0) (count : ℕ) (g : Graph) (mapping : List (ℕ × ℕ))
    → IsFresh g
    → length g ≡ count
    → Maps count Known mapping
    → Numbers
        (length bs + count)
        (λ b. Known b ⊎ (contains b bs ≡ true))
        (add_nodes count bs g mapping)
unfolding add_nodes contains
add_nodes-Numbers [] Known count g mapping fresh len (below, known) =
    Numbers-map {k = count} {Known = Known} (g, mapping) (omega arith)
      (λ b (h : Known b ⊎ (contains b [] ≡ true)). elim h [
        | inl k ↦ k
        | inr e ↦ absurd (nothing-inside b e)
      ])
      (fresh, len, (below, known))
  where
    nothing-inside : (b : ℕ) → contains b [] ≡ true → ⊥
    nothing-inside b e = ground (arith, e)
add_nodes-Numbers (b ∷ bs) Known count g mapping fresh len (below, known) =
    let n : Node = record { id = count; block = b; links = []; reverse_links = [] } in
    let fresh' : IsFresh (g ++ n ∷ []) =
      subst (λ k. IsFresh (g ++ record { id = k; block = b; links = []; reverse_links = [] } ∷ []))
        len (snoc-IsFresh g b fresh) in
    let Known' : ℕ → Type 0 = λ c. ((b == c) ≡ true) ⊎ Known c in
    let maps : Maps (suc count) Known' ((b, count) ∷ mapping) = (
      cons-below count b mapping below,
      λ c (h : ((b == c) ≡ true) ⊎ Known c).
          cons-known count b c mapping (elim h [ inl e ↦ inl e | inr k ↦ inr (known c k) ]),
    ) in
    Numbers-map (add_nodes (suc count) bs (g ++ n ∷ []) ((b, count) ∷ mapping)) (omega arith)
      (λ c (h : Known c ⊎ (contains c (b ∷ bs) ≡ true)). elim h [
        | inl k ↦ inl (inr k)
        | inr e ↦ elim (contains-cases c b bs e) [ inl e' ↦ inl (inl e') | inr e' ↦ inr e' ]
      ])
      (add_nodes-Numbers bs Known' (suc count) (g ++ n ∷ []) ((b, count) ∷ mapping) fresh'
        (length-append g (n ∷ []) ∙ omega (arith, len)) maps)

pub IsFresh-IsMirrored : (k : ℕ) (g : Graph) → IsFresh g → length g ≡ k → IsMirrored k g
IsFresh-IsMirrored k g fresh len = record {
  size = len;
  out = λ i n e.
      let (id, links, _) = fresh i n e in (id, subst (λ ls. AllBelow (length g) ls) (sym links) tt);
  back = λ i n e.
      let (id, _, links) = fresh i n e in (id, subst (λ ls. AllBelow (length g) ls) (sym links) tt);
  mirrored = λ a b.
      ap (count_links b) (no-links a (get_elem? g a) (fresh a))
      ∙ sym (ap (count_links a) (no-reverse_links b (get_elem? g b) (fresh b)));
}
  where
    no-links :
        (i : ℕ) (o : Option Node)
        → ((n : Node) → o ≡ some n → (n.id ≡ i) × (n.links ≡ []) × (n.reverse_links ≡ []))
        → (elim o [ none ↦ [] | some n ↦ n.links ]) ≡ []
    no-links i none h = refl
    no-links i (some n) h = (h n refl).1

    no-reverse_links :
        (i : ℕ) (o : Option Node)
        → ((n : Node) → o ≡ some n → (n.id ≡ i) × (n.links ≡ []) × (n.reverse_links ≡ []))
        → (elim o [ none ↦ [] | some n ↦ n.reverse_links ]) ≡ []
    no-reverse_links i none h = refl
    no-reverse_links i (some n) h = (h n refl).2
