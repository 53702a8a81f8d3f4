-- ===== src/Analysis/Dominance/Pass.antt =====
-- A pass over the order, from node to node.
use egalito.Base.{
  ℕ, suc, ◌+◌, ◌<◌, ◌≤◌, ◌≡◌, refl, ◌∙◌, sym, ap, subst, Bool, true, false, ◌||◌, List, [], ◌∷◌,
  ◌++◌, Option, some, arith, get_elem?, length, ◌==◌, ==_iff, Bool-cases, Option-cases, inl, inr,
  ◌⊎◌,
}
use egalito.Base.Result.{ok, Returns, bind-ok}
use egalito.Analysis.Graph.{Graph, Link, forward, backward}
use egalito.Analysis.Walker.Orders.{Edge, LinksTo, count, count-append}
use egalito.Analysis.Walker.Reachable.{Led}
use egalito.Analysis.ControlFlow.Mirror.{IsMirrored, count_links, links_of, reverse_links_of}
use egalito.Analysis.Dominance.{Dominance, update, pass}
use egalito.Analysis.Dominance.Meet.{IsKnown, rank, rank_of, IsRanked, IsOrdered}
use egalito.Analysis.Dominance.Update.{IsUpdated, IsSettled, KeepsOthers, update-Improves}

LinksTo-count : (ls : List Link) (x : ℕ) → LinksTo ls x → 0 < count_links x ls
LinksTo-count [] x h = elim h [ ]
LinksTo-count (l ∷ ls) x (inl e) = ground (arith, (==_iff l.target x).1 e)
LinksTo-count (l ∷ ls) x (inr h) = omega (arith, LinksTo-count ls x h)

count-LinksTo : (ls : List Link) (x : ℕ) → 0 < count_links x ls → LinksTo ls x
count-LinksTo [] x h = absurd (omega (arith, h))
count-LinksTo (l ∷ ls) x h = elim (Bool-cases (l.target == x)) [
  | inl e ↦ inl ((==_iff l.target x).0 e)
  | inr e ↦ inr (count-LinksTo ls x (ground (arith, h, e)))
]

-- Each edge of a mirrored graph has its reverse.
pub Edge-mirrored :
    (k : ℕ) (g : Graph) (x y : ℕ) → IsMirrored k g → Edge g forward y x → Edge g backward x y
Edge-mirrored k g x y m e =
    let out : 0 < count_links x e.node.links = LinksTo-count e.node.links x e.to in
    let here : links_of g y ≡ e.node.links = ground (arith, e.at) in
    let back : 0 < count_links y (reverse_links_of g x) =
      omega (arith, out, ap (count_links x) here, m.mirrored y x) in
    elim (Option-cases (get_elem? g x)) [
      | inl n ↦
          let none : reverse_links_of g x ≡ [] = ground (arith, n) in
          absurd (omega (arith, back, ap (count_links y) none))
      | inr (n, at) ↦
          let there : reverse_links_of g x ≡ n.reverse_links = ground (arith, at) in
          record {
            node = n;
            at = at;
            to = count-LinksTo n.reverse_links y (subst (λ ls. 0 < count_links y ls) there back);
          }
    ]

-- The nodes of an order have their places from i on.
abbrev pub Placed : List (Option ℕ) → ℕ → List ℕ → Type 0
Placed id_map i [] = Unit
Placed id_map i (x ∷ xs) = (get_elem? id_map x ≡ some (some i)) × Placed id_map (suc i) xs

abbrev pub AllInside : ℕ → List ℕ → Type 0
AllInside k [] = Unit
AllInside k (x ∷ xs) = (x < k) × AllInside k xs

pub rank-map : (d d' : Dominance) (x : ℕ) → d'.id_map ≡ d.id_map → rank d' x ≡ rank d x
rank-map d d' x e = ap (λ m. rank_of (get_elem? m x)) e

or-false : (a b : Bool) → (a || b) ≡ false → (a ≡ false) × (b ≡ false)
or-false false b e = (refl, e)
or-false true b e = absurd (ground (arith, e))

-- A node in a list that begins with x.
pub count-cases : (z x : ℕ) (xs : List ℕ) → 0 < count z (x ∷ xs) → (x ≡ z) ⊎ (0 < count z xs)
count-cases z x xs h = elim (Bool-cases (x == z)) [
  | inl e ↦ inl ((==_iff x z).0 e)
  | inr e ↦ inr (ground (arith, h, e))
]

count-snoc-cases : (z x : ℕ) (xs : List ℕ) → 0 < count z (xs ++ x ∷ []) → (x ≡ z) ⊎ (0 < count z xs)
count-snoc-cases z x xs h = elim (Bool-cases (x == z)) [
  | inl e ↦ inl ((==_iff x z).0 e)
  | inr e ↦ inr (ground (arith, h, e, count-append z xs (x ∷ [])))
]

same-state : (d d' d'' : Dominance) → d'' ≡ d' → d' ≡ d → d'' ≡ d
same-state d d' d'' e f = e ∙ f

IsUpdated-trans : (d d' d'' : Dominance) → IsUpdated d d' → IsUpdated d' d'' → IsUpdated d d''
IsUpdated-trans d d' d'' u v = record {
  ordered = v.ordered;
  size = v.size ∙ u.size;
  map = v.map ∙ u.map;
  keeps = λ x k. v.keeps x (u.keeps x k);
}

-- A node that has a place before those of an order is not in it.
pub Placed-earlier :
    (id_map : List (Option ℕ)) (i j x : ℕ) (xs : List ℕ)
    → get_elem? id_map x ≡ some (some j)
    → j < i
    → Placed id_map i xs
    → count x xs ≡ 0
Placed-earlier id_map i j x [] at h placed = refl
Placed-earlier id_map i j x (y ∷ ys) at h (at-y, placed) =
    let rest = Placed-earlier id_map (suc i) j x ys at (omega (arith, h)) placed in
    elim (Bool-cases (y == x)) [
      | inl e ↦
          let same = ap (get_elem? id_map) ((==_iff y x).0 e) in
          absurd (ground (arith, same, at, at-y, h))
      | inr e ↦ ground (arith, e, rest)
    ]

-- The entry of a node of the list is another one than before.
abbrev pub IsAltered : List ℕ → Dominance → Dominance → Type 0
IsAltered xs d d' = (y : ℕ) × (0 < count y xs) × ¬ (get_elem? d'.idoms y ≡ get_elem? d.idoms y)

-- No entry but those of the list differs, and a change that is reported is one.
pub record Alters (xs : List ℕ) (d : Dominance) (changed : Bool) (d' : Dominance) (c : Bool)
    : Type 0 where
  pub outside : (y : ℕ) → count y xs ≡ 0 → get_elem? d'.idoms y ≡ get_elem? d.idoms y
  pub reported : c ≡ true → (changed ≡ true) ⊎ IsAltered xs d d'

or-true : (a b : Bool) → (a || b) ≡ true → (a ≡ true) ⊎ (b ≡ true)
or-true true b e = inl refl
or-true false b e = inr e

Alters-cons :
    (x : ℕ) (xs : List ℕ) (d d₁ d₂ : Dominance) (changed c₁ c₂ : Bool)
    → count x xs ≡ 0
    → KeepsOthers x d d₁
    → (c₁ ≡ true → ¬ (get_elem? d₁.idoms x ≡ get_elem? d.idoms x))
    → Alters xs d₁ (changed || c₁) d₂ c₂
    → Alters (x ∷ xs) d changed d₂ c₂
Alters-cons x xs d d₁ d₂ changed c₁ c₂ once others first rest = record {
  outside = λ y h. elim (Bool-cases (x == y)) [
    | inl e ↦ absurd (ground (arith, e, h))
    | inr e ↦ rest.outside y (ground (arith, h)) ∙ others y e
  ];
  reported = λ e. elim (rest.reported e) [
    | inl either ↦ elim (or-true changed c₁ either) [
      | inl old ↦ inl old
      | inr new ↦ inr (
        x,
        ground (arith, (==_iff x x).1 refl),
        λ same. first new (sym (rest.outside x once) ∙ same),
      )
    ]
    | inr (y, h, differs) ↦ elim (Bool-cases (x == y)) [
      | inl same ↦ absurd (ground (arith, once, h, ap (λ z. count z xs) ((==_iff x y).0 same)))
      | inr other ↦ inr (y, ground (arith, h), λ same. differs (same ∙ sym (others y other)))
    ]
  ];
}

-- What a pass over some nodes does.
abbrev pub Completes : Graph → List ℕ → Dominance → Bool → Dominance × Bool → Type 0
Completes g xs d changed (d', c) =
    IsUpdated d d'
    × ((x : ℕ) → 0 < count x xs → IsKnown d' x)
    × (c ≡ false → (changed ≡ false) × (d' ≡ d) × ((x : ℕ) → 0 < count x xs → IsSettled g d x))
    × Alters xs d changed d' c

pub pass-Completes :
    (k : ℕ) (g : Graph) (i : ℕ) (before xs : List ℕ) (d : Dominance) (changed : Bool)
    → IsMirrored k g
    → IsOrdered d
    → length d.idoms ≡ length g
    → get_elem? d.id_map 0 ≡ some (some 0)
    → 0 < i
    → Placed d.id_map i xs
    → i + length xs ≤ length g
    → AllInside (length g) xs
    → Led g forward before xs
    → ((y : ℕ) → 0 < count y before → IsKnown d y × (rank d y < i))
    → Returns (pass g xs d changed) (Completes g xs d changed)
unfolding pass
pass-Completes k g i before [] d changed m ordered size root pos placed fit inside led known = (
  (d, changed),
  refl,
  (
    record { ordered = ordered; size = refl; map = refl; keeps = λ x k. k },
    λ x h. absurd (omega (arith, h)),
    λ e. (e, refl, λ x h. absurd (omega (arith, h))),
    record { outside = λ y h. refl; reported = λ e. inl e },
  ),
)
pass-Completes k g i before (x ∷ xs) d changed m ordered size root pos (at, placed) fit
      (x-in, inside) ((y, edge, y-before), led) known =
    let rank-x : rank d x ≡ i = ground (arith, at) in
    let ranked : IsRanked d x = ground (arith, at) in
    let other : (x == 0) ≡ false = elim (Bool-cases (x == 0)) [
      | inl e ↦ absurd (ground (arith, root, at, (==_iff x 0).0 e, pos))
      | inr e ↦ e
    ] in
    let (ky, low) = known y y-before in
    let ((d₁, c₁), run₁, (u₁, kx, fixed₁, altered₁, others₁)) =
      update-Improves g d x y ordered m.back size x-in ranked (omega (arith, rank-x, fit)) other
        (Edge-mirrored k g x y m edge) ky (omega (arith, rank-x, low)) in
    let known₁ : (z : ℕ) → 0 < count z (before ++ x ∷ []) → IsKnown d₁ z × (rank d₁ z < suc i) =
      λ z h. elim (count-snoc-cases z x before h) [
        | inl e ↦
            subst (λ z. IsKnown d₁ z × (rank d₁ z < suc i)) e
              (kx, omega (arith, rank-map d d₁ x u₁.map, rank-x))
        | inr h' ↦
            let (kz, low-z) = known z h' in
            (u₁.keeps z kz, omega (arith, rank-map d d₁ z u₁.map, low-z))
      ] in
    let ((d₂, c₂), run₂, (u₂, all₂, fixed₂, alters₂)) =
      pass-Completes k g (suc i) (before ++ x ∷ []) xs d₁ (changed || c₁) m u₁.ordered
        (u₁.size ∙ size) (ap (λ m. get_elem? m 0) u₁.map ∙ root) (omega arith)
        (subst (λ m. Placed m (suc i) xs) (sym u₁.map) placed) (omega (arith, fit)) inside led
        known₁ in
    (
      (d₂, c₂),
      bind-ok (update g x d) (λ (d', c). pass g xs d' (changed || c)) (d₁, c₁) (ok (d₂, c₂)) run₁
          run₂,
      (
        IsUpdated-trans d d₁ d₂ u₁ u₂,
        λ z h. elim (count-cases z x xs h) [
          | inl e ↦ subst (IsKnown d₂) e (u₂.keeps x kx)
          | inr h' ↦ all₂ z h'
        ],
        λ e.
            let (either, same₂, settled₂) = fixed₂ e in
            let (first, second) = or-false changed c₁ either in
            let (same₁, settled₁) = fixed₁ second in
            (
              first,
              same-state d d₁ d₂ same₂ same₁,
              λ z h. elim (count-cases z x xs h) [
                | inl e ↦ subst (IsSettled g d) e settled₁
                | inr h' ↦ subst (λ d. IsSettled g d z) same₁ (settled₂ z h')
              ],
            ),
        Alters-cons x xs d d₁ d₂ changed c₁ c₂
            (Placed-earlier d.id_map (suc i) i x xs at (omega arith) placed) others₁ altered₁
            alters₂,
      ),
    )
