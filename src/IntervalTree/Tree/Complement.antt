-- ===== src/IntervalTree/Tree/Complement.antt =====
-- `complement` of src/util/intervaltree.cpp on a tree without overlaps: the order of its ranges, and the
-- gaps between them.
use egalito.Base.{
  ℕ, suc, ◌+◌, ◌-◌, ◌≤◌, ◌<◌, ◌≡◌, refl, ap, sym, subst, ◌∙◌, inl, inr, List, [], ◌∷◌, ◌++◌, ◌&&◌,
  arith, Bool-cases, leb, ltb, to_ℕ, min, max,
}
use egalito.Base.Result.{Returns}
use egalito.Range.{Range, address_limit, end, contains_point}
use egalito.Range.Laws.{IsValid, end-IsValid, equal_iff}
use egalito.IntervalTree.Weight.{weigh, weight, All, count_of, covers, weigh-in_start_order}
use egalito.IntervalTree.Invariant.{Within, Holds, IsTree, All-map, in_start_order-Within}
use egalito.IntervalTree.Bounds.Nearest.{AreDisjoint, member-covers, member-Within}
use egalito.IntervalTree.Tree.Cut.{IsRoot, piece, add_piece-Adds}
use egalito.IntervalTree.Tree.Union.{total_range-IsRoot}
use egalito.IntervalTree.Tree.{complement_step, complement_all, complement_end, complement}
use egalito.IntervalTree.{Node, null, node, new_node, total_range, in_start_order}

-- Ranges in the order of their addresses, without overlaps, from `lo` up to `hi`.
abbrev AreOrdered : ℕ → ℕ → List Range → Type 0
AreOrdered lo hi [] = lo ≤ hi
AreOrdered lo hi (r ∷ rs) = (lo ≤ r.start) × (0 < r.size) × AreOrdered (r.start + r.size) hi rs

AreOrdered-append :
    (lo mid hi : ℕ) (xs ys : List Range)
    → AreOrdered lo mid xs
    → AreOrdered mid hi ys
    → AreOrdered lo hi (xs ++ ys)
AreOrdered-append lo mid hi [] [] a b = omega arith
AreOrdered-append lo mid hi [] (y ∷ ys) a b = (omega arith, b.1, b.2)
AreOrdered-append lo mid hi (x ∷ xs) ys a b =
    (a.0, a.1, AreOrdered-append (x.start + x.size) mid hi xs ys a.2 b)

-- All ranges of a tree lie from `lo` up to `hi`.
abbrev Confined : ℕ → ℕ → Node → Type 0
Confined lo hi t =
    (r : Range) → 0 < weight (λ q. count_of q r) t → (lo ≤ r.start) × (r.start + r.size ≤ hi)

-- Of two ranges in different parts of a tree without overlaps, none holds a point of the other.
part_covers :
    (t : Node) (r : Range) (p : ℕ)
    → IsValid r
    → r.start ≤ p
    → p < r.start + r.size
    → 0 < weight (λ q. count_of q r) t
    → 0 < weight (covers p) t
part_covers t r p v h k m =
    member-covers t r p (unfold contains_point in ground (arith, end-IsValid r v)) m

self : (r : Range) → count_of r r ≡ 1
self r = ap to_ℕ ((equal_iff r r).1 refl)

Holds-midpoint :
    (least b midpoint : ℕ) (r : Range) → Holds least b midpoint r → covers midpoint r ≡ 1
unfolding contains_point
Holds-midpoint least b midpoint r h = ground (arith, end-IsValid r h.within.valid)

-- A range below the midpoint ends before a range that holds it; one above starts behind it.
apart_below :
    {least midpoint : ℕ} (t : Node) (s r : Range)
    → IsValid s
    → Within least midpoint r
    → s.start ≤ midpoint
    → midpoint < s.start + s.size
    → ((p : ℕ) → weight (covers p) t + covers p s ≤ 1)
    → 0 < weight (λ q. count_of q r) t
    → r.start + r.size ≤ s.start
apart_below t s r v w before behind one m = elim (Bool-cases (leb (r.start + r.size) s.start)) [
  | inl e ↦ ground arith
  | inr e ↦
      let last = r.start + r.size - 1 in
      let later : s.start < r.start + r.size = ground arith in
      let mine = part_covers t r last w.valid (omega (arith, w)) (omega (arith, w)) m in
      let its : covers last s ≡ 1 = unfold contains_point in ground (arith, end-IsValid s v, w) in
      absurd (omega (arith, one last))
]

apart_above :
    {midpoint b : ℕ} (t : Node) (s r : Range)
    → IsValid s
    → Within (suc midpoint) b r
    → s.start ≤ midpoint
    → ((p : ℕ) → weight (covers p) t + covers p s ≤ 1)
    → 0 < weight (λ q. count_of q r) t
    → s.start + s.size ≤ r.start
apart_above t s r v w before one m = elim (Bool-cases (leb (s.start + s.size) r.start)) [
  | inl e ↦ ground arith
  | inr e ↦
      let later : r.start < s.start + s.size = ground arith in
      let mine = part_covers t r r.start w.valid (omega arith) (omega (arith, w)) m in
      let its : covers r.start s ≡ 1 =
        unfold contains_point in ground (arith, end-IsValid s v, w) in
      absurd (omega (arith, one r.start))
]

in_start_order-AreOrdered :
    (lo hi a least b : ℕ) (t : Node)
    → b < address_limit
    → IsTree a least b t
    → AreDisjoint t
    → Confined lo hi t
    → lo ≤ hi
    → AreOrdered lo hi (in_start_order t)
unfolding in_start_order
in_start_order-AreOrdered lo hi a least b null lim i d c h = h
in_start_order-AreOrdered lo hi a least b (node total midpoint lower higher [] ends) lim i d c h =
    let mid : ℕ = min hi (max lo midpoint) in
    AreOrdered-append lo mid hi (in_start_order lower) (in_start_order higher)
      (in_start_order-AreOrdered lo mid a least midpoint lower (omega (arith, i.0)) i.1
        (λ x. omega (arith, d x))
        (λ r m.
          let (from, to) = c r (omega arith) in
          let w = member-Within a least midpoint lower r i.1 m in (from, omega arith))
        (omega arith))
      (in_start_order-AreOrdered mid hi midpoint (suc midpoint) b higher lim i.2
        (λ x. omega (arith, d x))
        (λ r m.
          let (from, to) = c r (omega arith) in
          let w = member-Within midpoint (suc midpoint) b higher r i.2 m in (omega arith, to))
        (omega arith))
in_start_order-AreOrdered lo hi a least b (node total midpoint lower higher (s ∷ []) ends) lim i d c
      h =
    let (from, to) = c s (omega (arith, self s)) in
    let held = i.0.held.0 in
    AreOrdered-append lo s.start hi (in_start_order lower) (s ∷ in_start_order higher)
      (in_start_order-AreOrdered lo s.start a least midpoint lower (omega (arith, i.0)) i.1
        (λ x. omega (arith, d x))
        (λ r m. (
          (c r (omega arith)).0,
          apart_below lower s r held.within.valid (member-Within a least midpoint lower r i.1 m)
              held.before held.behind (λ x. omega (arith, d x)) m,
        ))
        from)
      (
        omega arith,
        held.within.nonempty,
        in_start_order-AreOrdered (s.start + s.size) hi midpoint (suc midpoint) b higher lim i.2
            (λ x. omega (arith, d x))
            (λ r m. (
              apart_above higher s r held.within.valid
                  (member-Within midpoint (suc midpoint) b higher r i.2 m) held.before
                  (λ x. omega (arith, d x)) m,
              (c r (omega arith)).1,
            ))
            to,
      )
in_start_order-AreOrdered lo hi a least b (node total midpoint lower higher (s ∷ q ∷ rs) ends) lim i
      d c h =
    absurd (
      omega (
        arith,
        d midpoint,
        Holds-midpoint least b midpoint s i.0.held.0,
        Holds-midpoint least b midpoint q i.0.held.1.0,
      ))

complement_step-IsRoot :
    (a b : ℕ) (t : Node) (r : Range) (last : ℕ)
    → b < address_limit
    → IsRoot a b t
    → IsValid r
    → a ≤ last
    → last ≤ r.start
    → r.start + r.size ≤ b
    → Returns (complement_step last t r) (λ res.
      (res.0 ≡ r.start + r.size)
      × IsRoot a b res.1
      × ((p : ℕ)
          → weight (covers p) res.1 + covers p r
            ≡ weight (covers p) t + to_ℕ (leb last p && ltb p (r.start + r.size))))
unfolding complement_step
complement_step-IsRoot a b t r last lim root v from order to =
    elim (Bool-cases (ltb last r.start)) [
      | inl e ↦
          let (t', run, (root', sum)) =
            add_piece-Adds a b t last r.start lim root from (ground arith) (omega arith) in
          (
            (max last (end r), t'),
            simp (e, run),
            (
              omega (arith, end-IsValid r v),
              root',
              λ p.
                  unfold contains_point in
                  ground (arith, sum (covers p), end-IsValid r v, end-IsValid (piece last r.start)),
            ),
          )
      | inr e ↦ (
        (max last (end r), t),
        rw e,
        (
          omega (arith, end-IsValid r v),
          root,
          λ p. unfold contains_point in ground (arith, end-IsValid r v),
        ),
      )
    ]

AreOrdered-le : (lo hi : ℕ) (rs : List Range) → AreOrdered lo hi rs → lo ≤ hi
AreOrdered-le lo hi [] h = h
AreOrdered-le lo hi (r ∷ rs) h = omega (arith, AreOrdered-le (r.start + r.size) hi rs h.2)

complement_all-IsRoot :
    (a b : ℕ) (rs : List Range) (t : Node) (last : ℕ)
    → b < address_limit
    → IsRoot a b t
    → a ≤ last
    → AreOrdered last b rs
    → All IsValid rs
    → Returns (complement_all rs last t) (λ res.
      (last ≤ res.0)
      × (res.0 ≤ b)
      × IsRoot a b res.1
      × ((p : ℕ)
          → weight (covers p) res.1 + weigh (covers p) rs
            ≡ weight (covers p) t + to_ℕ (leb last p && ltb p res.0)))
unfolding complement_all
complement_all-IsRoot a b [] t last lim root from ordered v =
    ((last, t), refl, (omega arith, ordered, root, λ p. ground arith))
complement_all-IsRoot a b (r ∷ rs) t last lim root from ordered v =
    let rest = AreOrdered-le (r.start + r.size) b rs ordered.2 in
    let (res, run, (e, root₁, sum)) =
      complement_step-IsRoot a b t r last lim root v.0 from ordered.0 rest in
    let (res', run', (from', to', root', sum')) =
      complement_all-IsRoot a b rs res.1 res.0 lim root₁ (omega (arith, ordered.0))
        (subst (λ x. AreOrdered x b rs) (sym e) ordered.2) v.1 in
    (
      res',
      simp (run, run'),
      (
        omega (arith, ordered.0),
        to',
        root',
        λ p. ground (arith, sum p, sum' p, ordered.0, ordered.1),
      ),
    )

new_node-IsRoot :
    (a b : ℕ) (total : Range)
    → total.start ≡ a
    → total.start + total.size ≡ b
    → b < address_limit
    → IsRoot a b (new_node total) × ((w : Range → ℕ) → weight w (new_node total) ≡ 0)
unfolding new_node
new_node-IsRoot a b total e f lim = (
  record {
    tree = (
      record {
        least_from = omega arith;
        least_to = omega arith;
        begins = e;
        finishes = f;
        middle = omega arith;
        held = tt;
        held_ends = tt;
        sorted = tt;
        sorted_ends = tt;
        same = λ w. refl;
      },
      tt,
      tt,
    );
    there = tt;
  },
  λ w. refl,
)

complement_end-IsRoot :
    (a b : ℕ) (bounds : Range) (state : ℕ × Node)
    → end bounds ≡ b
    → b < address_limit
    → IsRoot a b state.1
    → a ≤ state.0
    → state.0 ≤ b
    → Returns (complement_end bounds state) (λ t'.
      IsRoot a b t'
      × ((p : ℕ)
          → weight (covers p) t' ≡ weight (covers p) state.1 + to_ℕ (leb state.0 p && ltb p b)))
unfolding complement_end
complement_end-IsRoot a b bounds (last, t) finish lim root from to =
    elim (Bool-cases (ltb last b)) [
      | inl e ↦
          let (t', run, (root', sum)) =
            add_piece-Adds a b t last b lim root from (ground arith) (omega arith) in
          (
            t',
            simp (finish, e, run),
            (
              root',
              λ p.
                  unfold contains_point in
                  ground (arith, sum (covers p), end-IsValid (piece last b)),
            ),
          )
      | inr e ↦ (t, simp (finish, e), (root, λ p. ground arith))
    ]

-- `complement` of a tree without overlaps succeeds: the new tree has the same total range, and covers
-- each address of it once that the old tree does not cover, and no other address.
pub complement-covers :
    (a b : ℕ) (t : Node)
    → b < address_limit
    → IsRoot a b t
    → AreDisjoint t
    → Returns (complement t) (λ t'.
      IsRoot a b t'
      × ((p : ℕ) → weight (covers p) t' + weight (covers p) t ≡ to_ℕ (leb a p && ltb p b)))
unfolding complement
complement-covers a b t lim root apart =
    let bounds = total_range t in
    let (first, last) = total_range-IsRoot a b t root in
    let finish : end bounds ≡ b = end-IsValid bounds (omega arith) ∙ last in
    let (fresh, empty) = new_node-IsRoot a b bounds first last lim in
    let ordered =
      in_start_order-AreOrdered bounds.start b a a b t lim root.tree apart
        (λ r m. let w = member-Within a a b t r root.tree m in (omega arith, w.to)) (omega arith) in
    let (res, run, (from, to, root₁, sum)) =
      complement_all-IsRoot a b (in_start_order t) (new_node bounds) bounds.start lim fresh
        (omega arith) ordered
        (All-map (in_start_order t) (λ r w. w.valid) (in_start_order-Within a a b t root.tree)) in
    let (t', run', (root', sum')) =
      complement_end-IsRoot a b bounds res finish lim root₁ (omega arith) to in
    (
      t',
      rw run run',
      (
        root',
        λ p.
            ground
              (arith, sum p, sum' p, empty (covers p), weigh-in_start_order (covers p) t, first),
      ),
    )
