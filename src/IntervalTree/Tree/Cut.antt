-- ===== src/IntervalTree/Tree/Cut.antt =====
-- `subtract` and `subtractWithAddendum` of src/util/intervaltree.cpp, by the addresses that the ranges
-- of the tree cover.
use egalito.Base.{
  ℕ, ◌+◌, ◌-◌, ◌≤◌, ◌<◌, ◌≡◌, refl, ap, inl, inr, Bool, true, false, List, [], ◌∷◌, ◌&&◌, arith,
  Bool-cases, if◌then◌else◌, leb, ltb, not,
}
use egalito.Base.Result.{Returns}
use egalito.Range.{Range, address_limit, end, contains_point, overlaps, from_endpoints}
use egalito.Range.Laws.{IsValid, end-IsValid, equal_iff}
use egalito.IntervalTree.Weight.{weigh, weight, only, All, count_of, covers, weight-add}
use egalito.IntervalTree.Invariant.{
  Within, IsTree, IsThere, weight_congr, weight-vanish, weight-zero,
}
use egalito.IntervalTree.Add.{add-Adds}
use egalito.IntervalTree.Remove.{remove-Removes}
use egalito.IntervalTree.Overlapping.{weigh-find_overlapping}
use egalito.IntervalTree.Bounds.Nearest.{member-Within, weight_mono}
use egalito.IntervalTree.Tree.{
  add_piece, keep_before, keep_behind, cut_all, subtract, subtract_with_addendum,
}
use egalito.IntervalTree.{Node, find_overlapping}

-- A tree over [a, b) with a root.
pub record IsRoot (a b : ℕ) (t : Node) : Type 0 where
  pub tree : IsTree a a b t
  pub there : IsThere t

-- One range from `s` up to `e`.
abbrev pub piece : ℕ → ℕ → Range
piece s e = record { start = s; size = e - s }

pub add_piece-Adds :
    (a b : ℕ) (t : Node) (s e : ℕ)
    → b < address_limit
    → IsRoot a b t
    → a ≤ s
    → s < e
    → e ≤ b
    → Returns
        (add_piece t s e)
        (λ t'. IsRoot a b t' × ((w : Range → ℕ) → weight w t' ≡ weight w t + w (piece s e)))
unfolding add_piece from_endpoints
add_piece-Adds a b t s e lim root from order to =
    let (res, run, (_, adds)) =
      add-Adds 64 a a b t (piece s e) lim (omega arith) root.there root.tree
        (record { valid = omega arith; nonempty = omega arith; from = from; to = omega arith }) in
    let test : leb s e ≡ true = ground arith in
    (res.1, simp (test, run), (record { tree = adds.tree; there = adds.there }, adds.sum))

-- The ranges that a cut from `lo` to `hi` may meet.
pub record IsCut (a b lo hi : ℕ) (r : Range) : Type 0 where
  pub within : Within a b r
  pub before : r.start ≤ hi
  pub behind : lo < r.start + r.size

-- What a cut leaves of a sum: the two pieces of the range.
abbrev left_over : ℕ → ℕ → (Range → ℕ) → Range → ℕ
left_over lo hi w r =
    (if ltb r.start lo then w (piece r.start lo) else 0)
    + (if ltb hi (r.start + r.size) then w (piece hi (r.start + r.size)) else 0)

keep_before-IsRoot :
    (a b lo hi : ℕ) (t : Node) (r : Range)
    → b < address_limit
    → IsRoot a b t
    → IsCut a b lo hi r
    → Returns (keep_before lo r t) (λ t'.
      IsRoot a b t'
      × ((w : Range → ℕ)
          → weight w t' ≡ weight w t + (if ltb r.start lo then w (piece r.start lo) else 0)))
unfolding keep_before
keep_before-IsRoot a b lo hi t r lim root c = elim (Bool-cases (ltb r.start lo)) [
  | inl e ↦
      let (t', run, (root', sum)) =
        add_piece-Adds a b t r.start lo lim root (omega (arith, c)) (ground arith)
          (omega (arith, c)) in
      (t', simp (e, run), (root', λ w. rw e (sum w)))
  | inr e ↦ (t, rw e, (root, λ w. rw e (omega arith)))
]

keep_behind-IsRoot :
    (a b lo hi : ℕ) (t : Node) (r : Range)
    → b < address_limit
    → IsRoot a b t
    → IsCut a b lo hi r
    → Returns (keep_behind hi r t) (λ t'.
      IsRoot a b t'
      × ((w : Range → ℕ)
          → weight w t'
            ≡ weight w t
              + (if ltb hi (r.start + r.size) then w (piece hi (r.start + r.size)) else 0)))
unfolding keep_behind
keep_behind-IsRoot a b lo hi t r lim root c =
    rw (end-IsValid r c.within.valid) (elim (Bool-cases (ltb hi (r.start + r.size))) [
      | inl e ↦
          let (t', run, (root', sum)) =
            add_piece-Adds a b t hi (r.start + r.size) lim root (omega (arith, c)) (ground arith)
              (omega (arith, c)) in
          (t', simp (e, run), (root', λ w. rw e (sum w)))
      | inr e ↦ (t, rw e, (root, λ w. rw e (omega arith)))
    ])

-- The loop: each of the given ranges, which the tree has, is replaced by what the cut leaves of it.
cut_all-IsRoot :
    (a b lo hi : ℕ) (rs : List Range) (t : Node)
    → b < address_limit
    → IsRoot a b t
    → All (IsCut a b lo hi) rs
    → ((w : Range → ℕ) → weigh w rs ≤ weight w t)
    → Returns (cut_all lo hi rs t) (λ t'.
      IsRoot a b t'
      × ((w : Range → ℕ) → weight w t' + weigh w rs ≡ weight w t + weigh (left_over lo hi w) rs))
unfolding cut_all
cut_all-IsRoot a b lo hi [] t lim root cuts there = (t, refl, (root, λ w. refl))
cut_all-IsRoot a b lo hi (r ∷ rs) t lim root cuts there =
    let (res, run, gone) =
      remove-Removes a a b t r lim root.tree cuts.0.within.valid cuts.0.within.nonempty in
    let found : res.0 ≡ true =
      ground (arith, gone.found, there (λ q. count_of q r), (equal_iff r r).1 refl) in
    let root₁ : IsRoot a b res.1 = record { tree = gone.tree; there = gone.there root.there } in
    let (t₂, run₂, (root₂, sum₂)) = keep_before-IsRoot a b lo hi res.1 r lim root₁ cuts.0 in
    let (t₃, run₃, (root₃, sum₃)) = keep_behind-IsRoot a b lo hi t₂ r lim root₂ cuts.0 in
    let gone' : (w : Range → ℕ) → weight w res.1 + w r ≡ weight w t =
      λ w. ground (arith, gone.sum w, found) in
    let (t', run', (root', sum')) =
      cut_all-IsRoot a b lo hi rs t₃ lim root₃ cuts.1
        (λ w. omega (arith, there w, gone' w, sum₂ w, sum₃ w)) in
    (t', simp (run, run₂, run₃, run'), (root', λ w. omega (arith, sum' w, sum₂ w, sum₃ w, gone' w)))

-- A list whose entries all satisfy `P` wherever they occur.
All-of_member :
    (P : Range → Type 0) (rs : List Range)
    → ((r : Range) → 0 < weigh (λ q. count_of q r) rs → P r)
    → All P rs
All-of_member P [] h = tt
All-of_member P (x ∷ xs) h =
    (h x (ground (arith, (equal_iff x x).1 refl)), All-of_member P xs (λ r m. h r (omega arith)))

pub only-member :
    (test : Range → Bool) (t : Node) (r : Range)
    → 0 < weight (only test (λ q. count_of q r)) t
    → (test r ≡ true) × (0 < weight (λ q. count_of q r) t)
only-member test t r h = (
  elim (Bool-cases (test r)) [
    | inl e ↦ e
    | inr e ↦ absurd (
        omega (
          arith,
          weight_mono (only test (λ q. count_of q r)) (λ _. 0) t
              (λ q. ground (arith, (equal_iff q r).0, ap test {x = q} {y = r})),
          weight-zero t,
        ))
  ],
  omega (
    arith,
    weight_mono (only test (λ q. count_of q r)) (λ q. count_of q r) t (λ q. ground arith),
  ),
)

module _ (a b : ℕ) (t : Node) (range : Range) (hi : ℕ) (lim : b < address_limit)
    (root : IsRoot a b t) (v : IsValid range) (wide : end range ≤ hi) where
  found-IsCut : All (IsCut a b range.start hi) (find_overlapping t range)
  found-IsCut = All-of_member _ _ λ r m.
      let (meets, there) =
        only-member (λ q. overlaps q range) t r
          (omega
            (arith, weigh-find_overlapping (λ q. count_of q r) a a b t range lim root.tree v)) in
      let w = member-Within a a b t r root.tree there in
      record {
        within = w;
        before = unfold overlaps in ground (arith, end-IsValid r w.valid);
        behind = unfold overlaps in ground (arith, end-IsValid r w.valid);
      }

  found-le : (w : Range → ℕ) → weigh w (find_overlapping t range) ≤ weight w t
  found-le w = omega (
    arith,
    weigh-find_overlapping w a a b t range lim root.tree v,
    weight_mono (only (λ q. overlaps q range) w) w t (λ q. ground arith),
  )

  abbrev outside : ℕ → Range → ℕ
  outside p = only (λ r. not (overlaps r range && (leb range.start p && ltb p hi))) (covers p)

  -- A range and the pieces that stay of it, at one address.
  pieces-covers :
      (p : ℕ) (r : Range)
      → Within a b r
      → covers p r + only (λ q. overlaps q range) (left_over range.start hi (covers p)) r
        ≡ only (λ q. overlaps q range) (covers p) r + outside p r
  unfolding overlaps contains_point
  pieces-covers p r w = ground (
    arith,
    end-IsValid r,
    end-IsValid range,
    end-IsValid (piece r.start range.start),
    end-IsValid (piece hi (r.start + r.size)),
  )

  -- A cut up to `hi`, which is not before the range's end, leaves the points of the overlapping
  -- ranges that lie outside [start, hi), and all other ranges.
  cut_found :
      Returns
        (cut_all range.start hi (find_overlapping t range) t)
        (λ t'. IsRoot a b t' × ((p : ℕ) → weight (covers p) t' ≡ weight (outside p) t))
  cut_found =
      let (t', run, (root', sum)) =
        cut_all-IsRoot a b range.start hi (find_overlapping t range) t lim root found-IsCut
          found-le in
      (
        t',
        run,
        (
          root',
          λ p. omega (
            arith,
            sum (covers p),
            weigh-find_overlapping (covers p) a a b t range lim root.tree v,
            weigh-find_overlapping (left_over range.start hi (covers p)) a a b t range lim root.tree
                v,
            weight-add (covers p)
                (only (λ q. overlaps q range) (left_over range.start hi (covers p))) t,
            weight-add (only (λ q. overlaps q range) (covers p)) (outside p) t,
            weight_congr a a b _ _ t root.tree (pieces-covers p),
          ),
        ),
      )

-- For a range that does not wrap and a well-formed tree over 64-bit addresses, `subtract` succeeds and
-- keeps the invariant; afterwards no range of the tree covers an address of the given range, and each
-- other address is covered as often as before.
pub subtract-covers :
    (a b : ℕ) (t : Node) (range : Range)
    → b < address_limit
    → IsRoot a b t
    → IsValid range
    → Returns (subtract t range) (λ t'.
      IsRoot a b t'
      × ((p : ℕ)
          → weight (covers p) t' ≡ (if contains_point range p then 0 else weight (covers p) t)))
unfolding subtract
subtract-covers a b t range lim root v =
    let (t', run, (root', sum)) = cut_found a b t range (end range) lim root v (omega arith) in
    (
      t',
      run,
      (
        root',
        λ p. elim (Bool-cases (contains_point range p)) [
          | inl e ↦ rw e (
              omega (arith, sum p, weight-vanish a a b _ t root.tree (λ r w. pointwise_in p e r w)))
          | inr e ↦ rw e (
              omega (
                arith,
                sum p,
                weight_congr a a b _ (covers p) t root.tree (λ r w. pointwise_out p e r w),
              ))
        ],
      ),
    )
  where
    pointwise_in :
        (p : ℕ)
        → contains_point range p ≡ true
        → (r : Range) → Within a b r
        → only
            (λ q. not (overlaps q range && (leb range.start p && ltb p (end range))))
            (covers p)
            r
          ≡ 0
    pointwise_in p e r w =
        unfold contains_point overlaps in ground (arith, end-IsValid r, end-IsValid range)

    pointwise_out :
        (p : ℕ)
        → contains_point range p ≡ false
        → (r : Range) → Within a b r
        → only
            (λ q. not (overlaps q range && (leb range.start p && ltb p (end range))))
            (covers p)
            r
          ≡ covers p r
    pointwise_out p e r w =
        unfold contains_point overlaps in ground (arith, end-IsValid r, end-IsValid range)

-- `subtractWithAddendum` succeeds and keeps the invariant, if the range does not wrap and the addendum
-- ends at or behind its end: each range of the tree that overlaps the given range loses its addresses from the
-- start of the range up to the end of the addendum, and nothing else changes.
pub subtract_with_addendum-covers :
    (a b : ℕ) (t : Node) (range addendum : Range)
    → b < address_limit
    → IsRoot a b t
    → IsValid range
    → end range ≤ end addendum
    → Returns (subtract_with_addendum t range addendum) (λ t'.
      IsRoot a b t'
      × ((p : ℕ)
          → weight (covers p) t'
            ≡ weight
                (only
                  (λ r. not (overlaps r range && (leb range.start p && ltb p (end addendum))))
                  (covers p))
                t))
unfolding subtract_with_addendum
subtract_with_addendum-covers a b t range addendum lim root v wide =
    cut_found a b t range (end addendum) lim root v wide
