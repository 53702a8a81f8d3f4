-- ===== src/Analysis/Dominance/Meet.antt =====
-- The nearest common ancestor that intersect finds.
use egalito.Base.{
  ℕ, zero, suc, ◌+◌, ◌<◌, ◌≤◌, ◌≡◌, ◌≢◌, subst, Option, none, some, arith, get_elem?, length, ltb,
  ltb→lt, ◌==◌, ==_iff, Bool-cases, inl, inr, ◌⊎◌, tests,
}
use egalito.Base.Result.{Returns}
use egalito.Analysis.Dominance.{Dominance, read, is_later, climb, approach, intersect}

-- The immediate dominator of x is y.
abbrev pub Parent : Dominance → ℕ → ℕ → Type 0
Parent d x y = get_elem? d.idoms x ≡ some (some y)

abbrev pub IsKnown : Dominance → ℕ → Type 0
IsKnown d x = (y : ℕ) × Parent d x y

-- The place of a node in the order.
abbrev pub rank_of : Option (Option ℕ) → ℕ
rank_of none = 0
rank_of (some none) = 0
rank_of (some (some k)) = k

abbrev pub rank : Dominance → ℕ → ℕ
rank d x = rank_of (get_elem? d.id_map x)

abbrev pub IsRanked : Dominance → ℕ → Type 0
IsRanked d x = get_elem? d.id_map x ≡ some (some (rank d x))

-- Each known node has a place, which no other has, and a known immediate dominator at an earlier
-- place, but for the first node.
pub record IsOrdered (d : Dominance) : Type 0 where
  pub ranked : (x : ℕ) → IsKnown d x → IsRanked d x × (rank d x < length d.idoms)
  pub rising :
      (x y : ℕ) → Parent d x y → IsKnown d y × ((rank d y < rank d x) ⊎ ((rank d x ≡ 0) × (y ≡ x)))
  pub distinct : (x y : ℕ) → IsRanked d x → IsRanked d y → rank d x ≡ rank d y → x ≡ y

-- z is x or one of its dominators.
pub data Above (d : Dominance) (z : ℕ) : ℕ → Type 0 where
  stay : Above d z z
  rise : (x y : ℕ) → Parent d x y → Above d z y → Above d z x

-- What a finger has come to.
record IsClimbed (d : Dominance) (f o f' : ℕ) : Type 0 where
  known : IsKnown d f'
  above : Above d f' f
  bounded : rank d f' ≤ rank d o
  lower : rank d f' ≤ rank d f
  moved : rank d o < rank d f → rank d f' < rank d f
  covers : (w : ℕ) → Above d w f → rank d w ≤ rank d o → Above d w f'

lt_or_gt : (a b : ℕ) → a ≢ b → (a < b) ⊎ (b < a)
lt_or_gt a b h = omega (arith, h)

module _ (d : Dominance) (ordered : IsOrdered d) where
  pub Above-IsKnown : (y x : ℕ) → Above d y x → IsKnown d x → IsKnown d y
  Above-IsKnown y x stay k = k
  Above-IsKnown y x (rise x' z p a) k = Above-IsKnown y z a (ordered.rising x z p).0

  pub Above-rank : (y x : ℕ) → Above d y x → rank d y ≤ rank d x
  Above-rank y x stay = omega arith
  Above-rank y x (rise x' z p a) =
      let rec = Above-rank y z a in
      elim (ordered.rising x z p).1 [
        | inl h ↦ omega (arith, h, rec)
        | inr (h, same) ↦ subst (λ k. rank d y ≤ rank d k) same rec
      ]

  pub Above-trans : (y z x : ℕ) → Above d y x → Above d z y → Above d z x
  Above-trans y z x stay b = b
  Above-trans y z x (rise x' w p a) b = rise x w p (Above-trans y z w a b)

  -- What is above a node that is later than it, is above the node's dominator.
  Above-next : (x y w : ℕ) → Parent d x y → Above d w x → rank d w < rank d x → Above d w y
  Above-next x y w p stay h = absurd (omega (arith, h))
  Above-next x y w p (rise x' z q a) h =
      let same : z ≡ y = ground (arith, p, q) in subst (λ k. Above d w k) same a

  climb-IsClimbed :
      (fuel f o : ℕ)
      → rank d f < fuel
      → IsKnown d f
      → IsKnown d o
      → Returns (climb fuel d f o) (IsClimbed d f o)
  unfolding climb read is_later
  climb-IsClimbed zero f o h kf ko = absurd (omega (arith, h))
  climb-IsClimbed (suc fuel) f o h (up, p) ko =
      let ranked-f = (ordered.ranked f (up, p)).0 in
      let ranked-o = (ordered.ranked o ko).0 in
      elim (Bool-cases (ltb (rank d o) (rank d f))) [
        | inl e ↦
            let later = ltb→lt (rank d o) (rank d f) e in
            let (known-up, rises) = ordered.rising f up p in
            let lower : rank d up < rank d f = elim rises [
              | inl l ↦ l
              | inr (zero-f, _) ↦ absurd (omega (arith, zero-f, later))
            ] in
            let (f', run, c) = climb-IsClimbed fuel up o (omega (arith, h, lower)) known-up ko in
            (
              f',
              ground (arith, p, ranked-f, ranked-o, e, run),
              record {
                known = c.known;
                above = rise f up p c.above;
                bounded = c.bounded;
                lower = omega (arith, c.lower, lower);
                moved = λ m. omega (arith, c.lower, lower);
                covers = λ w a b. c.covers w (Above-next f up w p a (omega (arith, b, later))) b;
              },
            )
        | inr e ↦
            let earlier : rank d f ≤ rank d o = grind (tests, e) in
            (
              f,
              ground (arith, p, ranked-f, ranked-o, e),
              record {
                known = (up, p);
                above = stay;
                bounded = earlier;
                lower = omega arith;
                moved = λ m. absurd (omega (arith, m, earlier));
                covers = λ w a b. a;
              },
            )
      ]

  -- The result of intersect: a common dominator, above which all common dominators are.
  pub record IsMeet (x y z : ℕ) : Type 0 where
    pub above_left : Above d z x
    pub above_right : Above d z y
    pub nearest : (w : ℕ) → Above d w x → Above d w y → Above d w z

  approach-IsMeet :
      (rounds f1 f2 : ℕ)
      → rank d f1 + rank d f2 < rounds
      → IsKnown d f1
      → IsKnown d f2
      → Returns (approach rounds d f1 f2) (IsMeet f1 f2)
  unfolding approach read
  approach-IsMeet zero f1 f2 h k1 k2 = absurd (omega (arith, h))
  approach-IsMeet (suc rounds) f1 f2 h (u1, p1) (u2, p2) = elim (Bool-cases (f1 == f2)) [
    | inl e ↦
        let same : f1 ≡ f2 = (==_iff f1 f2).0 e in
        (
          f1,
          ground (arith, e),
          record {
            above_left = stay;
            above_right = subst (λ x. Above d f1 x) same stay;
            nearest = λ w a b. a;
          },
        )
    | inr e ↦
        let (ranked1, below1) = ordered.ranked f1 (u1, p1) in
        let (ranked2, below2) = ordered.ranked f2 (u2, p2) in
        let apart : rank d f1 ≢ rank d f2 =
          λ q. ground (arith, e, (==_iff f1 f2).1 (ordered.distinct f1 f2 ranked1 ranked2 q)) in
        let (g1, run1, c1) =
          climb-IsClimbed (suc (length d.idoms)) f1 f2 (omega (arith, below1)) (u1, p1) (u2, p2) in
        let (g2, run2, c2) =
          climb-IsClimbed (suc (length d.idoms)) f2 g1 (omega (arith, below2)) (u2, p2) c1.known in
        let falls : rank d g1 + rank d g2 < rank d f1 + rank d f2 =
          elim (lt_or_gt (rank d f1) (rank d f2) apart) [
            | inl l ↦ omega (arith, l, c1.lower, c2.moved (omega (arith, l, c1.lower)))
            | inr l ↦ omega (arith, c1.moved l, c2.lower)
          ] in
        let (z, run, m) =
          approach-IsMeet rounds g1 g2 (omega (arith, falls, h)) c1.known c2.known in
        (
          z,
          ground (arith, e, p1, p2, run1, run2, run),
          record {
            above_left = Above-trans g1 z f1 c1.above m.above_left;
            above_right = Above-trans g2 z f2 c2.above m.above_right;
            nearest = λ w a b.
                let a' = c1.covers w a (Above-rank w f2 b) in
                m.nearest w a' (c2.covers w b (Above-rank w g1 a'));
          },
        )
  ]

  -- In a state whose known nodes have places of their own in the order, each behind its dominator's,
  -- intersect of two known nodes returns, and gives a common dominator of both, above which all their
  -- common dominators are.
  pub intersect-IsMeet :
      (i1 i2 : ℕ) → IsKnown d i1 → IsKnown d i2 → Returns (intersect d i1 i2) (IsMeet i1 i2)
  unfolding intersect
  intersect-IsMeet i1 i2 k1 k2 =
      let below1 = (ordered.ranked i1 k1).1 in
      let below2 = (ordered.ranked i2 k2).1 in
      approach-IsMeet (suc (length d.idoms + length d.idoms)) i1 i2 (omega (arith, below1, below2))
        k1 k2
