-- ===== src/Analysis/Walker/Trace.antt =====
-- The events of a depth-first walk, in order, whatever the collector does with them.
use egalito.Base.{
  ℕ, zero, suc, ◌+◌, ◌<◌, ◌≡◌, refl, ◌∙◌, sym, Bool, true, false, List, [], ◌∷◌, ◌++◌, some, arith,
  get_elem?, get_or, set, length, if◌then◌else◌, ◌==◌,
}
use egalito.Base.Result.{Result, ok, ◌>>=◌, bind_cong, bind_assoc}
use egalito.Analysis.Graph.{Graph, Node, Link, Direction, get_links}
use egalito.Analysis.Walker.{Collector, is_visited}

pub data Event : Type 0 where
  entered : Node → Event
  left : Node → Event
  seen_again : Node → Link → Event

abbrev pub marked : List Bool → ℕ → Bool
marked v x = get_or v x false

-- The walk from a node, and that over links of one, from some visited nodes to others.
mutual
  pub data Walk (g : Graph) (dir : Direction)
      : List Bool → ℕ → List Event → List Bool → Type 0 where
    visit :
        (v : List Bool) (id : ℕ) (n : Node) (es fs : List Event) (v' : List Bool)
        → id < length v
        → marked v id ≡ false
        → get_elem? g id ≡ some n
        → Links g dir (set v id true) n (get_links dir n) es v'
        → fs ≡ entered n ∷ (es ++ left n ∷ [])
        → Walk g dir v id fs v'

  pub data Links (g : Graph) (dir : Direction)
      : List Bool → Node → List Link → List Event → List Bool → Type 0 where
    finished : (v : List Bool) (n : Node) → Links g dir v n [] [] v
    again :
        (v : List Bool) (n : Node) (l : Link) (ls : List Link) (es : List Event) (v' : List Bool)
        → marked v l.target ≡ true
        → Links g dir v n ls es v'
        → Links g dir v n (l ∷ ls) (seen_again n l ∷ es) v'
    deeper :
        (v : List Bool) (n : Node) (l : Link) (ls : List Link) (es fs gs : List Event)
        (v' v'' : List Bool)
        → Walk g dir v l.target es v'
        → Links g dir v' n ls fs v''
        → gs ≡ es ++ fs
        → Links g dir v n (l ∷ ls) gs v''

module _ {S : Type 0} (c : Collector S) where
  -- What the collector makes of an event, and of several.
  unfoldable pub handle : Event → S → Result S
  handle (entered n) t = c.pre_visit n t
  handle (left n) t = c.post_visit n t
  handle (seen_again n l) t = c.late_visit n l t

  unfoldable pub handle_all : List Event → S → Result S
  handle_all [] t = ok t
  handle_all (e ∷ es) t = handle e t >>= λ u. handle_all es u

  pub handle_all-append :
      (es fs : List Event) (t : S)
      → handle_all (es ++ fs) t ≡ (handle_all es t >>= λ u. handle_all fs u)
  unfolding handle_all
  handle_all-append [] fs t = refl
  handle_all-append (e ∷ es) fs t =
      bind_cong (handle e t) _ _ (λ u. handle_all-append es fs u)
      ∙ sym (bind_assoc (handle e t) (handle_all es) (handle_all fs))

-- How many nodes are not visited.
abbrev pub unvisited : List Bool → ℕ
unvisited [] = 0
unvisited (b ∷ v) = (if b then 0 else 1) + unvisited v

pub unvisited-set :
    (v : List Bool) (i : ℕ)
    → i < length v
    → marked v i ≡ false
    → unvisited v ≡ suc (unvisited (set v i true))
unvisited-set [] i h e = elim h [ ]
unvisited-set (b ∷ v) zero h e = ground (arith, e)
unvisited-set (b ∷ v) (suc i) h e = omega (arith, unvisited-set v i (omega arith) e)

pub marked-set :
    (v : List Bool) (i x : ℕ)
    → i < length v
    → marked (set v i true) x ≡ (if i == x then true else marked v x)
marked-set [] i x h = elim h [ ]
marked-set (b ∷ v) zero zero h = refl
marked-set (b ∷ v) zero (suc x) h = ground arith
marked-set (b ∷ v) (suc i) zero h = ground arith
marked-set (b ∷ v) (suc i) (suc x) h = ground (arith, marked-set v i x (omega arith))

-- The links of each node lead to nodes, and nodes have their indices as ids.
abbrev pub AllBelow : ℕ → List Link → Type 0
AllBelow k [] = Unit
AllBelow k (l ∷ ls) = (l.target < k) × AllBelow k ls

abbrev pub IsGraph : Graph → Direction → Type 0
IsGraph g dir =
    (i : ℕ) (n : Node) → get_elem? g i ≡ some n → (n.id ≡ i) × AllBelow (length g) (get_links dir n)

pub is_visited-marked : (v : List Bool) (i : ℕ) → i < length v → is_visited v i ≡ ok (marked v i)
unfolding is_visited
is_visited-marked [] i h = elim h [ ]
is_visited-marked (b ∷ v) zero h = refl
is_visited-marked (b ∷ v) (suc i) h = is_visited-marked v i (omega arith)
