-- ===== src/Mutator.antt =====
-- src/operation/mutator.cpp and cursor.cpp: ChunkMutator, which adds and removes children. The
-- factory is in its default mode, so no position depends on a sibling (setPreviousSibling and
-- setNextSibling only set the pointers), generations are not tracked, and positions are updated by a
-- pass of the destructor. Of a list of chunks the iterable aspect is modelled. A child is taken to be
-- of the kind that its list holds, so the dynamic_cast of genericAdd and of its like succeeds; a child
-- of another kind, which the source leaves out of the list, is not modelled. insertBeforeJumpTo, which
-- swaps the semantics of instructions, and splitFunctionBefore are not modelled.
pub mod Passes
pub mod Siblings
pub mod Links
pub mod Hierarchy
pub mod Sizes
pub mod Insertion
pub mod Relinking
pub mod Renewal
pub mod Positions
pub mod Visits
pub mod Tiling
pub mod Splits
pub mod ChildLists
pub mod Removal
use egalito.Base.{
  ℕ, zero, suc, ◌+◌, ◌-◌, ◌%◌, ◌^◌, Bool, true, false, List, [], ◌∷◌, ◌++◌, Option, none, some, ltb,
  ◌==◌, ◌&&◌, get_elem?, length, take, drop, if◌then◌else◌,
}
use egalito.Base.Result.{Result, ok, fail, assertion, null_pointer, out_of_fuel, undefined, ◌>>=◌}
use egalito.Chunk.{
  Chunk, Store, Position, absolute, offset_by, slot_at, write, set_parent, set_previous, set_next,
  set_children, set_position, get_children, add_to_size, get_address, recalculate, make_position,
}

-- The chunks from an instruction up to the program are six.
abbrev pub levels : ℕ
levels = 8

-- IterableChunkList::indexOf, none being -1
unfoldable pub index_of : ℕ → List ℕ → Option ℕ
index_of c [] = none
index_of c (x ∷ xs) =
    let rest = index_of c xs in
    if x == c then some 0 else elim rest [ none ↦ none | some i ↦ some (suc i) ]

-- IterableChunkList::getLast
unfoldable pub get_last : List ℕ → Option ℕ
get_last [] = none
get_last (x ∷ []) = some x
get_last (x ∷ y ∷ ys) = get_last (y ∷ ys)

-- IterableChunkList::insertAt
unfoldable pub insert_at : ℕ → ℕ → List ℕ → List ℕ
insert_at zero c xs = c ∷ xs
insert_at (suc i) c [] = c ∷ []
insert_at (suc i) c (x ∷ xs) = x ∷ insert_at i c xs

-- IterableChunkList::remove
unfoldable pub remove_from : ℕ → List ℕ → List ℕ
remove_from c [] = []
remove_from c (x ∷ xs) = let rest = remove_from c xs in if x == c then xs else x ∷ rest

-- IterableChunkList::removeLast, of a list that has a last entry
unfoldable pub drop_last : List ℕ → List ℕ
drop_last [] = []
drop_last (x ∷ []) = []
drop_last (x ∷ y ∷ ys) = x ∷ drop_last (y ∷ ys)

-- ChunkCursor: the index of a chunk among its parent's children
unfoldable pub index_among : ℕ → Option (List ℕ) → Result ℕ
index_among chunk none = fail assertion
index_among chunk (some cs) = elim (index_of chunk cs) [ none ↦ fail assertion | some i ↦ ok i ]

abbrev pub cursor : Store → ℕ → ℕ → Result ℕ
cursor s parent chunk = index_among chunk (s parent).children

-- ChunkCursor::prev and get, which is followed
unfoldable pub cursor_chunk : Store → ℕ → ℕ → Result ℕ
cursor_chunk s parent i = get_children s parent >>= λ cs. elim (get_elem? cs i) [
  | none ↦ fail null_pointer
  | some c ↦ ok c
]

-- The offset in makePositionFor of the child at an index.
unfoldable pub offset_at : ℕ → ℕ → Store → Result ℕ
offset_at zero chunk s = ok 0
offset_at (suc i) chunk s = cursor_chunk s chunk i >>= λ prev. get_address levels s prev >>= λ a.
    get_address levels s chunk >>= λ b. ok ((2 ^ 64 + a - b) % 2 ^ 64)

-- ChunkMutator::makePositionFor
unfoldable pub make_position_for : ℕ → ℕ → Store → Result Store
make_position_for chunk child s = cursor s chunk child >>= λ i.
    offset_at i chunk s >>= λ o. ok (set_position child (some (make_position o)) s)

-- if(!child->getPosition()) makePositionFor(child)
unfoldable pub ensure_position : ℕ → ℕ → Store → Result Store
ensure_position chunk child s = elim ((s child).position) [
  | none ↦ make_position_for chunk child s
  | some p ↦ ok s
]

-- addToSize of a chunk, left out if its size is 0 and only tracked sizes are adjusted
unfoldable pub adjust_size : Bool → ℕ → ℕ → Store → Result Store
adjust_size only_tracked add c s =
    let adjusted = add_to_size add (s c) >>= λ c'. ok (write s c c') in
    if only_tracked && (s c).size == 0 then ok s else adjusted

-- The loops over the chunk and those above it, up to the module: `only_tracked` leaves out the
-- chunks whose size is 0.
unfoldable pub adjust_sizes : ℕ → Bool → ℕ → Option ℕ → Store → Result Store
adjust_sizes fuel only_tracked add none s = ok s
adjust_sizes zero only_tracked add (some c) s = fail out_of_fuel
adjust_sizes (suc fuel) only_tracked add (some c) s =
    let rest = adjust_size only_tracked add c s >>= λ s'.
    adjust_sizes fuel only_tracked add ((s' c).parent) s' in
    if (s c).is_module then ok s else rest

-- updateSizesAndAuthorities
unfoldable pub update_sizes : ℕ → ℕ → Store → Result Store
update_sizes chunk child s = adjust_sizes levels false ((s child).size) (some chunk) s

-- setNextSibling and setPreviousSibling of a chunk if there is one
unfoldable pub set_next_of : Option ℕ → Option ℕ → Store → Store
set_next_of none n s = s
set_next_of (some c) n s = set_next c n s

unfoldable pub set_previous_of : Option ℕ → Option ℕ → Store → Store
set_previous_of none p s = s
set_previous_of (some c) p s = set_previous c p s

-- The sibling pointers of append.
unfoldable pub link_last : ℕ → Option ℕ → Store → Store
link_last child none s = set_next child none (set_previous child none s)
link_last child (some prev) s = set_next prev (some child) (set_previous child (some prev) s)

unfoldable pub append : ℕ → ℕ → Store → Result Store
append chunk child s = get_children s chunk >>= λ cs.
    let s₁ = set_parent child (some chunk) (link_last child (get_last cs) s) in
    get_children s₁ chunk >>= λ cs₁.
    ensure_position chunk child (set_children chunk (cs₁ ++ child ∷ []) s₁) >>= λ s₂.
    update_sizes chunk child s₂

-- The sibling pointers of insertAfter.
unfoldable pub link_after : Option ℕ → ℕ → Store → Store
link_after none new s = set_next new none (set_previous new none s)
link_after (some point) new s =
    let s₁ = set_previous new (some point) s in
    let next = (s₁ point).next in
    let s₂ = set_previous_of next (some new) s₁ in set_next point (some new) (set_next new next s₂)

-- The index at which insertAfter inserts: genericIndexOf returns -1 for a chunk that is not there.
unfoldable pub index_after : Option ℕ → List ℕ → ℕ
index_after none cs = 0
index_after (some point) cs = elim (index_of point cs) [ none ↦ 0 | some i ↦ i + 1 ]

-- The first of a chunk's children gets a new position.
unfoldable pub renew_first : ℕ → Option (List ℕ) → Store → Result Store
renew_first n none s = ok s
renew_first n (some []) s = ok s
renew_first n (some (c ∷ cs)) s = make_position_for n c (set_position c none s)

-- The end of insertAfter, with the new chunk's next sibling.
unfoldable pub renew_next : Option ℕ → Store → Result Store
renew_next none s = ok s
renew_next (some n) s = renew_first n (s n).children s

unfoldable pub insert_after : ℕ → Option ℕ → ℕ → Store → Result Store
insert_after chunk point new s =
    let s₁ = link_after point new s in
    get_children s₁ chunk >>= λ cs.
    let s₂ =
      set_parent new (some chunk)
        (set_children chunk (insert_at (index_after point cs) new cs) s₁) in
    ensure_position chunk new s₂ >>= λ s₃.
    update_sizes chunk new s₃ >>= λ s₄. renew_next (s₄ new).next s₄

-- The sibling pointers of insertBefore.
unfoldable pub link_before : ℕ → ℕ → Store → Store
link_before point new s =
    let prev = (s point).prev in
    let s₁ = set_next_of prev (some new) s in
    set_previous point (some new) (set_previous new prev (set_next new (some point) s₁))

-- The index at which insertBefore inserts: inserting at -1 is undefined.
unfoldable pub index_before : ℕ → List ℕ → Result ℕ
index_before point cs = elim (index_of point cs) [ none ↦ fail undefined | some i ↦ ok i ]

unfoldable pub insert_before : ℕ → Option ℕ → ℕ → Store → Result Store
insert_before chunk none new s = append chunk new s
insert_before chunk (some point) new s =
    let s₁ = link_before point new s in
    get_children s₁ chunk >>= λ cs. index_before point cs >>= λ i.
    let s₂ = set_parent new (some chunk) (set_children chunk (insert_at i new cs) s₁) in
    ensure_position chunk new s₂ >>= λ s₃. update_sizes chunk new s₃

unfoldable pub prepend : ℕ → ℕ → Store → Result Store
prepend chunk child s = get_children s chunk >>= λ cs. elim cs [
  | [] ↦ append chunk child s
  | first ∷ rest ↦ insert_before chunk (some first) child s
]

-- The sibling pointers of remove.
unfoldable pub unlink : ℕ → Store → Store
unlink child s =
    let prev = (s child).prev in
    let next = (s child).next in set_previous_of next prev (set_next_of prev next s)

unfoldable pub remove : ℕ → ℕ → Store → Result Store
remove chunk child s =
    let s₁ = unlink child s in
    get_children s₁ chunk >>= λ cs.
    let s₂ = set_children chunk (remove_from child cs) s₁ in
    adjust_sizes levels true ((2 ^ 64 - (s₂ child).size) % 2 ^ 64) (some chunk) s₂

-- The last child, which is followed.
unfoldable pub last_child : Store → ℕ → Result ℕ
last_child s chunk =
    get_children s chunk >>= λ cs. elim (get_last cs) [ none ↦ fail null_pointer | some c ↦ ok c ]

-- One round of the loop of removeLast.
unfoldable pub drop_child : ℕ → ℕ → Store → Result Store
drop_child chunk last s =
    let s₁ = set_next_of ((s last).prev) none s in
    get_children s₁ chunk >>= λ cs. ok (set_children chunk (drop_last cs) s₁)

-- The loop of removeLast: the size that was removed, and the store.
unfoldable pub remove_lasts : ℕ → ℕ → Store → Result (ℕ × Store)
remove_lasts zero chunk s = ok (0, s)
remove_lasts (suc n) chunk s = last_child s chunk >>= λ last. drop_child chunk last s >>= λ s₁.
    remove_lasts n chunk s₁ >>= λ (size, s'). ok (((s last).size + size) % 2 ^ 64, s')

unfoldable pub remove_last : ℕ → ℕ → Store → Result Store
remove_last n chunk s = remove_lasts n chunk s >>= λ (size, s').
    adjust_sizes levels true ((2 ^ 64 - size) % 2 ^ 64) (some chunk) s'

-- modifiedChildSize
unfoldable pub modified_child_size : ℕ → ℕ → Store → Result Store
modified_child_size chunk added s = adjust_sizes levels false added (some chunk) s
