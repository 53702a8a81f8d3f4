-- ===== src/Tests/Mutators.antt =====
-- Chunks and their mutator on concrete inputs.
use egalito.Base.{
  ℕ, ◌+◌, ◌%◌, ◌^◌, ◌≡◌, refl, sym, subst, false, List, [], ◌∷◌, Option, none, some, arith, ◌==◌,
  if◌then◌else◌, Bool-cases, inl, inr,
}
use egalito.Base.Result.{ok, Returns}
use egalito.Chunk.{Chunk, Store, Position, absolute, offset_by, computed, fixed, get_address}
use egalito.Mutator.{levels, append, prepend, insert_before, insert_after, remove}
use egalito.Mutator.Passes.{update_position_helper}
use egalito.Mutator.Siblings.{Avoids, Distinct}
use egalito.Mutator.Links.{IsHierarchy, Linked}
use egalito.Mutator.Hierarchy.{IsLoose}
use egalito.Mutator.Sizes.{Above}
use egalito.Mutator.Insertion.{Inserted, CanInsert}
use egalito.Mutator.ChildLists.{
  append-Inserted, prepend-Inserted, insert_before-Inserted, insert_after-Inserted,
}
use egalito.Chunk.Placed.{SameShape, Based}
use egalito.Chunk.Recalculated.{Ready}
use egalito.Mutator.Positions.{AllPlaced, Ordered, AllReady}
use egalito.Mutator.Visits.{Visit, VisitAll, update_position_helper-AllPlaced}
use egalito.Mutator.Tiling.{update_position_helper-total}
use egalito.Mutator.Removal.{Removed, CanRemove, remove-Removed}

abbrev instruction : Option ℕ → Option ℕ → Option ℕ → Position → ℕ → Chunk
instruction up before after pos bytes = record {
  parent = up;
  prev = before;
  next = after;
  children = none;
  position = some pos;
  size = bytes;
  sizing = fixed;
  is_module = false;
}

-- A block, 1, with the instructions 2 and 3; the instruction 4 is loose.
abbrev block : Chunk
block = record {
  parent = none;
  prev = none;
  next = none;
  children = some (2 ∷ 3 ∷ []);
  position = some (absolute 4096);
  size = 5;
  sizing = computed;
  is_module = false;
}

abbrev chunk_of : ℕ → Chunk
chunk_of x =
    if x == 1
    then block
    else if x == 2
    then instruction (some 1) none (some 3) (offset_by 0) 2
    else if x == 3
    then instruction (some 1) (some 2) none (offset_by 2) 3
    else instruction none none none (offset_by 0) 4

abbrev two : Store
two x = chunk_of x

two-children : (p : ℕ) (cs : List ℕ) → (two p).children ≡ some cs → (p ≡ 1) × (cs ≡ 2 ∷ 3 ∷ [])
two-children p cs e = elim (Bool-cases (p == 1)) [
  | inl h ↦ (ground arith, ground arith)
  | inr h ↦ absurd (ground arith)
]

two-IsHierarchy : IsHierarchy two
two-IsHierarchy p cs e =
    let (a, b) = two-children p cs e in
    subst (λ k. Distinct cs × Linked two k none cs none) (sym a)
      (subst (λ ds. Distinct ds × Linked two 1 none ds none) (sym b)
        (((omega arith, tt), (tt, tt)), (refl, refl, refl, (refl, refl, refl, tt))))

two-IsLoose : IsLoose two 4
two-IsLoose p cs e =
    let (a, b) = two-children p cs e in subst (Avoids 4) (sym b) (omega arith, (omega arith, tt))

two-CanInsert : CanInsert two 1 (2 ∷ 3 ∷ []) 4 (1 ∷ [])
two-CanInsert = record {
  hierarchy = two-IsHierarchy;
  loose = two-IsLoose;
  at_children = refl;
  position = (offset_by 0, refl);
  path = Above.below 1 [] refl tt Above.top;
  off_path = (omega arith, tt);
  room = (λ z. (ground arith, omega arith), tt);
  depth = omega arith;
}

append-Inserted_example :
    Returns (append 1 4 two) (λ t. Inserted two t 1 (2 ∷ 3 ∷ []) 4 [] (1 ∷ []))
append-Inserted_example = append-Inserted two 1 (2 ∷ 3 ∷ []) 4 (1 ∷ []) two-CanInsert refl

prepend-Inserted_example :
    Returns (prepend 1 4 two) (λ t. Inserted two t 1 [] 4 (2 ∷ 3 ∷ []) (1 ∷ []))
prepend-Inserted_example = prepend-Inserted two 1 (2 ∷ 3 ∷ []) 4 (1 ∷ []) two-CanInsert refl

insert_before-Inserted_example :
    Returns (insert_before 1 (some 3) 4 two) (λ t. Inserted two t 1 (2 ∷ []) 4 (3 ∷ []) (1 ∷ []))
insert_before-Inserted_example = insert_before-Inserted two 1 (2 ∷ []) 3 [] 4 (1 ∷ []) two-CanInsert

insert_after-Inserted_example :
    Returns (insert_after 1 (some 2) 4 two) (λ t. Inserted two t 1 (2 ∷ []) 4 (3 ∷ []) (1 ∷ []))
insert_after-Inserted_example = insert_after-Inserted two 1 [] 2 (3 ∷ []) 4 (1 ∷ []) two-CanInsert

two-CanRemove : CanRemove two 1 [] 2 (3 ∷ []) (1 ∷ [])
two-CanRemove = record {
  hierarchy = two-IsHierarchy;
  at_children = refl;
  path = Above.below 1 [] refl tt Above.top;
  room = (λ z. (ground arith, omega arith), tt);
  depth = omega arith;
}

remove-Removed_example : Returns (remove 1 2 two) (λ t. Removed two t 1 [] 2 (3 ∷ []) (1 ∷ []))
remove-Removed_example = remove-Removed two 1 [] 2 (3 ∷ []) (1 ∷ []) two-CanRemove

two-Visit : Visit two levels 1 (1 ∷ 2 ∷ 3 ∷ [])
two-Visit = Visit.inner 7 1 (absolute 4096) (2 ∷ 3 ∷ []) (2 ∷ 3 ∷ []) refl refl (
    VisitAll.next 7 2 (3 ∷ []) (2 ∷ []) (3 ∷ []) (2 ∷ 3 ∷ [])
      (Visit.leaf 6 2 (offset_by 0) refl refl)
      (VisitAll.next 7 3 [] (3 ∷ []) [] (3 ∷ []) (Visit.leaf 6 3 (offset_by 2) refl refl)
        (VisitAll.finished 7) refl)
      refl)

two-Ordered : Ordered two (1 ∷ 2 ∷ 3 ∷ [])
two-Ordered =
    ((omega arith, (omega arith, tt)), tt, ((omega arith, tt), tt, (tt, (omega arith, tt), tt)))

two-AllReady : AllReady two 7 (1 ∷ 2 ∷ 3 ∷ [])
two-AllReady = (
  Ready.stays 4096 refl,
  (
    Ready.first 0 1 refl refl refl,
    (
      Ready.after 2 1 2 0 refl refl refl refl refl (Based.at_address 6 1 4096 refl (omega arith))
          (omega arith),
      tt,
    ),
  ),
)

update_position_helper-AllPlaced_example : Returns (update_position_helper levels two 1) (λ t.
    SameShape two t
    × ((x : ℕ) → Avoids x (1 ∷ 2 ∷ 3 ∷ []) → (t x).position ≡ (two x).position)
    × AllPlaced t (1 ∷ 2 ∷ 3 ∷ []))
update_position_helper-AllPlaced_example =
    update_position_helper-AllPlaced two 1 (1 ∷ 2 ∷ 3 ∷ []) two-Visit two-Ordered two-AllReady

two-Based : Based two 1 1
two-Based = Based.at_address 0 1 4096 refl (omega arith)

update_position_helper-total_example :
    Returns
      (update_position_helper levels two 1)
      (λ t. (a : ℕ) × (get_address 1 t 1 ≡ ok a) × (get_address 2 t 3 ≡ ok ((a + 2) % 2 ^ 64)))
update_position_helper-total_example =
    update_position_helper-total two 1 (1 ∷ 2 ∷ 3 ∷ []) 1 1 (2 ∷ []) 3 [] two-Visit two-Ordered
      two-AllReady two-Based (refl, refl, refl, (refl, refl, refl, tt)) ((0, refl), ((2, refl), tt))
      (refl, (refl, tt))
