-- ===== src/Tests/Sections.antt =====
-- Runs of src/generate/sectionlist.cpp.
use egalito.Base.{ℕ, ◌+◌, ◌≡◌, List, [], ◌∷◌, ◌==◌, arith, refl, if◌then◌else◌, true}
use egalito.SectionList.{empty, is_assigned_an_index, insert, index_of}
use egalito.SectionList.Indices.{add_sections, assigned, index_of-insert}

-- The section 1 is the header, "=elf"; the others are ".text", 2, and ".data", 3.
abbrev names : ℕ → List ℕ
names s = if s == 1 then 61 ∷ 101 ∷ [] else if s == 2 then 46 ∷ 116 ∷ [] else 46 ∷ 100 ∷ []

text-is_assigned : is_assigned_an_index (names 2) ≡ true
unfolding is_assigned_an_index
text-is_assigned = refl

index_of-insert_example :
    ((index_of 2 (add_sections names (1 ∷ 2 ∷ 3 ∷ []) empty)).0 ≡ 1 + assigned names (1 ∷ []))
    × ((index_of 2 (insert names 3 4 (add_sections names (1 ∷ 2 ∷ 3 ∷ []) empty))).0
        ≡ assigned names (1 ∷ []))
index_of-insert_example =
    index_of-insert names (1 ∷ []) 2 (3 ∷ []) 3 4 (omega arith, tt) text-is_assigned (omega arith)
      (omega arith)
