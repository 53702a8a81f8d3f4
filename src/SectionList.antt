-- ===== src/SectionList.antt =====
-- src/generate/sectionlist.h and sectionlist.cpp: the sections of a file that is generated, by name and
-- by their index in its header table. A pointer to a section is a number, and `name` gives the
-- sections' names as bytes. Assigning to a map puts an entry before the older ones.
pub mod Indices
use egalito.Base.{
  ℕ, zero, suc, ◌+◌, Bool, true, false, not, List, [], ◌∷◌, ◌++◌, Option, none, some, ◌==◌, take,
  drop, if◌then◌else◌,
}
use egalito.Base.Result.{Result, ok, fail, undefined}
use egalito.Archive.Reader.{same_bytes}

pub record SectionList : Type 0 where
  pub section_map : List (List ℕ × ℕ)
  pub index_map : List (ℕ × ℕ)
  pub sections : List ℕ
  pub section_count : ℕ

-- The constructor: index 0 is that of the null entry.
abbrev pub empty : SectionList
empty = record { section_map = []; index_map = []; sections = []; section_count = 1 }

-- isAssignedAnIndex: the name does not begin with an equals sign, which is 61
unfoldable pub is_assigned_an_index : List ℕ → Bool
is_assigned_an_index [] = true
is_assigned_an_index (c ∷ cs) = not (c == 61)

-- sectionMap.find
unfoldable pub find_name : List ℕ → List (List ℕ × ℕ) → Option ℕ
find_name n [] = none
find_name n ((m, s) ∷ entries) =
    let rest = find_name n entries in if same_bytes n m then some s else rest

-- sectionIndexMap.find
unfoldable pub find_index : ℕ → List (ℕ × ℕ) → Option ℕ
find_index s [] = none
find_index s ((t, i) ∷ entries) = let rest = find_index s entries in if t == s then some i else rest

module _ (name : ℕ → List ℕ) where
  unfoldable pub add_section : ℕ → SectionList → SectionList
  add_section s l =
      let assigned = is_assigned_an_index (name s) in
      record {
        section_map = (name s, s) ∷ l.section_map;
        index_map = if assigned then (s, l.section_count) ∷ l.index_map else l.index_map;
        sections = l.sections ++ s ∷ [];
        section_count = if assigned then suc l.section_count else l.section_count;
      }

  -- The loop of insert.
  unfoldable pub renumber : ℕ → List ℕ → List (ℕ × ℕ) → List (ℕ × ℕ)
  renumber i [] m = m
  renumber i (s ∷ ss) m =
      let assigned = is_assigned_an_index (name s) in
      renumber (if assigned then suc i else i) ss (if assigned then (s, i) ∷ m else m)

  -- insert, at the place with the index `at`
  unfoldable pub insert : ℕ → ℕ → SectionList → SectionList
  insert at s l =
      let sections = take at l.sections ++ s ∷ drop at l.sections in
      record {
        section_map = (name s, s) ∷ l.section_map;
        index_map = renumber 0 sections [];
        sections = sections;
        section_count = l.section_count;
      }

-- operator [], none being a null pointer
abbrev pub section_named : List ℕ → SectionList → Option ℕ
section_named n l = find_name n l.section_map

-- back
unfoldable pub back_of : List ℕ → Result ℕ
back_of [] = fail undefined
back_of (s ∷ []) = ok s
back_of (s ∷ t ∷ ts) = back_of (t ∷ ts)

abbrev pub back : SectionList → Result ℕ
back l = back_of l.sections

-- indexOf(Section *): the map's operator [], which makes an entry 0 for a section that has none
unfoldable pub index_of : ℕ → SectionList → ℕ × SectionList
index_of s l = elim (find_index s l.index_map) [
  | none ↦ (0, record l { index_map = (s, 0) ∷ l.index_map })
  | some i ↦ (i, l)
]

-- indexOf(const std::string &), none being -1
unfoldable pub index_of_name : List ℕ → SectionList → Option ℕ × SectionList
index_of_name n l = of_section (section_named n l)
  where
    of_section : Option ℕ → Option ℕ × SectionList
    of_section none = (none, l)
    of_section (some s) = let (i, l') = index_of s l in (some i, l')

-- SectionRef
pub record SectionRef : Type 0 where
  pub list : SectionList
  pub section_name : List ℕ

abbrev pub get : SectionRef → Option ℕ
get r = section_named r.section_name r.list

-- getIndex, none being -1
abbrev pub get_index : SectionRef → Option ℕ × SectionList
get_index r = index_of_name r.section_name r.list
