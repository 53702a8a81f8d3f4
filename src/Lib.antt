-- ===== src/Lib.antt =====
-- egalito: a library that lifts ELF binaries to a tree of chunks, rewrites them and writes them back.
-- This development models the parts of it that keep data structures and formats of their own; it
-- follows the C++ sources function by function. Paths are from the repository's root.
--
-- The parts, and how they meet:
-- * Range (src/util/range.h, range.cpp): a start and a size, 64 bits each, whose end wraps around.
-- * IntervalTree (src/util/intervaltree.h, intervaltree.cpp): class IntervalTreeNode, a tree of nodes
--   that halve their parents' ranges and hold ranges in two sorted lists. IntervalTree.Tree is class
--   IntervalTree: subtract, splitAt, complement, unionWith. Invariant and Weight have the invariant
--   and the sums that compare collections; the other children have the operations' properties.
-- * UnionFind (src/elf/unionfind.h, unionfind.cpp): the vector of parents as a list.
-- * Archive (src/archive): Stream (stream.h, stream.cpp), ChunkTypes (chunktypes.h, chunktypes.cpp),
--   FlatChunk (flatchunk.h, flatchunk.cpp), Writer (writer.cpp) and Reader (reader.cpp). The writer
--   and the reader use the streams, the types and the list of flat chunks; a file is its bytes.
-- * Dwarf (src/dwarf): Cursor (cursor.h, cursor.cpp), State (state.h, state.cpp), Instructions and
--   Expressions (the decoders in parser.cpp, with defines.h) and Parser (DwarfParser in parser.cpp,
--   with entry.h and entry.cpp). The parser reads with the cursor and runs the instructions of a CIE.
-- * Sandbox (src/transform/sandbox.h, slot.h): the allocators of addresses for generated code.
-- * Chunk (src/chunk: chunk.h, chunk.cpp, size.cpp, position.h, position.cpp): the chunks that make up
--   a program, as a store, with their positions and addresses. Placed and Recalculated are about
--   positions that are up to date.
-- * Mutator (src/operation/mutator.cpp, cursor.cpp, src/chunk/chunklist.h): ChunkMutator, which changes
--   the children of a chunk in the store. Siblings and Links have the doubly linked lists of children,
--   Hierarchy what a change of them keeps, Sizes the sizes of the chunks above, Insertion, Relinking,
--   Renewal, ChildLists and Removal the operations against lists, Passes, Positions, Visits and Tiling
--   the pass over positions, and Splits splitBlockBefore. The slots of Sandbox stand in positions, and
--   ranges of chunks are of Range.
-- * SectionList (src/generate/sectionlist.h, sectionlist.cpp): the sections of a generated file by name
--   and by index.
-- * Symbols (src/elf/symbol.h, symbol.cpp): the lists of symbols by index, by name and by address, and
--   Aliases, SymbolAliasFinder, which joins symbols with a UnionFind whose edges follow an order of
--   its own; Roots, Decided, Classes, Following and Construction are about it.
-- * Analysis (src/analysis): Graph (graph.h, controlflow.h), a vector of nodes with their links; Walker
--   (walker.h), the depth-first walks and what they collect, with Trace, Ends, Orders, Closure and
--   Reachable about them; Components, the strongly connected components and the reachability with
--   pruning of the same file, with Visited, Shadow and Pruned; ControlFlow (controlflow.cpp), the graph of a function's
--   blocks, with Mirror, Blocks, Numbering and Construction; and Dominance (dominance.cpp), which
--   takes the reverse postorder of a walk over a control flow graph, with Meet, Merge, Update, Pass,
--   Numbers, Dominators, Settle and Entry.
-- * Base has what these share; Tests has runs at concrete inputs.
--
-- Correspondence: a method is a function that takes the object's record and returns it changed; a
-- run that the C++ would not finish is `fail` with the way it ends: a failed assertion, a null
-- pointer, an index out of bounds, undefined behaviour, a read of an uninitialised pointer, or a
-- thrown std::bad_alloc or an operation that a class does not support. A pointer to a chunk is its
-- number in the store. A vector is a list, and a map an association list. An unsigned integer of w
-- bits is a number below 2 ^ w, with its wrap written out; in Dwarf a signed one of 64 bits is its
-- pattern. Memory that DWARF data stands in is a function from addresses to bytes.
--
-- Fuel: `add` of the interval tree descends through nodes that it makes, and has one unit for each
-- level. A node of size 2 ^ k needs k + 1 of them, so 65, as IntervalTree.Tree uses, are enough for
-- every 64-bit range. `find` of UnionFind has the length of its vector. The loops over the
-- groups of a LEB128 number have no bound in the source; a run of the model ends as a failure at the
-- first undefined shift, which the sixth group makes, so six units are enough. The loops of the DWARF
-- parser and of its decoders have fuel as a parameter. A chunk has at most six above it up to the
-- program, and the walks up and down the hierarchy have fuel for eight levels. A walk over a graph has
-- a unit for each node and one more, which are enough since each visit marks a node; the fingers of
-- Dominance climb a path of dominators, which is not longer than the graph; the passes of its
-- constructor have their number as a parameter, since no number of them is proved to be enough.
--
-- Not modelled: of the chunks the kinds of chunk (a child is taken to be of the kind that its list
-- holds, so the dynamic_cast that adds it succeeds), their names, the spatial and named aspects of
-- their lists, the positions with caches and generations and the table of a just-in-time run; of
-- the mutators splitFunctionBefore and insertBeforeJumpTo; the links and instructions, the passes,
-- the other analyses, the reading of ELF files with the versions of symbols, the other
-- generators, and the loader. The disassembly rests on the library capstone. Of the archive, the
-- conversion of chunks to flat chunks is left out. Log messages are left out everywhere.
pub mod Base
pub mod Range
pub mod IntervalTree
pub mod UnionFind
pub mod Archive
pub mod Dwarf
pub mod Sandbox
pub mod Chunk
pub mod Mutator
pub mod SectionList
pub mod Symbols
pub mod Analysis
pub mod Tests
