-- ===== src/Chunk/Frame.antt =====
-- Reading the store of chunks.
use egalito.Base.{ℕ, ◌≡◌, List, some, arith}
use egalito.Base.Result.{ok}
use egalito.Chunk.{Store, get_children}

pub get_children-ok :
    (s : Store) (p : ℕ) (cs : List ℕ) → (s p).children ≡ some cs → get_children s p ≡ ok cs
unfolding get_children
get_children-ok s p cs e = ground (arith, e)
