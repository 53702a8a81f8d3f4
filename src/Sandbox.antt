-- ===== src/Sandbox.antt =====
-- src/transform/sandbox.h and slot.h: the allocators over a sandbox's backing (WatermarkAllocator,
-- AlignedWatermarkAllocator), and DualSandbox, which serves one of two sandboxes. Addresses and sizes
-- are 64-bit and wrap around. The memory behind a backing (mmap, mprotect) is not modelled.
pub mod Packing
use Prim.Native.Nat.{bit_and}
use egalito.Base.{ℕ, ◌+◌, ◌-◌, ◌%◌, ◌^◌, Bool, true, false, not, List, [], ◌∷◌, ltb, if◌then◌else◌}
use egalito.Base.Result.{Result, ok, fail, bad_alloc, ◌>>=◌}

pub record Slot : Type 0 where
  pub address : ℕ
  pub size : ℕ

-- SandboxBackingImpl
pub record SandboxBacking : Type 0 where
  pub base : ℕ
  pub size : ℕ

pub record WatermarkAllocator : Type 0 where
  pub base : ℕ
  pub watermark : ℕ

abbrev pub new_allocator : SandboxBacking → WatermarkAllocator
new_allocator backing = record { base = backing.base; watermark = backing.base }

unfoldable pub allocate :
    SandboxBacking → ℕ → WatermarkAllocator → Result (Slot × WatermarkAllocator)
allocate backing request a =
    let limit = (backing.base + backing.size) % 2 ^ 64 in
    let watermark = (a.watermark + request) % 2 ^ 64 in
    if ltb limit watermark
    then fail bad_alloc
    else ok (record { address = a.watermark; size = request }, record a { watermark = watermark })

unfoldable pub reset : WatermarkAllocator → WatermarkAllocator
reset a = record a { watermark = a.base }

-- (request + alignment - 1) & ~(alignment - 1)
unfoldable pub round_up : ℕ → ℕ → ℕ
round_up alignment request =
    bit_and ((request + alignment + 2 ^ 64 - 1) % 2 ^ 64) (2 ^ 64 - 1 - (alignment - 1))

-- AlignedWatermarkAllocator::allocate
unfoldable pub allocate_aligned :
    SandboxBacking → ℕ → ℕ → WatermarkAllocator → Result (Slot × WatermarkAllocator)
allocate_aligned backing alignment request a = allocate backing (round_up alignment request) a

-- SandboxImpl with a watermark allocator
pub record SandboxImpl : Type 0 where
  pub backing : SandboxBacking
  pub alloc : WatermarkAllocator

unfoldable pub allocate_in : ℕ → SandboxImpl → Result (Slot × SandboxImpl)
allocate_in request s =
    allocate s.backing request s.alloc >>= λ (slot, a). ok (slot, record s { alloc = a })

-- recreate for a MemoryBacking, which also clears the memory
unfoldable pub recreate : SandboxImpl → SandboxImpl
recreate s = record s { alloc = reset s.alloc }

-- DualSandbox: `second` is whether `i` is 1
pub record DualSandbox : Type 0 where
  pub one : SandboxImpl
  pub other : SandboxImpl
  pub second : Bool

unfoldable pub flip : DualSandbox → DualSandbox
flip d = record d { second = not d.second }

abbrev pub selected : DualSandbox → SandboxImpl
selected d = if d.second then d.other else d.one

abbrev pub update_selected : SandboxImpl → DualSandbox → DualSandbox
update_selected s d = if d.second then record d { other = s } else record d { one = s }

unfoldable pub allocate_dual : ℕ → DualSandbox → Result (Slot × DualSandbox)
allocate_dual request d =
    allocate_in request (selected d) >>= λ (slot, s). ok (slot, update_selected s d)

unfoldable pub recreate_dual : DualSandbox → DualSandbox
recreate_dual d = update_selected (recreate (selected d)) d
