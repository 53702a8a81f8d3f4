-- ===== src/Tests/Slots.antt =====
-- Runs of src/transform/sandbox.h.
use egalito.Base.{◌+◌, ◌≡◌, [], ◌∷◌, arith, refl, ◌^◌, ◌-◌}
use egalito.Base.Result.{Returns, ok, fail, bad_alloc}
use egalito.Sandbox.{SandboxBacking, new_allocator, allocate, round_up}
use egalito.Sandbox.Packing.{allocate_all, ArePacked, allocate_all-ArePacked, allocate_all-refused}

abbrev backing : SandboxBacking
backing = record { base = 0x1000; size = 0x40 }

allocate_all-ArePacked_example :
    Returns
      (allocate_all backing (16 ∷ 48 ∷ []) (new_allocator backing))
      (λ (slots, a). ArePacked 0x1000 (16 ∷ 48 ∷ []) slots × (a.watermark ≡ 0x1000 + 64))
allocate_all-ArePacked_example =
    allocate_all-ArePacked backing (16 ∷ 48 ∷ []) (new_allocator backing) (omega arith)
      (omega arith)

allocate_all-refused_example :
    allocate_all backing (16 ∷ 49 ∷ []) (new_allocator backing) ≡ fail bad_alloc
allocate_all-refused_example =
    allocate_all-refused backing (16 ∷ 49 ∷ []) (new_allocator backing) (omega arith)
      (omega arith, (omega arith, tt)) (omega arith) (omega arith)

-- A request so large that its sum with the watermark wraps around is served.
wrapped :
    allocate backing (2 ^ 64 - 1) (new_allocator backing)
    ≡ ok (
      record { address = 0x1000; size = 2 ^ 64 - 1 },
      record { base = 0x1000; watermark = 0xfff },
    )
unfolding allocate
wrapped = refl

rounded : round_up 2 5 ≡ 6
unfolding round_up
rounded = refl
