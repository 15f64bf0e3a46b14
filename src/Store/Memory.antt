-- ===== src/Store/Memory.antt =====
-- What allocating and releasing do to the number of live allocations.
use microblx.Base.{◌≡◌, refl, ◌+◌, ◌-◌, arith, if◌then◌else◌}
use microblx.Store.{Heap, alloc, free}

pub alloc-live : (h : Heap) → (alloc h).1.live ≡ (if (alloc h).0 then h.live + 1 else h.live)
unfolding alloc
alloc-live h = ground arith

pub free-live : (h : Heap) → (free h).live ≡ h.live - 1
unfolding free
free-live h = refl
