-- ===== src/Fibers/Fiber/Stack.antt =====
-- The stack of a new fiber.
use c_spock_bot.Prelude.{ℕ, ◌+◌, ◌%◌, ◌≤◌, ◌<◌, ◌≡◌, arith}
use c_spock_bot.Fibers.Fiber.{Fiber, vgc_fiber_init}

-- The stack of a fiber in a memory of at least 16 bytes starts at a multiple of 16 within that memory,
-- of which at most its last 16 bytes stay above it.
pub vgc_fiber_init-stack :
    (buf size : ℕ) (fd : Fiber)
    → 16 ≤ size
    → ((vgc_fiber_init buf size fd).stack_base % 16 ≡ 0)
      × (buf ≤ (vgc_fiber_init buf size fd).stack_base)
      × ((vgc_fiber_init buf size fd).stack_base < buf + size)
      × (buf + size ≤ (vgc_fiber_init buf size fd).stack_base + 16)
unfolding vgc_fiber_init
vgc_fiber_init-stack buf size fd h = omega arith
