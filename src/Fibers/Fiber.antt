-- ===== src/Fibers/Fiber.antt =====
-- Fibers, `vgc_fiber` with its `fiber_data`, of src/fibers/fiber.c.
pub mod Stack
use c_spock_bot.Prelude.{ℕ, ◌+◌, ◌-◌, ◌*◌, ◌/◌, Option, none}

-- The values of `state`.
pub data State : Type 0 where
  start resume run wait done : State

-- A fiber and what its `fd` names; counters are named by numbers, NULL is `none`.
pub record Fiber : Type 0 where
  pub user_data : ℕ
  pub ctx : ℕ
  pub id : ℕ
  pub state : State
  pub priority : ℕ
  pub dependency_count : Option ℕ
  pub parent_count : Option ℕ
  pub stack_limit : ℕ
  pub stack_base : ℕ

-- `& ~(uintptr_t)15` takes away the remainder by 16.
unfoldable pub vgc_fiber_init : ℕ → ℕ → Fiber → Fiber
vgc_fiber_init buf size fd = record fd {
  stack_base = (buf + (size - 1)) / 16 * 16;
  stack_limit = buf;
  state = start;
  parent_count = none;
  dependency_count = none;
}

-- `vgc_make` is assembly.
unfoldable pub vgc_fiber_assign : (ℕ → ℕ → ℕ → ℕ) → Fiber → ℕ → Fiber
vgc_fiber_assign vgc_make fiber proc = record fiber {
  ctx = vgc_make fiber.stack_base fiber.stack_limit proc;
}

-- What `vgc_fiber_finish` does before its jump, from which it does not return.
unfoldable pub vgc_fiber_finish : Fiber → Fiber
vgc_fiber_finish fiber = record fiber { state = done }
