-- ===== src/Orders/SpscQueue.antt =====
-- The lock-free single-producer single-consumer ring of order_manager.hpp (`SpscQueue`).
-- `capacity` is the template argument N. The indices `write_` and `read_` are the two atomics;
-- `& mask_` is written as `% capacity`, the same for a power of two. `buf_` is a function of the index.
pub mod Refines
pub mod Fifo
pub mod Threads
use trading_infrastructure_c.Common.{
  ℕ, ◌+◌, ◌%◌, Bool, true, false, Option, none, some, ◌==◌, if◌then◌else◌, update,
}

pub record SpscQueue (A : Type 0) : Type 0 where
  pub capacity : ℕ
  pub write : ℕ
  pub read : ℕ
  pub buf : ℕ → A

module _ {A : Type 0} where
  unfoldable pub next_index : SpscQueue A → ℕ → ℕ
  next_index q i = (i + 1) % q.capacity

  pub push : A → SpscQueue A → Bool × SpscQueue A
  unfolding next_index
  push item q =
      if next_index q q.write == q.read
      then (false, q)
      else (true, record q { buf = update q.buf q.write item; write = next_index q q.write })

  pub pop : SpscQueue A → Option (A × SpscQueue A)
  unfolding next_index
  pop q =
      if q.read == q.write
      then none
      else some (q.buf q.read, record q { read = next_index q q.read })

-- A default-constructed queue: both indices are 0.
unfoldable pub init : {A : Type 0} → ℕ → (ℕ → A) → SpscQueue A
init n buf = record { capacity = n; write = 0; read = 0; buf = buf }
