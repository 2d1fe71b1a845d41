-- ===== src/Risk/CircuitBreaker/Windows.antt =====
-- How many orders and feed messages the rate limits of the circuit breaker let through.
use trading_infrastructure_c.Common.{ℕ, ◌+◌, ◌-◌, ◌≤◌, ◌<◌, ◌≡◌, List, [], ◌∷◌, length, All, arith}
use trading_infrastructure_c.Common.Double.{Double}
use trading_infrastructure_c.Risk.CircuitBreaker.{
  CircuitCheckResult, CircuitBreaker, second_ns, minute_ns, check_order_rate, check_message_rate,
}

abbrev pub passes : CircuitCheckResult → ℕ
passes CircuitCheckResult.ok = 1
passes _ = 0

module _ (D : Double) where
  -- The orders that pass, of those submitted at the listed times.
  pub orders_passed : CircuitBreaker D → List ℕ → ℕ
  orders_passed b [] = 0
  orders_passed b (now ∷ times) =
      let (r, b') = check_order_rate D now b in passes r + orders_passed b' times

  pub messages_passed : CircuitBreaker D → List ℕ → ℕ
  messages_passed b [] = 0
  messages_passed b (now ∷ times) =
      let (r, b') = check_message_rate D now b in passes r + messages_passed b' times

  -- One submission inside the running second, and inside the running minute.
  record InSecond (b b' : CircuitBreaker D) (r : CircuitCheckResult) : Type 0 where
    limit_kept : b'.cfg.max_orders_per_second ≡ b.cfg.max_orders_per_second
    start_kept : b'.orders_sec.start_ns ≡ b.orders_sec.start_ns
    counted : b'.orders_sec.count ≡ b.orders_sec.count + 1
    limited :
        passes r + (b.cfg.max_orders_per_second - b'.orders_sec.count)
        ≤ b.cfg.max_orders_per_second - b.orders_sec.count

  record InMinute (b b' : CircuitBreaker D) (r : CircuitCheckResult) : Type 0 where
    limit_kept : b'.cfg.max_orders_per_minute ≡ b.cfg.max_orders_per_minute
    start_kept : b'.orders_min.start_ns ≡ b.orders_min.start_ns
    counted : b'.orders_min.count ≤ b.orders_min.count + 1
    limited :
        passes r + (b.cfg.max_orders_per_minute - b'.orders_min.count)
        ≤ b.cfg.max_orders_per_minute - b.orders_min.count

  record InMessages (b b' : CircuitBreaker D) (r : CircuitCheckResult) : Type 0 where
    limit_kept : b'.cfg.max_messages_per_second ≡ b.cfg.max_messages_per_second
    start_kept : b'.messages_sec.start_ns ≡ b.messages_sec.start_ns
    counted : b'.messages_sec.count ≡ b.messages_sec.count + 1
    limited :
        passes r + (b.cfg.max_messages_per_second - b'.messages_sec.count)
        ≤ b.cfg.max_messages_per_second - b.messages_sec.count

  order-InSecond :
      (b : CircuitBreaker D) (now : ℕ)
      → now < b.orders_sec.start_ns + second_ns
      → b.orders_sec.count + 1 < 2_147_483_648
      → InSecond b (check_order_rate D now b).1 (check_order_rate D now b).0
  unfolding check_order_rate
  order-InSecond b now h c = ground arith

  order-InMinute :
      (b : CircuitBreaker D) (now : ℕ)
      → now < b.orders_min.start_ns + minute_ns
      → b.orders_min.count + 1 < 2_147_483_648
      → InMinute b (check_order_rate D now b).1 (check_order_rate D now b).0
  unfolding check_order_rate
  order-InMinute b now h c = ground arith

  message_in_second :
      (b : CircuitBreaker D) (now : ℕ)
      → now < b.messages_sec.start_ns + second_ns
      → b.messages_sec.count + 1 < 2_147_483_648
      → InMessages b (check_message_rate D now b).1 (check_message_rate D now b).0
  unfolding check_message_rate
  message_in_second b now h c = ground arith

  orders_in_second :
      (b : CircuitBreaker D) (stop : ℕ) (times : List ℕ)
      → stop ≤ b.orders_sec.start_ns + second_ns
      → All (λ t. t < stop) times
      → b.orders_sec.count + length times < 2_147_483_648
      → orders_passed b times ≤ b.cfg.max_orders_per_second - b.orders_sec.count
  unfolding orders_passed
  orders_in_second b stop [] e h c = omega arith
  orders_in_second b stop (now ∷ times) e h c =
      let step = order-InSecond b now (omega arith) (omega arith) in
      let rest =
        orders_in_second (check_order_rate D now b).1 stop times (omega (arith, step.start_kept))
          h.1 (omega (arith, step.counted)) in
      omega (arith, rest, step.limited, step.limit_kept)

  -- Of orders submitted before the running minute is over, at most what is left of
  -- `max_orders_per_minute` pass `check_order_rate`, whatever the per-second limit does
  -- (while the counter stays below 2^31).
  pub orders_in_minute :
      (b : CircuitBreaker D) (stop : ℕ) (times : List ℕ)
      → stop ≤ b.orders_min.start_ns + minute_ns
      → All (λ t. t < stop) times
      → b.orders_min.count + length times < 2_147_483_648
      → orders_passed b times ≤ b.cfg.max_orders_per_minute - b.orders_min.count
  unfolding orders_passed
  orders_in_minute b stop [] e h c = omega arith
  orders_in_minute b stop (now ∷ times) e h c =
      let step = order-InMinute b now (omega arith) (omega arith) in
      let rest =
        orders_in_minute (check_order_rate D now b).1 stop times (omega (arith, step.start_kept))
          h.1 (omega (arith, step.counted)) in
      omega (arith, rest, step.limited, step.limit_kept)

  -- Of feed messages before the running second is over, at most what is left of
  -- `max_messages_per_second` pass `check_message_rate` (while the counter stays below 2^31).
  pub messages_in_second :
      (b : CircuitBreaker D) (stop : ℕ) (times : List ℕ)
      → stop ≤ b.messages_sec.start_ns + second_ns
      → All (λ t. t < stop) times
      → b.messages_sec.count + length times < 2_147_483_648
      → messages_passed b times ≤ b.cfg.max_messages_per_second - b.messages_sec.count
  unfolding messages_passed
  messages_in_second b stop [] e h c = omega arith
  messages_in_second b stop (now ∷ times) e h c =
      let step = message_in_second b now (omega arith) (omega arith) in
      let rest =
        messages_in_second (check_message_rate D now b).1 stop times
          (omega (arith, step.start_kept)) h.1 (omega (arith, step.counted)) in
      omega (arith, rest, step.limited, step.limit_kept)

  record Opened (b b' : CircuitBreaker D) (now : ℕ) (r : CircuitCheckResult) : Type 0 where
    limit_kept : b'.cfg.max_orders_per_second ≡ b.cfg.max_orders_per_second
    started : b'.orders_sec.start_ns ≡ now
    counted : b'.orders_sec.count ≡ 1
    limited : passes r + (b.cfg.max_orders_per_second - 1) ≤ b.cfg.max_orders_per_second

  order_opens :
      (b : CircuitBreaker D) (now : ℕ)
      → b.orders_sec.start_ns + second_ns ≤ now
      → Opened b (check_order_rate D now b).1 now (check_order_rate D now b).0
  unfolding check_order_rate
  order_opens b now h = ground arith

  -- Of the orders of one window of a second, opened by an order at `now` when the former window
  -- was over and followed by any orders before its end, at most `max_orders_per_second` pass
  -- `check_order_rate` (while fewer than 2^31 are submitted).
  pub second_limit :
      (b : CircuitBreaker D) (now : ℕ) (times : List ℕ)
      → b.orders_sec.start_ns + second_ns ≤ now
      → All (λ t. t < now + second_ns) times
      → length times + 1 < 2_147_483_648
      → orders_passed b (now ∷ times) ≤ b.cfg.max_orders_per_second
  unfolding orders_passed
  second_limit b now times e h c =
      let step = order_opens b now e in
      let rest =
        orders_in_second (check_order_rate D now b).1 (now + second_ns) times
          (omega (arith, step.started)) h (omega (arith, step.counted)) in
      omega (arith, rest, step.limited, step.limit_kept, step.counted)
