-- ===== src/Risk/CircuitBreaker.antt =====
-- core/risk/circuit_breaker.hpp. A call returns its result and the new state; calls are made one
-- after the other, so each `compare_exchange_strong` of a window start succeeds. The `int32_t`
-- counters are 32-bit patterns (below 2^32) that `fetch_add` wraps; their limits are not negative.
-- Times are nanoseconds of a clock that starts at 0 or later.
pub mod Windows
pub mod Tripping
use trading_infrastructure_c.Common.{
  ℕ, ◌+◌, ◌-◌, ◌/◌, Bool, true, false, ◌&&◌, ltb, leb, ◌==◌, if◌then◌else◌, u32,
}
use trading_infrastructure_c.Common.Double.{Double}
use trading_infrastructure_c.Risk.KillSwitch.{KillReason, KillSwitch, trigger}

pub data CircuitCheckResult : Type 0 where
  ok rate_limit_sec rate_limit_min msg_rate_limit drawdown stale_book flash_crash consec_losses :
      CircuitCheckResult

-- `count >= limit` between signed 32-bit numbers, the limit from 0 on.
unfoldable pub reaches : ℕ → ℕ → Bool
reaches count limit = ltb count 2_147_483_648 && leb limit count

abbrev pub second_ns : ℕ
second_ns = 1_000_000_000

abbrev pub minute_ns : ℕ
minute_ns = 60_000_000_000

abbrev pub int64_max : ℕ
int64_max = 9_223_372_036_854_775_807

-- A counter over a window: the reset at the window's end, and the count before this call.
pub record Window : Type 0 where
  pub start_ns : ℕ
  pub count : ℕ

unfoldable pub roll : ℕ → ℕ → Window → Window
roll length_ns now w =
    if leb (w.start_ns + length_ns) now then record { start_ns = now; count = 0 } else w

unfoldable pub tick : Window → Window
tick w = record w { count = u32 (w.count + 1) }

-- BookManager::age_ms of core/feeds/common/book_manager.hpp: a book never updated is infinitely old.
unfoldable pub age_ms : ℕ → ℕ → ℕ
age_ms last_update now = if last_update == 0 then int64_max else (now - last_update) / 1_000_000

module _ (D : Double) where
  open D use {Carrier, zero, basis_points, le, lt, equal, add, sub, mul, div, abs}

  pub record CircuitBreakerConfig : Type 0 where
    pub consecutive_loss_count : ℕ
    pub max_orders_per_second : ℕ
    pub max_orders_per_minute : ℕ
    pub max_messages_per_second : ℕ
    pub max_book_age_ms : ℕ
    pub max_drawdown_usd : Carrier
    pub max_price_deviation_bps : Carrier
    pub price_ema_alpha : Carrier
    pub per_leg_loss_usd : Carrier

  pub record CircuitBreaker : Type 0 where
    pub cfg : CircuitBreakerConfig
    pub kill_switch : KillSwitch
    pub orders_sec : Window
    pub orders_min : Window
    pub messages_sec : Window
    pub consec_losses : ℕ
    pub realized_pnl : Carrier
    pub ref_price : Carrier

  unfoldable pub init : CircuitBreakerConfig → KillSwitch → CircuitBreaker
  init c k = record {
    cfg = c;
    kill_switch = k;
    orders_sec = record { start_ns = 0; count = 0 };
    orders_min = record { start_ns = 0; count = 0 };
    messages_sec = record { start_ns = 0; count = 0 };
    consec_losses = 0;
    realized_pnl = zero;
    ref_price = zero;
  }

  pub check_minute : ℕ → CircuitBreaker → CircuitCheckResult × CircuitBreaker
  unfolding reaches roll tick
  check_minute now b =
      let w = roll minute_ns now b.orders_min in
      (
        if reaches w.count b.cfg.max_orders_per_minute
            then CircuitCheckResult.rate_limit_min
            else CircuitCheckResult.ok,
        record b { orders_min = tick w },
      )

  pub check_order_rate : ℕ → CircuitBreaker → CircuitCheckResult × CircuitBreaker
  unfolding reaches roll tick check_minute
  check_order_rate now b =
      let w = roll second_ns now b.orders_sec in
      let counted = record b { orders_sec = tick w } in
      if reaches w.count b.cfg.max_orders_per_second
      then (CircuitCheckResult.rate_limit_sec, counted)
      else check_minute now counted

  pub check_message_rate : ℕ → CircuitBreaker → CircuitCheckResult × CircuitBreaker
  unfolding reaches roll tick
  check_message_rate now b =
      let w = roll second_ns now b.messages_sec in
      (
        if reaches w.count b.cfg.max_messages_per_second
            then CircuitCheckResult.msg_rate_limit
            else CircuitCheckResult.ok,
        record b { messages_sec = tick w },
      )

  pub check_drawdown : Carrier → CircuitBreaker → CircuitCheckResult × CircuitBreaker
  unfolding trigger
  check_drawdown pnl b =
      let seen = record b { realized_pnl = pnl } in
      if le pnl b.cfg.max_drawdown_usd
      then (
        CircuitCheckResult.drawdown,
        record seen { kill_switch = trigger KillReason.drawdown b.kill_switch },
      )
      else (CircuitCheckResult.ok, seen)

  pub check_book_age : ℕ → ℕ → CircuitBreaker → CircuitCheckResult × CircuitBreaker
  unfolding trigger age_ms
  check_book_age last_update now b =
      if ltb b.cfg.max_book_age_ms (age_ms last_update now)
      then (
        CircuitCheckResult.stale_book,
        record b { kill_switch = trigger KillReason.book_corrupted b.kill_switch },
      )
      else (CircuitCheckResult.ok, b)

  pub deviation_bps : Carrier → Carrier → Carrier
  deviation_bps price ref = mul (div (abs (sub price ref)) ref) basis_points

  pub check_price_deviation : Carrier → CircuitBreaker → CircuitCheckResult × CircuitBreaker
  unfolding trigger deviation_bps
  check_price_deviation price b =
      let ref = b.ref_price in
      let moved = record b { ref_price = add ref (mul b.cfg.price_ema_alpha (sub price ref)) } in
      if le price zero
      then (CircuitCheckResult.ok, b)
      else if equal ref zero
      then (CircuitCheckResult.ok, record b { ref_price = price })
      else if lt b.cfg.max_price_deviation_bps (deviation_bps price ref)
      then (
        CircuitCheckResult.flash_crash,
        record moved { kill_switch = trigger KillReason.circuit_breaker b.kill_switch },
      )
      else (CircuitCheckResult.ok, moved)

  unfoldable pub record_leg_result : Carrier → CircuitBreaker → CircuitCheckResult × CircuitBreaker
  unfolding reaches trigger
  record_leg_result leg_pnl b =
      let n = u32 (b.consec_losses + 1) in
      let lost = record b { consec_losses = n } in
      if le leg_pnl b.cfg.per_leg_loss_usd
      then (if reaches n b.cfg.consecutive_loss_count
          then (
            CircuitCheckResult.consec_losses,
            record lost { kill_switch = trigger KillReason.circuit_breaker b.kill_switch },
          )
          else (CircuitCheckResult.ok, lost))
      else (CircuitCheckResult.ok, record b { consec_losses = 0 })

  unfoldable pub check_consecutive_losses : CircuitBreaker → CircuitCheckResult
  unfolding reaches
  check_consecutive_losses b =
      if reaches b.consec_losses b.cfg.consecutive_loss_count
      then CircuitCheckResult.consec_losses
      else CircuitCheckResult.ok

  pub reset_daily : CircuitBreaker → CircuitBreaker
  reset_daily b = record b { realized_pnl = zero; consec_losses = 0 }
