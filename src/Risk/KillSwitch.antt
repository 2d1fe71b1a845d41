-- ===== src/Risk/KillSwitch.antt =====
-- core/risk/kill_switch.hpp and core/risk/recovery_guard.hpp. The clock is an argument of each call
-- that reads it, in nanoseconds since the start of `steady_clock`; the atomics are fields.
use trading_infrastructure_c.Common.{ℕ, ◌+◌, Bool, true, false, ◌||◌, ltb, if◌then◌else◌}

pub data KillReason : Type 0 where
  manual drawdown circuit_breaker heartbeat_missed book_corrupted : KillReason

pub record KillSwitch : Type 0 where
  pub active : Bool
  pub reason : KillReason
  pub last_heartbeat_ns : ℕ
  pub heartbeat_timeout_ns : ℕ

abbrev pub default_heartbeat_timeout_ns : ℕ
default_heartbeat_timeout_ns = 5_000_000_000

pub init : ℕ → ℕ → KillSwitch
init timeout now = record {
  active = false;
  reason = manual;
  last_heartbeat_ns = now;
  heartbeat_timeout_ns = timeout;
}

unfoldable pub trigger : KillReason → KillSwitch → KillSwitch
trigger r k = record k { reason = r; active = true }

unfoldable pub reset : ℕ → KillSwitch → KillSwitch
reset now k = record k { active = false; last_heartbeat_ns = now }

unfoldable pub heartbeat : ℕ → KillSwitch → KillSwitch
heartbeat now k = record k { last_heartbeat_ns = now }

-- `elapsed > timeout`, with the elapsed time moved to the other side.
unfoldable pub check_heartbeat : ℕ → KillSwitch → Bool × KillSwitch
unfolding trigger
check_heartbeat now k =
    if ltb (k.last_heartbeat_ns + k.heartbeat_timeout_ns) now
    then (false, trigger heartbeat_missed k)
    else (true, k)

pub record RecoveryGuardConfig : Type 0 where
  pub max_in_flight_ops : ℕ
  pub max_duplicate_acks : ℕ
  pub max_cancel_replace_races : ℕ

unfoldable pub check_recovery : RecoveryGuardConfig → ℕ → ℕ → ℕ → KillSwitch → Bool × KillSwitch
unfolding trigger
check_recovery cfg in_flight duplicates races k =
    if ltb cfg.max_in_flight_ops in_flight
      || ltb cfg.max_duplicate_acks duplicates
      || ltb cfg.max_cancel_replace_races races
    then (false, trigger circuit_breaker k)
    else (true, k)
