-- ===== src/Risk/Examples.antt =====
-- The theorems on the circuit breaker at a concrete configuration, over integers for `double`.
use trading_infrastructure_c.Common.{◌≤◌, ◌≡◌, refl, List, [], ◌∷◌, true, false, arith, ℕ}
use trading_infrastructure_c.Common.Int.{ℤ, pos, negsuc, abs_ℤ, abs-pos, ltb_ℤ}
use trading_infrastructure_c.Common.Whole.{whole, whole_float}
use trading_infrastructure_c.Risk.KillSwitch.{KillSwitch, KillReason}
use trading_infrastructure_c.Risk.CircuitBreaker.{CircuitBreaker, CircuitBreakerConfig}
use trading_infrastructure_c.Risk.CircuitBreaker.Windows.{orders_passed, second_limit}
use trading_infrastructure_c.Risk.CircuitBreaker.Tripping.{Event, run, run_latched}
use trading_infrastructure_c.Connectors.OrderMap.{Exchange}
use trading_infrastructure_c.Risk.GlobalRisk
use trading_infrastructure_c.Risk.GlobalRisk.{
  GlobalRiskConfig, SymbolState, blank_symbol, check_order, commit_order,
}
use trading_infrastructure_c.Risk.GlobalRisk.Futures.{FuturesRiskGateConfig}
use trading_infrastructure_c.Risk.GlobalRisk.Caps.{WithinCaps}
use trading_infrastructure_c.Risk.GlobalRisk.Runs.{Request, spot, run-WithinCaps}

abbrev limits : CircuitBreakerConfig whole
limits = record {
  consecutive_loss_count = 3;
  max_orders_per_second = 2;
  max_orders_per_minute = 5;
  max_messages_per_second = 4;
  max_book_age_ms = 500;
  max_drawdown_usd = negsuc 99;
  max_price_deviation_bps = pos 50;
  price_ema_alpha = pos 1;
  per_leg_loss_usd = negsuc 4;
}

abbrev armed : KillSwitch
armed = record {
  active = false;
  reason = KillReason.manual;
  last_heartbeat_ns = 0;
  heartbeat_timeout_ns = 5_000;
}

abbrev breaker : CircuitBreaker whole
breaker = record {
  cfg = limits;
  kill_switch = armed;
  orders_sec = record { start_ns = 0; count = 0 };
  orders_min = record { start_ns = 0; count = 1 };
  messages_sec = record { start_ns = 0; count = 1 };
  consec_losses = 1;
  realized_pnl = pos 0;
  ref_price = pos 0;
}

second_limit_example :
    orders_passed whole breaker (2_000_000_000 ∷ 2_000_000_001 ∷ 2_000_000_002 ∷ []) ≤ 2
second_limit_example =
    second_limit whole breaker 2_000_000_000 (2_000_000_001 ∷ 2_000_000_002 ∷ []) (omega arith)
      (omega arith, (omega arith, tt)) (omega arith)

run_latched_example :
    (run whole
      (record breaker { kill_switch = record armed { active = true } })
      (Event.daily ∷ Event.beats 7 ∷ [])).kill_switch.active
    ≡ true
run_latched_example =
    run_latched whole (record breaker { kill_switch = record armed { active = true } })
      (Event.daily ∷ Event.beats 7 ∷ []) refl

-- Global controls: gross notional below 100, three orders, of which the second is refused.
abbrev caps : GlobalRiskConfig whole_float
caps = record {
  max_gross_notional = pos 100;
  max_net_notional = pos 80;
  max_symbol_concentration = pos 0;
  max_venue_notional = pos 90;
  max_cross_venue_net_notional = pos 0;
  kill_on_breach = true;
}

abbrev no_gate : FuturesRiskGateConfig whole_float
no_gate = record {
  enabled = false;
  max_projected_funding_cost_bps = pos 0;
  funding_cost_scale_start_bps = pos 0;
  min_funding_scale = pos 1;
  max_mark_index_divergence_bps = pos 0;
  max_maintenance_margin_ratio = pos 0;
  default_max_leverage = pos 0;
  symbol_limits = [];
}

abbrev stray_zero : ℕ → SymbolState whole_float
stray_zero i = blank_symbol whole_float

abbrev requests : List (Request whole_float)
requests =
    spot Exchange.binance (66 ∷ []) (pos 60)
    ∷ spot Exchange.okx (66 ∷ []) (pos 50)
    ∷ spot Exchange.okx (66 ∷ []) (negsuc 29)
    ∷ []

positive_is_not_negative : (c : ℤ) → ltb_ℤ (pos 0) c ≡ true → ltb_ℤ c (pos 0) ≡ false
positive_is_not_negative c h = ground arith

run-WithinCaps_example : WithinCaps whole_float caps (
    GlobalRisk.Runs.run whole_float stray_zero caps no_gate requests
      (GlobalRisk.init whole_float armed))
unfolding abs_ℤ
run-WithinCaps_example =
    run-WithinCaps whole_float stray_zero caps no_gate requests armed positive_is_not_negative
      (abs-pos 0)
