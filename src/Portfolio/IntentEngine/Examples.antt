-- ===== src/Portfolio/IntentEngine/Examples.antt =====
-- The theorems on the intent engine at concrete signals, over whole numbers for `double`.
use trading_infrastructure_c.Common.{refl, true, false, List, [], ◌∷◌}
use trading_infrastructure_c.Common.Int.{pos, negsuc, ◌-ℤ◌}
use trading_infrastructure_c.Common.Whole.{whole_float}
use trading_infrastructure_c.Portfolio.IntentEngine.{
  PortfolioIntentConfig, PortfolioIntentContext, AlphaSignal, RegimeSignal, VenueQuote,
  PositionLedgerSnapshot, IntentEngine,
}
use trading_infrastructure_c.Portfolio.IntentEngine.Evaluate.{evaluate}
use trading_infrastructure_c.Portfolio.IntentEngine.Guards.{
  ClosesPosition, MustClose, evaluate-closes,
}

abbrev config : PortfolioIntentConfig whole_float
config = record {
  max_position = pos 10;
  min_entry_signal_bps = pos 2;
  negative_reversal_signal_bps = negsuc 19;
  positive_reversal_signal_bps = pos 20;
  deadband_signal_bps = pos 1;
  max_risk_score = pos 5;
  shock_enter_threshold = pos 3;
  shock_exit_threshold = pos 2;
  illiquid_enter_threshold = pos 3;
  illiquid_exit_threshold = pos 2;
  regime_persistence_ticks = pos 2;
  stale_inventory_ms = pos 1_000;
  stale_signal_ms = pos 500;
  max_basis_divergence_bps = pos 30;
  stale_inventory_alpha_hold_bps = pos 8;
  health_reduce_ratio = pos 1;
}

-- A signal whose risk score is over the limit.
abbrev risky : AlphaSignal whole_float
risky = record {
  signal_bps = pos 9;
  risk_score = pos 6;
  size_fraction = pos 1;
  horizon_ticks = pos 4;
}

abbrev calm : RegimeSignal whole_float
calm = record { p_shock = pos 0; p_illiquid = pos 0 }

abbrev held : PositionLedgerSnapshot whole_float
held = record { global_position = pos 4; oldest_inventory_age_ms = pos 10 }

abbrev quotes : List (VenueQuote whole_float)
quotes =
    record {
      enabled = true;
      healthy = true;
      depth_qty = pos 100;
      taker_fee_bps = pos 1;
      latency_penalty_bps = pos 0;
      risk_penalty_bps = pos 0;
      toxicity_bps = pos 0;
      fill_probability = pos 1;
    }
    ∷ []

abbrev context : PortfolioIntentContext whole_float
context = record { spot_mid_price = pos 100; futures_mid_price = pos 100; signal_age_ms = pos 3 }

abbrev engine : IntentEngine whole_float
engine = record {
  illiquid = record { active = false; ticks = 0 };
  shock = record { active = false; ticks = 0 };
}

evaluate-closes_example :
    ClosesPosition whole_float
      (pos 4)
      (evaluate whole_float (pos 0) config risky calm held quotes context engine).0
unfolding ◌-ℤ◌
evaluate-closes_example =
    evaluate-closes whole_float (pos 0) config risky calm held quotes context engine
      (MustClose.risk_off refl)

-- A risk score below the limit.
abbrev steady : AlphaSignal whole_float
steady = record risky { risk_score = pos 1 }
