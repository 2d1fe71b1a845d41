-- ===== src/Risk/CircuitBreaker/Tripping.antt =====
-- When the checks of the circuit breaker trip the kill switch they share with the recovery guard
-- and the heartbeat, and that it stays tripped.
use mathlib.Core.Path.{subst}
use trading_infrastructure_c.Common.{
  ℕ, ◌+◌, ◌≤◌, ◌<◌, ◌≡◌, refl, sym, ap, ◌∙◌, List, [], ◌∷◌, true, Option, none, some, length, All,
  arith,
}
use trading_infrastructure_c.Common.Double.{Double}
use trading_infrastructure_c.Risk.KillSwitch.{
  KillReason, KillSwitch, RecoveryGuardConfig, heartbeat, check_heartbeat, check_recovery,
}
use trading_infrastructure_c.Risk.CircuitBreaker.{
  CircuitCheckResult, CircuitBreaker, reaches, check_order_rate, check_message_rate, check_drawdown,
  check_book_age, check_price_deviation, record_leg_result, check_consecutive_losses, reset_daily,
  init, CircuitBreakerConfig,
}

-- The reason for which a result has tripped the switch, if it is one that does.
abbrev pub alarm : CircuitCheckResult → Option KillReason
alarm CircuitCheckResult.drawdown = some KillReason.drawdown
alarm CircuitCheckResult.stale_book = some KillReason.book_corrupted
alarm CircuitCheckResult.flash_crash = some KillReason.circuit_breaker
alarm CircuitCheckResult.consec_losses = some KillReason.circuit_breaker
alarm _ = none

abbrev pub tripped : Option KillReason → KillSwitch → KillSwitch
tripped none k = k
tripped (some r) k = record k { reason = r; active = true }

module _ (D : Double) where
  open D use {Carrier, le}

  pub data Check : Type 0 where
    order_rate : ℕ → Check
    message_rate : ℕ → Check
    pnl : Carrier → Check
    book_age : ℕ → ℕ → Check
    price : Carrier → Check
    leg : Carrier → Check

  unfoldable pub check : Check → CircuitBreaker D → CircuitCheckResult × CircuitBreaker D
  check (order_rate now) b = check_order_rate D now b
  check (message_rate now) b = check_message_rate D now b
  check (pnl x) b = check_drawdown D x b
  check (book_age last now) b = check_book_age D last now b
  check (price x) b = check_price_deviation D x b
  check (leg x) b = record_leg_result D x b

  -- Every check trips the kill switch exactly when its result is an alarm, for that alarm's reason,
  -- and otherwise leaves the switch as it was.
  pub check-alarm :
      (c : Check) (b : CircuitBreaker D)
      → (check c b).1.kill_switch ≡ tripped (alarm (check c b).0) b.kill_switch
  unfolding check check_order_rate check_message_rate check_drawdown check_book_age
      check_price_deviation record_leg_result
  check-alarm (order_rate now) b = ground arith
  check-alarm (message_rate now) b = ground arith
  check-alarm (pnl x) b = ground arith
  check-alarm (book_age last now) b = ground arith
  check-alarm (price x) b = ground arith
  check-alarm (leg x) b = ground arith

  -- Everything that reaches the switch, but its reset.
  pub data Event : Type 0 where
    checks : Check → Event
    daily : Event
    beats : ℕ → Event
    watches : ℕ → Event
    recovers : RecoveryGuardConfig → ℕ → ℕ → ℕ → Event

  unfoldable pub step : CircuitBreaker D → Event → CircuitBreaker D
  step b (checks c) = (check c b).1
  step b daily = reset_daily D b
  step b (beats now) = record b { kill_switch = heartbeat now b.kill_switch }
  step b (watches now) = record b { kill_switch = (check_heartbeat now b.kill_switch).1 }
  step b (recovers cfg ops acks races) = record b {
    kill_switch = (check_recovery cfg ops acks races b.kill_switch).1;
  }

  unfoldable pub run : CircuitBreaker D → List Event → CircuitBreaker D
  run b [] = b
  run b (e ∷ es) = run (step b e) es

  step_latched :
      (b : CircuitBreaker D) (e : Event)
      → b.kill_switch.active ≡ true
      → (step b e).kill_switch.active ≡ true
  unfolding step reset_daily heartbeat check_heartbeat check_recovery
  step_latched b (checks c) h = rw (check-alarm c b) (latch (alarm (check c b).0))
    where
      latch : (o : Option KillReason) → (tripped o b.kill_switch).active ≡ true
      latch none = h
      latch (some r) = refl
  step_latched b daily h = h
  step_latched b (beats now) h = h
  step_latched b (watches now) h = ground arith
  step_latched b (recovers cfg ops acks races) h = ground arith

  -- Once the kill switch is active it stays so through any checks, heartbeats, recovery checks and
  -- daily resets: only `KillSwitch::reset` clears it.
  pub run_latched :
      (b : CircuitBreaker D) (es : List Event)
      → b.kill_switch.active ≡ true
      → (run b es).kill_switch.active ≡ true
  unfolding run
  run_latched b [] h = h
  run_latched b (e ∷ es) h = run_latched (step b e) es (step_latched b e h)

  -- A count of losses at the limit has tripped the switch.
  pub record LossesAnswered (b : CircuitBreaker D) : Type 0 where
    pub limit_pos : 0 < b.cfg.consecutive_loss_count
    pub answered :
        reaches b.consec_losses b.cfg.consecutive_loss_count ≡ true → b.kill_switch.active ≡ true

  check-LossesAnswered :
      (c : Check) (b : CircuitBreaker D) → LossesAnswered b → LossesAnswered (check c b).1
  unfolding check check_order_rate check_message_rate check_drawdown check_book_age
      check_price_deviation record_leg_result reaches
  check-LossesAnswered (order_rate now) b h = ground arith
  check-LossesAnswered (message_rate now) b h = ground arith
  check-LossesAnswered (pnl x) b h = ground arith
  check-LossesAnswered (book_age last now) b h = ground arith
  check-LossesAnswered (price x) b h = ground arith
  check-LossesAnswered (leg x) b h = ground arith

  step-LossesAnswered :
      (b : CircuitBreaker D) (e : Event) → LossesAnswered b → LossesAnswered (step b e)
  unfolding step reset_daily heartbeat check_heartbeat check_recovery reaches
  step-LossesAnswered b (checks c) h = check-LossesAnswered c b h
  step-LossesAnswered b daily h = ground arith
  step-LossesAnswered b (beats now) h = ground arith
  step-LossesAnswered b (watches now) h = ground arith
  step-LossesAnswered b (recovers cfg ops acks races) h = ground arith

  run-LossesAnswered :
      (b : CircuitBreaker D) (es : List Event) → LossesAnswered b → LossesAnswered (run b es)
  unfolding run
  run-LossesAnswered b [] h = h
  run-LossesAnswered b (e ∷ es) h = run-LossesAnswered (step b e) es (step-LossesAnswered b e h)

  init-LossesAnswered :
      (cfg : CircuitBreakerConfig D) (k : KillSwitch)
      → 0 < cfg.consecutive_loss_count
      → LossesAnswered (init D cfg k)
  unfolding init reaches
  init-LossesAnswered cfg k h = ground arith

  -- From a new breaker with a positive loss limit, after any events but a reset of the switch,
  -- `check_consecutive_losses` answers CONSEC_LOSSES only while the kill switch is active.
  pub consec_losses_tripped :
      (cfg : CircuitBreakerConfig D) (k : KillSwitch) (es : List Event)
      → 0 < cfg.consecutive_loss_count
      → check_consecutive_losses D (run (init D cfg k) es) ≡ CircuitCheckResult.consec_losses
      → (run (init D cfg k) es).kill_switch.active ≡ true
  unfolding check_consecutive_losses
  consec_losses_tripped cfg k es h e =
      ground (arith, (run-LossesAnswered (init D cfg k) es (init-LossesAnswered cfg k h)).answered)

  pub record_legs : CircuitBreaker D → List Carrier → CircuitBreaker D
  record_legs b [] = b
  record_legs b (x ∷ xs) = record_legs (record_leg_result D x b).1 xs

  abbrev pub IsLoss : CircuitBreaker D → Carrier → Type 0
  IsLoss b x = le x b.cfg.per_leg_loss_usd ≡ true

  record Lost (b b' : CircuitBreaker D) : Type 0 where
    cfg_kept : b'.cfg ≡ b.cfg
    counted : b'.consec_losses ≡ b.consec_losses + 1
    quiet : b'.consec_losses < b.cfg.consecutive_loss_count → b'.kill_switch ≡ b.kill_switch
    loud : b.cfg.consecutive_loss_count ≤ b'.consec_losses → b'.kill_switch.active ≡ true

  leg-Lost :
      (b : CircuitBreaker D) (x : Carrier)
      → IsLoss b x
      → b.consec_losses + 1 < 2_147_483_648
      → Lost b (record_leg_result D x b).1
  unfolding record_leg_result reaches
  leg-Lost b x h c = ground arith

  -- A run of losing legs is counted leg by leg. It leaves the switch alone while the count stays
  -- below the limit, and has made the switch active when the count has come to the limit
  -- (while the counter stays below 2^31).
  pub losing_streak :
      (b : CircuitBreaker D) (x : Carrier) (xs : List Carrier)
      → All (IsLoss b) (x ∷ xs)
      → b.consec_losses + length (x ∷ xs) < 2_147_483_648
      → ((record_legs b (x ∷ xs)).consec_losses ≡ b.consec_losses + length (x ∷ xs))
        × (b.consec_losses + length (x ∷ xs) < b.cfg.consecutive_loss_count
            → (record_legs b (x ∷ xs)).kill_switch ≡ b.kill_switch)
        × (b.cfg.consecutive_loss_count ≤ b.consec_losses + length (x ∷ xs)
            → (record_legs b (x ∷ xs)).kill_switch.active ≡ true)
  unfolding record_legs
  losing_streak b x [] h c =
      let l = leg-Lost b x h.0 (omega arith) in
      (
        l.counted,
        λ below. l.quiet (omega (arith, l.counted)),
        λ reached. l.loud (omega (arith, l.counted)),
      )
  losing_streak b x (y ∷ ys) h c =
      let l = leg-Lost b x h.0 (omega arith) in
      let limit = ap (λ (cfg : CircuitBreakerConfig D). cfg.consecutive_loss_count) l.cfg_kept in
      let losses =
        subst
          (λ (cfg : CircuitBreakerConfig D). All (λ z. le z cfg.per_leg_loss_usd ≡ true) (y ∷ ys))
          (sym l.cfg_kept) h.1 in
      let (count, below, reached) =
        losing_streak (record_leg_result D x b).1 y ys losses (omega (arith, l.counted)) in
      (
        omega (arith, count, l.counted),
        λ few. below (omega (arith, l.counted, limit)) ∙ l.quiet (omega (arith, l.counted, limit)),
        λ many. reached (omega (arith, l.counted, limit)),
      )
