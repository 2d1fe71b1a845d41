-- ===== src/Portfolio/IntentEngine/Guards.antt =====
-- When the engine of core/execution/common/portfolio/portfolio_intent_engine.hpp closes the position, and
-- the limit on its targets otherwise.
use trading_infrastructure_c.Common.{
  ◌≡◌, refl, All, ◌&&◌, true, false, ◌||◌, [], ◌∷◌, List, ◌==◌, Bool-cases, inl, inr, arith,
}
use trading_infrastructure_c.Common.Int.{pos, ltb_ℤ}
use trading_infrastructure_c.Common.Float.{Float}
use trading_infrastructure_c.Portfolio.IntentEngine.{
  aggressive, PortfolioIntentConfig, PortfolioIntentContext, AlphaSignal, RegimeSignal, VenueQuote,
  PositionLedgerSnapshot, PortfolioIntent, IntentEngine, clamp, clamp_position,
  count_healthy_venues, compute_basis_bps,
}
use trading_infrastructure_c.Portfolio.IntentEngine.Evaluate.{
  Inputs, must_flatten, reduced_target, targeted_intent, decide, inputs, update_regimes, evaluate,
}

module _ (F : Float) where
  open F use {double}
  open F.double use {Carrier, zero as nought, lt, le, sub, abs, neg}

  abbrev pub ClosesPosition : Carrier → PortfolioIntent F → Type 0
  ClosesPosition held out =
      (out.position_delta ≡ neg held)
      × (out.urgency ≡ aggressive)
      × (out.flatten_now ≡ lt nought (abs held))

  abbrev pub StaysWithin : PortfolioIntentConfig F → Carrier → PortfolioIntent F → Type 0
  StaysWithin cfg held out =
      (lt out.target_global_position (neg cfg.max_position) ≡ false)
      × (lt cfg.max_position out.target_global_position ≡ false)
      × (out.position_delta ≡ sub out.target_global_position held)

  abbrev pub IsUnusable : VenueQuote F → Type 0
  IsUnusable v = (v.enabled && v.healthy && lt nought v.depth_qty) ≡ false

  clamp-bounds :
      (v low high : Carrier)
      → ((c : Carrier) → lt c c ≡ false)
      → lt high low ≡ false
      → (lt (clamp F v low high) low ≡ false) × (lt high (clamp F v low high) ≡ false)
  clamp-bounds v low high irreflexive apart = elim (Bool-cases (lt v low)) [
    | inl below ↦ rw below (irreflexive low, apart)
    | inr inside ↦ elim (Bool-cases (lt high v)) [
      | inl above ↦ rw (inside, above) (apart, irreflexive high)
      | inr fits ↦ rw (inside, fits) (inside, fits)
    ]
  ]

  targeted_intent-StaysWithin :
      (cfg : PortfolioIntentConfig F) (i : Inputs F)
      → ((c : Carrier) → lt c c ≡ false)
      → lt cfg.max_position (neg cfg.max_position) ≡ false
      → StaysWithin cfg i.current (targeted_intent F cfg i)
  unfolding targeted_intent clamp_position
  targeted_intent-StaysWithin cfg i irreflexive apart =
      let (low, high) =
        clamp-bounds (reduced_target F cfg i) (neg cfg.max_position) cfg.max_position irreflexive
          apart in
      (low, high, refl)

  closing :
      (unset : Carrier) (cfg : PortfolioIntentConfig F) (i : Inputs F)
      → (i.healthy == 0 || must_flatten F cfg i) ≡ true
      → ClosesPosition i.current (decide F unset cfg i)
  unfolding decide
  closing unset cfg i h = elim (Bool-cases (i.healthy == 0)) [
    | inl idle ↦ rw idle (refl, refl, refl)
    | inr able ↦ elim (Bool-cases (must_flatten F cfg i)) [
      | inl e ↦ rw (able, e) (refl, refl, refl)
      | inr e ↦ absurd (ground (arith, h, able, e))
    ]
  ]

  within :
      (unset : Carrier) (cfg : PortfolioIntentConfig F) (i : Inputs F)
      → ((c : Carrier) → lt c c ≡ false)
      → lt cfg.max_position (neg cfg.max_position) ≡ false
      → (i.healthy == 0 || must_flatten F cfg i) ≡ false
      → StaysWithin cfg i.current (decide F unset cfg i)
  unfolding decide
  within unset cfg i irreflexive apart h =
      let able : (i.healthy == 0) ≡ false = ground (arith, h) in
      let calm : must_flatten F cfg i ≡ false = ground (arith, h) in
      rw (able, calm) (targeted_intent-StaysWithin cfg i irreflexive apart)

  count-IsUnusable : (vs : List (VenueQuote F)) → All IsUnusable vs → count_healthy_venues F vs ≡ 0
  unfolding count_healthy_venues
  count-IsUnusable [] h = refl
  count-IsUnusable (v ∷ vs) (h, hs) = rw h (count-IsUnusable vs hs)

  module _ (unset : Carrier) (cfg : PortfolioIntentConfig F) (alpha : AlphaSignal F)
      (regime : RegimeSignal F) (ledger : PositionLedgerSnapshot F) (venues : List (VenueQuote F))
      (ctx : PortfolioIntentContext F) (e : IntentEngine F) where
    -- The position of the ledger, cut to the limit on either side.
    abbrev pub held : Carrier
    held = clamp F ledger.global_position (neg cfg.max_position) cfg.max_position

    abbrev pub basis : Carrier
    basis = compute_basis_bps F ctx.spot_mid_price ctx.futures_mid_price

    -- The reasons to close the position.
    pub data MustClose : Type 0 where
      no_venue : All IsUnusable venues → MustClose
      risk_off : le cfg.max_risk_score alpha.risk_score ≡ true → MustClose
      negative_reversal : le alpha.signal_bps cfg.negative_reversal_signal_bps ≡ true → MustClose
      positive_reversal :
          lt held nought ≡ true
          → le cfg.positive_reversal_signal_bps alpha.signal_bps ≡ true
          → MustClose
      shock_regime :
          (evaluate F unset cfg alpha regime ledger venues ctx e).1.shock.active ≡ true → MustClose
      stale_signal :
          ltb_ℤ (pos 0) cfg.stale_signal_ms ≡ true
          → ltb_ℤ cfg.stale_signal_ms ctx.signal_age_ms ≡ true
          → MustClose
      basis_too_wide :
          lt nought cfg.max_basis_divergence_bps ≡ true
          → lt cfg.max_basis_divergence_bps basis ≡ true
          → MustClose

    abbrev read : Inputs F
    read = inputs F cfg alpha regime ledger venues ctx (update_regimes F cfg regime e)

    must_close : MustClose → (read.healthy == 0 || must_flatten F cfg read) ≡ true
    unfolding inputs evaluate clamp_position
    must_close (no_venue h) = rw (count-IsUnusable venues h) refl
    must_close (risk_off h) = ground (arith, h)
    must_close (negative_reversal h) = ground (arith, h)
    must_close (positive_reversal h k) = ground (arith, h, k)
    must_close (shock_regime h) = ground (arith, h)
    must_close (stale_signal h k) = ground (arith, h, k)
    must_close (basis_too_wide h k) = ground (arith, h, k)

    -- If no venue is enabled, healthy and with depth, or the risk score has come to its limit, the signal to
    -- its limit below, or above while the clamped position is short, or a shock regime is active after
    -- the call, or the signal is older than its limit, or the basis wider than its limit, where these
    -- two limits are positive, then evaluate closes the whole clamped position, aggressively.
    pub evaluate-closes :
        MustClose → ClosesPosition held (evaluate F unset cfg alpha regime ledger venues ctx e).0
    unfolding evaluate inputs clamp_position
    evaluate-closes reason = closing unset cfg read (must_close reason)
