-- ===== src/Connectors/Reconciliation/Drift.antt =====
-- How the reconciliation service judges a venue's snapshot: on its own, and against the canonical one.
-- The source default-initialises a DriftDecision, which leaves its fields unset, and sets some of them:
-- `raw` is what stands in the unset ones.
use trading_infrastructure_c.Common.{
  ℕ, Bool, true, false, not, ◌&&◌, ◌||◌, Option, none, some, List, [], ◌∷◌, if◌then◌else◌,
}
use trading_infrastructure_c.Common.Float.{Float}
use trading_infrastructure_c.Portfolio.PositionLedger.{same_bytes}
use trading_infrastructure_c.Connectors.Reconciliation.{
  MismatchClass, no_mismatch, missing_order, qty_drift, fill_gap, balance_drift, position_drift,
  DriftAction, quarantine_venue, request_fill_replay, risk_halt_recommended, cancel_all_orders,
  SeverityLevel, warning, critical, DriftDecision, ReconciledOrder, ReconciledFill,
  ReconciledBalance, ReconciledPosition, ReconciliationSnapshot, DriftThresholds,
}
use trading_infrastructure_c.Connectors.Reconciliation.Fills.{
  drift, same_id, same_client, build_fill_ledger, FillLedger,
}

abbrev pub mismatch :
    DriftDecision → MismatchClass → DriftAction → SeverityLevel → Bool → DriftDecision
mismatch raw class action severity quarantine = record raw {
  is_mismatch = true;
  mismatch_class = class;
  action = action;
  severity = severity;
  quarantine = quarantine;
}

unfoldable pub classify_order_drift : DriftDecision → MismatchClass → DriftDecision
classify_order_drift raw class = record raw {
  is_mismatch = true;
  mismatch_class = class;
  action = cancel_all_orders;
  severity = warning;
}

unfoldable pub classify_fill_gap : DriftDecision → DriftDecision
classify_fill_gap raw = record raw {
  is_mismatch = true;
  mismatch_class = fill_gap;
  action = request_fill_replay;
  severity = warning;
}

abbrev pub any : {A : Type 0} → (A → Bool) → List A → Bool
any p [] = false
any p (x ∷ xs) = let rest = any p xs in if p x then true else rest

module _ (F : Float) where
  open F use {double}
  open F.double use {Carrier, zero as nought, le, lt, sub, mul, neg}

  abbrev pub insane_order : DriftThresholds F → ReconciledOrder F → Bool
  insane_order t o =
      lt o.quantity nought
      || lt o.filled_quantity nought
      || lt (sub o.quantity o.filled_quantity) (neg t.max_order_fill_gap)

  abbrev pub insane_balance : DriftThresholds F → ReconciledBalance F → Bool
  insane_balance t b = lt (sub b.total b.available) (neg t.max_balance_drift)

  abbrev pub insane_position : DriftThresholds F → ReconciledPosition F → Bool
  insane_position t p =
      lt p.avg_entry_price nought
      || (lt nought p.quantity && le p.avg_entry_price t.max_position_drift)
      || lt p.leverage nought

  abbrev pub insane_fill : DriftThresholds F → ReconciledFill F → Bool
  insane_fill t f =
      lt f.quantity nought
      || lt f.price nought
      || lt f.notional nought
      || lt f.fee nought
      || (lt nought f.notional
          && lt t.max_fill_notional_drift (drift F f.notional (mul f.quantity f.price)))

  unfoldable pub evaluate_snapshot_sanity :
      DriftDecision → DriftThresholds F → ReconciliationSnapshot F → DriftDecision
  evaluate_snapshot_sanity raw t s =
      if any (insane_order t) s.open_orders
        || any (insane_balance t) s.balances
        || any (insane_position t) s.positions
        || any (insane_fill t) s.fills
      then mismatch raw no_mismatch quarantine_venue critical true
      else raw

  abbrev pub same_order : ReconciledOrder F → ReconciledOrder F → Bool
  same_order candidate key =
      same_client candidate.client_order_id key.client_order_id
      || same_id candidate.venue_order_id key.venue_order_id

  unfoldable pub find_order :
      List (ReconciledOrder F) → ReconciledOrder F → Option (ReconciledOrder F)
  find_order [] key = none
  find_order (o ∷ os) key =
      let rest = find_order os key in if same_order o key then some o else rest

  abbrev pub find_balance : List (ReconciledBalance F) → List ℕ → Option (ReconciledBalance F)
  find_balance [] asset = none
  find_balance (b ∷ bs) asset =
      let rest = find_balance bs asset in if same_bytes b.asset asset then some b else rest

  abbrev pub find_position :
      List (ReconciledPosition F) → List ℕ → List ℕ → Option (ReconciledPosition F)
  find_position [] symbol side = none
  find_position (p ∷ ps) symbol side =
      let rest = find_position ps symbol side in
      if same_bytes p.symbol symbol && same_bytes p.position_side side then some p else rest

  -- What is wrong with a canonical order at the venue, and the first such fault.
  abbrev pub order_fault :
      DriftThresholds F → ReconciledOrder F → Option (ReconciledOrder F) → Option MismatchClass
  order_fault t o none = some missing_order
  order_fault t o (some v) =
      if lt t.max_order_fill_gap (drift F v.quantity o.quantity)
        || lt t.max_order_fill_gap (drift F v.filled_quantity o.filled_quantity)
      then some qty_drift
      else none

  abbrev pub or_else : Option MismatchClass → Option MismatchClass → Option MismatchClass
  or_else none rest = rest
  or_else (some m) rest = some m

  unfoldable pub canonical_faults :
      DriftThresholds F → List (ReconciledOrder F) → List (ReconciledOrder F) → Option MismatchClass
  unfolding find_order
  canonical_faults t venue [] = none
  canonical_faults t venue (o ∷ os) =
      or_else (order_fault t o (find_order venue o)) (canonical_faults t venue os)

  abbrev pub is_unknown : Option (ReconciledOrder F) → Bool
  is_unknown none = true
  is_unknown (some o) = false

  unfoldable pub order_faults :
      DriftThresholds F → List (ReconciledOrder F) → List (ReconciledOrder F) → Option MismatchClass
  unfolding canonical_faults
  order_faults t venue canonical =
      or_else (canonical_faults t venue canonical)
        (if any (λ o. is_unknown (find_order canonical o)) venue then some missing_order else none)

  abbrev pub ledgers_differ : DriftThresholds F → Bool × FillLedger F → Bool × FillLedger F → Bool
  ledgers_differ t (whole_venue, v) (whole_canonical, c) =
      not whole_venue
      || not whole_canonical
      || lt t.max_order_fill_gap (drift F v.cum_qty c.cum_qty)
      || lt t.max_fill_notional_drift (drift F v.cum_notional c.cum_notional)
      || lt t.max_fill_fee_drift (drift F v.cum_fee c.cum_fee)

  unfoldable pub fill_gap_detected :
      DriftThresholds F → ReconciliationSnapshot F → ReconciliationSnapshot F → Bool
  unfolding build_fill_ledger
  fill_gap_detected t venue canonical =
      ledgers_differ t (build_fill_ledger F venue.fills) (build_fill_ledger F canonical.fills)

  abbrev pub balance_fault :
      DriftThresholds F → ReconciledBalance F → Option (ReconciledBalance F) → Bool
  balance_fault t b none = true
  balance_fault t b (some v) =
      lt t.max_balance_drift (drift F v.total b.total)
      || lt t.max_balance_drift (drift F v.available b.available)

  abbrev pub position_fault :
      DriftThresholds F → ReconciledPosition F → Option (ReconciledPosition F) → Bool
  position_fault t p none = true
  position_fault t p (some v) =
      lt t.max_position_drift (drift F v.quantity p.quantity)
      || lt t.max_position_drift (drift F v.avg_entry_price p.avg_entry_price)

  unfoldable pub judge_rest :
      DriftDecision
      → DriftThresholds F
      → ReconciliationSnapshot F
      → ReconciliationSnapshot F
      → Option MismatchClass
      → DriftDecision
  unfolding classify_order_drift classify_fill_gap fill_gap_detected
  judge_rest raw t venue canonical (some class) = classify_order_drift raw class
  judge_rest raw t venue canonical none =
      if fill_gap_detected t venue canonical
      then classify_fill_gap raw
      else if any (λ b. balance_fault t b (find_balance venue.balances b.asset)) canonical.balances
      then mismatch raw balance_drift risk_halt_recommended critical true
      else if any (λ p. position_fault t p (find_position venue.positions p.symbol p.position_side))
          canonical.positions
      then mismatch raw position_drift risk_halt_recommended critical true
      else raw

  unfoldable pub evaluate_drift :
      DriftDecision
      → DriftThresholds F
      → ReconciliationSnapshot F
      → ReconciliationSnapshot F
      → DriftDecision
  unfolding evaluate_snapshot_sanity order_faults judge_rest
  evaluate_drift raw t venue canonical =
      let sanity = evaluate_snapshot_sanity raw t venue in
      if sanity.is_mismatch
      then sanity
      else judge_rest raw t venue canonical (order_faults t venue.open_orders canonical.open_orders)
