-- ===== src/Portfolio/SessionAccounting/Collateral.antt =====
-- core/execution/common/portfolio/live_session_accounting.hpp: whether an order can be paid for, and the
-- metrics of the session.
use trading_infrastructure_c.Common.{
  ℕ, zero, suc, ◌-◌, Bool, false, not, ◌&&◌, ◌||◌, List, [], ◌∷◌, leb, ◌==◌, length, take,
  if◌then◌else◌,
}
use trading_infrastructure_c.Common.Float.{Float, max_of}
use trading_infrastructure_c.Connectors.OrderMap.{Exchange}
use trading_infrastructure_c.Orders.ParentPlan.{Side}
use trading_infrastructure_c.Portfolio.PositionLedger.{same_bytes}
use trading_infrastructure_c.Portfolio.SessionAccounting.{
  is_stable_quote, usdt, usdc, usd, Balance, Snapshot, VenueMetrics, GlobalMetrics, VenueState,
  Accounting, venue_at,
}

abbrev pub drop : ℕ → List ℕ → List ℕ
drop zero xs = xs
drop (suc n) [] = []
drop (suc n) (x ∷ xs) = drop n xs

-- The last `n` bytes.
abbrev pub suffix : ℕ → List ℕ → List ℕ
suffix n s = drop (length s - n) s

abbrev pub ends_in : List ℕ → List ℕ → Bool
ends_in asset s = leb (length asset) (length s) && same_bytes (suffix (length asset) s) asset

unfoldable pub infer_quote_asset : List ℕ → List ℕ
infer_quote_asset s =
    if ends_in usdt s || ends_in usdc s
    then suffix 4 s
    else if ends_in usd s
    then suffix 3 s
    else []

unfoldable pub infer_base_asset : List ℕ → List ℕ → List ℕ
infer_base_asset s quote =
    if length quote == 0 || leb (length s) (length quote)
    then s
    else take (length s - length quote) s

module _ (F : Float) where
  open F use {double, literal, is_finite}
  open F.double use {Carrier, zero as nought, le, lt, add, sub, mul, div, neg}

  abbrev available_in : List ℕ → List (Balance F) → Carrier
  available_in asset [] = nought
  available_in asset (b ∷ bs) =
      if same_bytes b.asset asset then max_of F nought b.available else available_in asset bs

  unfoldable pub find_available_asset : Snapshot F → List ℕ → Carrier
  find_available_asset s asset = if length asset == 0 then nought else available_in asset s.balances

  abbrev pub is_bad_order : Carrier → Carrier → Bool
  is_bad_order quantity price =
      not (is_finite quantity) || not (is_finite price) || le quantity nought || le price nought

  -- A purchase; `available` is what the snapshot has of the quote asset.
  abbrev pub available_quote : List ℕ → Carrier → VenueState F → Carrier
  available_quote quote available s =
      if le available nought && is_stable_quote quote then s.metrics.start_equity else available

  abbrev pub spot_cost : Carrier → Carrier → Carrier → VenueState F → Carrier
  spot_cost quantity price fee_bps s =
      let notional = mul quantity price in
      add (add notional (div (mul notional (max_of F nought fee_bps)) (literal 10_000 0)))
        s.metrics.min_free_collateral_buffer

  can_afford_side : Side → List ℕ → Carrier → Carrier → Carrier → VenueState F → Bool
  unfolding find_available_asset infer_quote_asset infer_base_asset
  can_afford_side Side.bid symbol quantity price fee_bps s =
      let quote = infer_quote_asset symbol in
      le (spot_cost quantity price fee_bps s)
        (available_quote quote (find_available_asset s.last_snapshot quote) s)
  can_afford_side Side.ask symbol quantity price fee_bps s =
      le quantity
        (find_available_asset s.last_snapshot (infer_base_asset symbol (infer_quote_asset symbol)))

  unfoldable pub can_afford_spot_order :
      Exchange → List ℕ → Side → Carrier → Carrier → Carrier → Accounting F → Bool
  unfolding can_afford_side
  can_afford_spot_order e symbol side quantity price fee_bps a =
      let s = venue_at F e a in
      if is_bad_order quantity price || not s.metrics.configured
      then false
      else can_afford_side side symbol quantity price fee_bps s

  unfoldable pub can_afford_futures_order :
      Exchange → Carrier → Carrier → Carrier → Carrier → Accounting F → Bool
  can_afford_futures_order e quantity price fee_bps leverage a =
      let s = venue_at F e a in
      let notional = mul quantity price in
      let margin = div notional (max_of F (literal 1 0) leverage) in
      let fee = div (mul notional (max_of F nought fee_bps)) (literal 10_000 0) in
      let available =
        if lt nought s.metrics.free_collateral
        then s.metrics.free_collateral
        else s.metrics.start_equity in
      if is_bad_order quantity price || not s.metrics.configured
      then false
      else le (add (add margin fee) s.metrics.min_free_collateral_buffer) available

  unfoldable pub venue_metrics : Exchange → Accounting F → VenueMetrics F
  venue_metrics e a = (venue_at F e a).metrics

  -- The sums over the configured venues: start, end, unrealized, fees.
  abbrev totals :
      List (VenueState F)
      → Carrier × Carrier × Carrier × Carrier
      → Carrier × Carrier × Carrier × Carrier
  totals [] acc = acc
  totals (s ∷ ss) (start, end, unrealized, fees) = totals ss (
      if not s.metrics.configured then (start, end, unrealized, fees) else (
        add start s.metrics.start_equity,
        add end s.metrics.end_equity,
        add unrealized s.metrics.unrealized_pnl,
        add fees s.metrics.fees,
      ))

  unfoldable pub global_metrics : Accounting F → GlobalMetrics F
  global_metrics a =
      let (start, end, unrealized, fees) = totals a.venues (nought, nought, nought, nought) in
      let net = sub end start in
      record {
        start_equity = start;
        end_equity = end;
        realized_pnl = add (sub net unrealized) fees;
        unrealized_pnl = unrealized;
        fees = fees;
        net_pnl = net;
        return_pct = if lt nought start then mul (div net start) (literal 100 0) else nought;
      }
