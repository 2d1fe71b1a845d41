-- ===== src/Portfolio/SessionAccounting/Ingest.antt =====
-- core/execution/common/portfolio/live_session_accounting.hpp: what a reconciliation snapshot changes.
use trading_infrastructure_c.Common.{
  ℕ, ◌+◌, ◌%◌, Bool, true, false, not, ◌&&◌, ◌||◌, List, [], ◌∷◌, leb, ◌==◌, length, take, set,
  if◌then◌else◌, u64,
}
use trading_infrastructure_c.Common.Int.{ℤ}
use trading_infrastructure_c.Common.Float.{Float, max_of}
use trading_infrastructure_c.Connectors.OrderMap.{Exchange}
use trading_infrastructure_c.Portfolio.PositionLedger.{same_bytes}
use trading_infrastructure_c.Portfolio.SessionAccounting.{
  max_seen_fills, venue_index, is_stable_quote, SeenFillKey, same_time, Fill, Balance, Position,
  Snapshot, VenueState, Accounting, update_derived, venue_at,
}

module _ (F : Float) where
  open F use {double, literal, is_finite}
  open F.double use {Carrier, zero as nought, le, lt, add, sub, mul, div, neg}

  abbrev sum_of : (Balance F → Carrier) → Carrier → List (Balance F) → Carrier
  sum_of f acc [] = acc
  sum_of f acc (b ∷ bs) = sum_of f (add acc (max_of F nought (f b))) bs

  unfoldable pub sum_total : Snapshot F → Carrier
  sum_total s = sum_of (λ b. b.total) nought s.balances

  unfoldable pub sum_available : Snapshot F → Carrier
  sum_available s = sum_of (λ b. b.available) nought s.balances

  -- The positions passed over: of another symbol, or without a price.
  abbrev is_skipped : List ℕ → Position F → Bool
  is_skipped symbol p =
      (not (length symbol == 0) && not (same_bytes p.symbol symbol))
      || not (is_finite p.quantity)
      || not (is_finite p.avg_entry_price)
      || le p.avg_entry_price nought

  abbrev unrealized_of : Carrier → Position F → Carrier
  unrealized_of mark p =
      if lt nought p.quantity
      then mul (sub mark p.avg_entry_price) p.quantity
      else mul (sub p.avg_entry_price mark) (neg p.quantity)

  abbrev unrealized_from : List ℕ → Carrier → Carrier → List (Position F) → Carrier
  unrealized_from symbol mark acc [] = acc
  unrealized_from symbol mark acc (p ∷ ps) =
      unrealized_from symbol mark
        (if is_skipped symbol p then acc else add acc (unrealized_of mark p)) ps

  unfoldable pub compute_unrealized : Snapshot F → List ℕ → Carrier → Carrier
  compute_unrealized s symbol mark =
      if not (is_finite mark) || le mark nought
      then nought
      else unrealized_from symbol mark nought s.positions

  abbrev pub matches : Fill F → SeenFillKey → Bool
  matches f k =
      k.active
      && same_time k.exchange_ts_ns f.exchange_ts_ns
      && same_bytes (take 64 k.venue_trade_id) (take 64 f.venue_trade_id)

  abbrev pub is_fill_seen : Fill F → List SeenFillKey → Bool
  is_fill_seen f [] = false
  is_fill_seen f (k ∷ ks) = matches f k || is_fill_seen f ks

  abbrev pub key_of : Fill F → SeenFillKey
  key_of f = record {
    venue_trade_id = take 63 f.venue_trade_id;
    exchange_ts_ns = f.exchange_ts_ns;
    active = true;
  }

  unfoldable pub remember_fill : Fill F → VenueState F → VenueState F
  remember_fill f s = record s {
    seen_fill_keys = set s.seen_fill_keys (s.seen_fill_cursor % max_seen_fills) (key_of f);
    seen_fill_cursor = u64 (s.seen_fill_cursor + 1);
  }

  unfoldable pub fee_to_usd : Fill F → Carrier
  fee_to_usd f =
      if not (is_finite f.fee) || le f.fee nought
      then nought
      else if is_stable_quote f.fee_asset
      then f.fee
      else if leb (length f.fee_asset) (length f.symbol) && not (length f.fee_asset == 0)
      then mul f.fee (max_of F nought f.price)
      else f.fee

  -- The loop, with the fees so far.
  unfoldable pub new_fees : List (Fill F) → Carrier × VenueState F → Carrier × VenueState F
  unfolding remember_fill
  new_fees [] acc = acc
  new_fees (f ∷ fs) (fees, s) = new_fees fs (
      if is_fill_seen f s.seen_fill_keys
      then (fees, s)
      else (add fees (fee_to_usd f), remember_fill f s))

  unfoldable pub collect_new_fees : Snapshot F → VenueState F → Carrier × VenueState F
  unfolding new_fees
  collect_new_fees snapshot s =
      let (fees, after) = new_fees snapshot.fills (nought, s) in
      (fees, record after { last_snapshot = snapshot })

  unfoldable pub ingest_into : Snapshot F → List ℕ → Carrier → VenueState F → VenueState F
  unfolding sum_available sum_total compute_unrealized collect_new_fees update_derived
  ingest_into snapshot symbol mark s =
      let (fees, after) = collect_new_fees snapshot s in
      record after {
        metrics = update_derived F (record after.metrics {
          free_collateral = sum_available snapshot;
          end_equity = sum_total snapshot;
          has_reconciled_equity = true;
          unrealized_pnl = compute_unrealized snapshot symbol mark;
          fees = add s.metrics.fees fees;
        });
      }

  unfoldable pub ingest_reconciliation :
      Exchange → Snapshot F → List ℕ → Carrier → ℤ → Accounting F → Accounting F
  unfolding ingest_into
  ingest_reconciliation e snapshot symbol mark now a = record {
    venues = set a.venues (venue_index e) (ingest_into snapshot symbol mark (venue_at F e a));
    last_update_ts_ns = now;
  }
