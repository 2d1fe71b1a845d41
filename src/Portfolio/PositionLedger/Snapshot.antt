-- ===== src/Portfolio/PositionLedger/Snapshot.antt =====
-- snapshot() of core/execution/common/portfolio/position_ledger.hpp. The source default-initialises a
-- PositionLedgerSnapshot, which sets only its array: `raw` is what stands in it before.
use trading_infrastructure_c.Common.{
  ◌≡◌, refl, ℕ, suc, ◌+◌, ◌%◌, ◌/◌, Bool, true, not, ◌||◌, List, [], ◌∷◌, if◌then◌else◌, set,
  u64_mod, inl, inr, Bool-cases,
}
use trading_infrastructure_c.Common.Int.{ℤ, pos, negsuc, ◌-ℤ◌, max_ℤ}
use trading_infrastructure_c.Common.Double.{Double}
use trading_infrastructure_c.Connectors.OrderMap.{Exchange}
use trading_infrastructure_c.Portfolio.PositionLedger.{
  Sign, same_sign, is_flat, position_sign, copy_symbol, VenuePosition, Ledger,
}

-- duration_cast from nanoseconds to milliseconds, which drops the fraction.
abbrev to_ms : ℤ → ℤ
to_ms (pos n) = pos (n / 1_000_000)
to_ms (negsuc n) = pos 0 -ℤ pos (suc n / 1_000_000)

module _ (D : Double) where
  open D use {Carrier, zero as nought, le, lt, equal, add, sub, mul, div, abs, neg}

  pub record PositionLedgerVenueSnapshot : Type 0 where
    pub exchange : Exchange
    pub symbol : List ℕ
    pub position : Carrier
    pub avg_entry_price : Carrier
    pub leverage : Carrier
    pub realized_pnl : Carrier
    pub unrealized_pnl : Carrier
    pub pending_bid_qty : Carrier
    pub pending_ask_qty : Carrier
    pub mid_price : Carrier
    pub inventory_age_ms : ℤ
    pub active : Bool

  pub record PositionLedgerSnapshot : Type 0 where
    pub symbol : List ℕ
    pub global_position : Carrier
    pub global_avg_entry_price : Carrier
    pub realized_pnl : Carrier
    pub unrealized_pnl : Carrier
    pub pending_bid_qty : Carrier
    pub pending_ask_qty : Carrier
    pub mid_price : Carrier
    pub oldest_inventory_age_ms : ℤ
    pub venue_count : ℕ
    pub venues : List PositionLedgerVenueSnapshot

  unfoldable pub inventory_age_ms : ℕ → VenuePosition D → ℤ
  unfolding ◌-ℤ◌
  inventory_age_ms now v =
      if not v.has_inventory_age || equal v.position nought
      then pos 0
      else to_ms (pos now -ℤ v.opened_at)

  unfoldable pub compute_unrealized_pnl : VenuePosition D → Carrier
  compute_unrealized_pnl v =
      if equal v.position nought || le v.avg_entry_price nought || le v.mid_price nought
      then nought
      else if lt nought v.position
      then mul (sub v.mid_price v.avg_entry_price) v.position
      else mul (sub v.avg_entry_price v.mid_price) (neg v.position)

  unfoldable pub build_venue_snapshot : ℕ → VenuePosition D → PositionLedgerVenueSnapshot
  unfolding compute_unrealized_pnl inventory_age_ms
  build_venue_snapshot now v = record {
    exchange = v.exchange;
    symbol = copy_symbol v.symbol;
    position = v.position;
    avg_entry_price = v.avg_entry_price;
    leverage = v.leverage;
    realized_pnl = v.realized_pnl;
    unrealized_pnl = compute_unrealized_pnl v;
    pending_bid_qty = v.pending_bid_qty;
    pending_ask_qty = v.pending_ask_qty;
    mid_price = v.mid_price;
    inventory_age_ms = inventory_age_ms now v;
    active = true;
  }

  -- The loop, with the sign of the venues so far, their notional and their quantity.
  unfoldable pub average_from : List (VenuePosition D) → Sign → Carrier → Carrier → Carrier
  average_from [] sign notional qty = if equal qty nought then nought else div notional qty
  average_from (v ∷ vs) sign notional qty =
      let skipped = average_from vs sign notional qty in
      let net_sign = if is_flat sign then position_sign D v.position else sign in
      let counted =
        average_from vs net_sign (add notional (mul (abs v.position) v.avg_entry_price))
          (add qty (abs v.position)) in
      if not v.active || equal v.position nought || le v.avg_entry_price nought
      then skipped
      else if not (same_sign (position_sign D v.position) net_sign)
      then nought
      else counted

  pub compute_weighted_average_entry_price : Ledger D → Carrier
  unfolding average_from
  compute_weighted_average_entry_price l = average_from l.venues Sign.flat nought nought

  -- An active venue. A write past the array, where the count stood too high, has no effect here.
  unfoldable pub include : ℕ → VenuePosition D → PositionLedgerSnapshot → PositionLedgerSnapshot
  unfolding build_venue_snapshot inventory_age_ms compute_unrealized_pnl max_ℤ
  include now v out = record out {
    venues = set out.venues out.venue_count (build_venue_snapshot now v);
    venue_count = (out.venue_count + 1) % u64_mod;
    global_position = add out.global_position v.position;
    realized_pnl = add out.realized_pnl v.realized_pnl;
    unrealized_pnl = add out.unrealized_pnl (compute_unrealized_pnl v);
    pending_bid_qty = add out.pending_bid_qty v.pending_bid_qty;
    pending_ask_qty = add out.pending_ask_qty v.pending_ask_qty;
    mid_price = if lt nought v.mid_price then v.mid_price else out.mid_price;
    oldest_inventory_age_ms =
        if equal v.position nought
        then out.oldest_inventory_age_ms
        else max_ℤ out.oldest_inventory_age_ms (inventory_age_ms now v);
  }

  unfoldable pub include_all :
      ℕ → List (VenuePosition D) → PositionLedgerSnapshot → PositionLedgerSnapshot
  unfolding include
  include_all now [] out = out
  include_all now (v ∷ vs) out = include_all now vs (if v.active then include now v out else out)

  unfoldable pub snapshot : ℕ → PositionLedgerSnapshot → Ledger D → PositionLedgerSnapshot
  unfolding include_all compute_weighted_average_entry_price
  snapshot now raw l =
      record (include_all now l.venues (record raw { symbol = copy_symbol l.symbol })) {
        global_avg_entry_price = compute_weighted_average_entry_price l;
      }

  -- The sum of a field over the active venues, from `start` on.
  unfoldable pub total : (VenuePosition D → Carrier) → Carrier → List (VenuePosition D) → Carrier
  total field start [] = start
  total field start (v ∷ vs) = total field (if v.active then add start (field v) else start) vs

  -- The sums of a snapshot, from those that were there before.
  abbrev pub AddsUp :
      PositionLedgerSnapshot → List (VenuePosition D) → PositionLedgerSnapshot → Type 0
  AddsUp raw vs out =
      (out.global_position ≡ total (λ v. v.position) raw.global_position vs)
      × (out.realized_pnl ≡ total (λ v. v.realized_pnl) raw.realized_pnl vs)
      × (out.unrealized_pnl ≡ total (λ v. compute_unrealized_pnl v) raw.unrealized_pnl vs)
      × (out.pending_bid_qty ≡ total (λ v. v.pending_bid_qty) raw.pending_bid_qty vs)
      × (out.pending_ask_qty ≡ total (λ v. v.pending_ask_qty) raw.pending_ask_qty vs)

  include_all-AddsUp :
      (now : ℕ) (vs : List (VenuePosition D)) (out : PositionLedgerSnapshot)
      → AddsUp out vs (include_all now vs out)
  unfolding include_all include total
  include_all-AddsUp now [] out = (refl, refl, refl, refl, refl)
  include_all-AddsUp now (v ∷ vs) out = elim (Bool-cases v.active) [
    | inl e ↦ rw e (include_all-AddsUp now vs (include now v out))
    | inr e ↦ rw e (include_all-AddsUp now vs out)
  ]

  -- For every ledger, each sum of its snapshot (the position, both profits, both pending quantities) is
  -- what stood in the fresh snapshot object, with that field of the active venues added in their order:
  -- the ledger's own sum only where the object happened to hold 0.
  pub snapshot-AddsUp :
      (now : ℕ) (raw : PositionLedgerSnapshot) (l : Ledger D)
      → AddsUp raw l.venues (snapshot now raw l)
  unfolding snapshot
  snapshot-AddsUp now raw l =
      include_all-AddsUp now l.venues (record raw { symbol = copy_symbol l.symbol })
