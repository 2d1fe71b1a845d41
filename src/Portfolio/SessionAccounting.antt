-- ===== src/Portfolio/SessionAccounting.antt =====
-- core/execution/common/portfolio/live_session_accounting.hpp over an abstract `double`. Of a reconciliation
-- snapshot the fields that the accounting reads are modelled, its tables as lists and its C strings as
-- the bytes before the first zero. The reading of the clock is an argument.
pub mod Ingest
pub mod Collateral
pub mod Repeats
pub mod Fees
pub mod Assets
mod Examples
use trading_infrastructure_c.Common.{
  ℕ, zero, suc, ◌+◌, ◌-◌, ◌%◌, Bool, true, false, not, ◌&&◌, ◌||◌, Option, none, some, List, [],
  ◌∷◌, ltb, leb, ◌==◌, length, take, get_or, set, replicate, map, if◌then◌else◌, u64,
}
use trading_infrastructure_c.Common.Int.{ℤ, pos, leb_ℤ}
use trading_infrastructure_c.Common.Float.{Float, max_of}
use trading_infrastructure_c.Connectors.OrderMap.{Exchange}
use trading_infrastructure_c.Orders.ParentPlan.{Side}
use trading_infrastructure_c.Portfolio.PositionLedger.{same_bytes}

abbrev pub max_seen_fills : ℕ
max_seen_fills = 4096

-- An exchange that is none of the four is taken for the first.
abbrev pub venue_index : Exchange → ℕ
venue_index Exchange.okx = 1
venue_index Exchange.coinbase = 2
venue_index Exchange.kraken = 3
venue_index _ = 0

abbrev pub index_to_exchange : ℕ → Exchange
index_to_exchange zero = Exchange.binance
index_to_exchange (suc zero) = Exchange.okx
index_to_exchange (suc (suc zero)) = Exchange.coinbase
index_to_exchange (suc (suc (suc zero))) = Exchange.kraken
index_to_exchange _ = Exchange.unknown

-- "USDT", "USDC" and "USD".
abbrev pub usdt : List ℕ
usdt = 85 ∷ 83 ∷ 68 ∷ 84 ∷ []

abbrev pub usdc : List ℕ
usdc = 85 ∷ 83 ∷ 68 ∷ 67 ∷ []

abbrev pub usd : List ℕ
usd = 85 ∷ 83 ∷ 68 ∷ []

abbrev pub is_stable_quote : List ℕ → Bool
is_stable_quote asset = same_bytes asset usdt || same_bytes asset usd || same_bytes asset usdc

pub record SeenFillKey : Type 0 where
  pub venue_trade_id : List ℕ
  pub exchange_ts_ns : ℤ
  pub active : Bool

abbrev pub no_key : SeenFillKey
no_key = record { venue_trade_id = []; exchange_ts_ns = pos 0; active = false }

abbrev pub same_time : ℤ → ℤ → Bool
same_time a b = leb_ℤ a b && leb_ℤ b a

module _ (F : Float) where
  open F use {double, literal, is_finite}
  open F.double use {Carrier, zero as nought, le, lt, add, sub, mul, div, neg}

  pub record Fill : Type 0 where
    pub venue_trade_id : List ℕ
    pub symbol : List ℕ
    pub price : Carrier
    pub fee : Carrier
    pub fee_asset : List ℕ
    pub exchange_ts_ns : ℤ

  pub record Balance : Type 0 where
    pub asset : List ℕ
    pub total : Carrier
    pub available : Carrier

  pub record Position : Type 0 where
    pub symbol : List ℕ
    pub quantity : Carrier
    pub avg_entry_price : Carrier

  pub record Snapshot : Type 0 where
    pub fills : List Fill
    pub balances : List Balance
    pub positions : List Position

  pub record VenueMetrics : Type 0 where
    pub exchange : Exchange
    pub configured : Bool
    pub start_equity : Carrier
    pub end_equity : Carrier
    pub realized_pnl : Carrier
    pub unrealized_pnl : Carrier
    pub fees : Carrier
    pub net_pnl : Carrier
    pub return_pct : Carrier
    pub free_collateral : Carrier
    pub min_free_collateral_buffer : Carrier
    pub has_reconciled_equity : Bool

  pub record GlobalMetrics : Type 0 where
    pub start_equity : Carrier
    pub end_equity : Carrier
    pub realized_pnl : Carrier
    pub unrealized_pnl : Carrier
    pub fees : Carrier
    pub net_pnl : Carrier
    pub return_pct : Carrier

  pub record VenueState : Type 0 where
    pub metrics : VenueMetrics
    pub last_snapshot : Snapshot
    pub seen_fill_keys : List SeenFillKey
    pub seen_fill_cursor : ℕ

  pub record Accounting : Type 0 where
    pub venues : List VenueState
    pub last_update_ts_ns : ℤ

  abbrev pub blank_state : ℕ → VenueState
  blank_state i = record {
    metrics = record {
      exchange = index_to_exchange i;
      configured = false;
      start_equity = nought;
      end_equity = nought;
      realized_pnl = nought;
      unrealized_pnl = nought;
      fees = nought;
      net_pnl = nought;
      return_pct = nought;
      free_collateral = nought;
      min_free_collateral_buffer = nought;
      has_reconciled_equity = false;
    };
    last_snapshot = record { fills = []; balances = []; positions = [] };
    seen_fill_keys = replicate max_seen_fills no_key;
    seen_fill_cursor = 0;
  }

  unfoldable pub init : Accounting
  init = record { venues = map blank_state (0 ∷ 1 ∷ 2 ∷ 3 ∷ []); last_update_ts_ns = pos 0 }

  unfoldable pub update_derived : VenueMetrics → VenueMetrics
  update_derived m =
      let net = sub m.end_equity m.start_equity in
      record m {
        net_pnl = net;
        realized_pnl = add (sub net m.unrealized_pnl) m.fees;
        return_pct =
            if lt nought m.start_equity
            then mul (div net m.start_equity) (literal 100 0)
            else nought;
      }

  abbrev pub venue_at : Exchange → Accounting → VenueState
  venue_at e a = get_or a.venues (venue_index e) (blank_state 0)

  unfoldable pub configure_venue : Exchange → Carrier → Carrier → Accounting → Accounting
  unfolding update_derived
  configure_venue e start buffer a =
      let s = venue_at e a in
      record a {
        venues = set a.venues (venue_index e) (record s {
          metrics = update_derived (record s.metrics {
            configured = true;
            start_equity = max_of F nought start;
            end_equity = max_of F nought start;
            min_free_collateral_buffer = max_of F nought buffer;
          });
        });
      }
