-- ===== src/Portfolio/SessionAccounting/Examples.antt =====
-- The theorems on the session accounting at concrete snapshots, over whole numbers for `double`.
use trading_infrastructure_c.Common.{ℕ, All, ◌≡◌, ◌++◌, refl, List, [], ◌∷◌, arith}
use trading_infrastructure_c.Common.Int.{pos}
use trading_infrastructure_c.Common.Whole.{whole_float}
use trading_infrastructure_c.Portfolio.PositionLedger.{same_bytes}
use trading_infrastructure_c.Portfolio.SessionAccounting.{
  max_seen_fills, Fill, Snapshot, VenueState, blank_state, usdt,
}
use trading_infrastructure_c.Portfolio.SessionAccounting.Collateral.{
  infer_quote_asset, infer_base_asset,
}
use trading_infrastructure_c.Portfolio.SessionAccounting.Assets.{infer_base_asset-append}
use trading_infrastructure_c.Portfolio.SessionAccounting.Repeats.{IsShort}
use trading_infrastructure_c.Portfolio.SessionAccounting.Fees.{
  Ingested, Remembers, ingest_all, session_fees, ingest_all-fees,
}

abbrev fill : Fill whole_float
fill = record {
  venue_trade_id = 55 ∷ [];
  symbol = [];
  price = pos 100;
  fee = pos 2;
  fee_asset = usdt;
  exchange_ts_ns = pos 10;
}

abbrev first : Snapshot whole_float
first = record { fills = fill ∷ []; balances = []; positions = [] }

-- It repeats the fill of the first and has one more.
abbrev second : Snapshot whole_float
second = record first { fills = fill ∷ record fill { venue_trade_id = 56 ∷ [] } ∷ [] }

abbrev session : List (Ingested whole_float)
session =
    record { snapshot = first; symbol = []; mark_price = pos 100 }
    ∷ record { snapshot = second; symbol = []; mark_price = pos 101 }
    ∷ []

abbrev start : VenueState whole_float
start = blank_state whole_float 0

start-Remembers : Remembers whole_float start [] max_seen_fills
start-Remembers = record { keys = refl; cells = refl; cursor = refl }

fills-IsShort : All (λ i. All (IsShort whole_float) i.snapshot.fills) session
fills-IsShort = ((omega arith, tt), ((omega arith, (omega arith, tt)), tt))

ingest_all-fees_example :
    (ingest_all whole_float session start).metrics.fees
    ≡ (session_fees whole_float session (pos 0, [])).0
ingest_all-fees_example =
    ingest_all-fees whole_float session start [] max_seen_fills tt fills-IsShort start-Remembers
      (omega arith)

-- "BTCUSDT"
abbrev symbol : List ℕ
symbol = 66 ∷ 84 ∷ 67 ∷ usdt

infer_base_asset-append_example :
    infer_base_asset symbol (infer_quote_asset symbol) ++ infer_quote_asset symbol ≡ symbol
unfolding infer_quote_asset same_bytes
infer_base_asset-append_example = infer_base_asset-append symbol (omega arith)
