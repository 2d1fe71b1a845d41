-- ===== src/Routing/Router/Search.antt =====
-- core/execution/router/smart_order_router.cpp: the searches for the best price and the best venue.
use trading_infrastructure_c.Common.{
  ℕ, suc, Bool, true, false, not, ◌||◌, Option, none, some, List, [], ◌∷◌, get_or, if◌then◌else◌,
}
use trading_infrastructure_c.Common.Float.{Float}
use trading_infrastructure_c.Orders.ParentPlan.{Side}
use trading_infrastructure_c.Routing.Router.{
  lower_price_is_better, VenueQuote, RoutingRegime, infinite_price, quote_price_for_side,
  is_tradeable, expected_shortfall_bps,
}

module _ (F : Float) where
  open F use {double, literal}
  open F.double use {Carrier, zero as nought, le, lt, add, sub, mul, div, abs, neg}

  -- The best price so far and whether there is one.
  abbrev pub better : Bool → Carrier → Bool × Carrier → Bool × Carrier
  better lower quote (found, best) =
      if not found || (if lower then lt quote best else lt best quote)
      then (true, quote)
      else (found, best)

  unfoldable pub best_price_from : Side → List (VenueQuote F) → Bool × Carrier → Bool × Carrier
  best_price_from side [] acc = acc
  best_price_from side (v ∷ vs) acc =
      let quote = quote_price_for_side F v side in
      best_price_from side vs (
        if not (is_tradeable F v) || le quote nought
        then acc
        else better (lower_price_is_better side) quote acc)

  unfoldable pub find_best_price : Side → List (VenueQuote F) → Carrier
  unfolding best_price_from
  find_best_price side venues =
      let (found, best) = best_price_from side venues (false, nought) in
      if found then best else infinite_price F

  -- The search of both the router and the scheduler, for a score: the best index so far, -1 as none,
  -- and its score. `i` is the index of the first venue of the list.
  abbrev pub consider :
      (VenueQuote F → Carrier)
      → List Bool
      → ℕ
      → VenueQuote F
      → Option ℕ × Carrier
      → Option ℕ × Carrier
  consider score used i v (best, best_score) =
      if get_or used i true || not (is_tradeable F v)
      then (best, best_score)
      else if lt (score v) best_score
      then (some i, score v)
      else (best, best_score)

  unfoldable pub best_index_from :
      (VenueQuote F → Carrier)
      → List Bool
      → ℕ
      → List (VenueQuote F)
      → Option ℕ × Carrier
      → Option ℕ × Carrier
  best_index_from score used i [] acc = acc
  best_index_from score used i (v ∷ vs) acc =
      best_index_from score used (suc i) vs (consider score used i v acc)

  unfoldable pub best_index : (VenueQuote F → Carrier) → List Bool → List (VenueQuote F) → Option ℕ
  unfolding best_index_from
  best_index score used venues = (best_index_from score used 0 venues (none, infinite_price F)).0

  unfoldable pub find_best_venue_index :
      List (VenueQuote F) → List Bool → Side → RoutingRegime F → Carrier → Carrier → Option ℕ
  unfolding best_index expected_shortfall_bps
  find_best_venue_index venues used side regime best min_fill =
      best_index (λ v. expected_shortfall_bps F v side regime best nought min_fill) used venues
