-- ===== src/Connectors/Reconciliation/Fills.antt =====
-- Fills of the reconciliation service: the identity of a fill and the ledger of a snapshot's fills.
use trading_infrastructure_c.Common.{
  ℕ, suc, Bool, true, false, ◌&&◌, ◌||◌, List, [], ◌∷◌, ◌++◌, leb, ltb, ◌==◌, if◌then◌else◌, length,
}
use trading_infrastructure_c.Common.Float.{Float}
use trading_infrastructure_c.Portfolio.PositionLedger.{same_exchange, same_bytes}
use trading_infrastructure_c.Connectors.Reconciliation.{ReconciledFill}

abbrev pub max_fill_keys : ℕ
max_fill_keys = 1024

abbrev pub has_id : List ℕ → Bool
has_id [] = false
has_id (c ∷ cs) = true

abbrev pub same_id : List ℕ → List ℕ → Bool
same_id a b = has_id a && has_id b && same_bytes a b

abbrev pub same_client : ℕ → ℕ → Bool
same_client a b = ltb 0 a && ltb 0 b && a == b

module _ (F : Float) where
  open F use {double, literal}
  open F.double use {Carrier, zero as nought, le, lt, add, sub, mul, abs}

  abbrev pub drift : Carrier → Carrier → Carrier
  drift a b = abs (sub a b)

  abbrev pub same_details : ReconciledFill F → ReconciledFill F → Bool
  same_details a b =
      a.exchange_ts_ns == b.exchange_ts_ns
      && le (drift a.quantity b.quantity) (literal 1 12)
      && le (drift a.price b.price) (literal 1 12)

  -- The source copies the fields that this reads into a FillIdentity; here the fill is its own key.
  unfoldable pub fill_same_identity : ReconciledFill F → ReconciledFill F → Bool
  fill_same_identity a b =
      same_exchange a.exchange b.exchange
      && (same_id a.venue_trade_id b.venue_trade_id
          || (same_client a.client_order_id b.client_order_id && same_details a b)
          || (same_id a.venue_order_id b.venue_order_id && same_details a b))

  pub record FillLedger : Type 0 where
    pub cum_qty : Carrier
    pub cum_notional : Carrier
    pub cum_fee : Carrier
    pub unique_fill_count : ℕ
    pub overflow : Bool

  abbrev pub empty_ledger : FillLedger
  empty_ledger = record {
    cum_qty = nought;
    cum_notional = nought;
    cum_fee = nought;
    unique_fill_count = 0;
    overflow = false;
  }

  unfoldable pub is_duplicate : ReconciledFill F → List (ReconciledFill F) → Bool
  unfolding fill_same_identity
  is_duplicate f [] = false
  is_duplicate f (k ∷ keys) =
      let rest = is_duplicate f keys in if fill_same_identity f k then true else rest

  unfoldable pub count_fill : ReconciledFill F → FillLedger → FillLedger
  count_fill f l = record l {
    cum_qty = add l.cum_qty f.quantity;
    cum_notional =
        add l.cum_notional (if lt nought f.notional then f.notional else mul f.quantity f.price);
    cum_fee = add l.cum_fee f.fee;
    unique_fill_count = suc l.unique_fill_count;
  }

  -- The loop, with the keys seen so far, in order.
  unfoldable pub build_from :
      List (ReconciledFill F) → List (ReconciledFill F) → FillLedger → Bool × FillLedger
  unfolding is_duplicate count_fill
  build_from [] keys l = (true, l)
  build_from (f ∷ fs) keys l =
      let skipped = build_from fs keys l in
      let counted = build_from fs (keys ++ (f ∷ [])) (count_fill f l) in
      if is_duplicate f keys
      then skipped
      else if leb max_fill_keys (length keys)
      then (false, record l { overflow = true })
      else counted

  unfoldable pub build_fill_ledger : List (ReconciledFill F) → Bool × FillLedger
  unfolding build_from
  build_fill_ledger fs = build_from fs [] empty_ledger
