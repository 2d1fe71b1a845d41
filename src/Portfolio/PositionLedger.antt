-- ===== src/Portfolio/PositionLedger.antt =====
-- core/execution/common/portfolio/position_ledger.hpp, over an abstract `double`. The array of four
-- venues is a list; `now` is the clock read in a call. Strings are the bytes before the NUL.
pub mod Age
pub mod Snapshot
use trading_infrastructure_c.Common.{
  ℕ, ◌+◌, ◌-◌, ◌*◌, Bool, true, false, not, ◌&&◌, ◌||◌, Option, none, some, List, [], ◌∷◌, ◌++◌,
  map, ltb, ◌==◌, if◌then◌else◌, take, get_or, set,
}
use trading_infrastructure_c.Common.Slots.{find_index}
use trading_infrastructure_c.Common.Double.{Double}
use trading_infrastructure_c.Common.Int.{ℤ, pos, negsuc, ◌-ℤ◌, max_ℤ}
use trading_infrastructure_c.Connectors.OrderMap.{Exchange}
use trading_infrastructure_c.Orders.ParentPlan.{Side, same_side}

abbrev pub same_exchange : Exchange → Exchange → Bool
same_exchange Exchange.binance Exchange.binance = true
same_exchange Exchange.okx Exchange.okx = true
same_exchange Exchange.coinbase Exchange.coinbase = true
same_exchange Exchange.kraken Exchange.kraken = true
same_exchange Exchange.unknown Exchange.unknown = true
same_exchange _ _ = false

unfoldable pub same_bytes : List ℕ → List ℕ → Bool
same_bytes [] [] = true
same_bytes (a ∷ rest_a) (b ∷ rest_b) = a == b && same_bytes rest_a rest_b
same_bytes _ _ = false

-- strncmp of 16 bytes, and copy_symbol into 16.
abbrev pub same_symbol : List ℕ → List ℕ → Bool
same_symbol a b = same_bytes (take 16 a) (take 16 b)

abbrev pub copy_symbol : List ℕ → List ℕ
copy_symbol s = take 15 s

pub data Sign : Type 0 where
  below flat above : Sign

abbrev pub is_flat : Sign → Bool
is_flat Sign.flat = true
is_flat _ = false

abbrev pub same_sign : Sign → Sign → Bool
same_sign Sign.below Sign.below = true
same_sign Sign.flat Sign.flat = true
same_sign Sign.above Sign.above = true
same_sign _ _ = false

module _ (D : Double) where
  open D use {Carrier, zero, le, lt, equal, add, sub, mul, div, abs, neg}

  pub record VenuePosition : Type 0 where
    pub exchange : Exchange
    pub symbol : List ℕ
    pub position : Carrier
    pub avg_entry_price : Carrier
    pub leverage : Carrier
    pub realized_pnl : Carrier
    pub pending_bid_qty : Carrier
    pub pending_ask_qty : Carrier
    pub mid_price : Carrier
    pub opened_at : ℤ
    pub has_inventory_age : Bool
    pub marked_for_reconcile : Bool
    pub active : Bool

  pub record Ledger : Type 0 where
    pub venues : List VenuePosition
    pub symbol : List ℕ

  pub record Order : Type 0 where
    pub client_order_id : ℕ
    pub symbol : List ℕ
    pub exchange : Exchange
    pub side : Side
    pub quantity : Carrier

  -- A position of a reconciliation snapshot.
  pub record Reported : Type 0 where
    pub symbol : List ℕ
    pub quantity : Carrier
    pub avg_entry_price : Carrier
    pub leverage : Carrier
    pub opened_at_ns : ℕ

  abbrev pub blank_venue : VenuePosition
  blank_venue = record {
    exchange = Exchange.binance;
    symbol = [];
    position = zero;
    avg_entry_price = zero;
    leverage = zero;
    realized_pnl = zero;
    pending_bid_qty = zero;
    pending_ask_qty = zero;
    mid_price = zero;
    opened_at = pos 0;
    has_inventory_age = false;
    marked_for_reconcile = false;
    active = false;
  }

  -- std::max(0.0, x), std::max and std::min.
  pub max_zero : Carrier → Carrier
  max_zero x = if lt zero x then x else zero

  pub min_of : Carrier → Carrier → Carrier
  min_of a b = if lt b a then b else a

  unfoldable pub position_sign : Carrier → Sign
  position_sign x =
      if lt zero x
      then (if lt x zero then Sign.flat else Sign.above)
      else if lt x zero
      then Sign.below
      else Sign.flat

  abbrev pub is_venue : Exchange → List ℕ → VenuePosition → Bool
  is_venue exchange symbol v =
      v.active && same_exchange v.exchange exchange && same_symbol v.symbol symbol

  abbrev pub is_unused : VenuePosition → Bool
  is_unused v = not v.active

  pub find_venue : Exchange → List ℕ → List VenuePosition → Option ℕ
  find_venue exchange symbol vs = find_index (is_venue exchange symbol) vs

  create_venue : Exchange → List ℕ → List VenuePosition → Option ℕ → Option (ℕ × List VenuePosition)
  create_venue exchange symbol vs none = none
  create_venue exchange symbol vs (some i) = some (
    i,
    set vs i
        (record blank_venue { exchange = exchange; active = true; symbol = copy_symbol symbol }),
  )

  choose_venue : Exchange → List ℕ → List VenuePosition → Option ℕ → Option (ℕ × List VenuePosition)
  unfolding create_venue
  choose_venue exchange symbol vs (some i) = some (i, vs)
  choose_venue exchange symbol vs none = create_venue exchange symbol vs (find_index is_unused vs)

  pub find_or_create_venue :
      Exchange → List ℕ → List VenuePosition → Option (ℕ × List VenuePosition)
  unfolding choose_venue find_venue
  find_or_create_venue exchange symbol vs =
      choose_venue exchange symbol vs (find_venue exchange symbol vs)

  -- A change of the venue that was found, if any, which then has the ledger's symbol.
  pub change_at :
      (VenuePosition → VenuePosition) → List ℕ → Ledger → Option (ℕ × List VenuePosition) → Ledger
  change_at f symbol l none = l
  change_at f symbol l (some (i, vs)) = record {
    venues = set vs i (f (get_or vs i blank_venue));
    symbol = copy_symbol symbol;
  }

  -- Where nothing is created and the ledger's symbol stays.
  change_found : (VenuePosition → VenuePosition) → Ledger → Option ℕ → Ledger
  change_found f l none = l
  change_found f l (some i) = record l {
    venues = set l.venues i (f (get_or l.venues i blank_venue));
  }

  unfoldable pub add_pending : Side → Carrier → VenuePosition → VenuePosition
  add_pending Side.bid q v = record v { pending_bid_qty = add v.pending_bid_qty q }
  add_pending Side.ask q v = record v { pending_ask_qty = add v.pending_ask_qty q }

  unfoldable pub drop_pending : Side → Carrier → VenuePosition → VenuePosition
  unfolding max_zero
  drop_pending Side.bid q v = record v { pending_bid_qty = max_zero (sub v.pending_bid_qty q) }
  drop_pending Side.ask q v = record v { pending_ask_qty = max_zero (sub v.pending_ask_qty q) }

  pub on_order_submitted : Order → Ledger → Ledger
  unfolding change_at find_or_create_venue add_pending
  on_order_submitted o l =
      change_at (add_pending o.side o.quantity) o.symbol l
        (find_or_create_venue o.exchange o.symbol l.venues)

  pub on_order_closed : Order → Carrier → Ledger → Ledger
  unfolding change_found find_venue drop_pending max_zero
  on_order_closed o remaining l =
      change_found (drop_pending o.side (max_zero remaining)) l
        (find_venue o.exchange o.symbol l.venues)

  unfoldable pub signed_qty : Side → Carrier → Carrier
  signed_qty Side.bid qty = qty
  signed_qty Side.ask qty = neg qty

  -- A fill on a flat position or in its direction.
  unfoldable pub increase : ℕ → Carrier → Carrier → VenuePosition → VenuePosition
  increase now signed price v =
      let new = add v.position signed in
      let total = add (abs v.position) (abs signed) in
      let avg =
        if lt zero total
        then div (add (mul v.avg_entry_price (abs v.position)) (mul price (abs signed))) total
        else zero in
      let opens = equal v.position zero && not (equal new zero) in
      let closes = equal new zero in
      record v {
        avg_entry_price = if closes then zero else avg;
        position = new;
        opened_at = if opens then pos now else v.opened_at;
        has_inventory_age = if closes then false else (if opens then true else v.has_inventory_age);
      }

  -- A fill against the position: what it closes is realized, and what is left over opens the other way.
  unfoldable pub reduce : ℕ → Carrier → Carrier → VenuePosition → VenuePosition
  unfolding position_sign min_of
  reduce now signed price v =
      let closing = min_of (abs v.position) (abs signed) in
      let gain =
        if lt zero v.position then sub price v.avg_entry_price else sub v.avg_entry_price price in
      let realized = add v.realized_pnl (mul gain closing) in
      let new = add v.position signed in
      let flips = not (same_sign (position_sign new) (position_sign v.position)) in
      if equal new zero
      then record v {
        realized_pnl = realized;
        position = zero;
        avg_entry_price = zero;
        has_inventory_age = false;
      }
      else record v {
        realized_pnl = realized;
        position = new;
        avg_entry_price = if flips then price else v.avg_entry_price;
        opened_at = if flips then pos now else v.opened_at;
        has_inventory_age = if flips then true else v.has_inventory_age;
      }

  unfoldable pub apply_inventory_fill : ℕ → Side → Carrier → Carrier → VenuePosition → VenuePosition
  unfolding increase reduce signed_qty
  apply_inventory_fill now side qty price v =
      let signed = signed_qty side qty in
      let prior_sign = position_sign v.position in
      if le qty zero || le price zero
      then v
      else if is_flat prior_sign || same_sign prior_sign (position_sign signed)
      then increase now signed price v
      else reduce now signed price v

  pub on_fill : ℕ → Order → Carrier → Carrier → Ledger → Ledger
  unfolding change_at find_or_create_venue drop_pending apply_inventory_fill
  on_fill now o qty price l =
      change_at (λ v. apply_inventory_fill now o.side qty price (drop_pending o.side qty v))
        o.symbol l (find_or_create_venue o.exchange o.symbol l.venues)

  pub update_mid_price : List ℕ → Exchange → Carrier → Ledger → Ledger
  unfolding change_at find_or_create_venue
  update_mid_price symbol exchange mid l =
      change_at (λ v. record v { mid_price = mid }) symbol l
        (find_or_create_venue exchange symbol l.venues)

  -- The three loops of reconcile_positions. `now_sys` is the system clock, `now` the steady one.
  unfoldable pub mark : Exchange → VenuePosition → VenuePosition
  mark exchange v =
      if v.active && same_exchange v.exchange exchange
      then record v { marked_for_reconcile = true }
      else v

  abbrev pub opened_from : ℕ → ℕ → ℕ → ℤ
  opened_from now now_sys opened_ns =
      if ltb 0 opened_ns then pos now -ℤ pos (now_sys - opened_ns) else pos now

  unfoldable pub adopt : ℕ → ℕ → Reported → VenuePosition → VenuePosition
  adopt now now_sys p v =
      let flat = equal p.quantity zero in
      record v {
        position = p.quantity;
        avg_entry_price = p.avg_entry_price;
        leverage = p.leverage;
        marked_for_reconcile = false;
        has_inventory_age = not flat;
        opened_at =
            if flat
            then pos 0
            else (if v.has_inventory_age
                then v.opened_at
                else opened_from now now_sys p.opened_at_ns);
      }

  unfoldable pub clear_missing : Exchange → VenuePosition → VenuePosition
  clear_missing exchange v =
      if v.active && same_exchange v.exchange exchange && v.marked_for_reconcile
      then record v {
        position = zero;
        avg_entry_price = zero;
        leverage = zero;
        has_inventory_age = false;
        opened_at = pos 0;
        marked_for_reconcile = false;
      }
      else v

  pub adopt_all : ℕ → ℕ → Exchange → List Reported → Ledger → Ledger
  unfolding change_at find_or_create_venue adopt
  adopt_all now now_sys exchange [] l = l
  adopt_all now now_sys exchange (p ∷ ps) l =
      adopt_all now now_sys exchange ps (
        change_at (adopt now now_sys p) p.symbol l
          (find_or_create_venue exchange p.symbol l.venues))

  pub reconcile_positions : ℕ → ℕ → Exchange → List Reported → Ledger → Ledger
  unfolding mark adopt_all clear_missing
  reconcile_positions now now_sys exchange ps l =
      let marked = record l { venues = map (mark exchange) l.venues } in
      let adopted = adopt_all now now_sys exchange ps marked in
      record adopted { venues = map (clear_missing exchange) adopted.venues }
