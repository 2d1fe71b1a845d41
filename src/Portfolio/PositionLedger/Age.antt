-- ===== src/Portfolio/PositionLedger/Age.antt =====
-- A venue's inventory has an age exactly while its position is not zero.
use trading_infrastructure_c.Common.{
  ℕ, zero, suc, ◌≡◌, refl, inl, inr, Bool, true, false, not, ◌||◌, Option, none, some, List, [],
  ◌∷◌, map, if◌then◌else◌, All, get_or, arith, Bool-cases,
}
use trading_infrastructure_c.Common.Slots.{All-set, find_index}
use trading_infrastructure_c.Common.Double.{Double}
use trading_infrastructure_c.Connectors.OrderMap.{Exchange}
use trading_infrastructure_c.Orders.ParentPlan.{Side}
use trading_infrastructure_c.Portfolio.PositionLedger.{
  VenuePosition, Ledger, Order, Reported, position_sign, is_flat, same_sign, increase, reduce,
  apply_inventory_fill, signed_qty, blank_venue, is_unused, find_venue, find_or_create_venue,
  choose_venue, create_venue, change_at, change_found, add_pending, drop_pending, max_zero,
  on_order_submitted, on_order_closed, on_fill, update_mid_price, mark, adopt, adopt_all,
  clear_missing, reconcile_positions,
}

-- What IEEE comparison promises of zero: it is equal to itself, and nothing on either side of it is
-- equal to it.
pub record ZeroApart (D : Double) : Type 0 where
  pub itself : D.equal D.zero D.zero ≡ true
  pub positive : (x : D.Carrier) → D.lt D.zero x ≡ true → D.equal x D.zero ≡ false
  pub negative : (x : D.Carrier) → D.lt x D.zero ≡ true → D.equal x D.zero ≡ false

or_false : (a b : Bool) → (a || b) ≡ false → a ≡ false
or_false a b h = ground arith

module _ (D : Double) (apart : ZeroApart D) where
  open D use {Carrier, equal, lt}

  abbrev pub HasAge : VenuePosition D → Type 0
  HasAge v = v.has_inventory_age ≡ not (equal v.position D.zero)

  increase-HasAge :
      (now : ℕ) (signed price : Carrier) (v : VenuePosition D)
      → HasAge v
      → HasAge (increase D now signed price v)
  unfolding increase
  increase-HasAge now signed price v h = ground arith

  sign_apart : (x : Carrier) → is_flat (position_sign D x) ≡ false → equal x D.zero ≡ false
  unfolding position_sign
  sign_apart x h = elim (Bool-cases (lt D.zero x)) [
    | inl up ↦ apart.positive x up
    | inr not_up ↦ elim (Bool-cases (lt x D.zero)) [
      | inl down ↦ apart.negative x down
      | inr level ↦ absurd (ground arith)
    ]
  ]

  reduce-HasAge :
      (now : ℕ) (signed price : Carrier) (v : VenuePosition D)
      → is_flat (position_sign D v.position) ≡ false
      → HasAge v
      → HasAge (reduce D now signed price v)
  unfolding reduce
  reduce-HasAge now signed price v f h = ground (arith, sign_apart v.position f, apart.itself)

  choose-HasAge :
      (c : Bool) (a b : VenuePosition D)
      → HasAge a
      → (c ≡ false → HasAge b)
      → HasAge (if c then a else b)
  choose-HasAge true a b h k = h
  choose-HasAge false a b h k = k refl

  fill-HasAge :
      (now : ℕ) (side : Side) (qty price : Carrier) (v : VenuePosition D)
      → HasAge v
      → HasAge (apply_inventory_fill D now side qty price v)
  unfolding apply_inventory_fill
  fill-HasAge now side qty price v h =
      let signed = signed_qty D side qty in
      choose-HasAge _ v _ h λ e.
        choose-HasAge
          (is_flat (position_sign D v.position)
            || same_sign (position_sign D v.position) (position_sign D signed))
          (increase D now signed price v) (reduce D now signed price v)
          (increase-HasAge now signed price v h)
          λ f.
            reduce-HasAge now signed price v
              (or_false (is_flat (position_sign D v.position))
                (same_sign (position_sign D v.position) (position_sign D signed)) f)
              h

  adopt-HasAge :
      (now now_sys : ℕ) (p : Reported D) (v : VenuePosition D) → HasAge (adopt D now now_sys p v)
  unfolding adopt
  adopt-HasAge now now_sys p v = refl

  clear-HasAge : (x : Exchange) (v : VenuePosition D) → HasAge v → HasAge (clear_missing D x v)
  unfolding clear_missing
  clear-HasAge x v h = ground (arith, apart.itself)

  mark-HasAge : (x : Exchange) (v : VenuePosition D) → HasAge v → HasAge (mark D x v)
  unfolding mark
  mark-HasAge x v h = ground arith

  drop-HasAge :
      (side : Side) (q : Carrier) (v : VenuePosition D)
      → HasAge v
      → HasAge (drop_pending D side q v)
  unfolding drop_pending
  drop-HasAge Side.bid q v h = h
  drop-HasAge Side.ask q v h = h

  add-HasAge :
      (side : Side) (q : Carrier) (v : VenuePosition D) → HasAge v → HasAge (add_pending D side q v)
  unfolding add_pending
  add-HasAge Side.bid q v h = h
  add-HasAge Side.ask q v h = h

  blank-HasAge : HasAge (blank_venue D)
  blank-HasAge = ground (arith, apart.itself)

  -- Lists of venues.
  get_or-HasAge :
      (vs : List (VenuePosition D)) (i : ℕ) → All HasAge vs → HasAge (get_or vs i (blank_venue D))
  get_or-HasAge [] i h = blank-HasAge
  get_or-HasAge (v ∷ vs) zero h = h.0
  get_or-HasAge (v ∷ vs) (suc i) h = get_or-HasAge vs i h.1

  map-HasAge :
      (f : VenuePosition D → VenuePosition D) (vs : List (VenuePosition D))
      → ((v : VenuePosition D) → HasAge v → HasAge (f v))
      → All HasAge vs
      → All HasAge (map f vs)
  map-HasAge f [] k h = tt
  map-HasAge f (v ∷ vs) k h = (k v h.0, map-HasAge f vs k h.1)

  abbrev Kept : Option (ℕ × List (VenuePosition D)) → Type 0
  Kept none = Unit
  Kept (some (i, vs)) = All HasAge vs

  change_at-HasAge :
      (f : VenuePosition D → VenuePosition D) (symbol : List ℕ) (l : Ledger D)
      (found : Option (ℕ × List (VenuePosition D)))
      → ((v : VenuePosition D) → HasAge v → HasAge (f v))
      → All HasAge l.venues
      → Kept found
      → All HasAge (change_at D f symbol l found).venues
  unfolding change_at
  change_at-HasAge f symbol l none k h c = h
  change_at-HasAge f symbol l (some (i, vs)) k h c =
      All-set HasAge vs i _ (k _ (get_or-HasAge vs i c)) c

  change_found-HasAge :
      (f : VenuePosition D → VenuePosition D) (l : Ledger D) (found : Option ℕ)
      → ((v : VenuePosition D) → HasAge v → HasAge (f v))
      → All HasAge l.venues
      → All HasAge (change_found D f l found).venues
  unfolding change_found
  change_found-HasAge f l none k h = h
  change_found-HasAge f l (some i) k h =
      All-set HasAge l.venues i _ (k _ (get_or-HasAge l.venues i h)) h

  create-Kept :
      (x : Exchange) (symbol : List ℕ) (vs : List (VenuePosition D)) (o : Option ℕ)
      → All HasAge vs
      → Kept (create_venue D x symbol vs o)
  unfolding create_venue
  create-Kept x symbol vs none h = tt
  create-Kept x symbol vs (some i) h = All-set HasAge vs i _ blank-HasAge h

  choose-Kept :
      (x : Exchange) (symbol : List ℕ) (vs : List (VenuePosition D)) (o : Option ℕ)
      → All HasAge vs
      → Kept (choose_venue D x symbol vs o)
  unfolding choose_venue
  choose-Kept x symbol vs (some i) h = h
  choose-Kept x symbol vs none h = create-Kept x symbol vs (find_index (is_unused D) vs) h

  venue-Kept :
      (x : Exchange) (symbol : List ℕ) (vs : List (VenuePosition D))
      → All HasAge vs
      → Kept (find_or_create_venue D x symbol vs)
  unfolding find_or_create_venue
  venue-Kept x symbol vs h = choose-Kept x symbol vs (find_venue D x symbol vs) h

  adopt_all-HasAge :
      (now now_sys : ℕ) (x : Exchange) (ps : List (Reported D)) (l : Ledger D)
      → All HasAge l.venues
      → All HasAge (adopt_all D now now_sys x ps l).venues
  unfolding adopt_all
  adopt_all-HasAge now now_sys x [] l h = h
  adopt_all-HasAge now now_sys x (p ∷ ps) l h = adopt_all-HasAge now now_sys x ps _ (
      change_at-HasAge (adopt D now now_sys p) p.symbol l _ (λ v k. adopt-HasAge now now_sys p v) h
        (venue-Kept x p.symbol l.venues h))

  pub data Call : Type 0 where
    submitted : Order D → Call
    closed : Order D → Carrier → Call
    filled : ℕ → Order D → Carrier → Carrier → Call
    quoted : List ℕ → Exchange → Carrier → Call
    reconciled : ℕ → ℕ → Exchange → List (Reported D) → Call

  unfoldable pub step : Ledger D → Call → Ledger D
  step l (submitted o) = on_order_submitted D o l
  step l (closed o q) = on_order_closed D o q l
  step l (filled now o q price) = on_fill D now o q price l
  step l (quoted symbol x mid) = update_mid_price D symbol x mid l
  step l (reconciled now now_sys x ps) = reconcile_positions D now now_sys x ps l

  unfoldable pub run : Ledger D → List Call → Ledger D
  run l [] = l
  run l (c ∷ cs) = run (step l c) cs

  step-HasAge : (l : Ledger D) (c : Call) → All HasAge l.venues → All HasAge (step l c).venues
  unfolding step on_order_submitted on_order_closed on_fill update_mid_price reconcile_positions
  step-HasAge l (submitted o) h =
      change_at-HasAge (add_pending D o.side o.quantity) o.symbol l _ (add-HasAge o.side o.quantity)
        h (venue-Kept o.exchange o.symbol l.venues h)
  step-HasAge l (closed o q) h =
      change_found-HasAge (drop_pending D o.side (max_zero D q)) l
        (find_venue D o.exchange o.symbol l.venues) (drop-HasAge o.side (max_zero D q)) h
  step-HasAge l (filled now o q price) h =
      change_at-HasAge (λ v. apply_inventory_fill D now o.side q price (drop_pending D o.side q v))
        o.symbol l (find_or_create_venue D o.exchange o.symbol l.venues)
        (λ v k.
          fill-HasAge now o.side q price (drop_pending D o.side q v) (drop-HasAge o.side q v k))
        h (venue-Kept o.exchange o.symbol l.venues h)
  step-HasAge l (quoted symbol x mid) h =
      change_at-HasAge (λ v. record v { mid_price = mid }) symbol l
        (find_or_create_venue D x symbol l.venues) (λ v k. k) h (venue-Kept x symbol l.venues h)
  step-HasAge l (reconciled now now_sys x ps) h =
      let marked = record l { venues = map (mark D x) l.venues } in
      map-HasAge (clear_missing D x) (adopt_all D now now_sys x ps marked).venues (clear-HasAge x) (
        adopt_all-HasAge now now_sys x ps marked (map-HasAge (mark D x) l.venues (mark-HasAge x) h))

  -- Where zero is apart from the positive and the negative numbers, over any history of orders,
  -- fills, quotes and reconciliations each venue's inventory has an age exactly while its position is
  -- not zero, if that is so at the start.
  pub run-HasAge :
      (l : Ledger D) (cs : List Call) → All HasAge l.venues → All HasAge (run l cs).venues
  unfolding run
  run-HasAge l [] h = h
  run-HasAge l (c ∷ cs) h = run-HasAge (step l c) cs (step-HasAge l c h)
