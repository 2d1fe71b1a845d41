-- ===== src/Routing/Router/Route.antt =====
-- What `route` returns, in terms of the split of the quantity over the venues.
use mathlib.Core.Path.{subst}
use trading_infrastructure_c.Common.{
  ℕ, zero, suc, ◌+◌, ◌≤◌, ◌<◌, ◌≡◌, refl, sym, ap, ◌∙◌, inl, inr, ◌⊎◌, Bool, true, false, Option,
  none, List, [], ◌∷◌, ◌++◌, append-nil, length, length-set, take, replicate, get_or, ltb, arith,
  pick, Bool-cases, Option-cases, ltb→lt,
}
use trading_infrastructure_c.Common.Float.{Float}
use trading_infrastructure_c.Orders.ParentPlan.{Side}
use trading_infrastructure_c.Routing.Router.{
  VenueQuote, RoutingRegime, RoutingDecision, SmartOrderRouterConfig, no_venue, infer_regime,
  missing_best_price, max_venues,
}
use trading_infrastructure_c.Routing.Router.Search.{find_best_venue_index, find_best_price}
use trading_infrastructure_c.Routing.Router.Placing.{Routing, append_child_order, route_loop, route}
use trading_infrastructure_c.Routing.Router.Best.{Eligible, IsFound, best_index-IsFound}
use trading_infrastructure_c.Routing.Router.Split.{
  unused, Taken, Taken-Fresh, unused-set, Fresh-length, take-set-append, split, rest, marked,
}

module _ (F : Float) (side : Side) (venues : List (VenueQuote F)) where
  open F use {literal}
  open F.double use {Carrier, lt, le}

  module _ (find : List Bool → Option ℕ)
      (sound : (u : List Bool) → IsFound F u venues (find u)) where
    -- From the state `r` the loop takes the venues `is` and ends in `s`.
    pub record Routed (r s : Routing F) (is : List ℕ) : Type 0 where
      pub taken : Taken F venues r.used is
      pub count : s.out.child_count ≡ r.out.child_count + length is
      pub children :
          take s.out.child_count s.out.children
          ≡ take r.out.child_count r.out.children ++ split F side venues r.remaining is
      pub remaining : s.remaining ≡ rest F venues r.remaining is
      pub cells : length s.out.children ≡ length r.out.children
      pub used : s.used ≡ marked r.used is
      pub ends :
          (lt (literal 1 12) s.remaining ≡ false)
          ⊎ (length s.out.children ≤ s.out.child_count)
          ⊎ (find s.used ≡ none)

    Stops : Routing F → Type 0
    Stops s =
        (lt (literal 1 12) s.remaining ≡ false)
        ⊎ (length s.out.children ≤ s.out.child_count)
        ⊎ (find s.used ≡ none)

    Routed-nil : (r : Routing F) → Stops r → Routed r r []
    unfolding Stops
    Routed-nil r e = record {
      taken = tt;
      count = omega arith;
      children = sym (append-nil _);
      remaining = refl;
      cells = refl;
      used = refl;
      ends = e;
    }

    Routed-cons :
        (r s : Routing F) (i : ℕ) (is : List ℕ)
        → Eligible F r.used venues i
        → r.out.child_count < length r.out.children
        → Routed (append_child_order F side (get_or venues i (no_venue F)) i r) s is
        → Routed r s (i ∷ is)
    unfolding append_child_order
    Routed-cons r s i is e l t = record {
      taken = (e, t.taken);
      count = omega (arith, t.count);
      children = take-set-append _ _ _ _ _ l t.children;
      remaining = t.remaining;
      cells = t.cells ∙ length-set _ _ _;
      used = t.used;
      ends = t.ends;
    }

    route_loop-Routed :
        (fuel : ℕ) (r : Routing F)
        → unused r.used < fuel
        → (is : List ℕ) × Routed r (route_loop F find side venues fuel r) is
    unfolding route_loop Stops
    route_loop-Routed zero r h = absurd (omega arith)
    route_loop-Routed (suc fuel) r h = elim (Bool-cases (lt (literal 1 12) r.remaining)) [
      | inr e ↦ rw e ([], Routed-nil r (inl e))
      | inl e ↦ elim (Bool-cases (ltb r.out.child_count (length r.out.children))) [
        | inr f ↦ rw (e, f) ([], Routed-nil r (inr (inl (ground arith))))
        | inl f ↦ elim (Option-cases (find r.used)) [
          | inl n ↦ rw (e, f, n) ([], Routed-nil r (inr (inr n)))
          | inr (i, n) ↦
              let el : Eligible F r.used venues i =
                subst (IsFound F r.used venues) n (sound r.used) in
              let (is, t) =
                route_loop-Routed fuel
                  (append_child_order F side (get_or venues i (no_venue F)) i r)
                  (omega (arith, unused-set r.used i el.0)) in
              rw (e, f, n) (i ∷ is, Routed-cons r _ i is el (ltb→lt _ _ f) t)
        ]
      ]
    ]

  -- The decision `out` splits `quantity` over the venues `is`.
  pub record IsRouting (out : RoutingDecision F) (regime : RoutingRegime F)
      (min_fill quantity : Carrier) (is : List ℕ) : Type 0 where
    pub taken : Taken F venues (replicate max_venues false) is
    pub at_most : length is ≤ max_venues
    pub count : out.child_count ≡ length is
    pub children : take out.child_count out.children ≡ split F side venues quantity is
    pub ends :
        (le (missing_best_price F) (find_best_price F side venues) ≡ true)
        ⊎ (lt (literal 1 12) (rest F venues quantity is) ≡ false)
        ⊎ (find_best_venue_index F venues
              (marked (replicate max_venues false) is)
              side
              regime
              (find_best_price F side venues)
              min_fill
            ≡ none)

  -- Let the count of the new decision be 0 and its cells eight. Then `route` splits the quantity over at
  -- most four venues, none of them twice, each healthy and with depth: there is one child for each, IOC
  -- at the venue's price, over the venue's depth or what the children before it left, whichever is
  -- less. It stops only where no venue has a price, at most 1e-12 is left, or no further venue is found.
  pub route-IsRouting :
      (memory : RoutingRegime F) (fresh : RoutingDecision F) (quantity : Carrier)
      (cfg : SmartOrderRouterConfig F)
      → fresh.child_count ≡ 0
      → length fresh.children ≡ 8
      → (is : List ℕ) × IsRouting
          (route F memory fresh side quantity venues cfg)
          (infer_regime F memory venues cfg)
          cfg.min_fill_probability
          quantity
          is
  unfolding route find_best_venue_index
  route-IsRouting memory fresh quantity cfg z c =
      pick Good (le (missing_best_price F) (find_best_price F side venues)) _ _
        (λ e. (
          [],
          record {
            taken = tt;
            at_most = omega arith;
            count = z;
            children = ap (λ (k : ℕ). take k fresh.children) z;
            ends = inl e;
          },
        ))
        (λ e.
          let (is, t) =
            route_loop-Routed find sound 5
              (record { out = fresh; remaining = quantity; used = replicate max_venues false })
              (omega arith) in
          let few =
            Fresh-length (replicate max_venues false) is (Taken-Fresh F venues _ is t.taken) in
          (
            is,
            record {
              taken = t.taken;
              at_most = few;
              count = omega (arith, t.count);
              children =
                  t.children
                  ∙ ap (λ (k : ℕ). take k fresh.children ++ split F side venues quantity is) z;
              ends = elim t.ends [
                | inl a ↦ inr (inl (subst (λ x. lt (literal 1 12) x ≡ false) t.remaining a))
                | inr (inl full) ↦ absurd (omega (arith, t.count, t.cells, few))
                | inr (inr n) ↦ inr (inr (subst (λ u. find u ≡ none) t.used n))
              ];
            },
          ))
    where
      Good : RoutingDecision F → Type 0
      Good out =
          (is : List ℕ) × IsRouting out (infer_regime F memory venues cfg) cfg.min_fill_probability
            quantity is

      find : List Bool → Option ℕ
      find used =
          find_best_venue_index F venues used side (infer_regime F memory venues cfg)
            (find_best_price F side venues) cfg.min_fill_probability

      sound : (u : List Bool) → IsFound F u venues (find u)
      sound u = best_index-IsFound F _ u venues

  -- If the count of the new decision, which the source does not set, is 8 or more, then `route` returns
  -- that count and writes no child.
  pub route_stale_count :
      (memory : RoutingRegime F) (fresh : RoutingDecision F) (quantity : Carrier)
      (cfg : SmartOrderRouterConfig F)
      → 8 ≤ fresh.child_count
      → length fresh.children ≡ 8
      → route F memory fresh side quantity venues cfg ≡ fresh
  unfolding route route_loop
  route_stale_count memory fresh quantity cfg h c =
      let full : ltb fresh.child_count (length fresh.children) ≡ false = ground arith in
      elim (Bool-cases (le (missing_best_price F) (find_best_price F side venues))) [
        | inl e ↦ rw e
        | inr e ↦ elim (Bool-cases (lt (literal 1 12) quantity)) [
          | inl l ↦ rw (e, l, full)
          | inr l ↦ rw (e, l)
        ]
      ]
