-- ===== src/Routing/ChildScheduler/Schedule.antt =====
-- What `schedule` returns, in terms of the venues it looks at, and the limit price of its children.
use mathlib.Core.Path.{subst}
use trading_infrastructure_c.Common.{
  ℕ, zero, suc, ◌+◌, ◌≤◌, ◌<◌, ◌≡◌, refl, sym, ◌∙◌, inl, inr, ◌⊎◌, true, false, ◌&&◌, none, List,
  [], ◌∷◌, ◌++◌, append-nil, length, length-set, take, get_or, ltb, if◌then◌else◌, arith,
  Bool-cases, Option-cases, ltb→lt, both,
}
use trading_infrastructure_c.Common.Float.{Float}
use trading_infrastructure_c.Orders.ParentPlan.{Side}
use trading_infrastructure_c.Routing.Router.{VenueQuote, ChildOrder, no_venue}
use trading_infrastructure_c.Routing.Router.Search.{best_index}
use trading_infrastructure_c.Routing.Router.Best.{Eligible, IsFound, best_index-IsFound}
use trading_infrastructure_c.Routing.Router.Split.{
  unused, unused-set, take-set-append, marked, Taken,
}
use trading_infrastructure_c.Routing.ChildScheduler.{
  ChildExecutionStyle, is_sweep, max_venue_count, Config, qty_epsilon,
}
use trading_infrastructure_c.Routing.ChildScheduler.Loop.{
  Scheduling, child_for, clip, place_child, skip, goes_on, schedule_loop,
}

module _ (F : Float) (cfg : Config F) (side : Side) (style : ChildExecutionStyle)
    (venues : List (VenueQuote F)) where
  open F use {literal}
  open F.double use {Carrier, lt, le, sub}

  abbrev venue : ℕ → VenueQuote F
  venue i = get_or venues i (no_venue F)

  -- The children for the venues looked at: none for one that would take at most 1e-9.
  abbrev pub placed : Carrier → List ℕ → List (ChildOrder F)
  placed remaining [] = []
  placed remaining (i ∷ is) =
      let without = placed remaining is in
      let after = placed (sub remaining (clip F remaining (venue i))) is in
      if le (clip F remaining (venue i)) (qty_epsilon F)
      then without
      else child_for F cfg side style remaining (venue i) ∷ after

  abbrev pub left : Carrier → List ℕ → Carrier
  left remaining [] = remaining
  left remaining (i ∷ is) =
      let without = left remaining is in
      let after = left (sub remaining (clip F remaining (venue i))) is in
      if le (clip F remaining (venue i)) (qty_epsilon F) then without else after

  module _ (shortfall : VenueQuote F → Carrier) where
    abbrev pub Stops : Scheduling F → Type 0
    Stops s =
        (lt (qty_epsilon F) s.remaining ≡ false)
        ⊎ (max_venue_count style ≤ s.routing.child_count)
        ⊎ (best_index F shortfall s.used venues ≡ none)

    -- From the state `r` the loop looks at the venues `is` and ends in `s`.
    pub record Scheduled (r s : Scheduling F) (is : List ℕ) : Type 0 where
      pub taken : Taken F venues r.used is
      pub count : s.routing.child_count ≡ r.routing.child_count + length (placed r.remaining is)
      pub children :
          take s.routing.child_count s.routing.children
          ≡ take r.routing.child_count r.routing.children ++ placed r.remaining is
      pub remaining : s.remaining ≡ left r.remaining is
      pub used : s.used ≡ marked r.used is
      pub limit :
          r.routing.child_count ≤ max_venue_count style
          → s.routing.child_count ≤ max_venue_count style
      pub ends : Stops s

    Scheduled-nil : (r : Scheduling F) → Stops r → Scheduled r r []
    Scheduled-nil r e = record {
      taken = tt;
      count = omega arith;
      children = sym (append-nil _);
      remaining = refl;
      used = refl;
      limit = λ h. h;
      ends = e;
    }

    Scheduled-skip :
        (r s : Scheduling F) (i : ℕ) (is : List ℕ)
        → le (clip F r.remaining (venue i)) (qty_epsilon F) ≡ true
        → Eligible F r.used venues i
        → Scheduled (skip F i r) s is
        → Scheduled r s (i ∷ is)
    Scheduled-skip r s i is c e t = record {
      taken = (e, t.taken);
      count = rw c t.count;
      children = rw c t.children;
      remaining = rw c t.remaining;
      used = t.used;
      limit = t.limit;
      ends = t.ends;
    }

    Scheduled-place :
        (r s : Scheduling F) (i : ℕ) (is : List ℕ)
        → le (clip F r.remaining (venue i)) (qty_epsilon F) ≡ false
        → Eligible F r.used venues i
        → goes_on F style r ≡ true
        → Scheduled
            (place_child F shortfall
              (child_for F cfg side style r.remaining (venue i))
              (venue i)
              i
              r)
            s
            is
        → Scheduled r s (i ∷ is)
    unfolding place_child
    Scheduled-place r s i is c e g t =
        let (room, limit) = both (lt (qty_epsilon F) r.remaining && _) _ g in
        let (more, cells) = both (lt (qty_epsilon F) r.remaining) _ room in
        record {
          taken = (e, t.taken);
          count = rw c (omega (arith, t.count));
          children = rw c (take-set-append _ _ _ _ _ (ltb→lt _ _ cells) t.children);
          remaining = rw c t.remaining;
          used = t.used;
          limit = λ h.
              t.limit (omega (arith, ltb→lt r.routing.child_count (max_venue_count style) limit));
          ends = t.ends;
        }

    stopped :
        (r : Scheduling F) → length r.routing.children ≡ 8 → goes_on F style r ≡ false → Stops r
    stopped r c g = elim (Bool-cases (lt (qty_epsilon F) r.remaining)) [
      | inr e ↦ inl e
      | inl e ↦ inr (inl (few style (rw e at g)))
    ]
      where
        few :
            (style : ChildExecutionStyle)
            → ((true && ltb r.routing.child_count (length r.routing.children))
                && ltb r.routing.child_count (max_venue_count style))
              ≡ false
            → max_venue_count style ≤ r.routing.child_count
        few ChildExecutionStyle.sweep g = ground (arith, c, g)
        few _ g = ground (arith, c, g)

    one_placed : is_sweep style ≡ false → (n : ℕ) → max_venue_count style ≤ n + 1
    one_placed e n = rw e (omega arith)

    no_venue_left : (r : Scheduling F) → best_index F shortfall r.used venues ≡ none → Stops r
    no_venue_left r n = inr (inr n)

    enough : (r : Scheduling F) → max_venue_count style ≤ r.routing.child_count → Stops r
    enough r h = inr (inl h)

    pub schedule_loop-Scheduled :
        (fuel : ℕ) (r : Scheduling F)
        → length r.routing.children ≡ 8
        → unused r.used < fuel
        → (is : List ℕ) × Scheduled r (schedule_loop F cfg side style venues shortfall fuel r) is
    unfolding schedule_loop place_child
    schedule_loop-Scheduled zero r c h = absurd (omega arith)
    schedule_loop-Scheduled (suc fuel) r c h = elim (Bool-cases (goes_on F style r)) [
      | inr g ↦ rw g ([], Scheduled-nil r (stopped r c g))
      | inl g ↦ elim (Option-cases (best_index F shortfall r.used venues)) [
        | inl n ↦ rw (g, n) ([], Scheduled-nil r (no_venue_left r n))
        | inr (i, n) ↦
            let el =
              subst (IsFound F r.used venues) n (best_index-IsFound F shortfall r.used venues) in
            let fewer = unused-set r.used i el.0 in
            elim (Bool-cases (le (clip F r.remaining (venue i)) (qty_epsilon F))) [
              | inl skipped ↦
                  let (is, t) = schedule_loop-Scheduled fuel (skip F i r) c (omega arith) in
                  rw (g, n, skipped) (i ∷ is, Scheduled-skip r _ i is skipped el t)
              | inr takes ↦ elim (Bool-cases (is_sweep style)) [
                | inl sweeps ↦
                    let next =
                      place_child F shortfall (child_for F cfg side style r.remaining (venue i))
                        (venue i) i r in
                    let (is, t) =
                      schedule_loop-Scheduled fuel next (length-set _ _ _ ∙ c) (omega arith) in
                    rw (g, n, takes, sweeps) (i ∷ is, Scheduled-place r _ i is takes el g t)
                | inr one ↦
                    let next =
                      place_child F shortfall (child_for F cfg side style r.remaining (venue i))
                        (venue i) i r in
                    rw (g, n, takes, one)
                      (
                        i ∷ [],
                        Scheduled-place r next i [] takes el g
                            (Scheduled-nil next (enough next (one_placed one _))),
                      )
              ]
            ]
      ]
    ]
