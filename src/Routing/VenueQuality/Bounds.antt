-- ===== src/Routing/VenueQuality/Bounds.antt =====
-- The ranges that the estimates of a venue never leave, and the quotes that take them.
use trading_infrastructure_c.Common.{
  both_ways, ℕ, zero, suc, ◌≡◌, true, false, List, [], ◌∷◌, get_or, All, pick,
}
use trading_infrastructure_c.Common.Slots.{All-set}
use trading_infrastructure_c.Common.Float.{Float}
use trading_infrastructure_c.Connectors.OrderMap.{Exchange}
use trading_infrastructure_c.Routing.Router.{VenueQuote}
use trading_infrastructure_c.Routing.VenueQuality.{
  Config, VenueState, Observation, half, one, init, blank_state, state_for, index_for, clamp,
  update_clamped, refresh_snapshot, estimate, observe, apply, is_unknown,
}

module _ (F : Float) where
  open F use {literal}
  open F.double use {Carrier, zero as nought, lt, neg}

  -- Neither below `lo` nor above `hi`; a NaN is neither.
  abbrev pub IsWithin : Carrier → Carrier → Carrier → Type 0
  IsWithin lo hi x = (lt x lo ≡ false) × (lt hi x ≡ false)

  -- What is assumed of the order of numbers, and of the limits of the configuration.
  pub record Ranges (cfg : Config F) : Type 0 where
    pub irrefl : (a : Carrier) → lt a a ≡ false
    pub limits : lt cfg.max_fill_probability cfg.min_fill_probability ≡ false
    pub start : IsWithin cfg.min_fill_probability cfg.max_fill_probability (half F)
    pub tens : IsWithin (neg (literal 10 0)) (literal 10 0) nought
    pub ten : lt (literal 10 0) (neg (literal 10 0)) ≡ false
    pub five : lt (literal 5 0) nought ≡ false
    pub unit : lt (one F) nought ≡ false

  module _ (cfg : Config F) (h : Ranges cfg) where
    clamp-IsWithin : (v lo hi : Carrier) → lt hi lo ≡ false → IsWithin lo hi (clamp F v lo hi)
    clamp-IsWithin v lo hi o =
        pick (IsWithin lo hi) (lt v lo) _ _ (λ _. (h.irrefl lo, o))
          (λ a. pick (IsWithin lo hi) (lt hi v) _ _ (λ _. (o, h.irrefl hi)) (λ b. (a, b)))

    -- The estimates of a venue, and the fill probability of its snapshot.
    abbrev pub IsBounded : VenueState F → Type 0
    IsBounded s =
        IsWithin cfg.min_fill_probability cfg.max_fill_probability s.fill_probability
        × IsWithin (neg (literal 10 0)) (literal 10 0) s.passive_markout_bps
        × IsWithin (neg (literal 10 0)) (literal 10 0) s.taker_markout_bps
        × IsWithin nought (one F) s.reject_rate
        × IsWithin nought (literal 5 0) s.cancel_latency_penalty_bps
        × IsWithin nought (one F) s.health_penalty_bps

    abbrev pub IsOffered : VenueState F → Type 0
    IsOffered s =
        IsWithin cfg.min_fill_probability cfg.max_fill_probability
          s.snapshot.composite_fill_probability
        × IsWithin (neg (literal 10 0)) (literal 10 0) s.snapshot.passive_markout_bps
        × IsWithin (neg (literal 10 0)) (literal 10 0) s.snapshot.taker_markout_bps
        × IsWithin nought (one F) s.snapshot.reject_rate

    abbrev pub IsSound : VenueState F → Type 0
    IsSound s = IsBounded s × IsOffered s

    blank_state-IsSound : IsSound (blank_state F)
    blank_state-IsSound =
        let zero_to_one : IsWithin nought (one F) nought = (h.irrefl nought, h.unit) in
        (
          (h.start, h.tens, h.tens, zero_to_one, (h.irrefl nought, h.five), zero_to_one),
          (h.start, h.tens, h.tens, zero_to_one),
        )

    estimate-IsBounded :
        (o : Observation F) (s : VenueState F) → IsBounded s → IsBounded (estimate F cfg o s)
    unfolding estimate update_clamped
    estimate-IsBounded (Observation.fill_probability q) s (f, p, t, r, c, g) =
        (clamp-IsWithin _ _ _ h.limits, p, t, r, c, g)
    estimate-IsBounded (Observation.markout true m) s (f, p, t, r, c, g) =
        (f, clamp-IsWithin _ _ _ h.ten, t, r, c, g)
    estimate-IsBounded (Observation.markout false m) s (f, p, t, r, c, g) =
        (f, p, clamp-IsWithin _ _ _ h.ten, r, c, g)
    estimate-IsBounded (Observation.reject z) s (f, p, t, r, c, g) =
        (f, p, t, clamp-IsWithin _ _ _ h.unit, c, g)
    estimate-IsBounded (Observation.cancel_latency us) s (f, p, t, r, c, g) =
        (f, p, t, r, clamp-IsWithin _ _ _ h.five, g)
    estimate-IsBounded (Observation.health z) s (f, p, t, r, c, g) =
        (f, p, t, r, c, clamp-IsWithin _ _ _ h.unit)

    refresh_snapshot-IsSound :
        (e : Exchange) (s : VenueState F) → IsBounded s → IsSound (refresh_snapshot F cfg e s)
    unfolding refresh_snapshot
    refresh_snapshot-IsSound e s (f, p, t, r, c, g) =
        ((f, p, t, r, c, g), (clamp-IsWithin _ _ _ h.limits, p, t, r))

    abbrev pub AllSound : List (VenueState F) → Type 0
    AllSound states = All IsSound states

    state_for-IsSound :
        (i : ℕ) (states : List (VenueState F))
        → AllSound states
        → IsSound (get_or states i (blank_state F))
    state_for-IsSound i [] a = blank_state-IsSound
    state_for-IsSound zero (s ∷ states) a = a.0
    state_for-IsSound (suc i) (s ∷ states) a = state_for-IsSound i states a.1

    observe-AllSound :
        (e : Exchange) (o : Observation F) (states : List (VenueState F))
        → AllSound states
        → AllSound (observe F cfg e o states)
    unfolding observe
    observe-AllSound e o states a =
        let b = estimate-IsBounded o (state_for F e states) (state_for-IsSound _ states a).0 in
        All-set IsSound states (index_for e) _
          (refresh_snapshot-IsSound e (estimate F cfg o (state_for F e states)) b) a

    pub run : List (Exchange × Observation F) → List (VenueState F) → List (VenueState F)
    run [] states = states
    run ((e, o) ∷ os) states = run os (observe F cfg e o states)

    run-AllSound :
        (os : List (Exchange × Observation F)) (states : List (VenueState F))
        → AllSound states
        → AllSound (run os states)
    unfolding run
    run-AllSound [] states a = a
    run-AllSound ((e, o) ∷ os) states a =
        run-AllSound os (observe F cfg e o states) (observe-AllSound e o states a)

    -- What a quote gets from the estimates.
    abbrev pub IsQuoted : VenueQuote F → Type 0
    IsQuoted v =
        IsWithin cfg.min_fill_probability cfg.max_fill_probability v.adaptive_fill_probability
        × IsWithin (neg (literal 10 0)) (literal 10 0) v.passive_markout_bps
        × IsWithin (neg (literal 10 0)) (literal 10 0) v.taker_markout_bps
        × IsWithin nought (one F) v.reject_rate

    -- Let no number be below itself, and the limits and starting values be in order. After every history of
    -- observations of any venues, whatever numbers they bring, a quote of a known exchange that the
    -- model is applied to has a fill probability within the configured limits, markouts within ten
    -- basis points on either side and a reject rate within 0 and 1.
    pub apply-IsQuoted :
        (os : List (Exchange × Observation F)) (v : VenueQuote F)
        → is_unknown v.exchange ≡ false
        → IsQuoted (apply F (run os (init F)) v)
    unfolding apply
    apply-IsQuoted os v k =
        let b = blank_state-IsSound in
        let all : AllSound (init F) = (b, (b, (b, (b, tt)))) in
        pick IsQuoted (is_unknown v.exchange) _ _ (λ e. absurd (both_ways e k))
          (λ _.
            (state_for-IsSound (index_for v.exchange) (run os (init F))
              (run-AllSound os (init F) all)).1)
