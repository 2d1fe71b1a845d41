-- ===== src/Routing/Router/Best.antt =====
-- What the search for the best venue returns: a venue that may be used, with the least score of those.
use mathlib.Core.Path.{subst}
use trading_infrastructure_c.Common.{
  ℕ, suc, ◌+◌, ◌<◌, ◌≡◌, refl, sym, ap, ◌∙◌, inl, inr, Bool, true, false, not, ◌||◌, Option, none,
  some, List, [], ◌∷◌, length, get_or, arith, pick, Bool-cases, ◌==◌, neither, of_negated,
}
use trading_infrastructure_c.Common.Float.{Float}
use trading_infrastructure_c.Routing.Router.{VenueQuote, no_venue, is_tradeable, infinite_price}
use trading_infrastructure_c.Routing.Router.Search.{consider, best_index_from, best_index}

barred : (a b : Bool) → (a || not b) ≡ true → (a ≡ false) × (b ≡ true) → ⊥
barred true b h (p, q) = cc
barred false true h (p, q) = cc
barred false false h (p, q) = cc

module _ (F : Float) where
  open F.double use {Carrier, lt}

  -- The venues whose index is marked are left out, and so are those that cannot be traded.
  abbrev pub Eligible : List Bool → List (VenueQuote F) → ℕ → Type 0
  Eligible used venues i =
      (get_or used i true ≡ false) × (is_tradeable F (get_or venues i (no_venue F)) ≡ true)

  abbrev pub IsFound : List Bool → List (VenueQuote F) → Option ℕ → Type 0
  IsFound used venues none = Unit
  IsFound used venues (some i) = Eligible used venues i

  module _ (score : VenueQuote F → Carrier) (used : List Bool) (venues : List (VenueQuote F)) where
    abbrev pub venue : ℕ → VenueQuote F
    venue k = get_or venues k (no_venue F)

    abbrev pub score_at : Option ℕ → Carrier
    score_at none = infinite_price F
    score_at (some i) = score (venue i)

    -- Of the first `bound` venues, none that may be used has a score below that of the best.
    pub record IsBest (bound : ℕ) (acc : Option ℕ × Carrier) : Type 0 where
      pub found : IsFound used venues acc.0
      pub scored : acc.1 ≡ score_at acc.0
      pub least : (k : ℕ) → k < bound → Eligible used venues k → lt (score (venue k)) acc.1 ≡ false

    pub record IsChosen (o : Option ℕ) : Type 0 where
      pub found : IsFound used venues o
      pub least :
          (k : ℕ)
          → k < length venues
          → Eligible used venues k
          → lt (score (venue k)) (score_at o) ≡ false

    -- What each venue looked at preserves holds of the result of the search.
    best_index_from_keeps :
        (P : ℕ → Option ℕ × Carrier → Type 0)
        → ((i : ℕ) (acc : Option ℕ × Carrier)
            → P i acc
            → P (suc i) (consider F score used i (venue i) acc))
        → (i : ℕ) (vs : List (VenueQuote F)) (acc : Option ℕ × Carrier)
        → ((j : ℕ) → venue (i + j) ≡ get_or vs j (no_venue F))
        → P i acc
        → P (i + length vs) (best_index_from F score used i vs acc)
    unfolding best_index_from
    best_index_from_keeps P step i [] acc h b = let z : i + 0 ≡ i = omega arith in rw z b
    best_index_from_keeps P step i (v ∷ vs) acc h b =
        let here : venue i ≡ v = ap venue (omega arith) ∙ h 0 in
        let next = subst (λ w. P (suc i) (consider F score used i w acc)) here (step i acc b) in
        let len : i + suc (length vs) ≡ suc i + length vs = omega arith in
        rw len (
          best_index_from_keeps P step (suc i) vs (consider F score used i v acc)
            (λ j. ap venue (omega arith) ∙ h (suc j)) next)

    consider-IsFound :
        (i : ℕ) (acc : Option ℕ × Carrier)
        → IsFound used venues acc.0
        → IsFound used venues (consider F score used i (venue i) acc).0
    consider-IsFound i (o, s) h =
        pick (λ (acc : Option ℕ × Carrier). IsFound used venues acc.0)
          (get_or used i true || not (is_tradeable F (venue i))) _ _ (λ e. h)
          (λ e.
            let el = neither (get_or used i true) _ e in
            pick (λ (acc : Option ℕ × Carrier). IsFound used venues acc.0) (lt (score (venue i)) s)
              _ _ (λ l. (el.0, of_negated _ el.1)) (λ n. h))

    pub best_index-IsFound : IsFound used venues (best_index F score used venues)
    unfolding best_index
    best_index-IsFound =
        best_index_from_keeps (λ i acc. IsFound used venues acc.0) consider-IsFound 0 venues
          (none, infinite_price F) (λ j. ap venue (omega arith)) tt

    module _ (lt_irrefl : (a : Carrier) → lt a a ≡ false)
        (lt_trans : (a b c : Carrier) → lt a b ≡ true → lt b c ≡ true → lt a c ≡ true) where
      below : (a b c : Carrier) → lt a b ≡ true → lt c b ≡ false → lt c a ≡ false
      below a b c h n = elim (Bool-cases (lt c a)) [
        | inl e ↦ let t = lt_trans c a b e h in cc
        | inr e ↦ e
      ]

      -- The venue looked at is left out: it may not be used, or its score is not below the best.
      IsBest-keep :
          (i : ℕ) (acc : Option ℕ × Carrier)
          → (Eligible used venues i → lt (score (venue i)) acc.1 ≡ false)
          → IsBest i acc
          → IsBest (suc i) acc
      IsBest-keep i acc h b = record {
        found = b.found;
        scored = b.scored;
        least = λ k l e. elim (Bool-cases (k == i)) [
          | inl s ↦ let same : k ≡ i = ground arith in rw same (h (rw same at e))
          | inr n ↦ b.least k (ground arith) e
        ];
      }

      IsBest-take :
          (i : ℕ) (acc : Option ℕ × Carrier)
          → Eligible used venues i
          → lt (score (venue i)) acc.1 ≡ true
          → IsBest i acc
          → IsBest (suc i) (some i, score (venue i))
      IsBest-take i acc h l b = record {
        found = h;
        scored = refl;
        least = λ k m e. elim (Bool-cases (k == i)) [
          | inl s ↦ let same : k ≡ i = ground arith in rw same (lt_irrefl (score (venue i)))
          | inr n ↦ below (score (venue i)) acc.1 (score (venue k)) l (b.least k (ground arith) e)
        ];
      }

      consider-IsBest :
          (i : ℕ) (acc : Option ℕ × Carrier)
          → IsBest i acc
          → IsBest (suc i) (consider F score used i (venue i) acc)
      consider-IsBest i (o, s) b =
          pick (IsBest (suc i)) (get_or used i true || not (is_tradeable F (venue i))) _ _
            (λ e. IsBest-keep i (o, s) (λ el. absurd (barred (get_or used i true) _ e el)) b)
            (λ e.
              let el = neither (get_or used i true) _ e in
              pick (IsBest (suc i)) (lt (score (venue i)) s) _ _
                (λ l. IsBest-take i (o, s) (el.0, of_negated _ el.1) l b)
                (λ n. IsBest-keep i (o, s) (λ el. n) b))

      -- Let `lt` be irreflexive and transitive. If the search returns an index, then it is of a venue
      -- that is not used, is healthy and has depth; and no such venue has a score below the score of
      -- the venue returned, or below 1e18 if the search returns none.
      pub best_index-IsChosen : IsChosen (best_index F score used venues)
      unfolding best_index
      best_index-IsChosen =
          let all : 0 + length venues ≡ length venues = omega arith in
          let b =
            best_index_from_keeps IsBest consider-IsBest 0 venues (none, infinite_price F)
              (λ j. ap venue (omega arith))
              (record { found = tt; scored = refl; least = λ k l e. absurd (omega arith) }) in
          record { found = b.found; least = λ k l e. rw (sym b.scored) (b.least k (rw all l) e) }
