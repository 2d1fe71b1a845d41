-- ===== src/Routing/Router/Split.antt =====
-- What a routing is, apart from how it is found: a quantity split over venues taken one after the other.
use trading_infrastructure_c.Common.{
  ℕ, zero, suc, ◌+◌, ◌≤◌, ◌<◌, ◌≡◌, refl, ap, Bool, true, false, List, [], ◌∷◌, length, take,
  get_or, set, arith, ◌++◌, ◌∙◌, append_assoc,
}
use trading_infrastructure_c.Common.Float.{Float}
use trading_infrastructure_c.Orders.ParentPlan.{Side}
use trading_infrastructure_c.Routing.Router.Best.{Eligible}
use trading_infrastructure_c.Routing.Router.{VenueQuote, ChildOrder, no_venue}
use trading_infrastructure_c.Routing.Router.Placing.{clip, ioc_child}

-- No index is marked, nor comes twice.
abbrev pub Fresh : List Bool → List ℕ → Type 0
Fresh used [] = Unit
Fresh used (i ∷ is) = (get_or used i true ≡ false) × Fresh (set used i true) is

abbrev pub unused : List Bool → ℕ
unused [] = 0
unused (true ∷ us) = unused us
unused (false ∷ us) = suc (unused us)

pub unused-set :
    (us : List Bool) (i : ℕ) → get_or us i true ≡ false → suc (unused (set us i true)) ≡ unused us
unused-set [] i h = cc
unused-set (true ∷ us) zero h = cc
unused-set (false ∷ us) zero h = refl
unused-set (true ∷ us) (suc i) h = unused-set us i h
unused-set (false ∷ us) (suc i) h = ap suc (unused-set us i h)

-- At most as many indices as there are unmarked cells.
pub Fresh-length : (us : List Bool) (is : List ℕ) → Fresh us is → length is ≤ unused us
Fresh-length us [] h = omega arith
Fresh-length us (i ∷ is) h = omega (arith, Fresh-length (set us i true) is h.1, unused-set us i h.0)

module _ {A : Type 0} where
  -- An array filled up to `n`, with one cell more.
  take-set-suc :
      (xs : List A) (n : ℕ) (x : A)
      → n < length xs
      → take (suc n) (set xs n x) ≡ take n xs ++ x ∷ []
  take-set-suc [] n x h = absurd (omega arith)
  take-set-suc (y ∷ xs) zero x h = refl
  take-set-suc (y ∷ xs) (suc n) x h = ap (◌∷◌ y) (take-set-suc xs n x (omega arith))

  take-set :
      (xs : List A) (n : ℕ) (x : A)
      → n < length xs
      → take (n + 1) (set xs n x) ≡ take n xs ++ x ∷ []
  take-set xs n x h = let e : n + 1 ≡ suc n = omega arith in rw e (take-set-suc xs n x h)

  pub take-set-append :
      (xs ys zs : List A) (n : ℕ) (x : A)
      → n < length xs
      → zs ≡ take (n + 1) (set xs n x) ++ ys
      → zs ≡ take n xs ++ x ∷ ys
  take-set-append xs ys zs n x h e =
      e ∙ ap (λ (l : List A). l ++ ys) (take-set xs n x h) ∙ append_assoc (take n xs) (x ∷ []) ys

module _ (F : Float) where
  open F.double use {Carrier, sub}

  -- The venues taken one after the other are ones that could be used then.
  abbrev pub Taken : List (VenueQuote F) → List Bool → List ℕ → Type 0
  Taken venues used [] = Unit
  Taken venues used (i ∷ is) = Eligible F used venues i × Taken venues (set used i true) is

  pub Taken-Fresh :
      (venues : List (VenueQuote F)) (used : List Bool) (is : List ℕ)
      → Taken venues used is
      → Fresh used is
  Taken-Fresh venues used [] t = tt
  Taken-Fresh venues used (i ∷ is) t = (t.0.0, Taken-Fresh venues (set used i true) is t.1)

  -- Each venue takes what its depth allows of what those before it left.
  abbrev pub split : Side → List (VenueQuote F) → Carrier → List ℕ → List (ChildOrder F)
  split side venues remaining [] = []
  split side venues remaining (i ∷ is) =
      let v = get_or venues i (no_venue F) in
      ioc_child F side remaining v ∷ split side venues (sub remaining (clip F remaining v)) is

  abbrev pub rest : List (VenueQuote F) → Carrier → List ℕ → Carrier
  rest venues remaining [] = remaining
  rest venues remaining (i ∷ is) =
      rest venues (sub remaining (clip F remaining (get_or venues i (no_venue F)))) is

abbrev pub marked : List Bool → List ℕ → List Bool
marked used [] = used
marked used (i ∷ is) = marked (set used i true) is
