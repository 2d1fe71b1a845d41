-- ===== src/Books/OrderBook/Scans.antt =====
-- What the scans of core/orderbook/orderbook.hpp find: the touch and the top levels.
use trading_infrastructure_c.Common.{
  ◌≡◌, refl, ◌⊎◌, inl, inr, ℕ, zero, suc, ◌+◌, ◌<◌, ◌≤◌, Bool, true, false, Option, none, some,
  List, [], ◌∷◌, get_or, take, arith, Bool-cases, ◌==◌, sym,
}
use trading_infrastructure_c.Common.Float.{Float}
use trading_infrastructure_c.Books.OrderBook.{
  Cell, PriceLevel, OrderBook, blank_cell, is_positive, index_to_price, highest, lowest, price_at,
  get_best_bid, get_best_ask, level_at, top_down, bottom_up, get_top_levels,
}

eq_of_== : (a b : ℕ) → (a == b) ≡ true → a ≡ b
eq_of_== a b h = ground arith

below : (j n : ℕ) → j < suc n → (j == n) ≡ false → j < n
below j n h e = ground arith

above : (j n : ℕ) → n ≤ j → (j == n) ≡ false → suc n ≤ j
above j n h e = ground arith

module _ (F : Float) where
  open F use {double}
  open F.double use {Carrier, zero as nought}

  abbrev positive_at : List (Cell F) → ℕ → Bool
  positive_at cells i = is_positive F (get_or cells i (blank_cell F))

  -- `p` is the price of index `i`, which holds a positive size while no index that `better` prefers to
  -- it does; or it is nought and the active grid is empty.
  abbrev pub IsTouch : (ℕ → ℕ → Type 0) → List (Cell F) → OrderBook F → Carrier → Type 0
  IsTouch better cells b p =
      (p ≡ nought × ((j : ℕ) → j < b.active_levels → positive_at cells j ≡ false))
      ⊎ ((i : ℕ) × (i < b.active_levels)
          × (positive_at cells i ≡ true)
          × ((j : ℕ) → j < b.active_levels → better j i → positive_at cells j ≡ false)
          × (p ≡ index_to_price F i b))

  abbrev IsFound : (ℕ → Type 0) → (ℕ → ℕ → Type 0) → List (Cell F) → Option ℕ → Type 0
  IsFound scanned better cells none = (j : ℕ) → scanned j → positive_at cells j ≡ false
  IsFound scanned better cells (some i) =
      scanned i
      × (positive_at cells i ≡ true)
      × ((j : ℕ) → scanned j → better j i → positive_at cells j ≡ false)

  -- The index that a scan looks at last, beside those it looked at before.
  below_suc :
      (cells : List (Cell F)) (n j : ℕ)
      → positive_at cells n ≡ false
      → j < suc n
      → (j < n → positive_at cells j ≡ false)
      → positive_at cells j ≡ false
  below_suc cells n j last h rest = elim (Bool-cases (j == n)) [
    | inl e ↦ rw (eq_of_== j n e) last
    | inr e ↦ rest (below j n h e)
  ]

  above_suc :
      (cells : List (Cell F)) (n j : ℕ)
      → positive_at cells n ≡ false
      → n ≤ j
      → (suc n ≤ j → positive_at cells j ≡ false)
      → positive_at cells j ≡ false
  above_suc cells n j last h rest = elim (Bool-cases (j == n)) [
    | inl e ↦ rw (eq_of_== j n e) last
    | inr e ↦ rest (above j n h e)
  ]

  extend_down :
      (n : ℕ) (cells : List (Cell F)) (o : Option ℕ)
      → positive_at cells n ≡ false
      → IsFound (λ j. j < n) (λ j i. i < j) cells o
      → IsFound (λ j. j < suc n) (λ j i. i < j) cells o
  extend_down n cells none last h = λ j low. below_suc cells n j last low (h j)
  extend_down n cells (some i) last (low, here, above) = (
    omega (arith, low),
    here,
    λ j below better. below_suc cells n j last below (λ lt. above j lt better),
  )

  highest_lem :
      (n : ℕ) (cells : List (Cell F))
      → IsFound (λ j. j < n) (λ j i. i < j) cells (highest F n cells)
  unfolding highest
  highest_lem zero cells = λ j h. ground arith
  highest_lem (suc n) cells = elim (Bool-cases (positive_at cells n)) [
    | inl e ↦ rw e (omega arith, e, λ j low better. ground arith)
    | inr e ↦ rw e (extend_down n cells (highest F n cells) e (highest_lem n cells))
  ]

  abbrev In : ℕ → ℕ → ℕ → Type 0
  In i n j = (i ≤ j) × (j < i + n)

  extend_up :
      (n i : ℕ) (cells : List (Cell F)) (o : Option ℕ)
      → positive_at cells i ≡ false
      → IsFound (In (suc i) n) (λ j i. j < i) cells o
      → IsFound (In i (suc n)) (λ j i. j < i) cells o
  extend_up n i cells none first h =
      λ j (low, high). above_suc cells i j first low (λ above. h j (above, omega (arith, high)))
  extend_up n i cells (some k) first ((low, high), here, below) = (
    (omega (arith, low), omega (arith, high)),
    here,
    λ j (low, high) better.
        above_suc cells i j first low (λ above. below j (above, omega (arith, high)) better),
  )

  lowest_lem :
      (n i : ℕ) (cells : List (Cell F)) → IsFound (In i n) (λ j i. j < i) cells (lowest F n i cells)
  unfolding lowest
  lowest_lem zero i cells = λ j (low, high). ground arith
  lowest_lem (suc n) i cells = elim (Bool-cases (positive_at cells i)) [
    | inl e ↦ rw e ((omega arith, omega arith), e, λ j (low, high) better. ground arith)
    | inr e ↦ rw e (extend_up n i cells (lowest F n (suc i) cells) e (lowest_lem n (suc i) cells))
  ]

  bid-IsTouch :
      (b : OrderBook F) (o : Option ℕ)
      → IsFound (λ j. j < b.active_levels) (λ j i. i < j) b.bids o
      → IsTouch (λ j i. i < j) b.bids b (price_at F o b)
  unfolding price_at
  bid-IsTouch b none h = inl (refl, h)
  bid-IsTouch b (some i) (low, here, higher) = inr (i, low, here, higher, refl)

  ask-IsTouch :
      (b : OrderBook F) (o : Option ℕ)
      → IsFound (In 0 b.active_levels) (λ j i. j < i) b.asks o
      → IsTouch (λ j i. j < i) b.asks b (price_at F o b)
  unfolding price_at
  ask-IsTouch b none h = inl (refl, λ j high. h j (omega arith, omega (arith, high)))
  ask-IsTouch b (some i) ((low, high), here, lower) = inr (
    i,
    omega (arith, high),
    here,
    λ j high better. lower j (omega arith, omega (arith, high)) better,
    refl,
  )

  -- On every book, the best bid is the price of the highest index of the active grid that holds a positive
  -- size on the bid side, and the best ask that of the lowest on the ask side; or the price
  -- returned is 0, and then no active index of that side holds a positive size.
  pub touch_lem :
      (b : OrderBook F)
      → IsTouch (λ j i. i < j) b.bids b (get_best_bid F b)
        × IsTouch (λ j i. j < i) b.asks b (get_best_ask F b)
  unfolding get_best_bid get_best_ask
  touch_lem b = (
    bid-IsTouch b (highest F b.active_levels b.bids) (highest_lem b.active_levels b.bids),
    ask-IsTouch b (lowest F b.active_levels 0 b.asks) (lowest_lem b.active_levels 0 b.asks),
  )

  -- The positive levels of a side from the touch on, all of them.
  abbrev when_positive : Bool → PriceLevel F → List (PriceLevel F) → List (PriceLevel F)
  when_positive true l ls = l ∷ ls
  when_positive false l ls = ls

  unfoldable pub all_down : ℕ → List (Cell F) → OrderBook F → List (PriceLevel F)
  all_down zero cells b = []
  all_down (suc n) cells b =
      when_positive (positive_at cells n) (level_at F n (get_or cells n (blank_cell F)) b)
        (all_down n cells b)

  unfoldable pub all_up : ℕ → ℕ → List (Cell F) → OrderBook F → List (PriceLevel F)
  all_up zero i cells b = []
  all_up (suc n) i cells b =
      when_positive (positive_at cells i) (level_at F i (get_or cells i (blank_cell F)) b)
        (all_up n (suc i) cells b)

  take_nil : (room : ℕ) → take {A = PriceLevel F} room [] ≡ []
  take_nil zero = refl
  take_nil (suc room) = refl

  take-all_down :
      (n room : ℕ) (cells : List (Cell F)) (b : OrderBook F)
      → top_down F n room cells b ≡ take room (all_down n cells b)
  unfolding top_down all_down
  take-all_down zero room cells b = sym (take_nil room)
  take-all_down (suc n) zero cells b = refl
  take-all_down (suc n) (suc room) cells b = elim (Bool-cases (positive_at cells n)) [
    | inl e ↦ rw (e, take-all_down n room cells b) refl
    | inr e ↦ rw (e, take-all_down n (suc room) cells b) refl
  ]

  take-all_up :
      (n i room : ℕ) (cells : List (Cell F)) (b : OrderBook F)
      → bottom_up F n i room cells b ≡ take room (all_up n i cells b)
  unfolding bottom_up all_up
  take-all_up zero i room cells b = sym (take_nil room)
  take-all_up (suc n) i zero cells b = refl
  take-all_up (suc n) i (suc room) cells b = elim (Bool-cases (positive_at cells i)) [
    | inl e ↦ rw (e, take-all_up n (suc i) room cells b) refl
    | inr e ↦ rw (e, take-all_up n (suc i) (suc room) cells b) refl
  ]

  -- On every book and for every bound, get_top_levels, which stops its scans early, returns on each side the
  -- first levels, up to the bound, of the list of all positive levels that starts at the touch.
  pub get_top_levels-take :
      (n : ℕ) (b : OrderBook F)
      → get_top_levels F n b
        ≡ (take n (all_down b.active_levels b.bids b), take n (all_up b.active_levels 0 b.asks b))
  unfolding get_top_levels
  get_top_levels-take n b =
      rw (take-all_down b.active_levels n b.bids b, take-all_up b.active_levels 0 n b.asks b) refl
