-- ===== src/Risk/GlobalRisk/Caps.antt =====
-- What holds over any run of orders of core/risk/global_risk_controls.hpp: the caps on notionals.
use trading_infrastructure_c.Common.{
  ◌≡◌, refl, sym, inl, inr, ℕ, zero, suc, Bool, true, false, not, ◌||◌, Option, none, some, List,
  [], ◌∷◌, if◌then◌else◌, leb, get_or, arith, Bool-cases,
}
use trading_infrastructure_c.Common.Float.{Float}
use trading_infrastructure_c.Connectors.OrderMap.{Exchange}
use trading_infrastructure_c.Risk.GlobalRisk.{
  GlobalRiskCheckResult, pass, invalid_input, gross_notional_cap, net_notional_cap, venue_cap,
  max_symbols, is_empty, venue_index, GlobalRiskConfig, SymbolState, GlobalRiskControls, exceeds,
  found_slot, find_symbol, check_venue, check_order, create_symbol, choose_symbol,
  get_or_create_symbol, add_at, book_order, refuse, commit_checked, commit_order,
}
use trading_infrastructure_c.Risk.GlobalRisk.Futures.{commit_gated}

abbrev pub is_pass : GlobalRiskCheckResult → Bool
is_pass pass = true
is_pass _ = false

some-injective : (a b : ℕ) → some a ≡ some b → a ≡ b
some-injective a b h = ground arith

-- A check that passed got past a cap that was not exceeded.
cap_held :
    (t : Bool) (r rest : GlobalRiskCheckResult)
    → is_pass r ≡ false
    → is_pass (if t then r else rest) ≡ true
    → (t ≡ false) × (is_pass rest ≡ true)
cap_held true r rest no_pass h = ground (arith, no_pass, h)
cap_held false r rest no_pass h = (refl, h)

module _ (F : Float) where
  open F use {double, is_finite}
  open F.double use {Carrier, zero as nought, lt, equal, add, abs}

  -- No positive cap on a notional is exceeded.
  abbrev pub WithinCaps : GlobalRiskConfig F → GlobalRiskControls F → Type 0
  WithinCaps cfg s =
      (exceeds F cfg.max_gross_notional s.gross_notional ≡ false)
      × (exceeds F cfg.max_net_notional (abs s.net_notional) ≡ false)
      × ((v : ℕ)
          → exceeds F cfg.max_venue_notional (get_or s.venue_gross_notional v nought) ≡ false)

  -- The caps with the order added.
  abbrev RoomFor : GlobalRiskConfig F → Exchange → Carrier → GlobalRiskControls F → Type 0
  RoomFor cfg exchange notional s =
      (exceeds F cfg.max_gross_notional (add s.gross_notional (abs notional)) ≡ false)
      × (exceeds F cfg.max_net_notional (abs (add s.net_notional notional)) ≡ false)
      × ((v : ℕ)
          → venue_index exchange ≡ some v
          → exceeds F cfg.max_venue_notional
              (add (get_or s.venue_gross_notional v nought) (abs notional))
            ≡ false)

  check_venue-room :
      (cfg : GlobalRiskConfig F) (notional : Carrier) (o : Option ℕ) (found : SymbolState F)
      (s : GlobalRiskControls F) (v : ℕ)
      → is_pass (check_venue F cfg notional o found s) ≡ true
      → o ≡ some v
      → exceeds F cfg.max_venue_notional
          (add (get_or s.venue_gross_notional v nought) (abs notional))
        ≡ false
  unfolding check_venue
  check_venue-room cfg notional none found s v h e = ground arith
  check_venue-room cfg notional (some w) found s v h e =
      let (held, _) =
        cap_held
          (exceeds F cfg.max_venue_notional
            (add (get_or s.venue_gross_notional w nought) (abs notional)))
          venue_cap _ refl h in
      rw (sym (some-injective w v e)) held

  check_order-room :
      (stray : ℕ → SymbolState F) (cfg : GlobalRiskConfig F) (exchange : Exchange) (symbol : List ℕ)
      (notional : Carrier) (s : GlobalRiskControls F)
      → is_pass (check_order F stray cfg exchange symbol notional s) ≡ true
      → RoomFor cfg exchange notional s
  unfolding check_order
  check_order-room stray cfg exchange symbol notional s h =
      let (_, sound) =
        cap_held (is_empty symbol || not (is_finite notional) || equal notional nought)
          invalid_input _ refl h in
      let (gross, below_gross) =
        cap_held (exceeds F cfg.max_gross_notional (add s.gross_notional (abs notional)))
          gross_notional_cap _ refl sound in
      let (net, below_net) =
        cap_held (exceeds F cfg.max_net_notional (abs (add s.net_notional notional)))
          net_notional_cap _ refl below_gross in
      (
        gross,
        net,
        λ v.
            check_venue-room cfg notional (venue_index exchange)
              (found_slot F stray (find_symbol F stray symbol s) s) s v below_net,
      )

  -- The sums of the whole book are those of another.
  abbrev pub SameSums : GlobalRiskControls F → GlobalRiskControls F → Type 0
  SameSums s t =
      (s.gross_notional ≡ t.gross_notional)
      × (s.net_notional ≡ t.net_notional)
      × (s.venue_gross_notional ≡ t.venue_gross_notional)

  pub choose_symbol-SameSums :
      (symbol : List ℕ) (o : Option ℕ) (s : GlobalRiskControls F)
      → SameSums (choose_symbol F symbol o s).1 s
  unfolding choose_symbol create_symbol
  choose_symbol-SameSums symbol (some i) s = (refl, refl, refl)
  choose_symbol-SameSums symbol none s = elim (Bool-cases (leb max_symbols s.next_slot)) [
    | inl e ↦ rw e (refl, refl, refl)
    | inr e ↦ rw e (refl, refl, refl)
  ]

  get_or-add_at :
      (P : Carrier → Type 0) (xs : List Carrier) (i v : ℕ) (x : Carrier)
      → P (add (get_or xs i nought) x)
      → P (get_or xs v nought)
      → P (get_or (add_at F xs (some i) x) v nought)
  get_or-add_at P [] i v x new old = old
  get_or-add_at P (y ∷ ys) zero zero x new old = new
  get_or-add_at P (y ∷ ys) zero (suc v) x new old = old
  get_or-add_at P (y ∷ ys) (suc i) zero x new old = old
  get_or-add_at P (y ∷ ys) (suc i) (suc v) x new old = get_or-add_at P ys i v x new old

  venue_below :
      (cap x : Carrier) (o : Option ℕ) (xs : List Carrier) (v : ℕ)
      → ((w : ℕ) → o ≡ some w → exceeds F cap (add (get_or xs w nought) x) ≡ false)
      → exceeds F cap (get_or xs v nought) ≡ false
      → exceeds F cap (get_or (add_at F xs o x) v nought) ≡ false
  venue_below cap x none xs v new old = old
  venue_below cap x (some i) xs v new old =
      get_or-add_at (λ c. exceeds F cap c ≡ false) xs i v x (new i refl) old

  book_order-WithinCaps :
      (stray : ℕ → SymbolState F) (cfg : GlobalRiskConfig F) (exchange : Exchange)
      (notional : Carrier) (r : Option ℕ × GlobalRiskControls F) (s : GlobalRiskControls F)
      → SameSums r.1 s
      → RoomFor cfg exchange notional s
      → WithinCaps cfg s
      → WithinCaps cfg (book_order F stray exchange notional r).1
  unfolding book_order
  book_order-WithinCaps stray cfg exchange notional (none, t) s (gross, net, venue) room h =
      rw (gross, net, venue) h
  book_order-WithinCaps stray cfg exchange notional (some i, t) s (gross, net, venue) room h =
      rw (gross, net, venue)
        (
          room.0,
          room.1,
          λ v.
              venue_below cfg.max_venue_notional (abs notional) (venue_index exchange)
                s.venue_gross_notional v room.2 (h.2 v),
        )

  commit_checked-WithinCaps :
      (stray : ℕ → SymbolState F) (cfg : GlobalRiskConfig F) (exchange : Exchange) (symbol : List ℕ)
      (notional : Carrier) (r : GlobalRiskCheckResult) (s : GlobalRiskControls F)
      → (is_pass r ≡ true → RoomFor cfg exchange notional s)
      → WithinCaps cfg s
      → WithinCaps cfg (commit_checked F stray cfg exchange symbol notional r s).1
  unfolding commit_checked get_or_create_symbol refuse
  commit_checked-WithinCaps stray cfg exchange symbol notional pass s room h =
      book_order-WithinCaps stray cfg exchange notional (get_or_create_symbol F stray symbol s) s
        (choose_symbol-SameSums symbol (find_symbol F stray symbol s) s) (room refl) h
  commit_checked-WithinCaps stray cfg exchange symbol notional _ s room h = h

  pub commit_order-WithinCaps :
      (stray : ℕ → SymbolState F) (cfg : GlobalRiskConfig F) (exchange : Exchange) (symbol : List ℕ)
      (notional : Carrier) (s : GlobalRiskControls F)
      → WithinCaps cfg s
      → WithinCaps cfg (commit_order F stray cfg exchange symbol notional s).1
  unfolding commit_order
  commit_order-WithinCaps stray cfg exchange symbol notional s h =
      commit_checked-WithinCaps stray cfg exchange symbol notional
        (check_order F stray cfg exchange symbol notional s) s
        (check_order-room stray cfg exchange symbol notional s) h

  pub commit_gated-WithinCaps :
      (stray : ℕ → SymbolState F) (cfg : GlobalRiskConfig F) (exchange : Exchange) (symbol : List ℕ)
      (r : GlobalRiskCheckResult × Carrier) (s : GlobalRiskControls F)
      → WithinCaps cfg s
      → WithinCaps cfg (commit_gated F stray cfg exchange symbol r s).1
  unfolding commit_gated refuse
  commit_gated-WithinCaps stray cfg exchange symbol (pass, scaled) s h =
      commit_order-WithinCaps stray cfg exchange symbol scaled s h
  commit_gated-WithinCaps stray cfg exchange symbol (_, scaled) s h = h
