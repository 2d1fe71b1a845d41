-- ===== src/Portfolio/SessionAccounting/Repeats.antt =====
-- When a fill repeats one before it, by its trade id and its exchange time, and how the table of seen fills
-- of core/execution/common/portfolio/live_session_accounting.hpp tells it by its keys.
use trading_infrastructure_c.Common.{
  ℕ, zero, suc, ◌≤◌, ◌≡◌, refl, ap, ◌∙◌, pick, Bool, false, ◌&&◌, inl, inr, ◌||◌, List, [], ◌∷◌,
  ◌++◌, All, take, map, length, if◌then◌else◌, arith, Bool-cases,
}
use trading_infrastructure_c.Portfolio.PositionLedger.{same_bytes}
use trading_infrastructure_c.Common.Float.{Float}
use trading_infrastructure_c.Portfolio.SessionAccounting.{SeenFillKey, Fill, same_time}
use trading_infrastructure_c.Portfolio.SessionAccounting.Ingest.{
  matches, is_fill_seen, key_of, fee_to_usd,
}

take-all : {A : Type 0} (n : ℕ) (xs : List A) → length xs ≤ n → take n xs ≡ xs
take-all zero [] h = refl
take-all zero (x ∷ xs) h = absurd (omega arith)
take-all (suc n) [] h = refl
take-all (suc n) (x ∷ xs) h = ap (◌∷◌ x) (take-all n xs (omega arith))

module _ (F : Float) where
  open F.double use {Carrier, add}

  -- Two fills are the same one if they have their trade id and their exchange time in common.
  abbrev pub same_fill : Fill F → Fill F → Bool
  same_fill g f =
      same_time g.exchange_ts_ns f.exchange_ts_ns && same_bytes g.venue_trade_id f.venue_trade_id

  abbrev pub is_repeated : Fill F → List (Fill F) → Bool
  is_repeated f [] = false
  is_repeated f (g ∷ gs) = same_fill g f || is_repeated f gs

  -- The specification: the fees of the fills that are none of the fills counted before, which grow.
  abbrev pub fees_once : List (Fill F) → Carrier × List (Fill F) → Carrier × List (Fill F)
  fees_once [] acc = acc
  fees_once (f ∷ fs) (fees, counted) = fees_once fs (
      if is_repeated f counted
      then (fees, counted)
      else (add fees (fee_to_usd F f), counted ++ f ∷ []))

  -- A trade id that a key holds whole.
  abbrev pub IsShort : Fill F → Type 0
  IsShort f = length f.venue_trade_id ≤ 63

  matches-same_fill :
      (f g : Fill F) → IsShort f → IsShort g → matches F f (key_of F g) ≡ same_fill g f
  matches-same_fill f g hf hg =
      let of_key : take 64 (take 63 g.venue_trade_id) ≡ g.venue_trade_id =
        ap (take 64) (take-all 63 g.venue_trade_id hg)
        ∙ take-all 64 g.venue_trade_id (omega (arith, hg)) in
      let of_fill : take 64 f.venue_trade_id ≡ f.venue_trade_id =
        take-all 64 f.venue_trade_id (omega (arith, hf)) in
      ap
        (λ (p : List ℕ × List ℕ). same_time g.exchange_ts_ns f.exchange_ts_ns && same_bytes p.0 p.1)
        (ap (λ x. (x, take 64 f.venue_trade_id)) of_key ∙ ap (λ y. (g.venue_trade_id, y)) of_fill)

  is_fill_seen-is_repeated :
      (f : Fill F) (gs : List (Fill F))
      → IsShort f
      → All IsShort gs
      → is_fill_seen F f (map (key_of F) gs) ≡ is_repeated f gs
  is_fill_seen-is_repeated f [] hf h = refl
  is_fill_seen-is_repeated f (g ∷ gs) hf h =
      ap (λ b. b || is_fill_seen F f (map (key_of F) gs)) (matches-same_fill f g hf h.0)
      ∙ ap (λ b. same_fill g f || b) (is_fill_seen-is_repeated f gs hf h.1)

  -- The same over the keys of the fills, as the table has them.
  abbrev pub key_fees : List (Fill F) → Carrier × List SeenFillKey → Carrier × List SeenFillKey
  key_fees [] acc = acc
  key_fees (f ∷ fs) (fees, seen) = key_fees fs (
      if is_fill_seen F f seen
      then (fees, seen)
      else (add fees (fee_to_usd F f), seen ++ key_of F f ∷ []))

  abbrev pub with_keys : Carrier × List (Fill F) → Carrier × List SeenFillKey
  with_keys (fees, counted) = (fees, map (key_of F) counted)

  map-snoc :
      (gs : List (Fill F)) (f : Fill F)
      → map (key_of F) (gs ++ f ∷ []) ≡ map (key_of F) gs ++ key_of F f ∷ []
  map-snoc [] f = refl
  map-snoc (g ∷ gs) f = ap (◌∷◌ (key_of F g)) (map-snoc gs f)

  All-snoc :
      (gs : List (Fill F)) (f : Fill F) → All IsShort gs → IsShort f → All IsShort (gs ++ f ∷ [])
  All-snoc [] f h hf = (hf, tt)
  All-snoc (g ∷ gs) f h hf = (h.0, All-snoc gs f h.1 hf)

  key_counted :
      (f : Fill F) (t : Carrier) (gs : List (Fill F))
      → IsShort f
      → All IsShort gs
      → (if is_fill_seen F f (map (key_of F) gs)
          then (t, map (key_of F) gs)
          else (add t (fee_to_usd F f), map (key_of F) gs ++ key_of F f ∷ []))
        ≡ with_keys (if is_repeated f gs then (t, gs) else (add t (fee_to_usd F f), gs ++ f ∷ []))
  key_counted f t gs hf hg =
      let same = is_fill_seen-is_repeated f gs hf hg in
      elim (Bool-cases (is_repeated f gs)) [
        | inl e ↦ rw (same, e) refl
        | inr e ↦ rw (same, e, map-snoc gs f) refl
      ]

  pub key_fees-fees_once :
      (fs : List (Fill F)) (t : Carrier) (gs : List (Fill F))
      → All IsShort fs
      → All IsShort gs
      → (key_fees fs (t, map (key_of F) gs) ≡ with_keys (fees_once fs (t, gs)))
        × All IsShort (fees_once fs (t, gs)).1
  key_fees-fees_once [] t gs hs hg = (refl, hg)
  key_fees-fees_once (f ∷ fs) t gs (hf, hs) hg =
      let next : Carrier × List (Fill F) =
        if is_repeated f gs then (t, gs) else (add t (fee_to_usd F f), gs ++ f ∷ []) in
      let short =
        pick (λ (p : Carrier × List (Fill F)). All IsShort p.1) (is_repeated f gs) (t, gs)
          (add t (fee_to_usd F f), gs ++ f ∷ []) (λ e. hg) (λ e. All-snoc gs f hg hf) in
      let (rest, all_short) = key_fees-fees_once fs next.0 next.1 hs short in
      (ap (key_fees fs) (key_counted f t gs hf hg) ∙ rest, all_short)
