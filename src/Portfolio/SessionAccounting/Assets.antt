-- ===== src/Portfolio/SessionAccounting/Assets.antt =====
-- The two assets that the accounting reads off a symbol.
use trading_infrastructure_c.Common.{
  ℕ, zero, suc, ◌-◌, ◌<◌, ◌≡◌, refl, ap, ◌∙◌, true, ◌||◌, List, [], ◌∷◌, ◌++◌, append-nil, length,
  take, leb, ◌==◌, arith, pick,
}
use trading_infrastructure_c.Portfolio.SessionAccounting.{usdt, usdc, usd}
use trading_infrastructure_c.Portfolio.SessionAccounting.Collateral.{
  drop, suffix, ends_in, infer_quote_asset, infer_base_asset,
}

take-append-drop : (k : ℕ) (s : List ℕ) → take k s ++ drop k s ≡ s
take-append-drop zero s = refl
take-append-drop (suc k) [] = refl
take-append-drop (suc k) (x ∷ s) = ap (◌∷◌ x) (take-append-drop k s)

length-drop : (k : ℕ) (s : List ℕ) → length (drop k s) ≡ length s - k
length-drop zero s = omega arith
length-drop (suc k) [] = omega arith
length-drop (suc k) (x ∷ s) = omega (arith, length-drop k s)

append_empty : (s q : List ℕ) → length q ≡ 0 → s ++ q ≡ s
append_empty s [] h = append-nil s
append_empty s (x ∷ q) h = absurd (omega arith)

zero_of : (n m : ℕ) → (n == 0 || leb m n) ≡ true → n < m → n ≡ 0
zero_of n m e h = ground arith

IsRest : List ℕ → List ℕ → Type 0
unfolding infer_base_asset
IsRest s q = length q < length s → infer_base_asset s q ++ q ≡ s

IsRest-empty : (s : List ℕ) → IsRest s []
unfolding IsRest infer_base_asset
IsRest-empty s h = append-nil s

IsRest-suffix : (n : ℕ) (s : List ℕ) → IsRest s (suffix n s)
unfolding IsRest infer_base_asset
IsRest-suffix n s h =
    pick (λ b. b ++ suffix n s ≡ s)
      (length (suffix n s) == 0 || leb (length s) (length (suffix n s))) _ _
      (λ e. append_empty s (suffix n s) (zero_of _ _ e h))
      (λ e.
        let k : length s - length (suffix n s) ≡ length s - n =
          omega (arith, length-drop (length s - n) s) in
        ap (λ (m : ℕ). take m s ++ suffix n s) k ∙ take-append-drop (length s - n) s)

-- If a symbol is longer than its quote asset, then its base asset followed by its quote asset is the symbol.
pub infer_base_asset-append :
    (s : List ℕ)
    → length (infer_quote_asset s) < length s
    → infer_base_asset s (infer_quote_asset s) ++ infer_quote_asset s ≡ s
unfolding infer_quote_asset infer_base_asset IsRest
infer_base_asset-append s =
    pick (IsRest s) (ends_in usdt s || ends_in usdc s) _ _ (λ _. IsRest-suffix 4 s)
      (λ _. pick (IsRest s) (ends_in usd s) _ _ (λ _. IsRest-suffix 3 s) (λ _. IsRest-empty s))
