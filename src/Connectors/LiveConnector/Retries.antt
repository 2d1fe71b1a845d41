-- ===== src/Connectors/LiveConnector/Retries.antt =====
-- How often `with_retries` calls the venue, and which answer it returns.
use trading_infrastructure_c.Common.{
  ℕ, zero, suc, ◌<◌, ◌==◌, ◌≡◌, refl, ap, ◌∙◌, ◌⊎◌, inl, inr, true, false, List, ◌∷◌, ◌++◌,
  replicate, arith, Bool-cases,
}
use trading_infrastructure_c.Connectors.LiveConnector.{
  ConnectorResult, is_ok, is_retryable, VenueCall, Answer, Venue, Connector, retry, with_retries,
}

-- The log after `k` more calls.
abbrev pub called : VenueCall → ℕ → List VenueCall → List VenueCall
called call k log = replicate k call ++ log

called_next :
    (call : VenueCall) (k : ℕ) (log : List VenueCall)
    → called call k (call ∷ log) ≡ call ∷ called call k log
called_next call zero log = refl
called_next call (suc k) log = ap (◌∷◌ call) (called_next call k log)

-- `retries` attempts failed in a way that is retried, and the next one ended the loop.
pub record Attempts (venue : Venue) (n : ℕ) (call : VenueCall) (log : List VenueCall)
    (r : Answer × List VenueCall) : Type 0 where
  pub retries : ℕ
  pub within : retries < n
  pub logged : r.1 ≡ called call (suc retries) log
  pub answered : r.0 ≡ venue r.1
  pub retried : (i : ℕ) → i < retries → is_retryable (venue (called call (suc i) log)).result ≡ true
  pub ended : (suc retries ≡ n) ⊎ (is_retryable r.0.result ≡ false)

retryable-not-ok : (r : ConnectorResult) → is_retryable r ≡ true → is_ok r ≡ false
retryable-not-ok ConnectorResult.ok h = cc
retryable-not-ok ConnectorResult.error_insufficient_funds h = cc
retryable-not-ok ConnectorResult.error_invalid_order h = cc
retryable-not-ok ConnectorResult.auth_failed h = cc
retryable-not-ok (ConnectorResult.error_futures code) h = cc
retryable-not-ok ConnectorResult.error_rate_limit h = refl
retryable-not-ok ConnectorResult.error_rest_failure h = refl
retryable-not-ok ConnectorResult.error_unknown h = refl

not_below_zero : (i : ℕ) → i < 0 → ⊥
not_below_zero i h = omega arith

one_attempt :
    (venue : Venue) (n : ℕ) (call : VenueCall) (log : List VenueCall)
    → (1 ≡ suc n) ⊎ (is_retryable (venue (call ∷ log)).result ≡ false)
    → Attempts venue (suc n) call log (venue (call ∷ log), call ∷ log)
one_attempt venue n call log over = record {
  retries = 0;
  within = omega arith;
  logged = refl;
  answered = refl;
  retried = λ i h. absurd (not_below_zero i h);
  ended = over;
}

more-Attempts :
    (venue : Venue) (n : ℕ) (call : VenueCall) (log : List VenueCall) (r : Answer × List VenueCall)
    → is_retryable (venue (call ∷ log)).result ≡ true
    → Attempts venue n call (call ∷ log) r
    → Attempts venue (suc n) call log r
more-Attempts venue n call log r again a = record {
  retries = suc a.retries;
  within = omega arith;
  logged = a.logged ∙ ap (◌∷◌ call) (called_next call a.retries log);
  answered = a.answered;
  retried = λ i h. earlier i h;
  ended = elim a.ended [ inl all ↦ inl (ap suc all) | inr over ↦ inr over ];
}
  where
    earlier :
        (i : ℕ) → i < suc a.retries → is_retryable (venue (called call (suc i) log)).result ≡ true
    earlier zero h = again
    earlier (suc i) h = rw (← called_next call (suc i) log) (a.retried i (omega arith))

stopped :
    (venue : Venue) (n : ℕ) (call : VenueCall) (log : List VenueCall)
    → is_retryable (venue (call ∷ log)).result ≡ false
    → Attempts venue (suc n) call log (retry venue (suc n) call log)
unfolding retry
stopped venue n call log over = elim (Bool-cases (is_ok (venue (call ∷ log)).result)) [
  | inl fine ↦ rw (over, fine) (one_attempt venue n call log (inr over))
  | inr bad ↦ rw (over, bad) (one_attempt venue n call log (inr over))
]

more_left : (n : ℕ) → (suc n == 0) ≡ false
more_left n = ground arith

continued :
    (venue : Venue) (n : ℕ) (call : VenueCall) (log : List VenueCall)
    → is_retryable (venue (call ∷ log)).result ≡ true
    → retry venue (suc (suc n)) call log ≡ retry venue (suc n) call (call ∷ log)
unfolding retry
continued venue n call log again =
    rw (again, retryable-not-ok (venue (call ∷ log)).result again, more_left n) refl

retry-Attempts :
    (venue : Venue) (n : ℕ) (call : VenueCall) (log : List VenueCall)
    → Attempts venue (suc n) call log (retry venue (suc n) call log)
unfolding retry
retry-Attempts venue zero call log = elim (Bool-cases (is_retryable (venue (call ∷ log)).result)) [
  | inl again ↦
      rw (again, retryable-not-ok (venue (call ∷ log)).result again)
        (one_attempt venue 0 call log (inl refl))
  | inr over ↦ stopped venue 0 call log over
]
retry-Attempts venue (suc n) call log =
    elim (Bool-cases (is_retryable (venue (call ∷ log)).result)) [
      | inl again ↦ rw (continued venue n call log again) (
          more-Attempts venue (suc n) call log (retry venue (suc n) call (call ∷ log)) again
            (retry-Attempts venue n call (call ∷ log)))
      | inr over ↦ stopped venue (suc n) call log over
    ]

positive-Attempts :
    (venue : Venue) (n : ℕ) (call : VenueCall) (log : List VenueCall)
    → 0 < n
    → Attempts venue n call log (retry venue n call log)
positive-Attempts venue zero call log h = absurd (not_below_zero 0 h)
positive-Attempts venue (suc n) call log h = retry-Attempts venue n call log

-- With a positive number of attempts, `with_retries` calls the venue at least once and at most that
-- often, each time with the same call. It returns the venue's answer to the last one. Every answer
-- before it was an error that is retried, and the last one was not, unless the attempts were used up.
pub with_retries-Attempts :
    (venue : Venue) (call : VenueCall) (c : Connector)
    → 0 < c.max_attempts
    → let (answer, sent) = with_retries venue call c in
      Attempts venue c.max_attempts call c.calls (answer, sent.calls)
unfolding with_retries
with_retries-Attempts venue call c h = positive-Attempts venue c.max_attempts call c.calls h
