-- ===== src/Feeds/BinanceFeed/Handler/Sequence.antt =====
-- The handler never lets a gap in the update ids pass.
use trading_infrastructure_c.Common.{
  ℕ, ◌+◌, ◌<◌, ◌≤◌, ◌≡◌, refl, sym, ◌∙◌, ◌≢◌, ◌⊎◌, inl, inr, true, List, [], ◌∷◌, leb, arith,
  Bool-cases, leb→le,
}
use trading_infrastructure_c.Feeds.BinanceFeed.{
  Result, success, error_sequence_gap, streaming, buffering, BufferedDelta, Feed,
}
use trading_infrastructure_c.Feeds.BinanceFeed.Handler.{
  next, validate_delta_sequence, apply_delta, process_delta,
}

next_le : (n : ℕ) → next n ≤ n + 1
next_le n = omega arith

pub not_between : {m n : ℕ} → m < n → n ≤ m → ⊥
not_between h k = omega arith

pub le_or_lt : (m n : ℕ) → (m ≤ n) ⊎ (n < m)
le_or_lt m n = elim (Bool-cases (leb m n)) [
  | inl low ↦ inl (leb→le m n low)
  | inr high ↦ inr (ground arith)
]

buffering-not-streaming : buffering ≢ streaming
buffering-not-streaming h = cc

module _ {Price : Type 0} where
  abbrev pub Covers : ℕ → BufferedDelta Price → Type 0
  Covers id d = (d.first_update_id ≤ id) × (id ≤ d.last_update_id)

  abbrev pub Any : (BufferedDelta Price → Type 0) → List (BufferedDelta Price) → Type 0
  Any P [] = ⊥
  Any P (d ∷ ds) = P d ⊎ Any P ds

  unfoldable pub stream : List (BufferedDelta Price) → Feed Price → Feed Price
  stream [] f = f
  stream (d ∷ ds) f = stream ds (process_delta f.state d f).1

  -- After an error the handler is buffering, with an empty buffer, and wants a new connection.
  abbrev pub Resnapshots : Feed Price → Feed Price → Type 0
  Resnapshots f g =
      (g.state ≡ buffering)
      × (g.delta_buffer ≡ [])
      × (g.reconnect_requested ≡ true)
      × (g.last_sequence ≡ f.last_sequence)

  buffering_stays :
      (d : BufferedDelta Price) (f : Feed Price)
      → f.state ≡ buffering
      → (process_delta f.state d f).1.state ≡ buffering
  unfolding process_delta
  buffering_stays d f h = rw h (ground arith)

  -- The three ways a delta is treated outside of buffering.
  pub data Outcome (d : BufferedDelta Price) (f : Feed Price) (r : Result × Feed Price)
      : Type 0 where
    stale : d.last_update_id ≤ f.last_sequence → r ≡ (success, f) → Outcome d f r
    gap : r.0 ≡ error_sequence_gap → Resnapshots f r.1 → Outcome d f r
    applied :
        f.last_sequence < d.last_update_id
        → d.first_update_id ≤ f.last_sequence + 1
        → r ≡ apply_delta d f
        → Outcome d f r

  pub first_le :
      (d : BufferedDelta Price) (f : Feed Price)
      → validate_delta_sequence d.first_update_id d.last_update_id f ≡ true
      → d.first_update_id ≤ f.last_sequence + 1
  first_le d f h =
      let bound = next_le f.last_sequence in
      let low : d.first_update_id ≤ next f.last_sequence =
        leb→le d.first_update_id (next f.last_sequence) (ground arith) in
      omega arith

  streaming-Outcome :
      (d : BufferedDelta Price) (f : Feed Price)
      → f.state ≡ streaming
      → Outcome d f (process_delta f.state d f)
  unfolding process_delta
  streaming-Outcome d f h = elim (Bool-cases (leb d.last_update_id f.last_sequence)) [
    | inl old ↦ stale (leb→le d.last_update_id f.last_sequence old) (rw (h, old) refl)
    | inr new ↦ elim (Bool-cases (validate_delta_sequence d.first_update_id d.last_update_id f)) [
      | inl fits ↦ applied (ground arith) (first_le d f fits) (rw (h, new, fits) refl)
      | inr broken ↦ rw (h, new, broken) (gap refl (ground arith))
    ]
  ]

  -- Without a resnapshot, every update id that the sequence number moves over is in the delta.
  Outcome-Covers :
      (d : BufferedDelta Price) (f : Feed Price) (r : Result × Feed Price)
      → Outcome d f r
      → r.1.state ≡ streaming
      → (f.last_sequence ≤ r.1.last_sequence)
        × ((id : ℕ) → f.last_sequence < id → id ≤ r.1.last_sequence → Covers id d)
  unfolding apply_delta
  Outcome-Covers d f r (stale old e) s =
      rw e (omega arith, λ id low high. absurd (not_between low high))
  Outcome-Covers d f r (gap e (buffers, empty, wants, kept)) s =
      absurd (buffering-not-streaming (sym buffers ∙ s))
  Outcome-Covers d f r (applied new first e) s =
      rw e (omega arith, λ id low high. (omega arith, high))

  pub step-Covers :
      (d : BufferedDelta Price) (f : Feed Price)
      → f.state ≡ streaming
      → let g = (process_delta f.state d f).1 in
        g.state ≡ streaming
        → (f.last_sequence ≤ g.last_sequence)
          × ((id : ℕ) → f.last_sequence < id → id ≤ g.last_sequence → Covers id d)
  step-Covers d f h = Outcome-Covers d f (process_delta f.state d f) (streaming-Outcome d f h)

  Outcome-state :
      (d : BufferedDelta Price) (f : Feed Price) (r : Result × Feed Price)
      → Outcome d f r
      → f.state ≡ streaming
      → (r.1.state ≡ streaming) ⊎ (r.1.state ≡ buffering)
  unfolding apply_delta
  Outcome-state d f r (stale old e) h = inl (rw e h)
  Outcome-state d f r (gap e (buffers, empty, wants, kept)) h = inr buffers
  Outcome-state d f r (applied new first e) h = inl (rw e h)

  buffering_forever :
      (ds : List (BufferedDelta Price)) (f : Feed Price)
      → f.state ≡ buffering
      → (stream ds f).state ≡ buffering
  unfolding stream
  buffering_forever [] f h = h
  buffering_forever (d ∷ ds) f h =
      buffering_forever ds (process_delta f.state d f).1 (buffering_stays d f h)

  -- While the handler streams, no update is missed: if a run of deltas, each handled by the part of
  -- process_message after the parsing, starts and ends in the streaming state, then the sequence
  -- number has not gone down, and every update id it moved over is covered by one of the deltas.
  pub no_update_missed :
      (ds : List (BufferedDelta Price)) (f : Feed Price)
      → f.state ≡ streaming
      → (stream ds f).state ≡ streaming
      → (f.last_sequence ≤ (stream ds f).last_sequence)
        × ((id : ℕ) → f.last_sequence < id → id ≤ (stream ds f).last_sequence → Any (Covers id) ds)
  unfolding stream
  no_update_missed [] f h s = (omega arith, λ id low high. absurd (not_between low high))
  no_update_missed (d ∷ ds) f h s =
      let g = (process_delta f.state d f).1 in
      elim (Outcome-state d f (process_delta f.state d f) (streaming-Outcome d f h) h) [
        | inr buffers ↦ absurd (buffering-not-streaming (sym (buffering_forever ds g buffers) ∙ s))
        | inl streams ↦
            let here = step-Covers d f h streams in
            let later = no_update_missed ds g streams s in
            (
              omega arith,
              λ id low high. elim (le_or_lt id g.last_sequence) [
                | inl now ↦ inl (here.1 id low now)
                | inr then_on ↦ inr (later.1 id then_on high)
              ],
            )
      ]
