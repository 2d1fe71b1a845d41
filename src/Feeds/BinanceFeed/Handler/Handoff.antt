-- ===== src/Feeds/BinanceFeed/Handler/Handoff.antt =====
-- The handoff from the snapshot to the deltas buffered while it was fetched.
use trading_infrastructure_c.Common.{
  ℕ, suc, ◌+◌, ◌<◌, ◌≤◌, ◌≡◌, refl, ◌⊎◌, inl, inr, Bool, true, false, ◌&&◌, List, [], ◌∷◌, leb,
  if◌then◌else◌, length, arith, Bool-cases,
}
use trading_infrastructure_c.Feeds.BinanceFeed.{
  Result, success, error_sequence_gap, buffering, BufferedDelta, Feed,
}
use trading_infrastructure_c.Feeds.BinanceFeed.Handler.{
  next, validate_delta_sequence, apply_delta, apply_all, Scan, bridge, no_bridge, precedes,
  find_bridge, apply_scanned, apply_buffered_deltas,
}
use trading_infrastructure_c.Feeds.BinanceFeed.Handler.Sequence.{
  Covers, Any, first_le, le_or_lt, not_between,
}

bound : (s id first : ℕ) → first ≤ s + 1 → s < id → first ≤ id
bound s id first h k = omega arith

module _ {Price : Type 0} where
  abbrev pub Covered : ℕ → List (BufferedDelta Price) → Feed Price → Type 0
  Covered from ds g = (id : ℕ) → from < id → id ≤ g.last_sequence → Any (Covers id) ds

  -- What a loop over the buffer does: it gets through with no gap, or it starts a resnapshot.
  abbrev pub Handed : Feed Price → List (BufferedDelta Price) → Result × Feed Price → Type 0
  Handed f ds (r, g) =
      ((r ≡ success) × (g.state ≡ f.state) × Covered f.last_sequence ds g)
      ⊎ ((r ≡ error_sequence_gap)
          × (g.state ≡ buffering)
          × (g.delta_buffer ≡ [])
          × (g.reconnect_requested ≡ true))

  apply_all-Handed :
      (ds : List (BufferedDelta Price)) (f : Feed Price) → Handed f ds (apply_all ds f)
  unfolding apply_all
  apply_all-Handed [] f = inl (refl, refl, λ id low high. absurd (not_between low high))
  apply_all-Handed (d ∷ ds) f =
      elim (Bool-cases (validate_delta_sequence d.first_update_id d.last_update_id f)) [
        | inl fits ↦ rw fits (elim (apply_all-Handed ds (apply_delta d f).1) [
          | inl (ok, kept, covered) ↦ inl (
            ok,
            kept,
            λ id low high. elim (le_or_lt id d.last_update_id) [
              | inl now ↦
                  inl (bound f.last_sequence id d.first_update_id (first_le d f fits) low, now)
              | inr after ↦ inr (covered id after high)
            ],
          )
          | inr broken ↦ inr broken
        ])
        | inr broken ↦ rw broken (inr (refl, refl, refl, refl))
      ]

  -- Deltas that find_bridge skips are only left out.
  abbrev Found : ℕ → List (BufferedDelta Price) → Scan Price → Type 0
  Found k ds (bridge n rest) = (id : ℕ) → Any (Covers id) rest → Any (Covers id) ds
  Found k ds (no_bridge n) = n ≡ k + length ds
  Found k ds precedes = Unit

  Found-later :
      (k : ℕ) (d : BufferedDelta Price) (ds : List (BufferedDelta Price)) (scan : Scan Price)
      → Found (suc k) ds scan
      → Found k (d ∷ ds) scan
  Found-later k d ds (bridge n rest) h = λ id a. inr (h id a)
  Found-later k d ds (no_bridge n) h = omega arith
  Found-later k d ds precedes h = tt

  find_bridge-Found : (s k : ℕ) (ds : List (BufferedDelta Price)) → Found k ds (find_bridge s k ds)
  unfolding find_bridge
  find_bridge-Found s k [] = omega arith
  find_bridge-Found s k (d ∷ ds) = elim (Bool-cases (leb d.last_update_id s)) [
    | inl old ↦
        rw old (Found-later k d ds (find_bridge s (suc k) ds) (find_bridge-Found s (suc k) ds))
    | inr new ↦
        elim (Bool-cases (leb d.first_update_id (next s) && leb (next s) d.last_update_id)) [
          | inl bridges ↦ rw (new, bridges) (λ id a. a)
          | inr gap ↦ rw (new, gap) tt
        ]
  ]

  bridged-Handed :
      (n : ℕ) (ds : List (BufferedDelta Price)) (f : Feed Price)
      → Found 0 f.delta_buffer (bridge n ds)
      → Handed f f.delta_buffer (apply_scanned (bridge n ds) f)
  unfolding apply_scanned
  bridged-Handed n ds f found = elim (apply_all-Handed ds f) [
    | inl (ok, kept, covered) ↦
        rw ok (inl (refl, kept, λ id low high. found id (covered id low high)))
    | inr (gap, buffers, empty, wants) ↦ rw gap (inr (refl, buffers, empty, wants))
  ]

  either_way :
      (f : Feed Price) (ds : List (BufferedDelta Price)) (b : Bool)
      (yes_way no_way : Result × Feed Price)
      → Handed f ds yes_way
      → Handed f ds no_way
      → Handed f ds (if b then yes_way else no_way)
  either_way f ds true _ _ h k = h
  either_way f ds false _ _ h k = k

  scanned-Handed :
      (f : Feed Price) (scan : Scan Price)
      → Found 0 f.delta_buffer scan
      → Handed f f.delta_buffer (apply_scanned scan f)
  unfolding apply_scanned
  scanned-Handed f (bridge n ds) found = bridged-Handed n ds f found
  scanned-Handed f precedes found = inr (refl, refl, refl, refl)
  scanned-Handed f (no_bridge n) found =
      either_way f f.delta_buffer _ _ _
        (inl (refl, refl, λ id low high. absurd (not_between low high)))
        (inr (refl, refl, refl, refl))

  -- The deltas buffered while a snapshot was fetched are handed over without a gap: whatever the
  -- buffer holds, apply_buffered_deltas called with the sequence number of the snapshot
  -- either succeeds, stays in the state it was in, and every update id that the sequence number moves
  -- over is covered by a delta of the buffer, or it reports a sequence gap and starts a resnapshot:
  -- the state is buffering, the buffer is empty and a new connection is wanted.
  pub handoff_complete :
      (f : Feed Price) → Handed f f.delta_buffer (apply_buffered_deltas f.last_sequence f)
  unfolding apply_buffered_deltas
  handoff_complete f =
      scanned-Handed f (find_bridge f.last_sequence 0 f.delta_buffer)
        (find_bridge-Found f.last_sequence 0 f.delta_buffer)
