-- ===== src/Feeds/OkxFeed/Chain.antt =====
-- How the OKX handler keeps its stream in sequence: what a run of updates does to a streaming handler, and
-- what a snapshot makes of the updates that were buffered.
use trading_infrastructure_c.Common.{
  pick, both_ways, ◌≡◌, refl, ap, ◌∙◌, ◌⊎◌, inl, inr, ℕ, Bool, true, false, not, ◌||◌, ◌==◌, ◌<◌,
  ◌≤◌, Option, none, some, List, [], ◌∷◌, leb, ltb, length, arith, Bool-cases,
}
use mathlib.Core.Path.{subst}
use trading_infrastructure_c.Common.Int.{ℤ}
use trading_infrastructure_c.Common.Double.{Double}
use trading_infrastructure_c.Feeds.OkxFeed.{
  Result, success, streaming, max_buffer_size, BookData, Feed, emits_snapshot,
}
use trading_infrastructure_c.Feeds.OkxFeed.Checksum.{
  apply_local_book_levels, apply_side, bid_before, ask_before, serialize, checksum_matches,
  validate_checksum,
}
use trading_infrastructure_c.Orders.ParentPlan.{Side}
use trading_infrastructure_c.Feeds.OkxFeed.Handler.{
  is_success, is_streaming, trigger_resnapshot, validate_delta_sequence, process_delta, emit_levels,
  apply_each, apply_buffered_deltas, after_buffered, parse_levels, has_none, accept_snapshot,
  process_snapshot, process_update,
}

of_not : {b : Bool} → not b ≡ false → b ≡ true
of_not {b = true} h = refl
of_not {b = false} h = ground (arith, h)

module _ (D : Double) (crc32 : List ℕ → ℤ) where
  unfoldable pub run : List (BookData D) → Feed D → Feed D
  unfolding process_update
  run [] f = f
  run (d ∷ ds) f = run ds (process_update D crc32 d f).1

  -- The specification of one update: its levels are in the book, its number is the last one, and each of
  -- its levels has gone out, the bids first.
  abbrev pub applied : BookData D → Feed D → Feed D
  applied d f = record (apply_local_book_levels D d f) {
    last_sequence = d.seq;
    emitted = emit_levels D d.asks Side.ask d.seq (emit_levels D d.bids Side.bid d.seq f.emitted);
  }

  -- The updates applied one after the other, with no check.
  unfoldable pub deliver : List (BookData D) → Feed D → Feed D
  deliver [] f = f
  deliver (d ∷ ds) f = deliver ds (applied d f)

  -- The update names the last number before it; or it names none, that is 0, and its own is greater.
  abbrev pub InSequence : BookData D → Feed D → Type 0
  InSequence d f = (d.prev_seq ≡ f.last_sequence) ⊎ ((d.prev_seq ≡ 0) × (f.last_sequence < d.seq))

  -- The checksum of the first 25 levels of the book with the update in it.
  abbrev pub sum_after : BookData D → Feed D → ℤ
  sum_after d f = crc32 (
      serialize D 25 0 (apply_side D (bid_before D) d.bids f.bids)
        (apply_side D (ask_before D) d.asks f.asks) [])

  -- An update that follows the handler's state, and whose checksum, if it has one, is right.
  abbrev pub Follows : BookData D → Feed D → Type 0
  Follows d f = InSequence d f × ((d.checksum ≡ none) ⊎ (d.checksum ≡ some (sum_after d f)))

  InSequence-validated :
      (d : BookData D) (f : Feed D)
      → validate_delta_sequence D d.seq d.prev_seq f ≡ true
      → InSequence d f
  unfolding validate_delta_sequence
  InSequence-validated d f h = elim (Bool-cases (d.prev_seq == 0)) [
    | inl e ↦ inr (ground (arith, e), ground (arith, h, e))
    | inr e ↦ inl (ground (arith, h, e))
  ]

  checksum-matched :
      (local : ℤ) (o : Option ℤ) → checksum_matches D local o ≡ true → (o ≡ none) ⊎ (o ≡ some local)
  checksum-matched local none h = inl refl
  checksum-matched local (some remote) h = inr (ap some (ground (arith, h)))

  Follows-gates :
      (d : BookData D) (f : Feed D)
      → validate_delta_sequence D d.seq d.prev_seq f ≡ true
      → validate_checksum D crc32 d f ≡ true
      → Follows d f
  unfolding validate_checksum
  Follows-gates d f h sum =
      (InSequence-validated d f h, checksum-matched (sum_after d f) d.checksum sum)

  process_delta-applied : (d : BookData D) (f : Feed D) → process_delta D d f ≡ applied d f
  unfolding process_delta apply_local_book_levels
  process_delta-applied d f = refl

  -- Each update follows the state that those before it left.
  abbrev pub IsChain : List (BookData D) → Feed D → Type 0
  IsChain [] f = Unit
  IsChain (d ∷ ds) f = Follows d f × IsChain ds (applied d f)

  buffering_update :
      (d : BookData D) (f : Feed D)
      → is_streaming f.state ≡ false
      → is_streaming (process_update D crc32 d f).1.state ≡ false
  unfolding process_update trigger_resnapshot
  buffering_update d f h = elim (Bool-cases (ltb (length f.delta_buffer) max_buffer_size)) [
    | inl e ↦ rw (h, e) h
    | inr e ↦ rw (h, e) refl
  ]

  buffering_run :
      (ds : List (BookData D)) (f : Feed D)
      → is_streaming f.state ≡ false
      → is_streaming (run ds f).state ≡ false
  unfolding run
  buffering_run [] f h = h
  buffering_run (d ∷ ds) f h =
      buffering_run ds (process_update D crc32 d f).1 (buffering_update d f h)

  -- What a streaming handler does with an update.
  abbrev Gated : BookData D → Feed D → Result × Feed D → Type 0
  Gated d f r = (Follows d f × (r.1 ≡ applied d f)) ⊎ (is_streaming r.1.state ≡ false)

  process_update-Gated :
      (d : BookData D) (f : Feed D)
      → is_streaming f.state ≡ true
      → Gated d f (process_update D crc32 d f)
  unfolding process_update trigger_resnapshot
  process_update-Gated d f h =
      pick (Gated d f) (not (is_streaming f.state)) _ _ (λ e. ground (arith, e, h))
        (λ _.
          pick (Gated d f) (not (validate_delta_sequence D d.seq d.prev_seq f)) _ _ (λ _. inr refl)
            (λ e.
              pick (Gated d f) (not (validate_checksum D crc32 d f)) _ _ (λ _. inr refl)
                (λ sum.
                  inl (Follows-gates d f (of_not e) (of_not sum), process_delta-applied d f))))

  -- If a run of updates, of any length, finds the handler streaming and leaves it streaming, then every
  -- update names the number of the one before it, or names none and has a greater number than that one,
  -- and has no checksum or the one of the book after it; and the handler is as if each had been
  -- applied in turn, so that none was lost or passed over.
  pub run-IsChain :
      (ds : List (BookData D)) (f : Feed D)
      → is_streaming f.state ≡ true
      → is_streaming (run ds f).state ≡ true
      → IsChain ds f × (run ds f ≡ deliver ds f)
  unfolding run deliver apply_local_book_levels
  run-IsChain [] f first last = (tt, refl)
  run-IsChain (d ∷ ds) f first last = elim (process_update-Gated d f first) [
    | inl (follows, same) ↦
        let (chain, delivered) =
          run-IsChain ds (applied d f) first
            (subst (λ g. is_streaming (run ds g).state ≡ true) same last) in
        ((follows, chain), ap (run ds) same ∙ delivered)
    | inr stopped ↦
        absurd (both_ways last (buffering_run ds (process_update D crc32 d f).1 stopped))
  ]

  -- What the loop over buffered updates leads to, if it runs through: older updates are passed over.
  abbrev pub Handed : List (BookData D) → Feed D → Feed D → Type 0
  Handed [] f g = f ≡ g
  Handed (d ∷ ds) f g =
      ((d.seq ≤ f.last_sequence) × Handed ds f g) ⊎ (Follows d f × Handed ds (applied d f) g)

  apply_each-Handed :
      (ds : List (BookData D)) (f : Feed D)
      → is_success (apply_each D crc32 ds f).0 ≡ true
      → Handed ds f (apply_each D crc32 ds f).1
  unfolding apply_each
  apply_each-Handed [] f = λ _. refl
  apply_each-Handed (d ∷ ds) f =
      let Good : Result × Feed D → Type 0 = λ r. is_success r.0 ≡ true → Handed (d ∷ ds) f r.1 in
      pick Good (leb d.seq f.last_sequence) _ _
        (λ e h. inl (ground (arith, e), apply_each-Handed ds f h))
        (λ _.
          pick Good (not (validate_delta_sequence D d.seq d.prev_seq f)) _ _
            (λ _ h. ground (arith, h))
            (λ e.
              pick Good (not (validate_checksum D crc32 d f)) _ _ (λ _ h. ground (arith, h))
                (λ sum h. inr (
                  Follows-gates d f (of_not e) (of_not sum),
                  subst (λ x. Handed ds x (apply_each D crc32 ds (process_delta D d f)).1)
                      (process_delta-applied d f) (apply_each-Handed ds (process_delta D d f) h),
                ))))

  after_buffered-success :
      (r : Result × Feed D)
      → is_success (after_buffered D r).0 ≡ true
      → (is_success r.0 ≡ true) × ((after_buffered D r).1 ≡ record r.1 { state = streaming })
  unfolding after_buffered
  after_buffered-success (success, f) h = (refl, refl)
  after_buffered-success (_, f) h = ground (arith, h)

  -- The handler with the book and the sequence number of a snapshot.
  abbrev pub taken : BookData D → Feed D → Feed D
  taken d f = record (apply_local_book_levels D d (record f { bids = []; asks = [] })) {
    last_sequence = d.seq;
    emitted =
        emits_snapshot
          (record { sequence = d.seq; bids = parse_levels D d.bids; asks = parse_levels D d.asks })
        ∷ f.emitted;
  }

  -- If process_snapshot succeeds, then from the snapshot on each buffered update either is not newer than the
  -- number reached before it, and changes nothing, or names that number, or names none and has a greater
  -- one, has no checksum or the one of the book after it, and is applied; and the handler is streaming
  -- from there, with an empty buffer.
  pub process_snapshot-Handed :
      (d : BookData D) (f : Feed D)
      → is_success (process_snapshot D crc32 (some d) f).0 ≡ true
      → (g : Feed D) × (Handed f.delta_buffer (taken d f) g
          × ((process_snapshot D crc32 (some d) f).1
              ≡ record g { state = streaming; delta_buffer = [] }))
  unfolding process_snapshot accept_snapshot apply_buffered_deltas apply_local_book_levels
  process_snapshot-Handed d f =
      let Good : Result × Feed D → Type 0 = λ r.
        is_success r.0 ≡ true
        → (g : Feed D) × (Handed f.delta_buffer (taken d f) g
            × (r.1 ≡ record g { state = streaming; delta_buffer = [] })) in
      pick Good (has_none D (parse_levels D d.bids) || has_none D (parse_levels D d.asks)) _ _
        (λ _ h. ground (arith, h))
        (λ _ h.
          let each = apply_each D crc32 f.delta_buffer (taken d f) in
          let (fine, same) =
            after_buffered-success (each.0, record each.1 { delta_buffer = [] }) h in
          (each.1, (apply_each-Handed f.delta_buffer (taken d f) fine, same)))
