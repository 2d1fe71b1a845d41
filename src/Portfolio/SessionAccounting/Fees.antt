-- ===== src/Portfolio/SessionAccounting/Fees.antt =====
-- The fees that a session counts, snapshot by snapshot, while the table of seen fills is not full.
use trading_infrastructure_c.Common.{
  ℕ, zero, suc, ◌+◌, ◌%◌, ◌≤◌, ◌≡◌, refl, ap, ◌∙◌, All, map, inl, inr, ◌||◌, List, [], ◌∷◌, ◌++◌,
  length, length-append, replicate, set, arith, Bool-cases,
}
use mathlib.Core.Path.{subst}
use trading_infrastructure_c.Common.Float.{Float}
use trading_infrastructure_c.Portfolio.SessionAccounting.{
  max_seen_fills, SeenFillKey, no_key, Fill, Snapshot, VenueState, update_derived,
}
use trading_infrastructure_c.Portfolio.SessionAccounting.Repeats.{
  fees_once, IsShort, key_fees, key_fees-fees_once,
}
use trading_infrastructure_c.Portfolio.SessionAccounting.Ingest.{
  matches, is_fill_seen, key_of, remember_fill, fee_to_usd, new_fees, collect_new_fees, ingest_into,
}

set-append :
    {A : Type 0} (xs ys : List A) (x y : A)
    → set (xs ++ x ∷ ys) (length xs) y ≡ (xs ++ y ∷ []) ++ ys
set-append [] ys x y = refl
set-append (z ∷ xs) ys x y = ap (◌∷◌ z) (set-append xs ys x y)

module _ (F : Float) where
  open F.double use {Carrier, zero as nought, add}

  pub record Ingested : Type 0 where
    pub snapshot : Snapshot F
    pub symbol : List ℕ
    pub mark_price : Carrier

  abbrev pub session_fees : List Ingested → Carrier × List (Fill F) → Carrier × List (Fill F)
  session_fees [] acc = acc
  session_fees (i ∷ is) (total, counted) =
      let (fees, now_counted) = fees_once F i.snapshot.fills (nought, counted) in
      session_fees is (add total fees, now_counted)

  pub ingest_all : List Ingested → VenueState F → VenueState F
  unfolding ingest_into
  ingest_all [] s = s
  ingest_all (i ∷ is) s = ingest_all is (ingest_into F i.snapshot i.symbol i.mark_price s)

  abbrev pub fill_count : List Ingested → ℕ
  fill_count [] = 0
  fill_count (i ∷ is) = length i.snapshot.fills + fill_count is

  -- The table has the keys `seen`, oldest first, and free cells after them.
  pub record Remembers (s : VenueState F) (seen : List SeenFillKey) (free : ℕ) : Type 0 where
    pub keys : s.seen_fill_keys ≡ seen ++ replicate free no_key
    pub cells : length seen + free ≡ max_seen_fills
    pub cursor : s.seen_fill_cursor ≡ length seen

  seen_free :
      (f : Fill F) (seen : List SeenFillKey) (free : ℕ)
      → is_fill_seen F f (seen ++ replicate free no_key) ≡ is_fill_seen F f seen
  seen_free f [] zero = refl
  seen_free f [] (suc free) = seen_free f [] free
  seen_free f (k ∷ seen) free = ap (λ b. matches F f k || b) (seen_free f seen free)

  remember_fill-Remembers :
      (f : Fill F) (s : VenueState F) (seen : List SeenFillKey) (free : ℕ)
      → Remembers s seen (suc free)
      → Remembers (remember_fill F f s) (seen ++ key_of F f ∷ []) free
  unfolding remember_fill
  remember_fill-Remembers f s seen free r = record {
    keys =
        let slot : s.seen_fill_cursor % max_seen_fills ≡ length seen =
          omega (arith, r.cells, r.cursor) in
        ap (λ (k : ℕ). set s.seen_fill_keys k (key_of F f)) slot
        ∙ ap (λ l. set l (length seen) (key_of F f)) r.keys
        ∙ set-append seen (replicate free no_key) no_key (key_of F f);
    cells = omega (arith, r.cells, length-append seen (key_of F f ∷ []));
    cursor = omega (arith, r.cells, r.cursor, length-append seen (key_of F f ∷ []));
  }

  -- What one pass over the fills of a snapshot leaves.
  record Agrees (o : Carrier × VenueState F) (w : Carrier × List SeenFillKey) (s : VenueState F)
      (room : ℕ) : Type 0 where
    fees : o.0 ≡ w.0
    metrics : o.1.metrics ≡ s.metrics
    free : ℕ
    remembers : Remembers o.1 w.1 free
    enough : room ≤ free

  remember_fill-metrics :
      (f : Fill F) (s : VenueState F) → (remember_fill F f s).metrics ≡ s.metrics
  unfolding remember_fill
  remember_fill-metrics f s = refl

  new_fees-Agrees :
      (fs : List (Fill F)) (t : Carrier) (s : VenueState F) (seen : List SeenFillKey)
      (free room : ℕ)
      → Remembers s seen free
      → length fs + room ≤ free
      → Agrees (new_fees F fs (t, s)) (key_fees F fs (t, seen)) s room
  unfolding new_fees
  new_fees-Agrees [] t s seen free room r l = record {
    fees = refl;
    metrics = refl;
    free = free;
    remembers = r;
    enough = omega arith;
  }
  new_fees-Agrees (f ∷ fs) t s seen zero room r l = absurd (omega arith)
  new_fees-Agrees (f ∷ fs) t s seen (suc free) room r l =
      let table = ap (is_fill_seen F f) r.keys ∙ seen_free f seen (suc free) in
      elim (Bool-cases (is_fill_seen F f seen)) [
        | inl e ↦ rw (table, e) (new_fees-Agrees fs t s seen (suc free) room r (omega arith))
        | inr e ↦
            let a =
              new_fees-Agrees fs (add t (fee_to_usd F f)) (remember_fill F f s)
                (seen ++ key_of F f ∷ []) free room (remember_fill-Remembers f s seen free r)
                (omega arith) in
            rw (table, e)
              (record {
                fees = a.fees;
                metrics = a.metrics ∙ remember_fill-metrics f s;
                free = a.free;
                remembers = a.remembers;
                enough = a.enough;
              })
      ]

  -- Let the table hold the keys of the fills `counted`, oldest first, with a free cell for each fill of the
  -- snapshots that follow, and let no trade id be longer than 63 bytes. Then after all the snapshots the
  -- fees of the venue have grown by the fee of each fill that has not its trade id and its exchange time
  -- in common with one of `counted` or with a fill before it in the snapshots.
  pub ingest_all-fees :
      (is : List Ingested) (s : VenueState F) (counted : List (Fill F)) (free : ℕ)
      → All (IsShort F) counted
      → All (λ i. All (IsShort F) i.snapshot.fills) is
      → Remembers s (map (key_of F) counted) free
      → fill_count is ≤ free
      → (ingest_all is s).metrics.fees ≡ (session_fees is (s.metrics.fees, counted)).0
  unfolding ingest_all ingest_into collect_new_fees update_derived
  ingest_all-fees [] s counted free hc hs r l = refl
  ingest_all-fees (i ∷ is) s counted free hc (hi, hs) r l =
      let a =
        new_fees-Agrees i.snapshot.fills nought s (map (key_of F) counted) free (fill_count is) r
          l in
      let (same, short) = key_fees-fees_once F i.snapshot.fills nought counted hi hc in
      let keys : (key_fees F i.snapshot.fills (nought, map (key_of F) counted)).1
          ≡ map (key_of F) (fees_once F i.snapshot.fills (nought, counted)).1 =
        ap (λ (p : Carrier × List SeenFillKey). p.1) same in
      let rest =
        ingest_all-fees is (ingest_into F i.snapshot i.symbol i.mark_price s)
          (fees_once F i.snapshot.fills (nought, counted)).1 a.free short hs
          (subst (λ ks. Remembers (ingest_into F i.snapshot i.symbol i.mark_price s) ks a.free) keys
            (record {
              keys = a.remembers.keys;
              cells = a.remembers.cells;
              cursor = a.remembers.cursor;
            }))
          a.enough in
      rest
      ∙ ap
          (λ x.
            (session_fees is
              (add s.metrics.fees x, (fees_once F i.snapshot.fills (nought, counted)).1)).0)
          (a.fees ∙ ap (λ (p : Carrier × List SeenFillKey). p.0) same)
