-- ===== src/Feeds/OkxFeed/Checksum.antt =====
-- The handler's book of core/feeds/okx/okx_feed_handler.cpp and the checksum of its text.
use trading_infrastructure_c.Common.{
  ℕ, zero, suc, Bool, true, false, ◌&&◌, Option, none, some, List, [], ◌∷◌, ◌++◌, ◌==◌,
  if◌then◌else◌,
}
use trading_infrastructure_c.Common.Int.{ℤ, leb_ℤ}
use trading_infrastructure_c.Common.Double.{Double}
use trading_infrastructure_c.Feeds.OkxFeed.{
  Level, LevelJson, malformed, level, BookData, Entry, Feed,
}

module _ (D : Double) where
  open D use {Carrier, zero as nought, lt, equal}

  -- The orders of the two maps.
  abbrev pub bid_before : Carrier → Carrier → Bool
  bid_before a b = lt b a

  abbrev pub ask_before : Carrier → Carrier → Bool
  ask_before a b = lt a b

  unfoldable pub erase : (Carrier → Carrier → Bool) → Carrier → List (Entry D) → List (Entry D)
  erase before price [] = []
  erase before price (e ∷ es) =
      let rest = erase before price es in
      if before price e.price then e ∷ es else if before e.price price then e ∷ rest else es

  -- An entry that is there keeps its key.
  unfoldable pub put : (Carrier → Carrier → Bool) → Level D → List (Entry D) → List (Entry D)
  put before l [] =
      record { price = l.price; price_text = l.price_text; size_text = l.size_text } ∷ []
  put before l (e ∷ es) =
      let rest = put before l es in
      if before l.price e.price
      then record { price = l.price; price_text = l.price_text; size_text = l.size_text } ∷ e ∷ es
      else if before e.price l.price
      then e ∷ rest
      else record e { price_text = l.price_text; size_text = l.size_text } ∷ es

  unfoldable pub apply_side :
      (Carrier → Carrier → Bool) → List (LevelJson D) → List (Entry D) → List (Entry D)
  unfolding erase put
  apply_side before [] es = es
  apply_side before (malformed ∷ ls) es = apply_side before ls es
  apply_side before (level l ∷ ls) es =
      apply_side before ls
        (if equal l.size nought then erase before l.price es else put before l es)

  unfoldable pub apply_local_book_levels : BookData D → Feed D → Feed D
  unfolding apply_side
  apply_local_book_levels d f = record f {
    bids = apply_side bid_before d.bids f.bids;
    asks = apply_side ask_before d.asks f.asks;
  }

  abbrev pub colon : ℕ
  colon = 58

  abbrev pub with_bid : List (Entry D) → List ℕ → List ℕ
  with_bid [] text = text
  with_bid (e ∷ es) text = text ++ e.price_text ++ (colon ∷ e.size_text)

  abbrev pub separated : List ℕ → List ℕ
  separated [] = []
  separated (c ∷ cs) = c ∷ cs ++ (colon ∷ [])

  abbrev pub with_ask : List (Entry D) → List ℕ → List ℕ
  with_ask [] text = text
  with_ask (e ∷ es) text = separated text ++ e.price_text ++ (colon ∷ e.size_text)

  abbrev pub tail : List (Entry D) → List (Entry D)
  tail [] = []
  tail (e ∷ es) = es

  abbrev pub is_end : List (Entry D) → Bool
  is_end [] = true
  is_end (e ∷ es) = false

  -- The loop over `n` levels, of which `i` are done.
  unfoldable pub serialize : ℕ → ℕ → List (Entry D) → List (Entry D) → List ℕ → List ℕ
  serialize zero i bids asks text = text
  serialize (suc n) i bids asks text =
      let begun = if i == 0 then text else text ++ (colon ∷ []) in
      let rest =
        serialize n (suc i) (tail bids) (tail asks) (with_ask asks (with_bid bids begun)) in
      if is_end bids && is_end asks then text else rest

  abbrev pub checksum_matches : ℤ → Option ℤ → Bool
  checksum_matches local none = true
  checksum_matches local (some remote) = leb_ℤ local remote && leb_ℤ remote local

  unfoldable pub validate_checksum : (List ℕ → ℤ) → BookData D → Feed D → Bool
  unfolding serialize apply_side
  validate_checksum crc32 d f =
      checksum_matches
        (crc32 (
          serialize 25 0 (apply_side bid_before d.bids f.bids) (apply_side ask_before d.asks f.asks)
            []))
        d.checksum
