-- ===== src/Ipc/SignalReader.antt =====
-- core/ipc/alpha_signal.hpp and core/ipc/regime_signal.hpp: the readers of a signal that another process
-- (research/neural_alpha, `_SignalPublisher`) writes under a sequence number. The file is its number
-- and its five words of eight bytes; each load of a word is atomic, and loads and stores are
-- seen in the order of the program. How the bytes of a word are a double or an int64 is a parameter, and
-- so is what memory held at each load, which the writer may change between any two of them.
pub mod Seqlock
pub mod Gates
use trading_infrastructure_c.Common.{
  ℕ, zero, suc, ◌+◌, ◌%◌, Bool, true, false, not, ◌&&◌, ◌||◌, Option, none, some, List, [], ◌∷◌,
  ltb, ◌==◌, if◌then◌else◌, u64,
}
use trading_infrastructure_c.Common.Int.{ℤ, pos, ◌-ℤ◌, ltb_ℤ, leb_ℤ}
use trading_infrastructure_c.Common.Float.{Float}

pub record Memory : Type 0 where
  pub seq : ℕ
  pub words : ℕ → ℕ

abbrev pub is_odd : ℕ → Bool
is_odd n = n % 2 == 1

-- What the loads of one round meet.
pub record Round : Type 0 where
  pub at_seq1 : Memory
  pub at_word : ℕ → Memory
  pub at_seq2 : Memory

-- The words that a round loads, each at its own time.
abbrev pub loads : Round → ℕ → ℕ
loads r i = (r.at_word i).words i

abbrev pub alpha_round : Round → Option (ℕ → ℕ)
alpha_round r =
    if is_odd r.at_seq1.seq
    then none
    else if r.at_seq1.seq == r.at_seq2.seq
    then some (loads r)
    else none

abbrev pub regime_round : Round → Option (ℕ → ℕ)
regime_round r =
    if is_odd r.at_seq1.seq
    then none
    else if r.at_seq1.seq == r.at_seq2.seq && not (is_odd r.at_seq2.seq)
    then some (loads r)
    else none

abbrev pub is_zero : ℤ → Bool
is_zero z = leb_ℤ z (pos 0) && leb_ℤ (pos 0) z

abbrev pub max_retries : ℕ
max_retries = 16

-- `n` rounds from round `i` on.
unfoldable pub retry : (Round → Option (ℕ → ℕ)) → (ℕ → Round) → ℕ → ℕ → Option (ℕ → ℕ)
retry look rounds i zero = none
retry look rounds i (suc n) =
    let rest = retry look rounds (suc i) n in
    elim (look (rounds i)) [ some w ↦ some w | none ↦ rest ]

module _ (F : Float) (double_of : ℕ → F.double.Carrier) (int64_of : ℕ → ℤ) where
  open F.double use {Carrier, zero as nought, le, lt, neg}

  pub record AlphaSignal : Type 0 where
    pub signal_bps : Carrier
    pub risk_score : Carrier
    pub size_fraction : Carrier
    pub horizon_ticks : ℤ
    pub ts_ns : ℤ

  pub record RegimeSignal : Type 0 where
    pub p_calm : Carrier
    pub p_trending : Carrier
    pub p_shock : Carrier
    pub p_illiquid : Carrier
    pub ts_ns : ℤ

  -- `{}`
  abbrev pub no_alpha : AlphaSignal
  no_alpha = record {
    signal_bps = nought;
    risk_score = nought;
    size_fraction = nought;
    horizon_ticks = pos 0;
    ts_ns = pos 0;
  }

  abbrev pub no_regime : RegimeSignal
  no_regime = record {
    p_calm = nought;
    p_trending = nought;
    p_shock = nought;
    p_illiquid = nought;
    ts_ns = pos 0;
  }

  abbrev pub alpha_of : (ℕ → ℕ) → AlphaSignal
  alpha_of w = record {
    signal_bps = double_of (w 0);
    risk_score = double_of (w 1);
    size_fraction = double_of (w 2);
    horizon_ticks = int64_of (w 3);
    ts_ns = int64_of (w 4);
  }

  abbrev pub regime_of : (ℕ → ℕ) → RegimeSignal
  regime_of w = record {
    p_calm = double_of (w 0);
    p_trending = double_of (w 1);
    p_shock = double_of (w 2);
    p_illiquid = double_of (w 3);
    ts_ns = int64_of (w 4);
  }

  -- The last statements of the two `read`s.
  abbrev pub decoded : Option (ℕ → ℕ) → AlphaSignal
  decoded none = no_alpha
  decoded (some w) = alpha_of w

  abbrev pub decoded_regime : Option (ℕ → ℕ) → RegimeSignal
  decoded_regime none = no_regime
  decoded_regime (some w) = regime_of w

  -- `fd_` and `ptr_` are set and cleared together.
  pub record AlphaSignalReader : Type 0 where
    pub mapped : Bool
    pub signal_min_bps : Carrier
    pub risk_max : Carrier
    pub stale_ns : ℤ
    pub warn_throttle_ns : ℤ
    pub last_warn_ns : ℤ
    pub ipc_warn_count : ℕ

  unfoldable pub read : (ℕ → Round) → AlphaSignalReader → AlphaSignal
  unfolding retry
  read rounds r =
      if not r.mapped then no_alpha else decoded (retry alpha_round rounds 0 max_retries)

  unfoldable pub is_stale : ℤ → AlphaSignal → AlphaSignalReader → Bool
  is_stale now s r = is_zero s.ts_ns || ltb_ℤ r.stale_ns (now -ℤ s.ts_ns)

  unfoldable pub maybe_warn_ipc_unavailable : ℤ → AlphaSignalReader → AlphaSignalReader
  maybe_warn_ipc_unavailable now r =
      if leb_ℤ r.warn_throttle_ns (now -ℤ r.last_warn_ns)
      then record r { last_warn_ns = now; ipc_warn_count = u64 (r.ipc_warn_count + 1) }
      else r

  -- The tests of a fresh signal.
  unfoldable pub allows_long : ℤ → (ℕ → Round) → AlphaSignalReader → Bool × AlphaSignalReader
  unfolding read is_stale maybe_warn_ipc_unavailable
  allows_long now rounds r =
      let s = read rounds r in
      if not r.mapped
      then (true, maybe_warn_ipc_unavailable now r)
      else if is_stale now s r
      then (true, r)
      else (le r.signal_min_bps s.signal_bps && lt s.risk_score r.risk_max, r)

  unfoldable pub allows_short : ℤ → (ℕ → Round) → AlphaSignalReader → Bool × AlphaSignalReader
  unfolding read is_stale maybe_warn_ipc_unavailable
  allows_short now rounds r =
      let s = read rounds r in
      if not r.mapped
      then (true, maybe_warn_ipc_unavailable now r)
      else if is_stale now s r
      then (true, r)
      else (le s.signal_bps (neg r.signal_min_bps) && lt s.risk_score r.risk_max, r)

  unfoldable pub allows_mm : ℤ → (ℕ → Round) → AlphaSignalReader → Bool
  unfolding read is_stale
  allows_mm now rounds r =
      let s = read rounds r in
      if not r.mapped || is_stale now s r then true else lt s.risk_score r.risk_max

  -- RegimeSignalReader, whose `read` opens the file if it has not: `opens` is whether that succeeds.
  -- Returns the signal and whether the file is then mapped.
  unfoldable pub read_regime : Bool → (ℕ → Round) → Bool → RegimeSignal × Bool
  unfolding retry
  read_regime opens rounds mapped =
      if not mapped && not opens
      then (no_regime, false)
      else (decoded_regime (retry regime_round rounds 0 max_retries), true)

  unfoldable pub is_regime_stale : ℤ → RegimeSignal → ℤ → Bool
  is_regime_stale now s stale_ns = is_zero s.ts_ns || ltb_ℤ stale_ns (now -ℤ s.ts_ns)
