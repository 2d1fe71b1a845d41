-- ===== src/Ipc/LobPublisher.antt =====
-- core/ipc/lob_publisher.hpp: a ring of slots in a mapped file, with the number of messages ever written in
-- its header. `base_` and `header_` are set and cleared together, so one flag stands for both. What the
-- system calls of `open` return is an argument. The file's slots are a function of their index.
pub mod Rings
use trading_infrastructure_c.Common.{
  ℕ, zero, suc, ◌+◌, ◌%◌, Bool, true, false, not, ◌||◌, List, [], ◌∷◌, ◌++◌, ◌==◌, length, take,
  replicate, update, if◌then◌else◌, u64,
}
use trading_infrastructure_c.Common.Int.{ℤ, pos}
use trading_infrastructure_c.Common.Float.{Float}
use trading_infrastructure_c.Connectors.OrderMap.{Exchange}
use trading_infrastructure_c.Books.OrderBook.{PriceLevel}

abbrev pub capacity : ℕ
capacity = 10_000

abbrev pub levels : ℕ
levels = 10

abbrev pub exchange_id : Exchange → ℕ
exchange_id Exchange.binance = 0
exchange_id Exchange.okx = 1
exchange_id Exchange.coinbase = 2
exchange_id Exchange.kraken = 3
exchange_id Exchange.unknown = 255

-- The bytes of a C string: those before the first zero.
abbrev pub c_str : List ℕ → List ℕ
c_str [] = []
c_str (c ∷ cs) = if c == 0 then [] else c ∷ c_str cs

-- memset of `n` bytes and strncpy of the string into them.
abbrev pub pad : {A : Type 0} → ℕ → A → List A → List A
pad zero a xs = []
pad (suc n) a [] = a ∷ pad n a []
pad (suc n) a (x ∷ xs) = x ∷ pad n a xs

-- The last of the fifteen bytes is never written.
abbrev pub symbol_cells : List ℕ → List ℕ
symbol_cells symbol = pad 14 0 (c_str symbol) ++ 0 ∷ []

module _ (F : Float) where
  open F.double use {Carrier, zero as nought}

  -- The four arrays of numbers and two of counts, by level.
  pub record LobSlot : Type 0 where
    pub exchange_id : ℕ
    pub symbol : List ℕ
    pub timestamp_ns : ℤ
    pub mid_price : Carrier
    pub bids : List (PriceLevel F)
    pub asks : List (PriceLevel F)
    pub trade_direction : ℕ

  pub record Message : Type 0 where
    pub exchange : Exchange
    pub symbol : List ℕ
    pub timestamp_ns : ℤ
    pub mid_price : Carrier
    pub bids : List (PriceLevel F)
    pub asks : List (PriceLevel F)
    pub trade_direction : ℕ

  abbrev pub no_level : PriceLevel F
  no_level = record { price = nought; size = nought; order_count = 0 }

  unfoldable pub slot_of : Message → LobSlot
  slot_of m = record {
    exchange_id = exchange_id m.exchange;
    symbol = symbol_cells m.symbol;
    timestamp_ns = m.timestamp_ns;
    mid_price = m.mid_price;
    bids = pad levels no_level m.bids;
    asks = pad levels no_level m.asks;
    trade_direction = m.trade_direction;
  }

  abbrev pub empty_slot : LobSlot
  empty_slot = record {
    exchange_id = 0;
    symbol = replicate 15 0;
    timestamp_ns = pos 0;
    mid_price = nought;
    bids = replicate levels no_level;
    asks = replicate levels no_level;
    trade_direction = 0;
  }

  pub record File : Type 0 where
    pub magic : List ℕ
    pub version : ℕ
    pub slot_size : ℕ
    pub capacity : ℕ
    pub write_seq : ℕ
    pub slots : ℕ → LobSlot

  pub record Publisher : Type 0 where
    pub fd : Bool
    pub mapped : Bool
    pub file : File

  -- What open(2), ftruncate(2) and mmap(2) return: whether they succeed.
  pub record Calls : Type 0 where
    pub opens : Bool
    pub truncates : Bool
    pub maps : Bool

  -- "TRTLOB01"
  abbrev pub fresh_file : File
  fresh_file = record {
    magic = 84 ∷ 82 ∷ 84 ∷ 76 ∷ 79 ∷ 66 ∷ 48 ∷ 49 ∷ [];
    version = 1;
    slot_size = 440;
    capacity = capacity;
    write_seq = 0;
    slots = λ i. empty_slot;
  }

  abbrev pub is_open : Publisher → Bool
  is_open p = p.mapped

  unfoldable pub open_file : Calls → Publisher → Bool × Publisher
  open_file c p =
      if is_open p
      then (true, p)
      else if not c.opens || not c.truncates || not c.maps
      then (false, record p { fd = false })
      else (true, record { fd = true; mapped = true; file = fresh_file })

  unfoldable pub close : Publisher → Publisher
  close p = record p { fd = false; mapped = false }

  unfoldable pub publish : Message → Publisher → Publisher
  unfolding slot_of
  publish m p = if not (is_open p) then p else record p {
    file = record p.file {
      slots = update p.file.slots (p.file.write_seq % capacity) (slot_of m);
      write_seq = u64 (p.file.write_seq + 1);
    };
  }
