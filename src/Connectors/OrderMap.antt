-- ===== src/Connectors/OrderMap.antt =====
-- core/execution/common/connectors/venue_order_map.hpp. The array of 512 entries is a list, a pointer
-- into it an index; strings are the bytes before the NUL, cut to the size of the destination.
pub mod Laws
pub mod Erase
use trading_infrastructure_c.Common.{
  ℕ, Bool, true, false, not, ◌&&◌, Option, none, some, List, [], ◌∷◌, ◌==◌, if◌then◌else◌, take,
  get_or, set, replicate,
}
use trading_infrastructure_c.Common.Slots.{find_index}

pub data Exchange : Type 0 where
  binance okx coinbase kraken unknown : Exchange

pub record VenueOrderEntry : Type 0 where
  pub client_order_id : ℕ
  pub venue_order_id : List ℕ
  pub exchange : Exchange
  pub symbol : List ℕ
  pub active : Bool

abbrev pub max_entries : ℕ
max_entries = 512

abbrev pub blank_entry : VenueOrderEntry
blank_entry = record {
  client_order_id = 0;
  venue_order_id = [];
  exchange = Exchange.binance;
  symbol = [];
  active = false;
}

abbrev pub OrderMap : Type 0
OrderMap = List VenueOrderEntry

pub empty_map : OrderMap
empty_map = replicate max_entries blank_entry

abbrev pub has_id : ℕ → VenueOrderEntry → Bool
has_id id e = e.active && e.client_order_id == id

abbrev pub is_free : VenueOrderEntry → Bool
is_free e = not e.active

abbrev pub entry_at : OrderMap → ℕ → VenueOrderEntry
entry_at m i = get_or m i blank_entry

-- The byte loop of `copy_str` into a buffer of `n` bytes; a null pointer gives the empty string.
pub copy_str : ℕ → Option (List ℕ) → List ℕ
copy_str n none = []
copy_str n (some src) = take n src

unfoldable pub find : ℕ → OrderMap → Option ℕ
find id m = find_index (has_id id) m

unfoldable pub find_free_slot : OrderMap → Option ℕ
find_free_slot m = find_index is_free m

pub entry_of : OrderMap → Option ℕ → Option VenueOrderEntry
entry_of m none = none
entry_of m (some i) = some (entry_at m i)

unfoldable pub get : ℕ → OrderMap → Option VenueOrderEntry
unfolding entry_of find
get id m = entry_of m (find id m)

-- The entry that `upsert` writes.
unfoldable pub new_entry : ℕ → Option (List ℕ) → Exchange → Option (List ℕ) → VenueOrderEntry
unfolding copy_str
new_entry id venue exchange symbol = record {
  client_order_id = id;
  venue_order_id = copy_str 47 venue;
  exchange = exchange;
  symbol = copy_str 15 symbol;
  active = true;
}

write_slot : VenueOrderEntry → OrderMap → Option ℕ → Bool × OrderMap
write_slot e m none = (false, m)
write_slot e m (some i) = (true, set m i e)

first_slot : OrderMap → Option ℕ → Option ℕ
first_slot m none = find_free_slot m
first_slot m (some i) = some i

unfoldable pub upsert :
    ℕ → Option (List ℕ) → Exchange → Option (List ℕ) → OrderMap → Bool × OrderMap
unfolding write_slot first_slot
upsert id venue exchange symbol m =
    write_slot (new_entry id venue exchange symbol) m (first_slot m (find id m))

pub erase_slot : OrderMap → Option ℕ → Bool × OrderMap
erase_slot m none = (false, m)
erase_slot m (some i) = (true, set m i blank_entry)

unfoldable pub erase : ℕ → OrderMap → Bool × OrderMap
unfolding erase_slot
erase id m = erase_slot m (find id m)

unfoldable pub clear : OrderMap → OrderMap
clear [] = []
clear (e ∷ m) = blank_entry ∷ clear m

-- The entries that `for_each_active` visits, in order.
unfoldable pub active_entries : OrderMap → List VenueOrderEntry
active_entries [] = []
active_entries (e ∷ m) = let rest = active_entries m in if e.active then e ∷ rest else rest
