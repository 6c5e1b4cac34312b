-- ===== src/Counter.antt =====
-- The byte counters of a node's users: common/counter/traffic.go. Storages live in a heap, since
-- the hook's cached users (core/officialhy2/hook.go) hold their addresses; each atomic operation
-- is one step, so a compare-and-swap succeeds at its first attempt.
pub mod Laws
use v2node_hy.Base.{
  ℕ, suc, ◌+◌, ℤ, pos, ◌+ℤ◌, ◌-ℤ◌, wrap, leb_ℤ, ltb_ℤ, String, Bool, true, false, List, [], ◌∷◌,
  length, Option, none, some, Table, get, put, del, string_key, nat_key, if◌then◌else◌,
}

pub record TrafficStorage : Type 0 where
  pub up_counter : ℤ
  pub down_counter : ℤ

-- `storages` is the heap, and `fresh` its next address.
pub record TrafficCounter : Type 0 where
  pub counters : Table String ℕ
  pub storages : Table ℕ TrafficStorage
  pub fresh : ℕ

abbrev pub new_traffic_counter : TrafficCounter
new_traffic_counter = record { counters = []; storages = []; fresh = 0 }

abbrev pub new_storage : TrafficStorage
new_storage = record { up_counter = pos 0; down_counter = pos 0 }

unfoldable pub add_storage : String → TrafficCounter → ℕ × TrafficCounter
add_storage uuid c = (
  c.fresh,
  record {
    counters = put uuid c.fresh c.counters;
    storages = put c.fresh new_storage c.storages;
    fresh = suc c.fresh;
  },
)

unfoldable pub found_or_new : Option ℕ → String → TrafficCounter → ℕ × TrafficCounter
unfolding add_storage
found_or_new (some a) uuid c = (a, c)
found_or_new none uuid c = add_storage uuid c

unfoldable pub get_counter : String → TrafficCounter → ℕ × TrafficCounter
unfolding found_or_new
get_counter uuid c = found_or_new (get uuid c.counters) uuid c

-- The storage at an address.
unfoldable pub storage_at : ℕ → TrafficCounter → TrafficStorage
storage_at a c = elim (get a c.storages) [ none ↦ new_storage | some s ↦ s ]

unfoldable pub count_of : (TrafficStorage → ℤ) → Option ℕ → TrafficCounter → ℤ
unfolding storage_at
count_of part none c = pos 0
count_of part (some a) c = part (storage_at a c)

unfoldable pub get_up_count : String → TrafficCounter → ℤ
unfolding count_of
get_up_count uuid c = count_of (λ s. s.up_counter) (get uuid c.counters) c

unfoldable pub get_down_count : String → TrafficCounter → ℤ
unfolding count_of
get_down_count uuid c = count_of (λ s. s.down_counter) (get uuid c.counters) c

abbrev pub len : TrafficCounter → ℕ
len c = length c.counters

unfoldable pub set_storage : ℕ → TrafficStorage → TrafficCounter → TrafficCounter
set_storage a s c = record c { storages = put a s c.storages }

unfoldable pub set_if_found :
    Option ℕ → (TrafficStorage → TrafficStorage) → TrafficCounter → TrafficCounter
unfolding set_storage storage_at
set_if_found none f c = c
set_if_found (some a) f c = set_storage a (f (storage_at a c)) c

unfoldable pub reset : String → TrafficCounter → TrafficCounter
unfolding set_if_found
reset uuid c = set_if_found (get uuid c.counters) (λ s. new_storage) c

-- `current - n` wraps as int64 does.
unfoldable pub subtract_atomic : ℤ → ℤ → ℤ
subtract_atomic current n =
    if leb_ℤ n (pos 0)
    then current
    else if ltb_ℤ (wrap (current -ℤ n)) (pos 0)
    then pos 0
    else wrap (current -ℤ n)

abbrev pub less : ℤ → ℤ → TrafficStorage → TrafficStorage
less up down s = record {
  up_counter = subtract_atomic s.up_counter up;
  down_counter = subtract_atomic s.down_counter down;
}

unfoldable pub subtract : String → ℤ → ℤ → TrafficCounter → TrafficCounter
unfolding set_if_found
subtract uuid up down c = set_if_found (get uuid c.counters) (less up down) c

unfoldable pub delete : String → TrafficCounter → TrafficCounter
delete uuid c = record c { counters = del uuid c.counters }

unfoldable pub add_down : ℕ → ℤ → TrafficCounter → TrafficCounter
unfolding set_storage storage_at
add_down a n c =
    let s = storage_at a c in
    set_storage a (record s { down_counter = wrap (s.down_counter +ℤ n) }) c

unfoldable pub add_up : ℕ → ℤ → TrafficCounter → TrafficCounter
unfolding set_storage storage_at
add_up a n c =
    let s = storage_at a c in set_storage a (record s { up_counter = wrap (s.up_counter +ℤ n) }) c

unfoldable pub rx : String → ℤ → TrafficCounter → TrafficCounter
unfolding get_counter add_down
rx uuid n c = let (a, d) = get_counter uuid c in add_down a n d

unfoldable pub tx : String → ℤ → TrafficCounter → TrafficCounter
unfolding get_counter add_up
tx uuid n c = let (a, d) = get_counter uuid c in add_up a n d
