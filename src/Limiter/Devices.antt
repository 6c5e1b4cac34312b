-- ===== src/Limiter/Devices.antt =====
-- The device limit: a new address of a user who has all devices online is turned away.
use v2node_hy.Limiter.{Limiter}
use v2node_hy.Base.{
  ℤ, Bool, false, ◌≡◌, String, Option, none, some, is_some, Table, get, string_key, nat_key,
  int_key,
}

abbrev is_known : Option (Table String ℤ) → String → Bool
is_known none ip = false
is_known (some ips) ip = is_some (get ip ips)

-- The address counts among the user's devices.
abbrev pub is_online : String → String → Limiter → Bool
is_online t ip l = is_known (get t l.user_online_ip) ip

-- The result of a check that fails, with the address not online.
abbrev IsRefused : String → String → Bool × Limiter → Type 0
IsRefused t ip r = (r.0 ≡ false) × (is_online t ip r.1 ≡ false)
