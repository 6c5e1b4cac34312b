-- ===== src/Hysteria.antt =====
-- A node of the proxy as its accounting sees it: core/officialhy2/hook.go, accounting.go and the
-- user methods of manager.go. Each callback and each method is one step; the node's limiter is
-- the one registered for its tag.
pub mod Users
pub mod Core
pub mod Events
pub mod Blocking
pub mod Pruning
pub mod Nodes
pub mod Quiet
pub mod Serve
pub mod Tracked
pub mod Serving
pub mod Ending
mod Examples
use v2node_hy.Base.{
  ℕ, ℤ, signed, ltb, String, Bool, true, false, not, ◌&&◌, ◌||◌, Option, none, some, is_some, List,
  [], ◌∷◌, Table, get, put, del, string_key, nat_key, if◌then◌else◌,
}
use v2node_hy.Counter.{TrafficCounter, get_counter, add_down, add_up, new_traffic_counter}
use v2node_hy.Limiter.{Limiter, UserLimitInfo, user_tag, limits_at, set_limits}

-- The addresses of a user's storage and limits, as `trafficUserCache` holds them.
pub record TrafficUserCache : Type 0 where
  pub storage : ℕ
  pub limit : ℕ

-- `users` are those of the authenticator, and `cache` those of the traffic logger.
pub record Node : Type 0 where
  pub tag : String
  pub users : Table String ℤ
  pub limiter : Option Limiter
  pub counter : TrafficCounter
  pub cache : Table String TrafficUserCache

unfoldable pub new_node : String → Option Limiter → Node
new_node tag limiter = record {
  tag = tag;
  users = [];
  limiter = limiter;
  counter = new_traffic_counter;
  cache = [];
}

unfoldable pub authenticate : Node → String → Bool × String
authenticate n auth = if is_some (get auth n.users) then (true, auth) else (false, "")

-- The limits that an address stands for; `none` is a nil pointer.
unfoldable pub limits_in : Option Limiter → Option ℕ → Option UserLimitInfo
limits_in none a = none
limits_in (some l) a = limits_at a l

abbrev pub is_out : Option UserLimitInfo → Bool
is_out none = true
is_out (some i) = i.revoked

-- The address that the limiter has for a tag.
unfoldable pub limit_of : Option Limiter → String → Option ℕ
limit_of none t = none
limit_of (some l) t = get t l.user_limit_info

unfoldable pub new_user : String → Option ℕ → Node → Option TrafficUserCache × Node
new_user id none n = (none, n)
new_user id (some limit) n =
    let (storage, counter) = get_counter id n.counter in
    let user : TrafficUserCache = record { storage = storage; limit = limit } in
    (some user, record n { counter = counter; cache = put id user n.cache })

unfoldable pub look_up : Option TrafficUserCache → String → Node → Option TrafficUserCache × Node
unfolding limits_in limit_of new_user
look_up (some user) id n =
    if is_out (limits_in n.limiter (some user.limit)) then (none, n) else (some user, n)
look_up none id n =
    let limit = limit_of n.limiter (user_tag n.tag id) in
    if is_out (limits_in n.limiter limit) then (none, n) else new_user id limit n

unfoldable pub get_user : String → Node → Option TrafficUserCache × Node
unfolding look_up
get_user id n = look_up (get id n.cache) id n

unfoldable pub set_in : Option Limiter → ℕ → (UserLimitInfo → UserLimitInfo) → Option Limiter
set_in none a f = none
set_in (some l) a f = some (set_limits (some a) f l)

abbrev pub is_over : Option UserLimitInfo → Bool
is_over none = false
is_over (some i) = i.over_limit

-- `int64(rx)` keeps the bits of a `uint64`.
unfoldable pub count_bytes : ℕ → ℕ → ℕ → TrafficCounter → TrafficCounter
count_bytes a tx rx c =
    let d = if ltb 0 rx then add_down a (signed rx) c else c in
    if ltb 0 tx then add_up a (signed tx) d else d

unfoldable pub log_user : Option TrafficUserCache → ℕ → ℕ → Node → Bool × Node
unfolding limits_in set_in count_bytes
log_user none tx rx n = (false, n)
log_user (some user) tx rx n =
    let limits = limits_in n.limiter (some user.limit) in
    if is_out limits
    then (false, n)
    else if is_over limits
    then (
      false,
      record n { limiter = set_in n.limiter user.limit (λ i. record i { over_limit = false }) },
    )
    else (true, record n { counter = count_bytes user.storage tx rx n.counter })

unfoldable pub log_traffic : String → ℕ → ℕ → Node → Bool × Node
unfolding get_user log_user
log_traffic id tx rx n = let (user, m) = get_user id n in log_user user tx rx m

abbrev pub forget_user : String → Node → Node
forget_user id n = record n { cache = del id n.cache }

-- The barrier waits for callbacks that run; in a step none does.
unfoldable pub settle_found : Option TrafficUserCache → String → Node → Node
settle_found none uuid n = n
settle_found (some user) uuid n = record n { cache = del uuid n.cache }

unfoldable pub settle_user : String → Node → Node
unfolding settle_found
settle_user uuid n = settle_found (get uuid n.cache) uuid n
