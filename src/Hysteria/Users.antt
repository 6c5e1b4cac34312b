-- ===== src/Hysteria/Users.antt =====
-- The methods of the manager on the users of a node: core/officialhy2/manager.go and accounting.go.
use v2node_hy.Base.{
  ℕ, suc, ◌*◌, ℤ, pos, negsuc, sub_ℕ, wrap, ◌+ℤ◌, leb_ℤ, eqb_ℤ, ltb, String, Bool, not, ◌&&◌, ◌||◌,
  str_eq, Option, none, some, is_some, List, [], ◌∷◌, ◌++◌, length, Table, get, put, del,
  string_key, nat_key, if◌then◌else◌,
}
use v2node_hy.Users.{UserInfo}
use v2node_hy.Traffic.{UserTraffic}
use v2node_hy.Counter.{
  TrafficCounter, TrafficStorage, storage_at, get_up_count, get_down_count, subtract, delete,
}
use v2node_hy.Limiter.{Limiter, user_tag, revoke_user}
use v2node_hy.Hysteria.{Node, forget_user, settle_user}

abbrev pub Manager : Type 0
Manager = Table String Node

abbrev pub has_node : String → Manager → Bool
has_node tag m = is_some (get tag m)

unfoldable pub add_user : UserInfo → Node → Node
add_user u n = record (forget_user u.uuid n) { users = put u.uuid u.id n.users }

unfoldable pub add_all : List UserInfo → Node → Node
unfolding add_user
add_all [] n = n
add_all (u ∷ us) n = add_all us (add_user u n)

unfoldable pub revoke_in : Option Limiter → String → Option Limiter
revoke_in none t = none
revoke_in (some l) t = some (revoke_user t l)

unfoldable pub del_user : UserInfo → Node → Node
unfolding revoke_in settle_user
del_user u n =
    settle_user u.uuid (record n {
      users = del u.uuid n.users;
      limiter = revoke_in n.limiter (user_tag n.tag u.uuid);
    })

unfoldable pub del_all : List UserInfo → Node → Node
unfolding del_user
del_all [] n = n
del_all (u ∷ us) n = del_all us (del_user u n)

-- `none` is "node not found".
unfoldable pub add_users : String → List UserInfo → Manager → Option (ℕ × Manager)
unfolding add_all
add_users tag users m = elim (get tag m) [
  | none ↦ none
  | some n ↦ some (length users, put tag (add_all users n) m)
]

unfoldable pub del_found : Option Node → String → List UserInfo → Manager → Option Manager
unfolding del_all
del_found none tag users m = none
del_found (some n) tag users m = some (put tag (del_all users n) m)

unfoldable pub del_users : String → List UserInfo → Manager → Option Manager
unfolding del_found
del_users tag users m = del_found (get tag m) tag users m

-- `minTraffic*1000`.
unfoldable pub kilo : ℤ → ℤ
kilo (pos n) = pos (n * 1000)
kilo (negsuc n) = sub_ℕ 0 (suc n * 1000)

abbrev pub is_skipped : Node → ℤ → String → TrafficStorage → Bool
is_skipped n min_traffic uuid s =
    let sum = wrap (s.up_counter +ℤ s.down_counter) in
    eqb_ℤ sum (pos 0) || (is_some (get uuid n.users) && leb_ℤ sum (wrap (kilo min_traffic)))

-- The callback of Range on one entry, and Range over the entries that it starts with; a counter
-- of an unknown user is deleted.
unfoldable pub slice_entry :
    Node
    → ℤ
    → (String → ℤ)
    → String
    → TrafficStorage
    → List UserTraffic × TrafficCounter
    → List UserTraffic × TrafficCounter
slice_entry n min_traffic uid_for_uuid uuid s (rows, c) =
    if is_skipped n min_traffic uuid s
    then (rows, c)
    else if eqb_ℤ (uid_for_uuid uuid) (pos 0)
    then (rows, delete uuid c)
    else (
      rows
          ++ record {
            uid = uid_for_uuid uuid;
            upload = s.up_counter;
            download = s.down_counter;
            uuid = uuid;
          }
            ∷ [],
      c,
    )

unfoldable pub slice_entries :
    Node
    → ℤ
    → (String → ℤ)
    → Table String ℕ
    → List UserTraffic × TrafficCounter
    → List UserTraffic × TrafficCounter
unfolding slice_entry
slice_entries n min_traffic uid_for_uuid [] r = r
slice_entries n min_traffic uid_for_uuid ((uuid, a) ∷ entries) r =
    slice_entries n min_traffic uid_for_uuid entries
      (slice_entry n min_traffic uid_for_uuid uuid (storage_at a n.counter) r)

unfoldable pub node_traffic_slice : Node → ℤ → (String → ℤ) → List UserTraffic × Node
unfolding slice_entries
node_traffic_slice n min_traffic uid_for_uuid =
    let (rows, c) = slice_entries n min_traffic uid_for_uuid n.counter.counters ([], n.counter) in
    (rows, record n { counter = c })

unfoldable pub get_user_traffic_slice :
    String → ℤ → (String → ℤ) → Manager → List UserTraffic × Manager
unfolding node_traffic_slice
get_user_traffic_slice tag min_traffic uid_for_uuid m = elim (get tag m) [
  | none ↦ ([], m)
  | some n ↦ let (rows, k) = node_traffic_slice n min_traffic uid_for_uuid in (rows, put tag k m)
]

unfoldable pub commit_row : UserTraffic → TrafficCounter → TrafficCounter
commit_row r c = if str_eq r.uuid "" then c else subtract r.uuid r.upload r.download c

unfoldable pub commit_rows : List UserTraffic → TrafficCounter → TrafficCounter
unfolding commit_row
commit_rows [] c = c
commit_rows (r ∷ rs) c = commit_rows rs (commit_row r c)

unfoldable pub commit_user_traffic : String → List UserTraffic → Manager → Manager
unfolding commit_rows
commit_user_traffic tag reported m = elim (get tag m) [
  | none ↦ m
  | some n ↦ put tag (record n { counter = commit_rows reported n.counter }) m
]

-- A user who is not active, and has nothing left to report, loses the counter.
abbrev pub is_prunable : Node → String → TrafficCounter → Bool
is_prunable n uuid c =
    not (is_some (get uuid n.users))
    && eqb_ℤ (get_up_count uuid c) (pos 0)
    && eqb_ℤ (get_down_count uuid c) (pos 0)

unfoldable pub prune_all :
    Node → List String → List String × TrafficCounter → List String × TrafficCounter
prune_all n [] r = r
prune_all n (uuid ∷ uuids) (removed, c) =
    prune_all n uuids
      (if is_prunable n uuid c then (removed ++ uuid ∷ [], delete uuid c) else (removed, c))

unfoldable pub prune_found : Option Node → String → List String → Manager → List String × Manager
unfolding prune_all
prune_found none tag uuids m = ([], m)
prune_found (some n) tag uuids m =
    let (removed, c) = prune_all n uuids ([], n.counter) in
    (removed, put tag (record n { counter = c }) m)

unfoldable pub prune_retired_users : String → List String → Manager → List String × Manager
unfolding prune_found
prune_retired_users tag uuids m = prune_found (get tag m) tag uuids m

-- The users of QuiesceNode; the server's own stop is left out.
unfoldable pub listed : Table String ℤ → List UserInfo
listed [] = []
listed ((uuid, id) ∷ users) =
    record { id = id; uuid = uuid; speed_limit = pos 0; device_limit = pos 0 } ∷ listed users

unfoldable pub quiesce_users : String → Manager → Option Manager
unfolding listed del_users
quiesce_users tag m = elim (get tag m) [ none ↦ some m | some n ↦ del_users tag (listed n.users) m ]

-- Nanoseconds, as time.Duration counts them.
abbrev pub second : ℕ
second = 1_000_000_000

-- A delay that stays far below the bound of `int64`.
unfoldable pub next_restart_backoff : ℕ → ℕ
next_restart_backoff current = if ltb (30 * second) (current * 2) then 30 * second else current * 2
