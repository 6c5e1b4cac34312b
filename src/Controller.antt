-- ===== src/Controller.antt =====
-- The users of a node's controller: node/user.go (revokeReportedUsers, compareUserList,
-- reportHeartbeat) and node/task.go (syncUsers, requestReload). The controller's limiter is the
-- one that the proxy's node holds, so an update of it is an update of that node.
pub mod Compare
pub mod Fence
pub mod Same
pub mod Fingerprint
pub mod Reload
pub mod Monitor
pub mod Steady
pub mod Lifecycle
pub mod Start
pub mod Close
pub mod Budgets
pub mod Reports
mod Examples
use v2node_hy.Base.{
  ℕ, suc, ◌+◌, ◌-◌, ◌==◌, ◌%◌, word_mod, ℤ, ltb, eqb_ℤ, String, Bool, true, false, not, ◌&&◌, ◌||◌,
  Option, none, some, or_else, List, [], ◌∷◌, ◌++◌, length, Table, get, put, del, string_key,
  int_key, if◌then◌else◌,
}
use v2node_hy.Users.{UserInfo, UserSnapshot}
use v2node_hy.Traffic.Effect.{Client}
use v2node_hy.Traffic.Panel.{commit_users, invalidate_users}
use v2node_hy.Limiter.{Limiter, update_user, update_alive_list}
use v2node_hy.Limiter.Online.{OnlineUser, get_online_device}
use v2node_hy.Hysteria.{Node}
use v2node_hy.Hysteria.Core.{V2Core, add_users, del_users}

pub record Controller : Type 0 where
  pub tag : String
  pub server : V2Core
  pub api_client : Client
  pub user_list : List UserInfo
  pub user_generation : ℕ
  pub online_small_traffic : List ℤ

-- The limiter's update, seen through the node that holds the limiter.
abbrev pub limiter_changed : (Limiter → Limiter) → Option Limiter → Option Limiter
limiter_changed f none = none
limiter_changed f (some l) = some (f l)

unfoldable pub with_node : Option Node → (Limiter → Limiter) → String → V2Core → V2Core
with_node none f tag vc = vc
with_node (some n) f tag vc = record vc {
  hy2 = put tag (record n { limiter = limiter_changed f n.limiter }) vc.hy2;
}

unfoldable pub with_limiter : (Limiter → Limiter) → String → V2Core → V2Core
unfolding with_node
with_limiter f tag vc = with_node (get tag vc.hy2) f tag vc

pub record Changes : Type 0 where
  pub deleted : List UserInfo
  pub added : List UserInfo
  pub modified : List UserInfo

unfoldable pub old_map : List UserInfo → Table String UserInfo → Table String UserInfo
old_map [] m = m
old_map (u ∷ us) m = old_map us (put u.uuid u m)

abbrev pub differs : UserInfo → UserInfo → Bool
differs o u = not (eqb_ℤ o.speed_limit u.speed_limit) || not (eqb_ℤ o.device_limit u.device_limit)

unfoldable pub values : Table String UserInfo → List UserInfo
values [] = []
values ((uuid, u) ∷ m) = u ∷ values m

-- One user of the new list, and the loop over it; what is left of the map is deleted.
unfoldable pub compare_one :
    Option UserInfo → UserInfo → Table String UserInfo × Changes → Table String UserInfo × Changes
compare_one none u (m, r) = (m, record r { added = r.added ++ u ∷ [] })
compare_one (some o) u (m, r) =
    (del u.uuid m, if differs o u then record r { modified = r.modified ++ u ∷ [] } else r)

unfoldable pub compare_all :
    List UserInfo → Table String UserInfo × Changes → Table String UserInfo × Changes
unfolding compare_one
compare_all [] p = p
compare_all (u ∷ us) (m, r) = compare_all us (compare_one (get u.uuid m) u (m, r))

unfoldable pub compare_user_list : List UserInfo → List UserInfo → Changes
unfolding old_map compare_all values
compare_user_list old new =
    let (m, r) =
      compare_all new (old_map old [], record { deleted = []; added = []; modified = [] }) in
    record r { deleted = values m }

unfoldable pub is_listed : ℤ → List ℤ → Bool
is_listed id [] = false
is_listed id (i ∷ is) = eqb_ℤ i id || is_listed id is

unfoldable pub with_ids : Bool → List ℤ → List UserInfo → List UserInfo
unfolding is_listed
with_ids listed ids [] = []
with_ids listed ids (u ∷ us) =
    let rest = with_ids listed ids us in
    if (if listed then is_listed u.id ids else not (is_listed u.id ids)) then u ∷ rest else rest

abbrev pub next_generation : ℕ → ℕ
next_generation g = (g + 1) % word_mod

-- The first part of a result tells whether the call returns without an error; `none` is the
-- error of DelUsers.
unfoldable pub revoke_rest : Option V2Core → List ℤ → Controller → Bool × Controller
unfolding with_ids with_limiter update_user invalidate_users
revoke_rest none ids c = (false, c)
revoke_rest (some vc) ids c = (
  true,
  record c {
    server = with_limiter (update_user c.tag [] (with_ids true ids c.user_list) []) c.tag vc;
    user_list = with_ids false ids c.user_list;
    api_client = invalidate_users c.api_client;
  },
)

unfoldable pub revoke_reported_users : List ℤ → Controller → Bool × Controller
unfolding del_users revoke_rest
revoke_reported_users [] c = (true, c)
revoke_reported_users (i ∷ is) c =
    revoke_rest (del_users c.tag (with_ids true (i ∷ is) c.user_list) c.server) (i ∷ is)
      (record c { user_generation = next_generation c.user_generation })

abbrev pub is_empty : List UserInfo → Bool
is_empty us = length us == 0

unfoldable pub sync_deleted : Changes → Controller → Option V2Core
unfolding del_users
sync_deleted r c = if is_empty r.deleted then some c.server else del_users c.tag r.deleted c.server

-- A failed AddUsers has noted the ids all the same.
abbrev pub is_added : Option ℕ × V2Core → Bool × V2Core
is_added (none, left) = (false, left)
is_added (some n, left) = (true, left)

unfoldable pub sync_added : Changes → Controller → V2Core → Bool × V2Core
unfolding add_users
sync_added r c vc =
    if is_empty r.added
    then (true, vc)
    else is_added (add_users (some "hysteria2") c.tag r.added vc)

-- The limiter, the list and the validator, once the runtime has the users.
unfoldable pub sync_rest : Changes → UserSnapshot → Controller → Bool × V2Core → Controller
unfolding with_limiter update_user commit_users
sync_rest r snapshot c (false, left) = record c { server = left }
sync_rest r snapshot c (true, left) = record c {
  server =
      if is_empty r.added && is_empty r.deleted && is_empty r.modified
      then left
      else with_limiter (update_user c.tag r.added r.deleted r.modified) c.tag left;
  user_list = snapshot.users;
  api_client = commit_users (some snapshot) c.api_client;
}

unfoldable pub sync_changes : Changes → UserSnapshot → Controller → Controller
unfolding sync_deleted sync_added sync_rest
sync_changes r snapshot c = elim (sync_deleted r c) [
  | none ↦ c
  | some vc ↦ sync_rest r snapshot c (sync_added r c vc)
]

-- The rest of syncUsers, after a request that began in `generation` and succeeded; a snapshot of
-- `none` is an unchanged list.
unfoldable pub sync_users : ℕ → Option UserSnapshot → Controller → Controller
unfolding compare_user_list sync_changes invalidate_users
sync_users generation snapshot c =
    if not (generation == c.user_generation)
    then record c { api_client = invalidate_users c.api_client }
    else elim snapshot [
      | none ↦ c
      | some s ↦ sync_changes (compare_user_list c.user_list s.users) s c
    ]

-- The addresses of the heartbeat by user; users with little traffic are left out.
unfoldable pub online_data :
    List ℤ → List OnlineUser → Table ℤ (List String) → Table ℤ (List String)
unfolding is_listed
online_data small [] table = table
online_data small (d ∷ ds) table = online_data small ds (
    if is_listed d.uid small
    then table
    else put d.uid (or_else (get d.uid table) [] ++ d.ip ∷ []) table)

-- The report of the heartbeat; `alive` is the answer of the panel, if the task gets one in time.
unfoldable pub report_heartbeat :
    List ℤ → Option (Table ℤ ℤ) → Limiter → Table ℤ (List String) × Limiter
unfolding online_data get_online_device
report_heartbeat small alive l =
    let (devices, m) = get_online_device l in
    (online_data small devices [], elim alive [ none ↦ m | some a ↦ update_alive_list a m ])

-- One minute, and requestReload: `now` and the time of the last reload are in nanoseconds.
abbrev pub min_reload_interval : ℕ
min_reload_interval = 60_000_000_000

unfoldable pub request_reload : ℕ → Option ℕ → Bool × Option ℕ
request_reload now none = (true, some now)
request_reload now (some last) =
    if ltb (now - last) min_reload_interval then (false, some last) else (true, some now)
