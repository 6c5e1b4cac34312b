-- ===== src/Examples.antt =====
-- Two users at one node, and the theorems on counters, limits, the proxy's node, the controller
-- and tasks applied to them.
use v2node_hy.Base.{
  ◌-◌, ◌==◌, ltb, pos, ◌+ℤ◌, wrap, signed, bits, String, true, false, not, ◌&&◌, ◌≡◌, refl, [], ◌∷◌,
  All, none, some, get, put, string_key, int_key, nat_key, str_eq, if◌then◌else◌, arith,
}
use v2node_hy.Users.{UserInfo, has_uuid}
use v2node_hy.Counter.{
  TrafficCounter, new_traffic_counter, get_down_count, get_up_count, rx, subtract, get_counter,
  found_or_new, add_storage, add_up, set_storage, storage_at, count_of,
}
use v2node_hy.Limiter.{
  Limiter, add_limiter, add_users, add_user, user_tag, determine_speed_limit, new_limits,
  update_user,
}
use v2node_hy.Limiter.Check.{rejected, check_limit}
use v2node_hy.Hysteria.Events.{
  EventLogger, is_rejected, set_user_over_limit, check_event, check_event-check_event,
}
use v2node_hy.Limiter.Blocking.{IsHeld, IsRevoked}
use v2node_hy.Limiter.Revocation.{update_user-revokes, determine_speed_limit_lem}
use v2node_hy.Hysteria.{Node, authenticate, log_traffic, new_node}
use v2node_hy.Hysteria.Users.{add_all, del_all, prune_all}
use v2node_hy.Hysteria.Blocking.{del_all-blocks}
use v2node_hy.Hysteria.Pruning.{prune_all-keeps}
use v2node_hy.Traffic.Effect.{new_client}
use v2node_hy.Traffic.Panel.{invalidate_users}
use v2node_hy.Controller.{
  Controller, is_listed, with_ids, revoke_reported_users, sync_users, compare_user_list,
}
use v2node_hy.Controller.Compare.{compare_user_list-deleted, compare_user_list-added}
use v2node_hy.Controller.Fence.{
  IsUnlisted, sync_users-revoke_reported_users, revoke_reported_users-bars,
}
use v2node_hy.Task.{Task, times_out, time_out, here, next}
use v2node_hy.Task.Safety.{IsPatient, Steps-IsPatient}
use v2node_hy.Counter.Laws.{IsOwned, get_counter-IsOwned, get_down_count-rx, get_up_count-subtract}

abbrev alice : UserInfo
alice = record { id = pos 1; uuid = "a"; speed_limit = pos 0; device_limit = pos 2 }

abbrev bob : UserInfo
bob = record { id = pos 2; uuid = "b"; speed_limit = pos 10; device_limit = pos 0 }

empty-IsOwned : IsOwned new_traffic_counter
unfolding get
empty-IsOwned = record {
  single = λ u v a p q. absurd (ground arith);
  bounded = λ u a p. absurd (ground arith);
}

abbrev counted : TrafficCounter
counted = (get_counter "a" new_traffic_counter).1

counted-IsOwned : IsOwned counted
counted-IsOwned = get_counter-IsOwned "a" new_traffic_counter empty-IsOwned

get_down_count-rx_example : get_down_count "b" (rx "a" (pos 5) counted) ≡ (
    if str_eq "a" "b"
    then wrap (get_down_count "a" counted +ℤ pos 5)
    else get_down_count "b" counted)
get_down_count-rx_example = get_down_count-rx "a" "b" (pos 5) counted counted-IsOwned

abbrev charged : TrafficCounter
charged = add_up 0 (pos 7) counted

charged-IsOwned : IsOwned charged
unfolding add_up set_storage
charged-IsOwned = record { single = counted-IsOwned.single; bounded = counted-IsOwned.bounded }

charged_up : get_up_count "a" charged ≡ pos 7
unfolding get_up_count count_of storage_at get put add_up set_storage get_counter found_or_new
    add_storage wrap ◌+ℤ◌ signed bits
charged_up = refl

charged_down : get_down_count "a" charged ≡ pos 0
unfolding get_down_count count_of storage_at get put add_up set_storage get_counter found_or_new
    add_storage wrap ◌+ℤ◌ signed bits
charged_down = refl

get_up_count-subtract_example :
    (get_up_count "a" (subtract "a" (pos 9) (pos 2) charged)
      ≡ (if str_eq "a" "a" then pos (7 - 9) else get_up_count "a" charged))
    × (get_down_count "a" (subtract "a" (pos 9) (pos 2) charged)
        ≡ (if str_eq "a" "a" then pos (0 - 2) else get_down_count "a" charged))
get_up_count-subtract_example =
    get_up_count-subtract "a" "a" 7 0 9 2 charged charged-IsOwned charged_up charged_down
      (ground arith, ground arith) (ground arith, ground arith)

determine_speed_limit_lem_example :
    determine_speed_limit (pos 0) (pos 10)
    ≡ pos (if 0 == 0 then 10 else if 10 == 0 then 0 else if ltb 0 10 then 0 else 10)
determine_speed_limit_lem_example = determine_speed_limit_lem 0 10

-- The node's limiter, and the same with one address of the first user online.
abbrev limits : Limiter
limits = add_limiter "hysteria2" "t" (alice ∷ bob ∷ []) ((pos 1, pos 2) ∷ [])

abbrev with_device : Limiter
with_device = record limits { user_online_ip = (user_tag "t" "a", ("10.0.0.1", pos 1) ∷ []) ∷ [] }

alice-IsHeld : IsHeld (user_tag "t" "a") 0 limits
unfolding add_limiter add_users add_user user_tag get put
alice-IsHeld = record { found = refl; present = (new_limits alice, refl); below = ground arith }

update_user-revokes_example :
    let m = update_user "t" [] (alice ∷ []) [] limits in
    IsRevoked 0 m × (check_limit (pos 9) (user_tag "t" "a") "10.0.0.1" true m ≡ (rejected, m))
update_user-revokes_example =
    update_user-revokes "t" "a" [] (alice ∷ []) [] 0 limits (pos 9) "10.0.0.1" true alice-IsHeld
      (unfold has_uuid in refl) (unfold has_uuid in refl)

abbrev proxy : Node
proxy = add_all (alice ∷ bob ∷ []) (new_node "t" (some limits))

del_all-blocks_example :
    let m = del_all (alice ∷ []) proxy in
    (authenticate m "a" ≡ (false, "")) × (log_traffic "a" 5 6 m ≡ (false, m))
del_all-blocks_example = del_all-blocks (alice ∷ []) "a" 5 6 proxy (unfold has_uuid in refl)

prune_all-keeps_example :
    let r = prune_all proxy ("a" ∷ "z" ∷ []) ([], proxy.counter) in
    All (λ u. get u proxy.users ≡ none) r.0
    × ((v : String)
        → (get_up_count v r.1 ≡ get_up_count v proxy.counter)
          × (get_down_count v r.1 ≡ get_down_count v proxy.counter))
prune_all-keeps_example = prune_all-keeps proxy ("a" ∷ "z" ∷ [])

abbrev events : EventLogger
events = record {
  limit_cache = [];
  last_limit_cache_sweep = 0;
  limit_check_cache_ttl = 2_000_000_000;
  limit_cache_sweep_every = 60_000_000_000;
}

check_event-check_event_example :
    let r = check_event 100 (pos 9) (user_tag "t" "z") "10.0.0.2" "tcp" events (some with_device) in
    let reject =
      is_rejected
        (check_limit (pos 9) (user_tag "t" "z") "10.0.0.2" (str_eq "tcp" "tcp") with_device).0 in
    check_event 200 (pos 9) (user_tag "t" "z") "10.0.0.2" "tcp" r.0 r.1
    ≡ (r.0, if reject then set_user_over_limit r.1 (user_tag "t" "z") true else r.1)
check_event-check_event_example =
    check_event-check_event 100 200 (pos 9) (pos 9) (user_tag "t" "z") "10.0.0.2" "tcp" events
      with_device (unfold get in refl) (ground arith)

abbrev controller : Controller
controller = record {
  tag = "t";
  server = record { hy2 = ("t", proxy) ∷ []; uid_map = [] };
  api_client = new_client "outbox";
  user_list = alice ∷ bob ∷ [];
  user_generation = 4;
  online_small_traffic = [];
}

sync_users-revoke_reported_users_example :
    let d = (revoke_reported_users (pos 1 ∷ []) controller).1 in
    sync_users 4 (some (record { users = alice ∷ []; etag = "e" })) d
    ≡ record d { api_client = invalidate_users d.api_client }
sync_users-revoke_reported_users_example =
    sync_users-revoke_reported_users (pos 1) [] (some (record { users = alice ∷ []; etag = "e" }))
      controller (ground arith)

revoke_reported_users-bars_example :
    let r = revoke_reported_users (pos 1 ∷ []) controller in
    (r.0 ≡ true)
    × All (λ u. is_listed u.id (pos 1 ∷ []) ≡ false) r.1.user_list
    × IsUnlisted "a" (get r.1.tag r.1.server.hy2)
revoke_reported_users-bars_example =
    revoke_reported_users-bars (pos 1) [] "a" proxy controller (unfold get in refl)
      (unfold has_uuid with_ids is_listed in refl)

compare_user_list-deleted_example :
    has_uuid "a" (compare_user_list (alice ∷ []) (bob ∷ [])).deleted
    ≡ (has_uuid "a" (alice ∷ []) && not (has_uuid "a" (bob ∷ [])))
compare_user_list-deleted_example = compare_user_list-deleted (alice ∷ []) (bob ∷ []) "a"

compare_user_list-added_example :
    has_uuid "b" (compare_user_list (alice ∷ []) (bob ∷ [])).added
    ≡ (has_uuid "b" (bob ∷ []) && not (has_uuid "b" (alice ∷ [])))
compare_user_list-added_example =
    compare_user_list-added (alice ∷ []) (bob ∷ []) "b" (unfold has_uuid in (refl, tt))

abbrev monitor : Task
monitor = record {
  interval = 60;
  timeout = 45;
  reload_on_timeout = false;
  exit_on_timeout = true;
  exit_on_timeout_after = 3;
  reload_channel = some 1;
  running = true;
  closed = false;
  looping = true;
  locked = true;
  live = true;
  cancelled = false;
  timeout_count = 2;
  reloads = 0;
  exiting = false;
  pausing = false;
  pausing_alone = false;
  exited = false;
}

abbrev unused_monitor : Task
unused_monitor = record monitor {
  running = false;
  looping = false;
  locked = false;
  live = false;
  timeout_count = 0;
  exit_on_timeout_after = 1;
}

abbrev started_monitor : Task
started_monitor = record unused_monitor { running = true; looping = true }

abbrev executing_monitor : Task
executing_monitor = record started_monitor { locked = true; live = true }

abbrev pausing_monitor : Task
pausing_monitor = record executing_monitor { timeout_count = 1; exiting = true; pausing = true }

Steps-IsPatient_example : IsPatient (time_out monitor)
Steps-IsPatient_example =
    Steps-IsPatient monitor (time_out monitor)
      (record { exits_on_timeout = refl; never_reloads = refl; patient = λ e. ground arith })
      (next _ _ _ (times_out monitor refl) (here _))
