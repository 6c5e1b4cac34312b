-- ===== src/Hysteria/Core.antt =====
-- The runtime's methods on users: core/user.go. `uid_map` maps the tag of a user to the panel's id.
use v2node_hy.Base.{
  ℕ, ℤ, pos, ◌==◌, String, not, ◌||◌, str_eq, Option, none, some, or_else, List, [], ◌∷◌, map,
  length, Table, get, put, del, string_key, if◌then◌else◌,
}
use v2node_hy.Users.{UserInfo}
use v2node_hy.Traffic.{UserTraffic}
use v2node_hy.Limiter.{user_tag}
use v2node_hy.Hysteria.Users.{
  Manager, has_node, get_user_traffic_slice, commit_user_traffic, prune_retired_users,
}
use v2node_hy.Hysteria.Users as hy2

pub record V2Core : Type 0 where
  pub hy2 : Manager
  pub uid_map : Table String ℤ

unfoldable pub forget_ids : String → List String → Table String ℤ → Table String ℤ
forget_ids tag [] ids = ids
forget_ids tag (uuid ∷ uuids) ids = forget_ids tag uuids (del (user_tag tag uuid) ids)

unfoldable pub prune_retired_traffic : String → List String → V2Core → V2Core
unfolding forget_ids prune_retired_users
prune_retired_traffic tag uuids vc =
    let (removed, m) = prune_retired_users tag uuids vc.hy2 in
    record { hy2 = m; uid_map = forget_ids tag removed vc.uid_map }

abbrev pub uuid_of : UserInfo → String
uuid_of u = u.uuid

abbrev pub row_uuid : UserTraffic → String
row_uuid r = r.uuid

unfoldable pub prune_deleted : Option Manager → String → List UserInfo → V2Core → Option V2Core
unfolding prune_retired_traffic
prune_deleted none tag users vc = none
prune_deleted (some m) tag users vc =
    some (prune_retired_traffic tag (map uuid_of users) (record vc { hy2 = m }))

-- `none` is an error.
unfoldable pub del_users : String → List UserInfo → V2Core → Option V2Core
unfolding hy2.del_users prune_deleted
del_users tag users vc =
    prune_deleted (if has_node tag vc.hy2 then hy2.del_users tag users vc.hy2 else some vc.hy2) tag
      users vc

unfoldable pub user_traffic_slice : String → ℤ → V2Core → List UserTraffic × V2Core
unfolding get_user_traffic_slice
user_traffic_slice tag min_traffic vc =
    if not (has_node tag vc.hy2)
    then ([], vc)
    else let (rows, m) =
        get_user_traffic_slice tag min_traffic
          (λ uuid. or_else (get (user_tag tag uuid) vc.uid_map) (pos 0)) vc.hy2 in
      (rows, record vc { hy2 = m })

unfoldable pub commit_user_traffic_slice : String → List UserTraffic → V2Core → V2Core
unfolding commit_user_traffic prune_retired_traffic
commit_user_traffic_slice tag reported vc =
    if length reported == 0 || not (has_node tag vc.hy2)
    then vc
    else prune_retired_traffic tag (map row_uuid reported)
        (record vc { hy2 = commit_user_traffic tag reported vc.hy2 })

unfoldable pub note_ids : String → List UserInfo → Table String ℤ → Table String ℤ
note_ids tag [] ids = ids
note_ids tag (u ∷ us) ids = note_ids tag us (put (user_tag tag u.uuid) u.id ids)

-- `node_type` is `none` for missing parameters; the first part of the result is "added".
unfoldable pub add_users : Option String → String → List UserInfo → V2Core → Option ℕ × V2Core
unfolding note_ids hy2.add_users
add_users none tag users vc = (none, vc)
add_users (some node_type) tag users vc =
    let ids = note_ids tag users vc.uid_map in
    if not (str_eq node_type "hysteria2")
    then (none, vc)
    else elim (hy2.add_users tag users vc.hy2) [
      | none ↦ (none, record vc { uid_map = ids })
      | some (count, m) ↦ (some count, record { hy2 = m; uid_map = ids })
    ]
