-- ===== src/Limiter.antt =====
-- Device and rate limits of a node: limiter/limiter.go and limiter/dynamic.go. The mutex makes
-- each method one step. The limits of users live in a heap, since the hook's cached users
-- (core/officialhy2/hook.go) hold their addresses; a bucket is its rate in bytes per second.
pub mod Check
pub mod Blocking
pub mod Revocation
pub mod Online
pub mod Devices
use Prim.Native.Char.{code}
use Prim.Native.String.{String}
use v2node_hy.Users.{UserInfo}
use v2node_hy.Base.{
  ℕ, suc, ◌+◌, ◌*◌, ◌/◌, ◌==◌, ℤ, pos, negsuc, sub_ℕ, wrap, ltb_ℤ, leb_ℤ, eqb_ℤ, Bool, true, false,
  not, ◌&&◌, ◌||◌, str_eq, str_append, List, [], ◌∷◌, ◌++◌, Option, none, some, is_some, or_else,
  Table, get, put, del, string_key, nat_key, int_key, if◌then◌else◌,
}

pub record UserLimitInfo : Type 0 where
  pub uid : ℤ
  pub speed_limit : ℤ
  pub device_limit : ℤ
  pub dynamic_speed_limit : ℤ
  pub expire_time : ℤ
  pub over_limit : Bool
  pub revoked : Bool

-- `infos` is the heap that `user_limit_info` points into, and `fresh` its next address.
pub record Limiter : Type 0 where
  pub node_type : String
  pub speed_limit : ℤ
  pub user_online_ip : Table String (Table String ℤ)
  pub old_user_online : Table String ℤ
  pub uuid_to_uid : Table String ℤ
  pub user_limit_info : Table String ℕ
  pub speed_limiter : Table String ℤ
  pub alive_list : Table ℤ ℤ
  pub infos : Table ℕ UserLimitInfo
  pub fresh : ℕ

-- format.UserTag of common/format/user.go.
unfoldable pub user_tag : String → String → String
user_tag tag uuid = str_append tag (str_append "|" uuid)

unfoldable pub determine_speed_limit : ℤ → ℤ → ℤ
determine_speed_limit limit1 limit2 =
    if eqb_ℤ limit1 (pos 0) || eqb_ℤ limit2 (pos 0)
    then if ltb_ℤ limit2 limit1 then limit1 else if ltb_ℤ limit1 limit2 then limit2 else pos 0
    else if ltb_ℤ limit2 limit1
    then limit2
    else limit1

-- `int64(limit) * 1000000 / 8`: the product wraps, and the division drops the fraction.
unfoldable pub mega : ℤ → ℤ
mega (pos n) = pos (n * 1_000_000)
mega (negsuc n) = sub_ℕ 0 (suc n * 1_000_000)

unfoldable pub eighth : ℤ → ℤ
eighth (pos n) = pos (n / 8)
eighth (negsuc n) = sub_ℕ 0 (suc n / 8)

abbrev pub bytes_per_second : ℤ → ℤ
bytes_per_second limit = eighth (wrap (mega limit))

-- The limits of a user that AddLimiter and UpdateUser store: a field that the panel leaves 0 stays 0.
abbrev pub new_limits : UserInfo → UserLimitInfo
new_limits u = record {
  uid = u.id;
  speed_limit = u.speed_limit;
  device_limit = u.device_limit;
  dynamic_speed_limit = pos 0;
  expire_time = pos 0;
  over_limit = false;
  revoked = false;
}

unfoldable pub add_user : String → UserInfo → Limiter → Limiter
add_user tag u l = record l {
  user_limit_info = put (user_tag tag u.uuid) l.fresh l.user_limit_info;
  uuid_to_uid = put u.uuid u.id l.uuid_to_uid;
  infos = put l.fresh (new_limits u) l.infos;
  fresh = suc l.fresh;
}

unfoldable pub add_users : String → List UserInfo → Limiter → Limiter
unfolding add_user
add_users tag [] l = l
add_users tag (u ∷ us) l = add_users tag us (add_user tag u l)

unfoldable pub add_limiter : String → String → List UserInfo → Table ℤ ℤ → Limiter
unfolding add_users
add_limiter node_type tag users alive = add_users tag users (record {
  node_type = node_type;
  speed_limit = pos 0;
  user_online_ip = [];
  old_user_online = [];
  uuid_to_uid = [];
  user_limit_info = [];
  speed_limiter = [];
  alive_list = alive;
  infos = [];
  fresh = 0;
})

-- The limits at an address, and those of a user.
abbrev pub limits_at : Option ℕ → Limiter → Option UserLimitInfo
limits_at none l = none
limits_at (some a) l = get a l.infos

unfoldable pub limits_of : String → Limiter → Option UserLimitInfo
limits_of taguuid l = limits_at (get taguuid l.user_limit_info) l

unfoldable pub set_found :
    ℕ → Option UserLimitInfo → (UserLimitInfo → UserLimitInfo) → Limiter → Limiter
set_found a none f l = l
set_found a (some i) f l = record l { infos = put a (f i) l.infos }

unfoldable pub set_limits : Option ℕ → (UserLimitInfo → UserLimitInfo) → Limiter → Limiter
unfolding set_found
set_limits none f l = l
set_limits (some a) f l = set_found a (get a l.infos) f l

unfoldable pub revoke_user : String → Limiter → Limiter
unfolding set_limits
revoke_user taguuid l =
    set_limits (get taguuid l.user_limit_info) (λ i. record i { revoked = true }) l

unfoldable pub remove_user : String → UserInfo → Limiter → Limiter
unfolding revoke_user
remove_user tag u l =
    let t = user_tag tag u.uuid in
    let r = revoke_user t l in
    record r {
      user_limit_info = del t r.user_limit_info;
      user_online_ip = del t r.user_online_ip;
      speed_limiter = del t r.speed_limiter;
      uuid_to_uid = del u.uuid r.uuid_to_uid;
      alive_list = del u.id r.alive_list;
    }

unfoldable pub remove_users : String → List UserInfo → Limiter → Limiter
unfolding remove_user
remove_users tag [] l = l
remove_users tag (u ∷ us) l = remove_users tag us (remove_user tag u l)

abbrev pub changed_limits : UserInfo → UserLimitInfo → UserLimitInfo
changed_limits u i = record i { speed_limit = u.speed_limit; device_limit = u.device_limit }

-- The bucket of a modified user takes the new rate, or goes.
unfoldable pub set_rate : String → ℤ → Limiter → Limiter
set_rate t limit l =
    if ltb_ℤ (pos 0) limit
    then record l { speed_limiter = put t limit l.speed_limiter }
    else record l { speed_limiter = del t l.speed_limiter }

unfoldable pub modify_user : String → UserInfo → Limiter → Limiter
unfolding set_limits set_rate determine_speed_limit mega eighth
modify_user tag u l =
    let t = user_tag tag u.uuid in
    set_rate t (bytes_per_second (determine_speed_limit l.speed_limit u.speed_limit))
      (set_limits (get t l.user_limit_info) (changed_limits u) l)

unfoldable pub modify_users : String → List UserInfo → Limiter → Limiter
unfolding modify_user
modify_users tag [] l = l
modify_users tag (u ∷ us) l = modify_users tag us (modify_user tag u l)

unfoldable pub update_user :
    String → List UserInfo → List UserInfo → List UserInfo → Limiter → Limiter
unfolding remove_users modify_users add_users
update_user tag added deleted modified l =
    add_users tag added (modify_users tag modified (remove_users tag deleted l))

-- `none` is "not found".
unfoldable pub update_dynamic_speed_limit : String → String → ℤ → ℤ → Limiter → Option Limiter
unfolding set_limits
update_dynamic_speed_limit tag uuid limit expire l =
    elim (get (user_tag tag uuid) l.user_limit_info) [
      | none ↦ none
      | some a ↦ some (
          set_limits (some a) (λ i. record i { dynamic_speed_limit = limit; expire_time = expire })
            l)
    ]

abbrev pub update_alive_list : Table ℤ ℤ → Limiter → Limiter
update_alive_list alive l = record l { alive_list = alive }
