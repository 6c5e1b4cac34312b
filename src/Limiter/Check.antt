-- ===== src/Limiter/Check.antt =====
-- CheckLimit of limiter/limiter.go, and what it admits and rejects.
use Prim.Native.Char.{code}
use Prim.Native.String.{String}
use v2node_hy.Limiter.{
  Limiter, UserLimitInfo, determine_speed_limit, bytes_per_second, limits_of, set_limits, mega,
  eighth,
}
use v2node_hy.Base.{
  ◌==◌, ℤ, pos, ltb_ℤ, leb_ℤ, eqb_ℤ, Bool, true, false, not, ◌&&◌, ◌||◌, str_eq, [], Option, none,
  some, or_else, Table, get, put, del, string_key, nat_key, int_key, if◌then◌else◌,
}

-- strings.TrimPrefix(ip, "::ffff:"): `none` where the text does not begin so.
unfoldable pub strip : String → String → Option String
strip String.[] s = some s
strip (String.◌∷◌ c p) String.[] = none
strip (String.◌∷◌ c p) (String.◌∷◌ d s) =
    let rest = strip p s in if code c == code d then rest else none

unfoldable pub trim_mapped : String → String
trim_mapped ip = or_else (strip "::ffff:" ip) ip

-- The bucket's rate, or no limit.
pub data Decision : Type 0 where
  rejected : Decision
  allowed : Option ℤ → Decision

-- A dynamic limit whose time is over is taken back.
abbrev pub is_expired : ℤ → UserLimitInfo → Bool
is_expired now u = ltb_ℤ u.expire_time now && not (eqb_ℤ u.expire_time (pos 0))

abbrev pub without_dynamic : UserLimitInfo → UserLimitInfo
without_dynamic u = record u { dynamic_speed_limit = pos 0; expire_time = pos 0 }

unfoldable pub user_limit : ℤ → UserLimitInfo → ℤ
user_limit now u =
    if is_expired now u
    then u.speed_limit
    else determine_speed_limit u.speed_limit u.dynamic_speed_limit

unfoldable pub expire : ℤ → String → UserLimitInfo → Limiter → Limiter
expire now t u l =
    if is_expired now u then set_limits (get t l.user_limit_info) without_dynamic l else l

abbrev pub is_full : UserLimitInfo → Limiter → Bool
is_full u l =
    ltb_ℤ (pos 0) u.device_limit && leb_ℤ u.device_limit (or_else (get u.uid l.alive_list) (pos 0))

abbrev pub set_online : String → Table String ℤ → Limiter → Limiter
set_online t ips l = record l { user_online_ip = put t ips l.user_online_ip }

-- `l` has the address among the user's online ones; an address known from the last heartbeat is
-- not new. A new one over the limit is taken out again by `undo`.
unfoldable pub admit :
    Option ℤ → String → UserLimitInfo → (Limiter → Limiter) → Limiter → Bool × Limiter
admit (some owner) ip u undo l =
    (true, if eqb_ℤ owner u.uid then record l { old_user_online = del ip l.old_user_online } else l)
admit none ip u undo l = if is_full u l then (false, undo l) else (true, l)

unfoldable pub first_online : String → String → UserLimitInfo → Limiter → Bool × Limiter
first_online t ip u l =
    admit (get ip l.old_user_online) ip u
      (λ m. record m { user_online_ip = del t m.user_online_ip }) (set_online t (put ip u.uid []) l)

unfoldable pub more_online :
    Option ℤ → String → String → UserLimitInfo → Table String ℤ → Limiter → Bool × Limiter
more_online (some known) t ip u ips l = (true, l)
more_online none t ip u ips l =
    admit (get ip l.old_user_online) ip u (set_online t (del ip (put ip u.uid ips)))
      (set_online t (put ip u.uid ips) l)

unfoldable pub go_online :
    Option (Table String ℤ) → String → String → UserLimitInfo → Limiter → Bool × Limiter
unfolding first_online more_online
go_online none t ip u l = first_online t ip u l
go_online (some ips) t ip u l = more_online (get ip ips) t ip u ips l

-- An existing bucket keeps its rate.
unfoldable pub bucket_rate : Option ℤ → String → ℤ → Limiter → Decision × Limiter
bucket_rate (some rate) t limit l = (allowed (some rate), l)
bucket_rate none t limit l =
    (allowed (some limit), record l { speed_limiter = put t limit l.speed_limiter })

unfoldable pub take_bucket : String → ℤ → Limiter → Decision × Limiter
unfolding bucket_rate
take_bucket t limit l =
    if ltb_ℤ (pos 0) limit then bucket_rate (get t l.speed_limiter) t limit l else (allowed none, l)

abbrev pub counts_devices : Bool → Limiter → Bool
counts_devices no_udp_source l =
    no_udp_source || str_eq l.node_type "hysteria2" || str_eq l.node_type "tuic"

unfoldable pub finish_check : String → ℤ → Bool × Limiter → Decision × Limiter
unfolding take_bucket determine_speed_limit mega eighth
finish_check t limit (false, l) = (rejected, l)
finish_check t limit (true, l) =
    take_bucket t (bytes_per_second (determine_speed_limit l.speed_limit limit)) l

unfoldable pub check_user :
    ℤ → String → String → Bool → UserLimitInfo → Limiter → Decision × Limiter
unfolding user_limit expire go_online finish_check
check_user now t ip no_udp_source u l =
    let m = expire now t u l in
    finish_check t (user_limit now u) (
      if counts_devices no_udp_source l
      then go_online (get t m.user_online_ip) t ip u m
      else (true, m))

unfoldable pub check_found :
    Option UserLimitInfo → ℤ → String → String → Bool → Limiter → Decision × Limiter
unfolding check_user
check_found none now t ip no_udp_source l = (rejected, l)
check_found (some u) now t ip no_udp_source l =
    if u.revoked then (rejected, l) else check_user now t (trim_mapped ip) no_udp_source u l

unfoldable pub check_limit : ℤ → String → String → Bool → Limiter → Decision × Limiter
unfolding check_found limits_of
check_limit now t ip no_udp_source l = check_found (limits_of t l) now t ip no_udp_source l
