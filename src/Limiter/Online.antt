-- ===== src/Limiter/Online.antt =====
-- GetOnlineDevice of limiter/limiter.go: the heartbeat's report, which starts a new round of
-- counting devices.
use Prim.Native.String.{String}
use v2node_hy.Limiter.{Limiter, UserLimitInfo, limits_of, set_limits, set_found}
use v2node_hy.Limiter.Check.{
  check_limit, check_user, check_found, trim_mapped, expire, is_expired, without_dynamic,
}
use v2node_hy.Base.{
  ℕ, ℤ, Bool, false, ◌≡◌, refl, ◌∙◌, ap, List, [], ◌∷◌, ◌++◌, Option, none, some, Table, get, put,
  string_key, nat_key, int_key, unless, Bool-cases, inl, inr,
}

pub record OnlineUser : Type 0 where
  pub uid : ℤ
  pub ip : String

-- The inner and the outer range: each address is noted as known, and reported.
unfoldable pub note_ips :
    Table String ℤ → Table String ℤ → List OnlineUser → Table String ℤ × List OnlineUser
note_ips [] known online = (known, online)
note_ips ((ip, uid) ∷ ips) known online =
    note_ips ips (put ip uid known) (online ++ record { uid = uid; ip = ip } ∷ [])

unfoldable pub note_users :
    Table String (Table String ℤ)
    → Table String ℤ
    → List OnlineUser
    → Table String ℤ × List OnlineUser
unfolding note_ips
note_users [] known online = (known, online)
note_users ((t, ips) ∷ users) known online =
    let (k, o) = note_ips ips known online in note_users users k o

unfoldable pub get_online_device : Limiter → List OnlineUser × Limiter
unfolding note_users
get_online_device l =
    let (known, online) = note_users l.user_online_ip [] [] in
    (online, record l { old_user_online = known; user_online_ip = [] })

-- A check of a user who is known and not revoked runs to its end.
pub check_limit-known :
    (now : ℤ) (t ip : String) (b : Bool) (l : Limiter) (u : UserLimitInfo)
    → limits_of t l ≡ some u
    → u.revoked ≡ false
    → check_limit now t ip b l ≡ check_user now t (trim_mapped ip) b u l
unfolding check_limit check_found
check_limit-known now t ip b l u f v =
    ap (λ o. check_found o now t ip b l) f ∙ unless u.revoked _ _ v

set_found_online :
    (a : ℕ) (o : Option UserLimitInfo) (f : UserLimitInfo → UserLimitInfo) (l : Limiter)
    → ((set_found a o f l).user_online_ip ≡ l.user_online_ip)
      × ((set_found a o f l).old_user_online ≡ l.old_user_online)
unfolding set_found
set_found_online a none f l = (refl, refl)
set_found_online a (some i) f l = (refl, refl)

set_limits_online :
    (o : Option ℕ) (f : UserLimitInfo → UserLimitInfo) (l : Limiter)
    → ((set_limits o f l).user_online_ip ≡ l.user_online_ip)
      × ((set_limits o f l).old_user_online ≡ l.old_user_online)
unfolding set_limits
set_limits_online none f l = (refl, refl)
set_limits_online (some a) f l = set_found_online a (get a l.infos) f l

pub expire_online :
    (now : ℤ) (t : String) (u : UserLimitInfo) (l : Limiter)
    → ((expire now t u l).user_online_ip ≡ l.user_online_ip)
      × ((expire now t u l).old_user_online ≡ l.old_user_online)
unfolding expire
expire_online now t u l = elim (Bool-cases (is_expired now u)) [
  | inl e ↦ rw e (set_limits_online (get t l.user_limit_info) without_dynamic l)
  | inr e ↦ rw e (refl, refl)
]
