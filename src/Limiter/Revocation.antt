-- ===== src/Limiter/Revocation.antt =====
-- Removed users are turned away for good, and callbacks that hold their limits see the revocation.
use Prim.Native.String.{String}
use v2node_hy.Users.{UserInfo, has_uuid}
use v2node_hy.Limiter.{
  Limiter, UserLimitInfo, user_tag, determine_speed_limit, limits_at, limits_of, set_limits,
  set_found, revoke_user, remove_user, remove_users, update_user,
}
use v2node_hy.Limiter.Check.{rejected, check_limit, check_found}
use v2node_hy.Base.{
  ℕ, ◌<◌, ◌==◌, ℤ, pos, ltb, Bool, true, false, ◌≡◌, refl, ◌∙◌, ap, sym, subst, List, [], ◌∷◌,
  Option, none, some, get, get-put, get-put_self, get-del, unless, unless_not, string_key, nat_key,
  int_key, str_eq, str_eq_iff, if◌then◌else◌, arith, Bool-cases, inl, inr,
}
use v2node_hy.Limiter.Blocking.{
  IsRevoked, user_tag_eq, IsBlocked, IsHeld, set_limits-rest, modify_users-IsBlocked,
  add_users-IsBlocked, remove_users-IsBlocked,
}

-- On rates that are not negative, with 0 for no limit, the result is the lesser limit.
pub determine_speed_limit_lem :
    (a b : ℕ)
    → determine_speed_limit (pos a) (pos b)
      ≡ pos (if a == 0 then b else if b == 0 then a else if ltb a b then a else b)
unfolding determine_speed_limit
determine_speed_limit_lem a b = ground arith

set_found-present :
    (b : ℕ) (o : Option UserLimitInfo) (f : UserLimitInfo → UserLimitInfo) (l : Limiter) (a : ℕ)
    → (i : UserLimitInfo) × (get a l.infos ≡ some i)
    → (i : UserLimitInfo) × (get a (set_found b o f l).infos ≡ some i)
unfolding set_found
set_found-present b none f l a h = h
set_found-present b (some j) f l a (i, e) = elim (Bool-cases (b == a)) [
  | inl same ↦ (f j, get-put b a (f j) l.infos ∙ ground (arith, same))
  | inr other ↦ (i, get-put b a (f j) l.infos ∙ ground (arith, other, e))
]

set_limits-present :
    (o : Option ℕ) (f : UserLimitInfo → UserLimitInfo) (l : Limiter) (a : ℕ)
    → (i : UserLimitInfo) × (get a l.infos ≡ some i)
    → (i : UserLimitInfo) × (get a (set_limits o f l).infos ≡ some i)
unfolding set_limits
set_limits-present none f l a h = h
set_limits-present (some b) f l a h = set_found-present b (get b l.infos) f l a h

set_found-revokes :
    (a : ℕ) (o : Option UserLimitInfo) (l : Limiter)
    → (i : UserLimitInfo) × (o ≡ some i)
    → IsRevoked a (set_found a o (λ i. record i { revoked = true }) l)
unfolding set_found
set_found-revokes a none l (i, e) = absurd (ground arith)
set_found-revokes a (some j) l h = (record j { revoked = true }, get-put_self a _ l.infos, refl)

set_limits-revokes :
    (o : Option ℕ) (a : ℕ) (l : Limiter)
    → o ≡ some a
    → (i : UserLimitInfo) × (get a l.infos ≡ some i)
    → IsRevoked a (set_limits o (λ i. record i { revoked = true }) l)
unfolding set_limits
set_limits-revokes none a l e h = absurd (ground arith)
set_limits-revokes (some b) a l e h =
    subst (λ o. IsRevoked a (set_limits o (λ i. record i { revoked = true }) l)) (sym e)
      (set_found-revokes a (get a l.infos) l h)

-- The removal of a user: the limits held by the tag are revoked, then taken out.
remove_user-blocks :
    (tag : String) (u : UserInfo) (t : String) (a : ℕ) (l : Limiter)
    → user_tag tag u.uuid ≡ t
    → IsHeld t a l
    → IsBlocked t a (remove_user tag u l)
unfolding remove_user revoke_user
remove_user-blocks tag u t a l e h =
    let o = get (user_tag tag u.uuid) l.user_limit_info in
    let r = λ (i : UserLimitInfo). record i { revoked = true } in
    record {
      gone =
          get-del (user_tag tag u.uuid) t _
          ∙ unless_not (str_eq (user_tag tag u.uuid) t) _ _ ((str_eq_iff _ _).1 e);
      revoked = set_limits-revokes o a l (ap (λ s. get s l.user_limit_info) e ∙ h.found) h.present;
      below = subst (λ n. a < n) (sym (set_limits-rest o r l).1) h.below;
    }

remove_user-IsHeld :
    (tag : String) (u : UserInfo) (t : String) (a : ℕ) (l : Limiter)
    → str_eq (user_tag tag u.uuid) t ≡ false
    → IsHeld t a l
    → IsHeld t a (remove_user tag u l)
unfolding remove_user revoke_user
remove_user-IsHeld tag u t a l e h =
    let o = get (user_tag tag u.uuid) l.user_limit_info in
    let r = λ (i : UserLimitInfo). record i { revoked = true } in
    record {
      found =
          get-del (user_tag tag u.uuid) t _
          ∙ unless (str_eq (user_tag tag u.uuid) t) _ _ e
          ∙ ap (get t) (set_limits-rest o r l).0
          ∙ h.found;
      present = set_limits-present o r l a h.present;
      below = subst (λ n. a < n) (sym (set_limits-rest o r l).1) h.below;
    }

remove_users-blocks :
    (tag uuid : String) (us : List UserInfo) (a : ℕ) (l : Limiter)
    → has_uuid uuid us ≡ true
    → IsHeld (user_tag tag uuid) a l
    → IsBlocked (user_tag tag uuid) a (remove_users tag us l)
unfolding remove_users has_uuid
remove_users-blocks tag uuid [] a l m h = absurd (ground arith)
remove_users-blocks tag uuid (u ∷ us) a l m h = elim (Bool-cases (str_eq u.uuid uuid)) [
  | inl same ↦ remove_users-IsBlocked tag us (user_tag tag uuid) a (remove_user tag u l) (
      remove_user-blocks tag u (user_tag tag uuid) a l
        (ap (user_tag tag) ((str_eq_iff u.uuid uuid).0 same)) h)
  | inr other ↦
      remove_users-blocks tag uuid us a (remove_user tag u l) (ground arith)
        (remove_user-IsHeld tag u (user_tag tag uuid) a l (user_tag_eq tag u.uuid uuid ∙ other) h)
]

-- An update that removes a user, and does not add the credential again, revokes the limits that
-- the user's tag had, for whoever still holds them, and every later check of the tag is rejected.
pub update_user-revokes :
    (tag uuid : String) (added deleted modified : List UserInfo) (a : ℕ) (l : Limiter) (now : ℤ)
    (ip : String) (no_udp_source : Bool)
    → IsHeld (user_tag tag uuid) a l
    → has_uuid uuid deleted ≡ true
    → has_uuid uuid added ≡ false
    → let m = update_user tag added deleted modified l in
      IsRevoked a m × (check_limit now (user_tag tag uuid) ip no_udp_source m ≡ (rejected, m))
unfolding update_user check_limit check_found limits_of
update_user-revokes tag uuid added deleted modified a l now ip no_udp_source h d e =
    let b = add_users-IsBlocked tag uuid added a _ e (
      modify_users-IsBlocked tag modified (user_tag tag uuid) a _
        (remove_users-blocks tag uuid deleted a l d h)) in
    (
      b.revoked,
      ap
          (λ o.
            check_found (limits_at o (update_user tag added deleted modified l)) now
              (user_tag tag uuid) ip no_udp_source (update_user tag added deleted modified l))
          b.gone,
    )
