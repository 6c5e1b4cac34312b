-- ===== src/Hysteria/Blocking.antt =====
-- Deleted users can neither connect nor be charged.
use v2node_hy.Base.{
  ℕ, ==_iff, String, Bool, true, false, ◌≡◌, refl, sym, ap, ◌∙◌, str_eq, str_eq_iff, Option, none,
  some, is_some, List, [], ◌∷◌, get, get-put, get-del, get-del_self, same_refl, subst, ◌⊎◌,
  string_key, nat_key, Bool-cases, inl, inr, if◌then◌else◌, unless_not, arith,
}
use v2node_hy.Users.{UserInfo, has_uuid}
use v2node_hy.Limiter.{
  Limiter, UserLimitInfo, user_tag, limits_at, set_limits, set_found, revoke_user,
}
use v2node_hy.Hysteria.{
  Node, authenticate, limits_in, limit_of, is_out, look_up, get_user, log_user, log_traffic,
  settle_user, settle_found, TrafficUserCache,
}
use v2node_hy.Hysteria.Users.{revoke_in, del_user, del_all}

-- What the limiter says of a tag keeps it out.
abbrev pub keeps_out : Option Limiter → String → Bool
keeps_out o t = is_out (limits_in o (limit_of o t))

pub record IsOut (uuid : String) (n : Node) : Type 0 where
  pub unlisted : get uuid n.users ≡ none
  pub uncached : get uuid n.cache ≡ none
  pub kept_out : keeps_out n.limiter (user_tag n.tag uuid) ≡ true

found_out :
    (b : ℕ) (o : Option UserLimitInfo) (l : Limiter) (a : Option ℕ)
    → get b l.infos ≡ o
    → is_out (limits_at a l) ≡ true
    → is_out (limits_at a (set_found b o (λ i. record i { revoked = true }) l)) ≡ true
unfolding set_found
found_out b none l a e h = h
found_out b (some i) l none e h = refl
found_out b (some i) l (some a) e h =
    ground (arith, get-put b a (record i { revoked = true }) l.infos)

revoke-keeps :
    (o : Option ℕ) (l : Limiter) (a : Option ℕ)
    → is_out (limits_at a l) ≡ true
    → is_out (limits_at a (set_limits o (λ i. record i { revoked = true }) l)) ≡ true
unfolding set_limits
revoke-keeps none l a h = h
revoke-keeps (some b) l a h = found_out b (get b l.infos) l a refl h

found_revoked :
    (b : ℕ) (o : Option UserLimitInfo) (l : Limiter)
    → get b l.infos ≡ o
    → is_out (get b (set_found b o (λ i. record i { revoked = true }) l).infos) ≡ true
unfolding set_found
found_revoked b none l e = ap is_out e
found_revoked b (some i) l e =
    ground (arith, get-put b b (record i { revoked = true }) l.infos, ==_iff b b)

revoke-own :
    (o : Option ℕ) (l : Limiter)
    → is_out (limits_at o (set_limits o (λ i. record i { revoked = true }) l)) ≡ true
unfolding set_limits
revoke-own none l = refl
revoke-own (some b) l = found_revoked b (get b l.infos) l refl

set_found_tags :
    (b : ℕ) (o : Option UserLimitInfo) (f : UserLimitInfo → UserLimitInfo) (l : Limiter)
    → (set_found b o f l).user_limit_info ≡ l.user_limit_info
unfolding set_found
set_found_tags b none f l = refl
set_found_tags b (some i) f l = refl

set_limits_tags :
    (o : Option ℕ) (f : UserLimitInfo → UserLimitInfo) (l : Limiter)
    → (set_limits o f l).user_limit_info ≡ l.user_limit_info
unfolding set_limits
set_limits_tags none f l = refl
set_limits_tags (some b) f l = set_found_tags b (get b l.infos) f l

-- A revocation keeps out its own tag, and each tag that was kept out.
revoke_in-keeps :
    (o : Option Limiter) (s t : String) → keeps_out o t ≡ true → keeps_out (revoke_in o s) t ≡ true
unfolding revoke_in revoke_user limits_in limit_of
revoke_in-keeps none s t h = refl
revoke_in-keeps (some l) s t h =
    let r = λ (i : UserLimitInfo). record i { revoked = true } in
    let o = get s l.user_limit_info in
    ap (λ m. is_out (limits_at (get t m) (set_limits o r l))) (set_limits_tags o r l)
    ∙ revoke-keeps o l (get t l.user_limit_info) h

revoke_in-own : (o : Option Limiter) (t : String) → keeps_out (revoke_in o t) t ≡ true
unfolding revoke_in revoke_user limits_in limit_of
revoke_in-own none t = refl
revoke_in-own (some l) t =
    let r = λ (i : UserLimitInfo). record i { revoked = true } in
    let o = get t l.user_limit_info in
    ap (λ m. is_out (limits_at (get t m) (set_limits o r l))) (set_limits_tags o r l)
    ∙ revoke-own o l

-- Settling a user takes the user's cache entry away, and brings none in.
settle_found-IsOut :
    (o : Option TrafficUserCache) (u v : String) (n : Node)
    → get u n.cache ≡ o
    → get v n.users ≡ none
    → keeps_out n.limiter (user_tag n.tag v) ≡ true
    → (str_eq u v ≡ true) ⊎ (get v n.cache ≡ none)
    → IsOut v (settle_found o u n)
unfolding settle_found
settle_found-IsOut none u v n e a b c = record {
  unlisted = a;
  uncached = elim c [
    | inl same ↦ ap (λ x. get x n.cache) (sym ((str_eq_iff u v).0 same)) ∙ e
    | inr other ↦ other
  ];
  kept_out = b;
}
settle_found-IsOut (some user) u v n e a b c = record {
  unlisted = a;
  uncached = get-del u v n.cache ∙ elim c [
    | inl same ↦ unless_not (str_eq u v) _ _ same
    | inr other ↦ rw other (same_result (str_eq u v))
  ];
  kept_out = b;
}
  where
    same_result : (b : Bool) → if◌then◌else◌ {A = Option TrafficUserCache} b none none ≡ none
    same_result true = refl
    same_result false = refl

del_user-IsOut : (u : UserInfo) (n : Node) → IsOut u.uuid (del_user u n)
unfolding del_user settle_user
del_user-IsOut u n =
    settle_found-IsOut _ u.uuid u.uuid _ refl (get-del_self u.uuid n.users)
      (revoke_in-own n.limiter (user_tag n.tag u.uuid)) (inl (same_refl u.uuid))

del_user-keeps : (u : UserInfo) (v : String) (n : Node) → IsOut v n → IsOut v (del_user u n)
unfolding del_user settle_user
del_user-keeps u v n h =
    settle_found-IsOut _ u.uuid v _ refl (get-del u.uuid v n.users ∙ ground (arith, h.unlisted))
      (revoke_in-keeps n.limiter (user_tag n.tag u.uuid) (user_tag n.tag v) h.kept_out)
      (inr h.uncached)

del_all-keeps : (us : List UserInfo) (v : String) (n : Node) → IsOut v n → IsOut v (del_all us n)
unfolding del_all
del_all-keeps [] v n h = h
del_all-keeps (u ∷ us) v n h = del_all-keeps us v (del_user u n) (del_user-keeps u v n h)

pub del_all-IsOut :
    (us : List UserInfo) (uuid : String) (n : Node)
    → has_uuid uuid us ≡ true
    → IsOut uuid (del_all us n)
unfolding del_all has_uuid
del_all-IsOut [] uuid n h = absurd (ground arith)
del_all-IsOut (u ∷ us) uuid n h = elim (Bool-cases (str_eq u.uuid uuid)) [
  | inl same ↦
      del_all-keeps us uuid (del_user u n)
        (subst (λ v. IsOut v (del_user u n)) ((str_eq_iff u.uuid uuid).0 same) (del_user-IsOut u n))
  | inr other ↦ del_all-IsOut us uuid (del_user u n) (ground arith)
]

get_user-IsOut : (uuid : String) (n : Node) → IsOut uuid n → get_user uuid n ≡ (none, n)
unfolding get_user look_up
get_user-IsOut uuid n h = ap (λ o. look_up o uuid n) h.uncached ∙ unless_not _ _ _ h.kept_out

-- After DelUsers, a deleted user cannot authenticate, and a traffic callback for the user is
-- refused and counts no byte.
pub del_all-blocks :
    (us : List UserInfo) (uuid : String) (tx rx : ℕ) (n : Node)
    → has_uuid uuid us ≡ true
    → let m = del_all us n in
      (authenticate m uuid ≡ (false, "")) × (log_traffic uuid tx rx m ≡ (false, m))
unfolding authenticate log_traffic log_user
del_all-blocks us uuid tx rx n h =
    let out = del_all-IsOut us uuid n h in
    (
      ap (λ o. if is_some o then (true, uuid) else (false, "")) out.unlisted,
      ap (λ r. log_user r.0 tx rx r.1) (get_user-IsOut uuid (del_all us n) out),
    )
