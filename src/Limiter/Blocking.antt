-- ===== src/Limiter/Blocking.antt =====
-- What keeps a user blocked: revoked limits stay so, and no other update gives the tag limits.
use Prim.Native.String.{String}
use text.Mathlib.TextLemmas.{append_cancel_left}
use v2node_hy.Users.{UserInfo, has_uuid}
use v2node_hy.Limiter.{
  Limiter, UserLimitInfo, user_tag, add_user, add_users, set_limits, set_found, revoke_user,
  remove_user, remove_users, modify_user, modify_users, changed_limits, set_rate, new_limits,
}
use v2node_hy.Base.{
  ℕ, ◌<◌, ◌==◌, ==_iff, ℤ, pos, Bool, true, false, ◌≡◌, refl, ◌∙◌, ap, sym, subst, ltb_ℤ, List, [],
  ◌∷◌, Option, none, some, get, put, del, get-put, get-del, string_key, nat_key, int_key, str_eq,
  str_eq_iff, if◌then◌else◌, arith, Bool-cases, inl, inr,
}

-- The limits at an address are revoked.
abbrev pub IsRevoked : ℕ → Limiter → Type 0
IsRevoked a l = (i : UserLimitInfo) × (get a l.infos ≡ some i) × (i.revoked ≡ true)

abbrev is_revoked : Option UserLimitInfo → Bool
is_revoked none = false
is_revoked (some i) = i.revoked

-- Changing limits in place keeps the revocations, when the change does.
pub set_found-IsRevoked :
    (b : ℕ) (o : Option UserLimitInfo) (f : UserLimitInfo → UserLimitInfo) (l : Limiter) (a : ℕ)
    → get b l.infos ≡ o
    → ((i : UserLimitInfo) → i.revoked ≡ true → (f i).revoked ≡ true)
    → IsRevoked a l
    → IsRevoked a (set_found b o f l)
unfolding set_found
set_found-IsRevoked b none f l a s k h = h
set_found-IsRevoked b (some j) f l a s k (i, e, r) = elim (Bool-cases (b == a)) [
  | inl same ↦ (
    f j,
    get-put b a (f j) l.infos ∙ ground (arith, same),
    k j (ap is_revoked (sym s ∙ ap (λ x. get x l.infos) ((==_iff b a).0 same) ∙ e) ∙ r),
  )
  | inr other ↦ (i, get-put b a (f j) l.infos ∙ ground (arith, other, e), r)
]

pub set_limits-IsRevoked :
    (o : Option ℕ) (f : UserLimitInfo → UserLimitInfo) (l : Limiter) (a : ℕ)
    → ((i : UserLimitInfo) → i.revoked ≡ true → (f i).revoked ≡ true)
    → IsRevoked a l
    → IsRevoked a (set_limits o f l)
unfolding set_limits
set_limits-IsRevoked none f l a k h = h
set_limits-IsRevoked (some b) f l a k h = set_found-IsRevoked b (get b l.infos) f l a refl k h

-- Two users of a node have two tags.
pub user_tag_inj : (tag u v : String) → user_tag tag u ≡ user_tag tag v → u ≡ v
unfolding user_tag
user_tag_inj tag u v e = append_cancel_left "|" u v (append_cancel_left tag _ _ e)

pub user_tag_eq : (tag u v : String) → str_eq (user_tag tag u) (user_tag tag v) ≡ str_eq u v
user_tag_eq tag u v = elim (Bool-cases (str_eq u v)) [
  | inl same ↦ (str_eq_iff _ _).1 (ap (user_tag tag) ((str_eq_iff u v).0 same)) ∙ sym same
  | inr other ↦ elim (Bool-cases (str_eq (user_tag tag u) (user_tag tag v))) [
    | inl same ↦
        absurd
          (ground (arith, other, str_eq_iff u v, user_tag_inj tag u v ((str_eq_iff _ _).0 same)))
    | inr both ↦ both ∙ sym other
  ]
]

-- The tag has no limits any more, and those at the address are revoked.
pub record IsBlocked (t : String) (a : ℕ) (l : Limiter) : Type 0 where
  pub gone : get t l.user_limit_info ≡ none
  pub revoked : IsRevoked a l
  pub below : a < l.fresh

-- The tag has the limits at the address.
pub record IsHeld (t : String) (a : ℕ) (l : Limiter) : Type 0 where
  pub found : get t l.user_limit_info ≡ some a
  pub present : (i : UserLimitInfo) × (get a l.infos ≡ some i)
  pub below : a < l.fresh

pub set_found-rest :
    (a : ℕ) (o : Option UserLimitInfo) (f : UserLimitInfo → UserLimitInfo) (l : Limiter)
    → ((set_found a o f l).user_limit_info ≡ l.user_limit_info)
      × ((set_found a o f l).fresh ≡ l.fresh)
unfolding set_found
set_found-rest a none f l = (refl, refl)
set_found-rest a (some i) f l = (refl, refl)

pub set_limits-rest :
    (o : Option ℕ) (f : UserLimitInfo → UserLimitInfo) (l : Limiter)
    → ((set_limits o f l).user_limit_info ≡ l.user_limit_info)
      × ((set_limits o f l).fresh ≡ l.fresh)
unfolding set_limits
set_limits-rest none f l = (refl, refl)
set_limits-rest (some a) f l = set_found-rest a (get a l.infos) f l

pub set_limits-IsBlocked :
    (o : Option ℕ) (f : UserLimitInfo → UserLimitInfo) (t : String) (a : ℕ) (l : Limiter)
    → ((i : UserLimitInfo) → i.revoked ≡ true → (f i).revoked ≡ true)
    → IsBlocked t a l
    → IsBlocked t a (set_limits o f l)
set_limits-IsBlocked o f t a l k b = record {
  gone = ap (get t) (set_limits-rest o f l).0 ∙ b.gone;
  revoked = set_limits-IsRevoked o f l a k b.revoked;
  below = subst (λ n. a < n) (sym (set_limits-rest o f l).1) b.below;
}

pub remove_user-IsBlocked :
    (tag : String) (u : UserInfo) (t : String) (a : ℕ) (l : Limiter)
    → IsBlocked t a l
    → IsBlocked t a (remove_user tag u l)
unfolding remove_user revoke_user
remove_user-IsBlocked tag u t a l b =
    let k =
      set_limits-IsBlocked (get (user_tag tag u.uuid) l.user_limit_info)
        (λ i. record i { revoked = true }) t a l (λ i h. refl) b in
    record {
      gone = get-del (user_tag tag u.uuid) t _ ∙ ground (arith, k.gone);
      revoked = k.revoked;
      below = k.below;
    }

pub set_rate-IsBlocked :
    (s : String) (limit : ℤ) (t : String) (a : ℕ) (l : Limiter)
    → IsBlocked t a l
    → IsBlocked t a (set_rate s limit l)
unfolding set_rate
set_rate-IsBlocked s limit t a l b = by_sign (ltb_ℤ (pos 0) limit)
  where
    by_sign :
        (c : Bool)
        → IsBlocked t a (
            if c
            then record l { speed_limiter = put s limit l.speed_limiter }
            else record l { speed_limiter = del s l.speed_limiter })
    by_sign true = record { gone = b.gone; revoked = b.revoked; below = b.below }
    by_sign false = record { gone = b.gone; revoked = b.revoked; below = b.below }

pub modify_users-IsBlocked :
    (tag : String) (us : List UserInfo) (t : String) (a : ℕ) (l : Limiter)
    → IsBlocked t a l
    → IsBlocked t a (modify_users tag us l)
unfolding modify_users modify_user
modify_users-IsBlocked tag [] t a l b = b
modify_users-IsBlocked tag (u ∷ us) t a l b =
    modify_users-IsBlocked tag us t a (modify_user tag u l)
      (set_rate-IsBlocked _ _ t a _ (set_limits-IsBlocked _ (changed_limits u) t a l (λ i h. h) b))

pub add_user-IsBlocked :
    (tag : String) (u : UserInfo) (t : String) (a : ℕ) (l : Limiter)
    → str_eq (user_tag tag u.uuid) t ≡ false
    → IsBlocked t a l
    → IsBlocked t a (add_user tag u l)
unfolding add_user
add_user-IsBlocked tag u t a l e b = record {
  gone = get-put (user_tag tag u.uuid) t l.fresh l.user_limit_info ∙ ground (arith, e, b.gone);
  revoked =
      let (i, g, r) = b.revoked in
      (i, get-put l.fresh a (new_limits u) l.infos ∙ ground (arith, g, b.below), r);
  below = ground (arith, b.below);
}

pub add_users-IsBlocked :
    (tag uuid : String) (us : List UserInfo) (a : ℕ) (l : Limiter)
    → has_uuid uuid us ≡ false
    → IsBlocked (user_tag tag uuid) a l
    → IsBlocked (user_tag tag uuid) a (add_users tag us l)
unfolding add_users has_uuid
add_users-IsBlocked tag uuid [] a l e b = b
add_users-IsBlocked tag uuid (u ∷ us) a l e b =
    add_users-IsBlocked tag uuid us a (add_user tag u l) (ground arith) (
      add_user-IsBlocked tag u (user_tag tag uuid) a l (user_tag_eq tag u.uuid uuid ∙ ground arith)
        b)

pub remove_users-IsBlocked :
    (tag : String) (us : List UserInfo) (t : String) (a : ℕ) (l : Limiter)
    → IsBlocked t a l
    → IsBlocked t a (remove_users tag us l)
unfolding remove_users
remove_users-IsBlocked tag [] t a l b = b
remove_users-IsBlocked tag (u ∷ us) t a l b =
    remove_users-IsBlocked tag us t a (remove_user tag u l) (remove_user-IsBlocked tag u t a l b)
