-- ===== src/Controller/Compare.antt =====
-- What compareUserList finds.
use v2node_hy.Base.{
  String, Bool, true, false, not, ◌&&◌, ◌||◌, ◌≡◌, refl, sym, ap, ◌∙◌, str_eq, str_eq_iff, Option,
  none, some, is_some, List, [], ◌∷◌, ◌++◌, Table, get, put, del, get-put, get-del, string_key,
  Bool-cases, inl, inr, if◌then◌else◌, arith,
}
use v2node_hy.Users.{UserInfo, has_uuid}
use v2node_hy.Controller.{
  Changes, differs, old_map, values, compare_one, compare_all, compare_user_list,
}

-- Each entry stands under its user's credential.
abbrev pub IsKeyed : Table String UserInfo → Type 0
IsKeyed [] = Unit
IsKeyed ((k, u) ∷ m) = (k ≡ u.uuid) × IsKeyed m

put-IsKeyed : (u : UserInfo) (m : Table String UserInfo) → IsKeyed m → IsKeyed (put u.uuid u m)
unfolding put
put-IsKeyed u [] h = (refl, tt)
put-IsKeyed u ((k, w) ∷ m) h = elim (Bool-cases (str_eq k u.uuid)) [
  | inl same ↦ rw same (refl, h.1)
  | inr other ↦ rw other (h.0, put-IsKeyed u m h.1)
]

del-IsKeyed : (k : String) (m : Table String UserInfo) → IsKeyed m → IsKeyed (del k m)
unfolding del
del-IsKeyed k [] h = tt
del-IsKeyed k ((j, w) ∷ m) h = elim (Bool-cases (str_eq j k)) [
  | inl same ↦ rw same (del-IsKeyed k m h.1)
  | inr other ↦ rw other (h.0, del-IsKeyed k m h.1)
]

old_map-IsKeyed :
    (us : List UserInfo) (m : Table String UserInfo) → IsKeyed m → IsKeyed (old_map us m)
unfolding old_map
old_map-IsKeyed [] m h = h
old_map-IsKeyed (u ∷ us) m h = old_map-IsKeyed us (put u.uuid u m) (put-IsKeyed u m h)

compare_one-IsKeyed :
    (o : Option UserInfo) (u : UserInfo) (m : Table String UserInfo) (r : Changes)
    → IsKeyed m
    → IsKeyed (compare_one o u (m, r)).0
unfolding compare_one
compare_one-IsKeyed none u m r h = h
compare_one-IsKeyed (some o) u m r h = del-IsKeyed u.uuid m h

compare_all-IsKeyed :
    (us : List UserInfo) (p : Table String UserInfo × Changes)
    → IsKeyed p.0
    → IsKeyed (compare_all us p).0
unfolding compare_all
compare_all-IsKeyed [] p h = h
compare_all-IsKeyed (u ∷ us) (m, r) h =
    compare_all-IsKeyed us _ (compare_one-IsKeyed (get u.uuid m) u m r h)

-- A credential is among the values exactly if it is a key.
has_uuid-values :
    (v : String) (m : Table String UserInfo) → IsKeyed m → has_uuid v (values m) ≡ is_some (get v m)
unfolding has_uuid values get
has_uuid-values v [] h = refl
has_uuid-values v ((k, u) ∷ m) (e, h) =
    ap (λ x. str_eq x v || has_uuid v (values m)) (sym e)
    ∙ by_key (str_eq k v) (has_uuid-values v m h)
  where
    by_key :
        (b : Bool)
        → has_uuid v (values m) ≡ is_some (get v m)
        → (b || has_uuid v (values m)) ≡ is_some (if b then some u else get v m)
    by_key true p = refl
    by_key false p = p

get-old_map :
    (v : String) (us : List UserInfo) (m : Table String UserInfo)
    → is_some (get v (old_map us m)) ≡ (has_uuid v us || is_some (get v m))
unfolding old_map has_uuid
get-old_map v [] m = refl
get-old_map v (u ∷ us) m = get-old_map v us (put u.uuid u m) ∙ ground (arith, get-put u.uuid v u m)

get-compare_one :
    (v : String) (o : Option UserInfo) (u : UserInfo) (m : Table String UserInfo) (r : Changes)
    → get u.uuid m ≡ o
    → is_some (get v (compare_one o u (m, r)).0) ≡ (not (str_eq u.uuid v) && is_some (get v m))
unfolding compare_one
get-compare_one v none u m r e = elim (Bool-cases (str_eq u.uuid v)) [
  | inl same ↦
      ap is_some (ap (λ k. get k m) (sym ((str_eq_iff u.uuid v).0 same)) ∙ e) ∙ ground (arith, same)
  | inr other ↦ ground (arith, other)
]
get-compare_one v (some o) u m r e = ground (arith, get-del u.uuid v m)

get-compare_all :
    (v : String) (us : List UserInfo) (p : Table String UserInfo × Changes)
    → is_some (get v (compare_all us p).0) ≡ (not (has_uuid v us) && is_some (get v p.0))
unfolding compare_all has_uuid
get-compare_all v [] p = refl
get-compare_all v (u ∷ us) (m, r) =
    get-compare_all v us (compare_one (get u.uuid m) u (m, r))
    ∙ ground (arith, get-compare_one v (get u.uuid m) u m r refl)

-- The deleted users are those of the old list whose credential is not in the new list.
pub compare_user_list-deleted :
    (old new : List UserInfo) (v : String)
    → has_uuid v (compare_user_list old new).deleted ≡ (has_uuid v old && not (has_uuid v new))
unfolding compare_user_list get
compare_user_list-deleted old new v =
    has_uuid-values v _ (compare_all-IsKeyed new _ (old_map-IsKeyed old [] tt))
    ∙ get-compare_all v new _
    ∙ ground (arith, get-old_map v old [])

-- No credential stands twice.
abbrev pub IsUnique : List UserInfo → Type 0
IsUnique [] = Unit
IsUnique (u ∷ us) = (has_uuid u.uuid us ≡ false) × IsUnique us

has_uuid-append :
    (v : String) (us : List UserInfo) (u : UserInfo)
    → has_uuid v (us ++ u ∷ []) ≡ (has_uuid v us || str_eq u.uuid v)
unfolding has_uuid
has_uuid-append v [] u = ground arith
has_uuid-append v (w ∷ us) u = ground (arith, has_uuid-append v us u)

added-compare_one :
    (v : String) (o : Option UserInfo) (u : UserInfo) (m : Table String UserInfo) (r : Changes)
    → has_uuid v (compare_one o u (m, r)).1.added
      ≡ (has_uuid v r.added || (str_eq u.uuid v && not (is_some o)))
unfolding compare_one
added-compare_one v none u m r = has_uuid-append v r.added u ∙ ground arith
added-compare_one v (some o) u m r = ap (has_uuid v) (same_added (differs o u)) ∙ ground arith
  where
    same_added :
        (b : Bool) → (if b then record r { modified = r.modified ++ u ∷ [] } else r).added ≡ r.added
    same_added true = refl
    same_added false = refl

added-compare_all :
    (v : String) (us : List UserInfo) (p : Table String UserInfo × Changes)
    → IsUnique us
    → has_uuid v (compare_all us p).1.added
      ≡ (has_uuid v p.1.added || (has_uuid v us && not (is_some (get v p.0))))
unfolding compare_all has_uuid
added-compare_all v [] p q = ground arith
added-compare_all v (u ∷ us) (m, r) q =
    added-compare_all v us (compare_one (get u.uuid m) u (m, r)) q.1
    ∙ elim (Bool-cases (str_eq u.uuid v)) [
      | inl same ↦
          let e = (str_eq_iff u.uuid v).0 same in
          ground (
            arith,
            same,
            added-compare_one v (get u.uuid m) u m r,
            ap (λ k. is_some (get k m)) e,
            ap (λ k. has_uuid k us) e,
            q.0,
          )
      | inr other ↦ ground (
        arith,
        other,
        added-compare_one v (get u.uuid m) u m r,
        get-compare_one v (get u.uuid m) u m r refl,
      )
    ]

-- The added users are those of a new list without a repeated credential whose credential is not
-- in the old list.
pub compare_user_list-added :
    (old new : List UserInfo) (v : String)
    → IsUnique new
    → has_uuid v (compare_user_list old new).added ≡ (has_uuid v new && not (has_uuid v old))
unfolding compare_user_list get has_uuid
compare_user_list-added old new v q =
    added-compare_all v new _ q ∙ ground (arith, get-old_map v old [])
