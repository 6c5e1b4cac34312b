-- ===== src/Users.antt =====
-- Users as the panel lists them (api/v2board/user.go).
use v2node_hy.Base.{
  ℤ, pos, ltb_ℤ, leb_ℤ, eqb_ℤ, String, str_eq, Bool, false, ◌||◌, List, [], ◌∷◌, ◌++◌,
}

pub record UserInfo : Type 0 where
  pub id : ℤ
  pub uuid : String
  pub speed_limit : ℤ
  pub device_limit : ℤ

pub record UserSnapshot : Type 0 where
  pub users : List UserInfo
  pub etag : String

-- The map `ids`.
unfoldable pub has_id : ℤ → List UserInfo → Bool
has_id id [] = false
has_id id (u ∷ us) = eqb_ℤ u.id id || has_id id us

-- The map `uuids`.
unfoldable pub has_uuid : String → List UserInfo → Bool
has_uuid uuid [] = false
has_uuid uuid (u ∷ us) = str_eq u.uuid uuid || has_uuid uuid us

-- The condition of the loop in `getUsers`, over the users that the loop has passed.
unfoldable pub is_refused_user : UserInfo → List UserInfo → Bool
unfolding has_id has_uuid
is_refused_user u passed =
    leb_ℤ u.id (pos 0)
    || str_eq u.uuid ""
    || ltb_ℤ u.speed_limit (pos 0)
    || ltb_ℤ u.device_limit (pos 0)
    || has_id u.id passed
    || has_uuid u.uuid passed

unfoldable pub any_refused_user : List UserInfo → List UserInfo → Bool
unfolding is_refused_user
any_refused_user passed [] = false
any_refused_user passed (u ∷ us) =
    is_refused_user u passed || any_refused_user (passed ++ u ∷ []) us
