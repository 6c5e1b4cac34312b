-- ===== src/Controller/Fence.antt =====
-- A user list that was fetched before a revocation does not undo it.
use v2node_hy.Base.{
  ℕ, ◌==◌, ◌<◌, word_mod, ℤ, String, Bool, true, false, not, ◌≡◌, refl, ◌∙◌, ap, Option, none, some,
  List, [], ◌∷◌, if◌then◌else◌, unless_not, arith, All, subst, sym, get, put, get-put_self,
  string_key, map, is_some,
}
use v2node_hy.Users.{UserInfo, UserSnapshot, has_uuid}
use v2node_hy.Traffic.Panel.{invalidate_users}
use v2node_hy.Limiter.{Limiter}
use v2node_hy.Hysteria.{Node}
use v2node_hy.Hysteria.Users.{Manager, prune_found, del_found, del_all}
use v2node_hy.Hysteria.Users as hy2
use v2node_hy.Hysteria.Blocking.{del_all-IsOut}
use v2node_hy.Hysteria.Core.{V2Core, del_users, prune_deleted, prune_retired_traffic, uuid_of}
use v2node_hy.Controller.{
  Controller, is_listed, with_ids, next_generation, revoke_rest, revoke_reported_users, with_node,
  sync_users, with_limiter,
}

-- A revocation changes the generation.
next_generation_ne : (g : ℕ) → g < word_mod → (g == next_generation g) ≡ false
next_generation_ne g h = ground arith

generation-revoke_rest :
    (o : Option V2Core) (ids : List ℤ) (c : Controller)
    → (revoke_rest o ids c).1.user_generation ≡ c.user_generation
unfolding revoke_rest
generation-revoke_rest none ids c = refl
generation-revoke_rest (some vc) ids c = refl

-- When the panel's acknowledgement has some users revoked while a user list is fetched, the list
-- is dropped: users, runtime and limits stay as the revocation left them, and the next fetch is
-- made without a validator.
pub sync_users-revoke_reported_users :
    (i : ℤ) (is : List ℤ) (snapshot : Option UserSnapshot) (c : Controller)
    → c.user_generation < word_mod
    → let d = (revoke_reported_users (i ∷ is) c).1 in
      sync_users c.user_generation snapshot d
      ≡ record d { api_client = invalidate_users d.api_client }
unfolding sync_users revoke_reported_users
sync_users-revoke_reported_users i is snapshot c h =
    unless_not (not (c.user_generation == (revoke_reported_users (i ∷ is) c).1.user_generation)) _ _
      (ap (λ g. not (c.user_generation == g))
          (generation-revoke_rest _ (i ∷ is)
            (record c { user_generation = next_generation c.user_generation }))
        ∙ ap not (next_generation_ne c.user_generation h))

-- The users of the node for a tag, where it has one.
abbrev pub IsUnlisted : String → Option Node → Type 0
IsUnlisted v none = Unit
IsUnlisted v (some n) = get v n.users ≡ none

prune-IsUnlisted :
    (o : Option Node) (tag v : String) (uuids : List String) (m : Manager)
    → get tag m ≡ o
    → IsUnlisted v o
    → IsUnlisted v (get tag (prune_found o tag uuids m).1)
unfolding prune_found
prune-IsUnlisted none tag v uuids m e h = subst (IsUnlisted v) (sym e) tt
prune-IsUnlisted (some n) tag v uuids m e h = subst (IsUnlisted v) (sym (get-put_self tag _ m)) h

with_node-IsUnlisted :
    (o : Option Node) (f : Limiter → Limiter) (tag v : String) (vc : V2Core)
    → get tag vc.hy2 ≡ o
    → IsUnlisted v o
    → IsUnlisted v (get tag (with_node o f tag vc).hy2)
unfolding with_node
with_node-IsUnlisted none f tag v vc e h = subst (IsUnlisted v) (sym e) tt
with_node-IsUnlisted (some n) f tag v vc e h =
    subst (IsUnlisted v) (sym (get-put_self tag _ vc.hy2)) h

del_users-IsUnlisted :
    (n : Node) (tag v : String) (us : List UserInfo) (vc : V2Core)
    → get tag vc.hy2 ≡ some n
    → has_uuid v us ≡ true
    → (w : V2Core) × (del_users tag us vc ≡ some w) × IsUnlisted v (get tag w.hy2)
unfolding del_users hy2.del_users prune_retired_traffic hy2.prune_retired_users
del_users-IsUnlisted n tag v us vc e h =
    let m = put tag (del_all us n) vc.hy2 in
    (
      prune_retired_traffic tag (map uuid_of us) (record vc { hy2 = m }),
      ap
          (λ o.
            prune_deleted (if is_some o then del_found o tag us vc.hy2 else some vc.hy2) tag us vc)
          e,
      prune-IsUnlisted (get tag m) tag v (map uuid_of us) m refl (
          subst (IsUnlisted v) (sym (get-put_self tag _ vc.hy2)) (del_all-IsOut us v n h).unlisted),
    )

All-unless :
    (P : UserInfo → Type 0) (b : Bool) (u : UserInfo) (us : List UserInfo)
    → (b ≡ false → P u)
    → All P us
    → All P (if not b then u ∷ us else us)
All-unless P true u us h k = k
All-unless P false u us h k = (h refl, k)

with_ids-IsKept :
    (ids : List ℤ) (us : List UserInfo)
    → All (λ u. is_listed u.id ids ≡ false) (with_ids false ids us)
unfolding with_ids
with_ids-IsKept ids [] = tt
with_ids-IsKept ids (u ∷ us) =
    All-unless (λ w. is_listed w.id ids ≡ false) (is_listed u.id ids) u (with_ids false ids us)
      (λ e. e) (with_ids-IsKept ids us)

-- A revocation at a node that runs succeeds: the controller keeps no revoked user, and whoever had
-- a revoked id in its list can no longer authenticate at the node.
pub revoke_reported_users-bars :
    (i : ℤ) (is : List ℤ) (v : String) (n : Node) (c : Controller)
    → get c.tag c.server.hy2 ≡ some n
    → has_uuid v (with_ids true (i ∷ is) c.user_list) ≡ true
    → let r = revoke_reported_users (i ∷ is) c in
      (r.0 ≡ true)
      × All (λ u. is_listed u.id (i ∷ is) ≡ false) r.1.user_list
      × IsUnlisted v (get r.1.tag r.1.server.hy2)
unfolding revoke_reported_users revoke_rest with_limiter
revoke_reported_users-bars i is v n c e h =
    let (w, same, gone) =
      del_users-IsUnlisted n c.tag v (with_ids true (i ∷ is) c.user_list) c.server e h in
    let d = record c { user_generation = next_generation c.user_generation } in
    subst
      (λ o.
        ((revoke_rest o (i ∷ is) d).0 ≡ true)
        × All (λ u. is_listed u.id (i ∷ is) ≡ false) (revoke_rest o (i ∷ is) d).1.user_list
        × IsUnlisted v
            (get (revoke_rest o (i ∷ is) d).1.tag (revoke_rest o (i ∷ is) d).1.server.hy2))
      (sym same) (revoked_so w gone)
  where
    revoked_so :
        (w : V2Core)
        → IsUnlisted v (get c.tag w.hy2)
        → let r =
            revoke_rest
              (some w)
              (i ∷ is)
              (record c { user_generation = next_generation c.user_generation }) in
          (r.0 ≡ true)
          × All (λ u. is_listed u.id (i ∷ is) ≡ false) r.1.user_list
          × IsUnlisted v (get r.1.tag r.1.server.hy2)
    revoked_so w gone = (
      refl,
      with_ids-IsKept (i ∷ is) c.user_list,
      with_node-IsUnlisted (get c.tag w.hy2) _ c.tag v w refl gone,
    )
