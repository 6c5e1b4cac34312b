-- ===== src/Hysteria/Quiet.antt =====
-- QuiesceNode of core/officialhy2/accounting.go lets no user of the node in any more, and keeps
-- what has been counted.
use v2node_hy.Base.{
  ℤ, String, true, false, Option, none, some, is_some, List, [], ◌∷◌, Table, get, put, del, get-del,
  get-put_self, string_key, str_eq, ◌≡◌, ◌⊎◌, inl, inr, Bool-cases, refl, ap, ◌∙◌, arith,
  if◌then◌else◌, unless, unless_not,
}
use v2node_hy.Users.{UserInfo, has_uuid}
use v2node_hy.Traffic.Effect.{Error}
use v2node_hy.Hysteria.{Node, TrafficUserCache, authenticate, settle_user, settle_found}
use v2node_hy.Hysteria.Users.{
  Manager, listed, del_user, del_all, del_users, del_found, quiesce_users,
}
use v2node_hy.Hysteria.Nodes.{quiesce_node, quiesced}

settle_found-users :
    (o : Option TrafficUserCache) (uuid : String) (n : Node)
    → ((settle_found o uuid n).users ≡ n.users) × ((settle_found o uuid n).counter ≡ n.counter)
unfolding settle_found
settle_found-users none uuid n = (refl, refl)
settle_found-users (some u) uuid n = (refl, refl)

del_user-users :
    (u : UserInfo) (n : Node)
    → ((del_user u n).users ≡ del u.uuid n.users) × ((del_user u n).counter ≡ n.counter)
unfolding del_user settle_user
del_user-users u n = settle_found-users _ u.uuid _

-- The users that are left by DelUsers.
without : List UserInfo → Table String ℤ → Table String ℤ
without [] m = m
without (u ∷ us) m = without us (del u.uuid m)

del_all-users :
    (us : List UserInfo) (n : Node)
    → ((del_all us n).users ≡ without us n.users) × ((del_all us n).counter ≡ n.counter)
unfolding del_all without
del_all-users [] n = (refl, refl)
del_all-users (u ∷ us) n =
    let ih = del_all-users us (del_user u n) in
    let one = del_user-users u n in (ih.0 ∙ ap (without us) one.0, ih.1 ∙ one.1)

without-absent :
    (us : List UserInfo) (uuid : String) (m : Table String ℤ)
    → get uuid m ≡ none
    → get uuid (without us m) ≡ none
unfolding without
without-absent [] uuid m h = h
without-absent (u ∷ us) uuid m h =
    without-absent us uuid (del u.uuid m) (get-del u.uuid uuid m ∙ ground (arith, h))

without-listed :
    (us : List UserInfo) (uuid : String) (m : Table String ℤ)
    → has_uuid uuid us ≡ true
    → get uuid (without us m) ≡ none
unfolding without has_uuid
without-listed [] uuid m h = absurd (ground arith)
without-listed (u ∷ us) uuid m h = elim (Bool-cases (str_eq u.uuid uuid)) [
  | inl same ↦ without-absent us uuid (del u.uuid m) (get-del u.uuid uuid m ∙ unless_not _ _ _ same)
  | inr other ↦ without-listed us uuid (del u.uuid m) (ground arith)
]

listed-has :
    (users : Table String ℤ) (uuid : String)
    → (get uuid users ≡ none) ⊎ (has_uuid uuid (listed users) ≡ true)
unfolding listed has_uuid get
listed-has [] uuid = inl refl
listed-has ((u, id) ∷ users) uuid = ground (arith, listed-has users uuid)

pub record IsQuiet (n m : Node) : Type 0 where
  pub refuses : (auth : String) → authenticate m auth ≡ (false, "")
  pub counted : m.counter ≡ n.counter

del_all-IsQuiet : (n : Node) → IsQuiet n (del_all (listed n.users) n)
unfolding authenticate
del_all-IsQuiet n = record {
  refuses = λ auth. unless (is_some (get auth (del_all (listed n.users) n).users)) _ _ (
      ap (λ m. is_some (get auth m)) (del_all-users (listed n.users) n).0
      ∙ ap is_some (none_left auth));
  counted = (del_all-users (listed n.users) n).1;
}
  where
    none_left : (auth : String) → get auth (without (listed n.users) n.users) ≡ none
    none_left auth = elim (listed-has n.users auth) [
      | inl absent ↦ without-absent (listed n.users) auth n.users absent
      | inr has ↦ without-listed (listed n.users) auth n.users has
    ]

quiesce_node_lem :
    (tag : String) (stopped : Option Error) (m : Manager) (n : Node)
    → get tag m ≡ some n
    → quiesce_node tag stopped m ≡ (stopped, put tag (del_all (listed n.users) n) m)
unfolding quiesce_node quiesced quiesce_users del_users del_found
quiesce_node_lem tag stopped m n h =
    ap
      (λ o.
        if is_some o
        then quiesced
            (elim o as (λ x. Option Manager) [
              | none ↦ some m
              | some k ↦ del_found o tag (listed k.users) m
            ])
            stopped m
        else (none, m))
      h

-- QuiesceNode succeeds on a node of the manager but for the error of the node's stop; then no
-- authentication at the node succeeds, and its counters are as they were.
pub quiesce_node-IsQuiet :
    (tag : String) (stopped : Option Error) (m : Manager) (n : Node)
    → get tag m ≡ some n
    → ((quiesce_node tag stopped m).0 ≡ stopped)
      × ((k : Node) × ((get tag (quiesce_node tag stopped m).1 ≡ some k) × IsQuiet n k))
quiesce_node-IsQuiet tag stopped m n h =
    let p = quiesce_node_lem tag stopped m n h in
    let k = del_all (listed n.users) n in
    (
      ap (λ (r : Option Error × Manager). r.0) p,
      (
        k,
        (
          ap (λ (r : Option Error × Manager). get tag r.1) p ∙ get-put_self tag k m,
          del_all-IsQuiet n,
        ),
      ),
    )
