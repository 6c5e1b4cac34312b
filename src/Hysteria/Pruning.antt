-- ===== src/Hysteria/Pruning.antt =====
-- Pruning retired users loses no byte and no active user.
use v2node_hy.Base.{
  ℕ, ℤ, pos, eqb_ℤ_iff, String, Bool, true, false, not, ◌≡◌, refl, sym, ap, ◌∙◌, str_eq, str_eq_iff,
  Option, none, some, is_some, List, [], ◌∷◌, ◌++◌, All, All-append, get, get-del, string_key,
  nat_key, Bool-cases, inl, inr, if◌then◌else◌, unless, unless_not, arith,
}
use v2node_hy.Counter.{
  TrafficCounter, TrafficStorage, storage_at, count_of, get_up_count, get_down_count, delete,
}
use v2node_hy.Hysteria.{Node}
use v2node_hy.Hysteria.Users.{is_prunable, prune_all}

-- The counts of a user in two counters are the same.
abbrev pub AgreesAt : String → TrafficCounter → TrafficCounter → Type 0
AgreesAt v c d = (get_up_count v c ≡ get_up_count v d) × (get_down_count v c ≡ get_down_count v d)

count_at-delete :
    (part : TrafficStorage → ℤ) (o : Option ℕ) (u : String) (c : TrafficCounter)
    → count_of part o (delete u c) ≡ count_of part o c
unfolding delete count_of storage_at
count_at-delete part none u c = refl
count_at-delete part (some a) u c = refl

count-delete :
    (part : TrafficStorage → ℤ) (u v : String) (c : TrafficCounter)
    → count_of part (get u c.counters) c ≡ pos 0
    → count_of part (get v (delete u c).counters) (delete u c) ≡ count_of part (get v c.counters) c
unfolding delete count_of
count-delete part u v c z =
    count_at-delete part (get v (delete u c).counters) u c ∙ elim (Bool-cases (str_eq u v)) [
      | inl same ↦
          ap (λ o. count_of part o c) (get-del u v c.counters ∙ unless_not (str_eq u v) _ _ same)
          ∙ sym z
          ∙ ap (λ w. count_of part (get w c.counters) c) ((str_eq_iff u v).0 same)
      | inr other ↦
          ap (λ o. count_of part o c) (get-del u v c.counters ∙ unless (str_eq u v) _ _ other)
    ]

prune_one :
    (n : Node) (u v : String) (c : TrafficCounter)
    → is_prunable n u c ≡ true
    → AgreesAt v (delete u c) c
unfolding get_up_count get_down_count
prune_one n u v c h = (
  count-delete (λ s. s.up_counter) u v c (ground (arith, eqb_ℤ_iff (get_up_count u c) (pos 0))),
  count-delete (λ s. s.down_counter) u v c (ground (arith, eqb_ℤ_iff (get_down_count u c) (pos 0))),
)

-- Only inactive users are removed, and every count is what it was.
abbrev IsPruned : Node → TrafficCounter → List String × TrafficCounter → Type 0
IsPruned n c r = All (λ u. get u n.users ≡ none) r.0 × ((v : String) → AgreesAt v r.1 c)

prune_step :
    (n : Node) (u : String) (base c : TrafficCounter) (removed : List String) (b : Bool)
    → is_prunable n u c ≡ b
    → IsPruned n base (removed, c)
    → IsPruned n base (if b then (removed ++ u ∷ [], delete u c) else (removed, c))
prune_step n u base c removed false e h = h
prune_step n u base c removed true e h = (
  All-append _ removed (u ∷ []) h.0 (inactive (get u n.users) (ground arith), tt),
  λ v. let p = prune_one n u v c e in let q = h.1 v in (p.0 ∙ q.0, p.1 ∙ q.1),
)
  where
    inactive : (o : Option ℤ) → not (is_some o) ≡ true → o ≡ none
    inactive none z = refl
    inactive (some a) z = absurd (ground arith)

prune_all-IsPruned :
    (n : Node) (uuids : List String) (base : TrafficCounter) (r : List String × TrafficCounter)
    → IsPruned n base r
    → IsPruned n base (prune_all n uuids r)
unfolding prune_all
prune_all-IsPruned n [] base r h = h
prune_all-IsPruned n (u ∷ us) base (removed, c) h =
    prune_all-IsPruned n us base _ (prune_step n u base c removed (is_prunable n u c) refl h)

-- Pruning removes no user who may authenticate, and changes no user's upload or download count.
pub prune_all-keeps :
    (n : Node) (uuids : List String)
    → let r = prune_all n uuids ([], n.counter) in
      All (λ u. get u n.users ≡ none) r.0
      × ((v : String)
          → (get_up_count v r.1 ≡ get_up_count v n.counter)
            × (get_down_count v r.1 ≡ get_down_count v n.counter))
prune_all-keeps n uuids =
    prune_all-IsPruned n uuids n.counter ([], n.counter) (tt, λ v. (refl, refl))
