-- ===== src/Traffic/Holds.antt =====
-- What the lists of isolated batches keep, and that a conflict has one way out.
use v2node_hy.Base.{
  ◌-◌, ◌≤◌, ℤ, pos, ◌+ℤ◌, ◌-ℤ◌, ◌<ℤ◌, InInt64, wrap_exact, +ℤ_parts, -ℤ_parts, ap, ◌∙◌, unless,
  unless_not, Bool, true, false, ◌≡◌, refl, String, List, [], ◌∷◌, length, drop, keep_if, All,
  All-drop, length-drop, Option, some, ltb, if◌then◌else◌, arith,
}
use v2node_hy.Traffic.{TrafficBatch, TrafficHold, TrafficConflict, max_traffic_holds}
use v2node_hy.Traffic.Checks.{
  is_recent, trim_traffic_holds, can_isolate_traffic, can_rebase_traffic,
}

All-keep_if : {A : Type 0} (p : A → Bool) (xs : List A) → All (λ x. p x ≡ true) (keep_if p xs)
All-keep_if p [] = tt
All-keep_if p (x ∷ xs) = by_test (p x) refl (All-keep_if p xs)
  where
    by_test :
        (b : Bool)
        → p x ≡ b
        → All (λ y. p y ≡ true) (keep_if p xs)
        → All (λ y. p y ≡ true) (if b then x ∷ keep_if p xs else keep_if p xs)
    by_test true e h = (e, h)
    by_test false e h = h

trimmed :
    (xs : List TrafficHold) (P : TrafficHold → Type 0) (b : Bool)
    → ltb max_traffic_holds (length xs) ≡ b
    → All P xs
    → let ys = if b then drop (length xs - max_traffic_holds) xs else xs in
      (length ys ≤ max_traffic_holds) × All P ys
trimmed xs P true e h =
    (ground (arith, length-drop (length xs - max_traffic_holds) xs, e), All-drop P _ xs h)
trimmed xs P false e h = (ground (arith, e), h)

-- Isolated less than seven days ago, in seconds.
abbrev pub IsWithinWeek : ℤ → TrafficHold → Type 0
IsWithinWeek now h = now <ℤ h.at +ℤ pos 604_800

is_recent-IsWithinWeek :
    (now : ℤ)
    → InInt64 (now -ℤ pos 604_800)
    → (h : TrafficHold) → is_recent now h ≡ true
    → IsWithinWeek now h
is_recent-IsWithinWeek now i h e = ground (
  arith,
  e,
  wrap_exact (now -ℤ pos 604_800) i,
  -ℤ_parts now (pos 604_800),
  +ℤ_parts h.at (pos 604_800),
)

All-map :
    {A : Type 0} {P Q : A → Type 0} → ((x : A) → P x → Q x) → (xs : List A) → All P xs → All Q xs
All-map f [] h = tt
All-map f (x ∷ xs) h = (f x h.0, All-map f xs h.1)

IsWithinWeek-is_recent :
    (now : ℤ)
    → InInt64 (now -ℤ pos 604_800)
    → (h : TrafficHold) → IsWithinWeek now h
    → is_recent now h ≡ true
IsWithinWeek-is_recent now i h e = ground (
  arith,
  e,
  wrap_exact (now -ℤ pos 604_800) i,
  -ℤ_parts now (pos 604_800),
  +ℤ_parts h.at (pos 604_800),
)

keep_if-All :
    {A : Type 0} (p : A → Bool) (xs : List A) → All (λ x. p x ≡ true) xs → keep_if p xs ≡ xs
keep_if-All p [] h = refl
keep_if-All p (x ∷ xs) h = unless_not (p x) _ _ h.0 ∙ ap (λ l. x ∷ l) (keep_if-All p xs h.1)

-- For a time at which a week back does not overflow: no more than sixteen holds are kept, each was
-- isolated less than seven days ago, and a list that is so already is kept as it is.
pub trim_traffic_holds_lem :
    (held : List TrafficHold) (now : ℤ)
    → InInt64 (now -ℤ pos 604_800)
    → (length (trim_traffic_holds held now) ≤ 16)
      × All (IsWithinWeek now) (trim_traffic_holds held now)
      × (length held ≤ 16 → All (IsWithinWeek now) held → trim_traffic_holds held now ≡ held)
unfolding trim_traffic_holds
trim_traffic_holds_lem held now i =
    let t =
      trimmed (keep_if (is_recent now) held) (IsWithinWeek now) _ refl
        (All-map (is_recent-IsWithinWeek now i) _ (All-keep_if (is_recent now) held)) in
    (t.0, t.1, kept)
  where
    kept :
        length held ≤ 16
        → All (IsWithinWeek now) held
        → (let result = keep_if (is_recent now) held in
            if ltb max_traffic_holds (length result)
            then drop (length result - max_traffic_holds) result
            else result)
          ≡ held
    kept n h =
        let e = keep_if-All (is_recent now) held (All-map (IsWithinWeek-is_recent now i) held h) in
        let l = ap length e in
        unless (ltb max_traffic_holds (length (keep_if (is_recent now) held))) _ _
          (ground (arith, n, l))
        ∙ e

-- A conflict that lets a batch be isolated does not let it be rebased, whatever digest is taken
-- for the batch.
can_isolate_traffic-can_rebase_traffic :
    (c : TrafficConflict) (b : TrafficBatch) (digest : Option String) (other : String)
    → can_isolate_traffic c (some b) digest ≡ true
    → can_rebase_traffic c b.sequence other ≡ false
unfolding can_isolate_traffic can_rebase_traffic
can_isolate_traffic-can_rebase_traffic c b digest other h = ground arith
