-- ===== src/Controller/Budgets.antt =====
-- The time that a request to the panel gets: node/timeout.go. Times are nanoseconds of one clock;
-- a context is its deadline, if it has one, and its error.
use v2node_hy.Base.{
  ℕ, ◌+◌, ◌-◌, ◌*◌, ◌≤◌, ltb, leb, Bool, true, false, ◌||◌, Option, none, some, if◌then◌else◌, ◌≡◌,
  refl, arith,
}

abbrev pub panel_request_timeout : ℕ
panel_request_timeout = 12 * 1_000_000_000

abbrev pub panel_task_timeout : ℕ
panel_task_timeout = 45 * 1_000_000_000

abbrev pub min_panel_task_budget : ℕ
min_panel_task_budget = 3 * 1_000_000_000

-- context.WithTimeout: a deadline is never later than that of the parent.
unfoldable pub with_timeout : ℕ → ℕ → Option ℕ → Option ℕ
with_timeout now timeout none = some (now + timeout)
with_timeout now timeout (some d) = some (if ltb d (now + timeout) then d else now + timeout)

-- The deadline of the context for one request.
unfoldable pub panel_request_context : ℕ → Option ℕ → Option ℕ
unfolding with_timeout
panel_request_context now none = with_timeout now panel_request_timeout none
panel_request_context now (some d) =
    if leb d now
    then some d
    else if ltb (d - now) panel_request_timeout
    then with_timeout now (d - now) (some d)
    else with_timeout now panel_request_timeout (some d)

-- What isPanelTimeout sees of an error.
pub record Failure : Type 0 where
  pub is_cancelled : Bool
  pub is_deadline_exceeded : Bool
  pub is_net_timeout : Bool
  pub says_client_timeout : Bool
  pub says_deadline_exceeded : Bool

unfoldable pub is_panel_timeout : Option Failure → Bool
is_panel_timeout none = false
is_panel_timeout (some e) =
    e.is_cancelled || e.is_deadline_exceeded || e.is_net_timeout || e.says_client_timeout
    || e.says_deadline_exceeded

unfoldable pub has_panel_task_budget : ℕ → Bool → Option ℕ → Bool
has_panel_task_budget now failed deadline =
    if failed
    then false
    else elim deadline [ none ↦ true | some d ↦ ltb (now + min_panel_task_budget) d ]

-- The deadline is within twelve seconds, or it has passed, and it is not after the given one.
abbrev pub IsWithin : ℕ → Option ℕ → Option ℕ → Type 0
IsWithin now parent none = ⊥
IsWithin now none (some d) = d ≤ now + panel_request_timeout
IsWithin now (some p) (some d) = (d ≤ p) × (d ≤ now + panel_request_timeout)

-- Each request has a deadline, at most twelve seconds away and not after that of its task.
panel_request_context-IsWithin :
    (now : ℕ) (parent : Option ℕ) → IsWithin now parent (panel_request_context now parent)
unfolding panel_request_context with_timeout
panel_request_context-IsWithin now none = omega arith
panel_request_context-IsWithin now (some d) =
    by_tests (leb d now) (ltb (d - now) panel_request_timeout) refl refl
  where
    by_tests :
        (b c : Bool)
        → leb d now ≡ b
        → ltb (d - now) panel_request_timeout ≡ c
        → IsWithin now (some d) (
            if b
            then some d
            else if c
            then with_timeout now (d - now) (some d)
            else with_timeout now panel_request_timeout (some d))
    by_tests true c e f = (ground arith, ground (arith, e))
    by_tests false true e f = (ground arith, ground (arith, e, f))
    by_tests false false e f = (ground (arith, e, f), ground (arith, e, f))
