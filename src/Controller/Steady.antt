-- ===== src/Controller/Steady.antt =====
-- The configuration in force and the changes that wait for a reload.
use v2node_hy.Base.{
  ℕ, ◌+◌, ◌-◌, ◌≤◌, ltb, Bool, true, false, Option, none, some, ◌≡◌, ◌≢◌, refl, ap, sym, ◌∙◌, arith,
  if◌then◌else◌, unless, unless_not,
}
use v2node_hy.Users.{UserSnapshot}
use v2node_hy.Traffic.Effect.{Result, ok, err}
use v2node_hy.NodeInfo.{NodeInfo, NodeCache, commit_node_info}
use v2node_hy.Controller.{request_reload, min_reload_interval}
use v2node_hy.Controller.Fingerprint.{core_reload_fingerprint}
use v2node_hy.Controller.Reload.{requires_core_reload, requires_core_reload_iff}
use v2node_hy.Controller.Monitor.{
  Monitor, core_of, IsCommitted, sync_step, note_reload, apply_runtime_node_info, node_info_monitor,
  rung,
}

sync_step-keeps :
    {B : Type 0} (f : Option NodeInfo × NodeCache → B) (generation : ℕ)
    (users : Result (Option UserSnapshot)) (m : Monitor)
    → f ((sync_step generation users m).info, (sync_step generation users m).node_cache)
      ≡ f (m.info, m.node_cache)
unfolding sync_step
sync_step-keeps f generation (err e) m = refl
sync_step-keeps f generation (ok s) m = refl

kept_core :
    (o : Option NodeInfo) (n : NodeInfo)
    → requires_core_reload o (some n) ≡ false
    → core_of (some n) ≡ core_of o
unfolding requires_core_reload
kept_core none n h = absurd (ground arith)
kept_core (some old) n h = ap some (sym ((requires_core_reload_iff old n).0 h))

committed :
    (n : NodeInfo) (c : NodeCache)
    → commit_node_info (some n) c ≡ commit_node_info (some n) (commit_node_info (some n) c)
unfolding commit_node_info
committed n c = refl

sync_step-IsCommitted :
    (generation : ℕ) (users : Result (Option UserSnapshot)) (m : Monitor)
    → IsCommitted m
    → IsCommitted (sync_step generation users m)
unfolding sync_step
sync_step-IsCommitted generation (err e) m h = h
sync_step-IsCommitted generation (ok s) m h = h

-- Whatever the panel answers, a run of the task leaves the core of the configuration in force as
-- it is.
pub node_info_monitor-core :
    (now generation : ℕ) (fetched : Result (Option NodeInfo)) (users : Result (Option UserSnapshot))
    (m : Monitor)
    → core_of (node_info_monitor now generation fetched users m).info ≡ core_of m.info
unfolding node_info_monitor note_reload apply_runtime_node_info
node_info_monitor-core now generation (err e) users m = refl
node_info_monitor-core now generation (ok none) users m =
    sync_step-keeps (λ p. core_of p.0) generation users m
node_info_monitor-core now generation (ok (some n)) users m =
    by_test (requires_core_reload m.info (some n)) (kept_core m.info n)
  where
    by_test :
        (b : Bool)
        → (b ≡ false → core_of (some n) ≡ core_of m.info)
        → core_of
            (if b
              then note_reload now m
              else sync_step generation users (apply_runtime_node_info (some n) m)).info
          ≡ core_of m.info
    by_test true h = refl
    by_test false h =
        sync_step-keeps (λ p. core_of p.0) generation users (apply_runtime_node_info (some n) m)
        ∙ h refl

-- If the validators that the client sends are those of the configuration in force, they are so after
-- a run of the task, whatever the panel answers.
pub node_info_monitor-IsCommitted :
    (now generation : ℕ) (fetched : Result (Option NodeInfo)) (users : Result (Option UserSnapshot))
    (m : Monitor)
    → IsCommitted m
    → IsCommitted (node_info_monitor now generation fetched users m)
unfolding node_info_monitor note_reload apply_runtime_node_info
node_info_monitor-IsCommitted now generation (err e) users m h = h
node_info_monitor-IsCommitted now generation (ok none) users m h =
    sync_step-IsCommitted generation users m h
node_info_monitor-IsCommitted now generation (ok (some n)) users m h =
    by_test (requires_core_reload m.info (some n))
  where
    by_test :
        (b : Bool)
        → IsCommitted (
            if b
            then note_reload now m
            else sync_step generation users (apply_runtime_node_info (some n) m))
    by_test true = h
    by_test false =
        sync_step-IsCommitted generation users (apply_runtime_node_info (some n) m)
          (committed n m.node_cache)

-- A minute or more has passed since the reload that was asked for last, if there was one.
abbrev pub IsDue : ℕ → Option ℕ → Type 0
IsDue now none = Unit
IsDue now (some last) = last + min_reload_interval ≤ now

note_reload-rings :
    (now : ℕ) (m : Monitor) (full : Bool)
    → IsDue now m.last_reload_at
    → m.reload_ch ≡ some full
    → (note_reload now m).reload_ch ≡ some true
unfolding note_reload request_reload
note_reload-rings now m full h e = by_last m.last_reload_at h ∙ ap (rung true) e
  where
    by_last :
        (last : Option ℕ)
        → IsDue now last
        → rung (request_reload now last).0 m.reload_ch ≡ rung true m.reload_ch
    by_last none h = refl
    by_last (some last) h =
        ap (λ (x : Bool × Option ℕ). rung x.0 m.reload_ch)
          (unless (ltb (now - last) min_reload_interval) (false, some last) (true, some now)
            (ground arith))

-- A fetched change of the core asks for a reload, as soon as a minute has passed since the last one.
pub node_info_monitor-rings :
    (now generation : ℕ) (old new : NodeInfo) (users : Result (Option UserSnapshot)) (m : Monitor)
    (full : Bool)
    → m.info ≡ some old
    → core_reload_fingerprint old ≢ core_reload_fingerprint new
    → IsDue now m.last_reload_at
    → m.reload_ch ≡ some full
    → (node_info_monitor now generation (ok (some new)) users m).reload_ch ≡ some true
unfolding node_info_monitor
node_info_monitor-rings now generation old new users m full e d h ch =
    ap (λ x. x.reload_ch)
      (unless_not (requires_core_reload m.info (some new)) (note_reload now m)
        (sync_step generation users (apply_runtime_node_info (some new) m)) (required m.info e))
    ∙ note_reload-rings now m full h ch
  where
    required : (o : Option NodeInfo) → o ≡ some old → requires_core_reload o (some new) ≡ true
    required o p =
        ap (λ x. requires_core_reload x (some new)) p
        ∙ ground (arith, d, requires_core_reload_iff old new)
