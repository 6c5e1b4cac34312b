-- ===== src/Task/Exits.antt =====
-- The exits of a task whose executions time out: handleExitOnTimeout and what can stop it.
use v2node_hy.Base.{ℕ, zero, suc, ltb, true, false, ◌≡◌, refl, Option, none, some, ◌∙◌, arith}
use v2node_hy.Task.{
  Task, start, update_interval, handle_exit_on_timeout, skip_interval, begin_execute, send_reload,
  time_out, finish_execute, safe_stop, Step, starts, ticks, times_out, finishes, finishes_late,
  reschedules, stops, leaves, looks, exits, exits_alone, look, Steps, here, next,
}

-- A task that has been made and not used.
pub record IsUnused (t : Task) : Type 0 where
  pub unlocked : t.locked ≡ false
  pub no_timeout : t.timeout_count ≡ 0
  pub not_exiting : t.exiting ≡ false
  pub not_pausing : t.pausing ≡ false
  pub not_alone : t.pausing_alone ≡ false

-- Executions, timeouts and exits come after the making of the lifetime.
pub record IsAnchored (t : Task) : Type 0 where
  pub locks : t.locked ≡ true → t.live ≡ true
  pub counts : ltb 0 t.timeout_count ≡ true → t.live ≡ true
  pub exits_live : t.exiting ≡ true → t.live ≡ true
  pub pauses : t.pausing ≡ true → t.live ≡ true
  pub not_alone : t.pausing_alone ≡ false

pub unused-IsAnchored : (t : Task) → IsUnused t → IsAnchored t
unused-IsAnchored t h = record {
  locks = λ e. ground (arith, h.unlocked);
  counts = λ e. ground (arith, h.no_timeout);
  exits_live = λ e. ground (arith, h.not_exiting);
  pauses = λ e. ground (arith, h.not_pausing);
  not_alone = h.not_alone;
}

-- A task that has a lifetime.
live-IsAnchored : (t : Task) → t.live ≡ true → t.pausing_alone ≡ false → IsAnchored t
live-IsAnchored t l a = record {
  locks = λ e. l;
  counts = λ e. l;
  exits_live = λ e. l;
  pauses = λ e. l;
  not_alone = a;
}

send_reload-live :
    (o : Option ℕ) (t : Task)
    → ((send_reload o t).live ≡ t.live)
      × ((send_reload o t).pausing_alone ≡ t.pausing_alone)
      × ((send_reload o t).closed ≡ t.closed)
      × ((send_reload o t).pausing ≡ t.pausing)
      × ((send_reload o t).cancelled ≡ t.cancelled)
      × ((send_reload o t).exited ≡ t.exited)
unfolding send_reload
send_reload-live none t = (refl, refl, refl, refl, refl, refl)
send_reload-live (some zero) t = (refl, refl, refl, refl, refl, refl)
send_reload-live (some (suc n)) t = (refl, refl, refl, refl, refl, refl)

time_out-live :
    (t : Task)
    → ((time_out t).live ≡ t.live)
      × ((time_out t).pausing_alone ≡ t.pausing_alone)
      × ((time_out t).closed ≡ t.closed)
      × ((time_out t).pausing ≡ t.pausing)
      × ((time_out t).cancelled ≡ t.cancelled)
      × ((time_out t).exited ≡ t.exited)
unfolding time_out handle_exit_on_timeout
time_out-live t =
    let r = send_reload-live t.reload_channel (record t { timeout_count = suc t.timeout_count }) in
    (
      ground (arith, r.0),
      ground (arith, r.1),
      ground (arith, r.2),
      ground (arith, r.3),
      ground (arith, r.4),
      ground (arith, r.5),
    )

Step-IsAnchored : (t u : Task) → IsAnchored t → Step t u → IsAnchored u
unfolding start begin_execute skip_interval handle_exit_on_timeout finish_execute update_interval
    safe_stop look
Step-IsAnchored _ _ h (starts t u e) = record {
  locks = λ x. ground (arith, h.locks, e);
  counts = λ x. ground (arith, h.counts, e);
  exits_live = λ x. ground (arith, h.exits_live, e);
  pauses = λ x. ground (arith, h.pauses, e);
  not_alone = ground (arith, h.not_alone, e);
}
Step-IsAnchored _ _ h (ticks t e) = record {
  locks = λ x. ground (arith, h.locks, h.counts);
  counts = λ x. ground (arith, h.locks, h.counts);
  exits_live = λ x. ground (arith, h.locks, h.exits_live);
  pauses = λ x. ground (arith, h.pauses, h.locks);
  not_alone = ground (arith, h.not_alone);
}
Step-IsAnchored _ _ h (times_out t e) =
    let r = time_out-live t in live-IsAnchored (time_out t) (r.0 ∙ h.locks e) (r.1 ∙ h.not_alone)
Step-IsAnchored _ _ h (finishes o t e) = record {
  locks = λ x. ground arith;
  counts = λ x. ground arith;
  exits_live = λ x. ground (arith, h.exits_live);
  pauses = λ x. ground (arith, h.pauses);
  not_alone = ground (arith, h.not_alone);
}
Step-IsAnchored _ _ h (finishes_late t e) = record {
  locks = λ x. ground (arith, x);
  counts = h.counts;
  exits_live = h.exits_live;
  pauses = h.pauses;
  not_alone = h.not_alone;
}
Step-IsAnchored _ _ h (reschedules n t) = record {
  locks = λ x. ground (arith, h.locks);
  counts = λ x. ground (arith, h.counts);
  exits_live = λ x. ground (arith, h.exits_live);
  pauses = λ x. ground (arith, h.pauses);
  not_alone = ground (arith, h.not_alone);
}
Step-IsAnchored _ _ h (stops t) = record {
  locks = h.locks;
  counts = h.counts;
  exits_live = h.exits_live;
  pauses = h.pauses;
  not_alone = h.not_alone;
}
Step-IsAnchored _ _ h (looks t e) = record {
  locks = λ x. ground (arith, h.locks);
  counts = λ x. ground (arith, h.counts);
  exits_live = λ x. ground (arith, h.exits_live);
  pauses = λ x. ground (arith, h.pauses);
  not_alone = ground (arith, h.not_alone, h.exits_live e);
}
Step-IsAnchored _ _ h (exits t e f) = record {
  locks = h.locks;
  counts = h.counts;
  exits_live = h.exits_live;
  pauses = h.pauses;
  not_alone = h.not_alone;
}
Step-IsAnchored _ _ h (exits_alone t e) = absurd (ground (arith, h.not_alone, e))
Step-IsAnchored _ _ h (leaves t e) = record {
  locks = h.locks;
  counts = h.counts;
  exits_live = h.exits_live;
  pauses = h.pauses;
  not_alone = h.not_alone;
}

pub Steps-IsAnchored : (t u : Task) → IsAnchored t → Steps t u → IsAnchored u
Steps-IsAnchored _ _ h (here t) = h
Steps-IsAnchored _ _ h (next t u v s ss) = Steps-IsAnchored u v (Step-IsAnchored t u h s) ss

-- A closed task, each of whose pauses ends with the lifetime.
pub record IsBarred (t : Task) : Type 0 where
  pub is_closed : t.closed ≡ true
  pub ends : t.pausing ≡ true → t.cancelled ≡ true
  pub not_alone : t.pausing_alone ≡ false

pub safe_stop-IsBarred : (t : Task) → IsAnchored t → IsBarred (safe_stop t)
unfolding safe_stop
safe_stop-IsBarred t h = record {
  is_closed = refl;
  ends = λ e. ground (arith, h.pauses e);
  not_alone = h.not_alone;
}

-- What exits depend on once the task is closed.
abbrev IsSame : Task → Task → Type 0
IsSame t u =
    (u.closed ≡ t.closed)
    × (u.pausing ≡ t.pausing)
    × (u.cancelled ≡ t.cancelled)
    × (u.pausing_alone ≡ t.pausing_alone)
    × (u.exited ≡ t.exited)

same-IsBarred : (t u : Task) → IsBarred t → IsSame t u → IsBarred u × (u.exited ≡ t.exited)
same-IsBarred t u h e = (
  record {
    is_closed = e.0 ∙ h.is_closed;
    ends = λ p. e.2 ∙ h.ends (ground (arith, e.1, p));
    not_alone = e.3 ∙ h.not_alone;
  },
  e.4,
)

Step-IsBarred : (t u : Task) → IsBarred t → Step t u → IsBarred u × (u.exited ≡ t.exited)
unfolding start begin_execute skip_interval handle_exit_on_timeout finish_execute update_interval
    safe_stop look
Step-IsBarred _ _ h (starts t u e) = absurd (ground (arith, h.is_closed, e))
Step-IsBarred _ _ h (ticks t e) =
    same-IsBarred t (begin_execute t) h
      (ground arith, ground arith, ground arith, ground arith, ground arith)
Step-IsBarred _ _ h (times_out t e) =
    let r = time_out-live t in same-IsBarred t (time_out t) h (r.2, r.3, r.4, r.1, r.5)
Step-IsBarred _ _ h (finishes o t e) =
    same-IsBarred t (finish_execute o t) h
      (ground arith, ground arith, ground arith, ground arith, ground arith)
Step-IsBarred _ _ h (finishes_late t e) = same-IsBarred t _ h (refl, refl, refl, refl, refl)
Step-IsBarred _ _ h (reschedules n t) =
    same-IsBarred t (update_interval n t) h
      (ground arith, ground arith, ground arith, ground arith, ground arith)
Step-IsBarred _ _ h (stops t) = (
  record { is_closed = refl; ends = λ p. ground (arith, h.ends p); not_alone = h.not_alone },
  refl,
)
Step-IsBarred _ _ h (looks t e) = same-IsBarred t (look t) h (
  ground (arith, h.is_closed),
  ground (arith, h.is_closed),
  ground (arith, h.is_closed),
  ground (arith, h.is_closed),
  ground (arith, h.is_closed),
)
Step-IsBarred _ _ h (exits t e f) = absurd (ground (arith, h.ends e, f))
Step-IsBarred _ _ h (exits_alone t e) = absurd (ground (arith, h.not_alone, e))
Step-IsBarred _ _ h (leaves t e) = same-IsBarred t _ h (refl, refl, refl, refl, refl)

pub Steps-exited : (t u : Task) → IsBarred t → Steps t u → u.exited ≡ t.exited
Steps-exited _ _ h (here t) = refl
Steps-exited _ _ h (next t u v s ss) =
    let first = Step-IsBarred t u h s in Steps-exited u v first.0 ss ∙ first.1
