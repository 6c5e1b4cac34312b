-- ===== src/Task/Safety.antt =====
-- Invariants of a task's life, by induction on its steps.
use v2node_hy.Base.{ℕ, ◌<◌, true, false, ◌≡◌, arith}
use v2node_hy.Task.{
  Task, start, update_interval, handle_exit_on_timeout, skip_interval, begin_execute, time_out,
  finish_execute, safe_stop, Step, starts, ticks, times_out, finishes, finishes_late, reschedules,
  stops, leaves, looks, exits, exits_alone, look, Steps, here, next, threshold,
}

-- A closed task stays closed, does not run again, and takes on no new execution.
pub record IsShut (t : Task) : Type 0 where
  pub is_closed : t.closed ≡ true
  pub not_running : t.running ≡ false

-- What holds between a task and a later state of it.
pub record IsEnding (t u : Task) : Type 0 where
  pub shut : IsShut u
  pub no_execution : u.locked ≡ true → t.locked ≡ true
  pub no_loop : u.looping ≡ true → t.looping ≡ true

-- The settings of a task that exits on timeouts, and what its counter stays below.
pub record IsPatient (t : Task) : Type 0 where
  pub exits_on_timeout : t.exit_on_timeout ≡ true
  pub never_reloads : t.reload_on_timeout ≡ false
  pub patient : t.exiting ≡ false → t.timeout_count < threshold t

handle-patient :
    (count : ℕ) (t : Task)
    → (handle_exit_on_timeout count t).exiting ≡ false
    → t.timeout_count ≡ count
    → t.timeout_count < threshold t
unfolding handle_exit_on_timeout
handle-patient count t e f = ground arith

Step-IsPatient : (t u : Task) → IsPatient t → Step t u → IsPatient u
unfolding start begin_execute skip_interval time_out handle_exit_on_timeout finish_execute look
    update_interval safe_stop
Step-IsPatient _ _ h (starts t u e) = record {
  exits_on_timeout = ground (arith, h.exits_on_timeout, e);
  never_reloads = ground (arith, h.never_reloads, e);
  patient = λ x. ground (arith, h.patient, e);
}
Step-IsPatient _ _ h (ticks t e) = record {
  exits_on_timeout = ground (arith, h.exits_on_timeout);
  never_reloads = ground (arith, h.never_reloads);
  patient = λ x. ground (arith, h.patient);
}
Step-IsPatient _ _ h (times_out t e) = record {
  exits_on_timeout = ground (arith, h.exits_on_timeout, h.never_reloads);
  never_reloads = ground (arith, h.never_reloads);
  patient = λ x. ground (arith, h.patient, h.exits_on_timeout, h.never_reloads);
}
Step-IsPatient _ _ h (finishes o t e) = record {
  exits_on_timeout = ground (arith, h.exits_on_timeout);
  never_reloads = ground (arith, h.never_reloads);
  patient = λ x. ground arith;
}
Step-IsPatient _ _ h (finishes_late t e) = record {
  exits_on_timeout = h.exits_on_timeout;
  never_reloads = h.never_reloads;
  patient = h.patient;
}
Step-IsPatient _ _ h (reschedules n t) = record {
  exits_on_timeout = ground (arith, h.exits_on_timeout);
  never_reloads = ground (arith, h.never_reloads);
  patient = λ x. ground (arith, h.patient);
}
Step-IsPatient _ _ h (stops t) = record {
  exits_on_timeout = h.exits_on_timeout;
  never_reloads = h.never_reloads;
  patient = h.patient;
}
Step-IsPatient _ _ h (looks t e) = record {
  exits_on_timeout = ground (arith, h.exits_on_timeout);
  never_reloads = ground (arith, h.never_reloads);
  patient = λ x. ground (arith, h.patient);
}
Step-IsPatient _ _ h (exits t e f) = record {
  exits_on_timeout = h.exits_on_timeout;
  never_reloads = h.never_reloads;
  patient = h.patient;
}
Step-IsPatient _ _ h (exits_alone t e) = record {
  exits_on_timeout = h.exits_on_timeout;
  never_reloads = h.never_reloads;
  patient = h.patient;
}
Step-IsPatient _ _ h (leaves t e) = record {
  exits_on_timeout = h.exits_on_timeout;
  never_reloads = h.never_reloads;
  patient = h.patient;
}

-- A task that exits on timeouts, and starts below its threshold, asks for the exit as soon as its
-- count of timeouts reaches the threshold: while it has not asked, the count is below.
pub Steps-IsPatient : (t u : Task) → IsPatient t → Steps t u → IsPatient u
Steps-IsPatient _ _ h (here t) = h
Steps-IsPatient _ _ h (next t u v s ss) = Steps-IsPatient u v (Step-IsPatient t u h s) ss
