-- ===== src/Task.antt =====
-- A recurring task: common/task/task.go. A worker of ExecuteWithTimeout runs beside the loop, so
-- the life of a task is a relation of small steps; `Lock` and channels are parts of the state.
-- Durations are nanoseconds far below the bound of `int64`, and so are the counts below 2 ^ 31.
pub mod Exits
pub mod Safety
use v2node_hy.Base.{
  ℕ, zero, suc, ◌+◌, ◌*◌, ◌==◌, ltb, leb, Bool, true, false, not, ◌&&◌, ◌||◌, ◌≡◌, Option, none,
  some, is_some, if◌then◌else◌,
}

-- What Execute returns: `halted` is an error that is neither Canceled nor DeadlineExceeded.
pub data Outcome : Type 0 where
  done stopped halted : Outcome

-- `reload_channel` is the room left in ReloadCh, if there is one. `exiting`, `pausing` and
-- `pausing_alone` tell that an exit has been asked for, and that one has come to its pause, with the
-- lifetime or without one; they stay true, since there may be several exits. `exited` is the end of
-- the process.
pub record Task : Type 0 where
  pub interval : ℕ
  pub timeout : ℕ
  pub reload_on_timeout : Bool
  pub exit_on_timeout : Bool
  pub exit_on_timeout_after : ℕ
  pub reload_channel : Option ℕ
  pub running : Bool
  pub closed : Bool
  pub looping : Bool
  pub locked : Bool
  pub live : Bool
  pub cancelled : Bool
  pub timeout_count : ℕ
  pub reloads : ℕ
  pub exiting : Bool
  pub pausing : Bool
  pub pausing_alone : Bool
  pub exited : Bool

-- `none` is context.Canceled.
unfoldable pub start : Task → Option Task
start t =
    if t.closed
    then none
    else if t.running
    then some t
    else some (record t { running = true; looping = true })

-- An interval of 0 stands for one that is not positive.
unfoldable pub update_interval : ℕ → Task → Task
update_interval interval t = if interval == 0 then t else record t { interval = interval }

abbrev pub five_minutes : ℕ
five_minutes = 300_000_000_000

unfoldable pub current_timeout : Task → ℕ
current_timeout t =
    if ltb 0 t.timeout
    then t.timeout
    else if ltb (5 * t.interval) five_minutes
    then 5 * t.interval
    else five_minutes

abbrev pub threshold : Task → ℕ
threshold t = if t.exit_on_timeout_after == 0 then 1 else t.exit_on_timeout_after

-- An exit is asked for, which goes on as a thread of its own.
unfoldable pub handle_exit_on_timeout : ℕ → Task → Task
handle_exit_on_timeout count t = if ltb count (threshold t) then t else record t { exiting = true }

-- The thread of an exit up to its pause: it looks once whether the task is closed.
unfoldable pub look : Task → Task
look t =
    if t.closed
    then t
    else if t.live
    then record t { pausing = true }
    else record t { pausing_alone = true }

-- An interval that finds the previous execution still running.
unfoldable pub skip_interval : Task → Task
unfolding handle_exit_on_timeout
skip_interval t =
    if t.exit_on_timeout && ltb 0 t.timeout_count
    then handle_exit_on_timeout (suc t.timeout_count)
        (record t { timeout_count = suc t.timeout_count })
    else t

-- ExecuteWithTimeout up to its wait: the lock is taken, and the lifetime made if there is none.
unfoldable pub begin_execute : Task → Task
unfolding skip_interval
begin_execute t =
    if t.locked
    then skip_interval t
    else if t.closed
    then t
    else record t { locked = true; live = true }

-- The branch of the timeout.
unfoldable pub send_reload : Option ℕ → Task → Task
send_reload none t = t
send_reload (some zero) t = t
send_reload (some (suc room)) t = record t { reload_channel = some room; reloads = suc t.reloads }

unfoldable pub time_out : Task → Task
unfolding handle_exit_on_timeout send_reload
time_out t =
    if t.cancelled
    then t
    else let u = record t { timeout_count = suc t.timeout_count } in
      if u.reload_on_timeout && is_some u.reload_channel
      then send_reload u.reload_channel u
      else if u.exit_on_timeout
      then handle_exit_on_timeout u.timeout_count u
      else u

-- The worker's end, when the caller still waits for it: an error ends the loop.
unfoldable pub finish_execute : Outcome → Task → Task
finish_execute halted t = record t { timeout_count = 0; locked = false; looping = false }
finish_execute _ t = record t { timeout_count = 0; locked = false }

-- The worker's end after its caller has gone on.
abbrev pub finish_late : Task → Task
finish_late t = record t { locked = false }

unfoldable pub safe_stop : Task → Task
safe_stop t = record t { closed = true; cancelled = t.live || t.cancelled; running = false }

-- The two waits of CloseContext, where its context lasts.
abbrev pub is_quiet : Task → Bool
is_quiet t = not t.looping && not t.locked

-- The steps of the loop, its workers, its owner and the threads of exits. A pause ends with the exit
-- unless the lifetime is cancelled, where the end of the pause and the exit are one step; without a
-- lifetime nothing stops it.
pub data Step : Task → Task → Type 0 where
  starts : (t u : Task) → start t ≡ some u → Step t u
  ticks : (t : Task) → t.looping ≡ true → Step t (begin_execute t)
  times_out : (t : Task) → t.locked ≡ true → Step t (time_out t)
  finishes : (o : Outcome) (t : Task) → t.locked ≡ true → Step t (finish_execute o t)
  finishes_late : (t : Task) → t.locked ≡ true → Step t (finish_late t)
  reschedules : (n : ℕ) (t : Task) → Step t (update_interval n t)
  stops : (t : Task) → Step t (safe_stop t)
  looks : (t : Task) → t.exiting ≡ true → Step t (look t)
  exits : (t : Task) → t.pausing ≡ true → t.cancelled ≡ false → Step t (record t { exited = true })
  exits_alone : (t : Task) → t.pausing_alone ≡ true → Step t (record t { exited = true })
  leaves : (t : Task) → t.running ≡ false → Step t (record t { looping = false })

pub data Steps : Task → Task → Type 0 where
  here : (t : Task) → Steps t t
  next : (t u v : Task) → Step t u → Steps u v → Steps t v
