-- ===== src/Hysteria/Serve.antt =====
-- The server of a node over its restarts: serveLoop, runServeLoop, waitBeforeRestart, stop and
-- closeServer of core/officialhy2/manager.go. The loop and the caller of stop are two threads; a
-- step is what one of them does between two points where the other can come in. Servers are
-- numbered as newServer returns them, and Close closes a server even if it returns an error.
use v2node_hy.Base.{
  ℕ, suc, Bool, true, false, ◌≡◌, Option, none, some, Table, get, put, del, nat_key, [],
}
use v2node_hy.Hysteria.Users.{second, next_restart_backoff}

-- Where the loop is: before the look at `stopCh`, before the read of the server, in Serve, after
-- it, before closeServer, in its Close, in waitBeforeRestart, in newServer, before the lock, with
-- the lock, closing a server that came too late, and after the end.
pub data LoopPoint : Type 0 where
  checking loading : LoopPoint
  serving : ℕ → LoopPoint
  served retiring : LoopPoint
  retiring_server : ℕ → LoopPoint
  waiting creating : LoopPoint
  created installing discarding : ℕ → LoopPoint
  finished : LoopPoint

-- Where stop is: not called, before closeServer, in its Close, in the wait, and after the end.
pub data StopPoint : Type 0 where
  not_called taking : StopPoint
  stopping_server : ℕ → StopPoint
  awaiting stopped : StopPoint

-- `open_servers` are those that newServer has returned and Close has not closed.
pub record Serving : Type 0 where
  pub server : Option ℕ
  pub stop_called : Bool
  pub loop : LoopPoint
  pub stop : StopPoint
  pub open_servers : Table ℕ Unit
  pub fresh : ℕ
  pub backoff : ℕ

abbrev pub retry_delay : ℕ
retry_delay = second

abbrev pub loop_at : LoopPoint → Serving → Serving
loop_at p v = record v { loop = p }

abbrev pub close_server : ℕ → Serving → Serving
close_server s v = record v { open_servers = del s v.open_servers }

-- The node that AddNode has put in the manager.
unfoldable pub new_serving : Serving
new_serving = record {
  server = some 0;
  stop_called = false;
  loop = checking;
  stop = not_called;
  open_servers = put 0 tt [];
  fresh = 1;
  backoff = retry_delay;
}

-- What closeServer takes under the lock, and where the loop goes on from there.
abbrev pub after_retiring : Option ℕ → LoopPoint
after_retiring none = waiting
after_retiring (some s) = retiring_server s

abbrev pub after_taking : Option ℕ → StopPoint
after_taking none = awaiting
after_taking (some s) = stopping_server s

abbrev pub after_loading : Option ℕ → LoopPoint
after_loading none = waiting
after_loading (some s) = serving s

unfoldable pub install : ℕ → Serving → Serving
install s v = record v { server = some s; loop = checking; backoff = retry_delay }

unfoldable pub create : Serving → Serving
create v = record v {
  loop = created v.fresh;
  open_servers = put v.fresh tt v.open_servers;
  fresh = suc v.fresh;
}

unfoldable pub retry_later : Serving → Serving
retry_later v = record v { loop = checking; backoff = next_restart_backoff v.backoff }

-- The steps of the loop. Serve returns when its server is closed.
pub data LoopStep : Serving → Serving → Type 0 where
  leaves :
      (v : Serving) → v.loop ≡ checking → v.stop_called ≡ true → LoopStep v (loop_at finished v)
  goes_on :
      (v : Serving) → v.loop ≡ checking → v.stop_called ≡ false → LoopStep v (loop_at loading v)
  loads : (v : Serving) → v.loop ≡ loading → LoopStep v (loop_at (after_loading v.server) v)
  returns :
      (v : Serving) (s : ℕ)
      → v.loop ≡ serving s
      → get s v.open_servers ≡ none
      → LoopStep v (loop_at served v)
  ends : (v : Serving) → v.loop ≡ served → v.stop_called ≡ true → LoopStep v (loop_at finished v)
  fails : (v : Serving) → v.loop ≡ served → v.stop_called ≡ false → LoopStep v (loop_at retiring v)
  retires :
      (v : Serving)
      → v.loop ≡ retiring
      → LoopStep v (record v { server = none; loop = after_retiring v.server })
  closes :
      (v : Serving) (s : ℕ)
      → v.loop ≡ retiring_server s
      → LoopStep v (loop_at waiting (close_server s v))
  wakes : (v : Serving) → v.loop ≡ waiting → LoopStep v (loop_at creating v)
  gives_up :
      (v : Serving) → v.loop ≡ waiting → v.stop_called ≡ true → LoopStep v (loop_at finished v)
  creates : (v : Serving) → v.loop ≡ creating → LoopStep v (create v)
  cannot_create : (v : Serving) → v.loop ≡ creating → LoopStep v (retry_later v)
  locks :
      (v : Serving) (s : ℕ)
      → v.loop ≡ created s
      → v.stop_called ≡ false
      → LoopStep v (loop_at (installing s) v)
  drops :
      (v : Serving) (s : ℕ)
      → v.loop ≡ created s
      → v.stop_called ≡ true
      → LoopStep v (loop_at (discarding s) v)
  installs : (v : Serving) (s : ℕ) → v.loop ≡ installing s → LoopStep v (install s v)
  discards :
      (v : Serving) (s : ℕ)
      → v.loop ≡ discarding s
      → LoopStep v (loop_at finished (close_server s v))

-- Serve may also fail by itself, whether or not its server is open.
pub data Fault : Serving → Serving → Type 0 where
  breaks : (v : Serving) (s : ℕ) → v.loop ≡ serving s → Fault v (loop_at served v)

-- Whether the loop has the lock.
abbrev pub has_lock : LoopPoint → Bool
has_lock (installing s) = true
has_lock _ = false

-- The steps of stop, which runs once.
pub data StopStep : Serving → Serving → Type 0 where
  begins :
      (v : Serving)
      → v.stop ≡ not_called
      → StopStep v (record v { stop_called = true; stop = taking })
  takes :
      (v : Serving)
      → v.stop ≡ taking
      → has_lock v.loop ≡ false
      → StopStep v (record v { server = none; stop = after_taking v.server })
  stops_server :
      (v : Serving) (s : ℕ)
      → v.stop ≡ stopping_server s
      → StopStep v (record (close_server s v) { stop = awaiting })
  sees_end :
      (v : Serving)
      → v.stop ≡ awaiting
      → v.loop ≡ finished
      → StopStep v (record v { stop = stopped })
  times_out : (v : Serving) → v.stop ≡ awaiting → StopStep v (record v { stop = stopped })

pub data ServeStep : Serving → Serving → Type 0 where
  by_loop : (v w : Serving) → LoopStep v w → ServeStep v w
  by_fault : (v w : Serving) → Fault v w → ServeStep v w
  by_stop : (v w : Serving) → StopStep v w → ServeStep v w

pub data ServeSteps : Serving → Serving → Type 0 where
  stays : (v : Serving) → ServeSteps v v
  moves : (v w x : Serving) → ServeStep v w → ServeSteps w x → ServeSteps v x
