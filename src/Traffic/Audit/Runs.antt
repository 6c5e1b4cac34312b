-- ===== src/Traffic/Audit/Runs.antt =====
-- Whole histories of the client: reporting rounds, final drains and restarts of the process.
use v2node_hy.Base.{
  ℕ, String, List, [], ◌∷◌, Option, arith, none, some, is_some, Bool, true, false, refl, inr, ◌≡◌,
}
use v2node_hy.Traffic.{ReportState}
use v2node_hy.Traffic.Flush.{flush_traffic_limit, persist_traffic}
use v2node_hy.Traffic.Send.{send_pending}
use v2node_hy.Traffic.Effect.{World, restarted, new_client, Env, Result, ok, err}
use v2node_hy.Traffic.Audit.{CodecLaws, IsOnDisk, IsSound, Kept, Holds, Post, IsLoaded}
use v2node_hy.Traffic.Audit.Send.{IsSent}
use v2node_hy.Traffic.Audit.Rounds.{send_pending_lem}
use v2node_hy.Traffic.Audit.Flush.{flush_traffic_limit_lem}
use v2node_hy.Traffic.Audit.Persist.{persist_traffic_lem}

-- A restart keeps the file and loses the rest.
pub data Call : Type 0 where
  flushes : ℕ → Call
  persists restarts : Call

-- The file holds a state with a pending batch.
abbrev pub holds_batch : Env → Option String → Bool
holds_batch env none = false
holds_batch env (some body) = elim (env.decode_state body) [
  | none ↦ false
  | some s ↦ is_some s.pending
]

unfoldable pub start : Env → String → Option String → World
unfolding new_client
start env path disk = record {
  client = new_client path;
  disk = disk;
  calls = 0;
  trace = restarted (holds_batch env disk) ∷ [];
}

unfoldable pub step : Env → World → Call → World
unfolding new_client
step env w (flushes batches) = (flush_traffic_limit env batches w).1
step env w persists = (persist_traffic env w).1
step env w restarts = record w {
  client = new_client w.client.outbox_path;
  trace = restarted (holds_batch env w.disk) ∷ w.trace;
}

unfoldable pub run : Env → World → List Call → World
unfolding step
run env w [] = w
run env w (c ∷ cs) = run env (step env w c) cs

Kept-Post :
    (env : Env) {A : Type 0} (Q : A → World → Type 0) (r : Result A × World)
    → Post env Q r
    → Kept env r.1
Kept-Post env Q (ok a, w) h = h.0
Kept-Post env Q (err e, w) h = h

found-covered :
    (env : Env) (disk : Option String)
    → holds_batch env disk ≡ true
    → (s : ReportState) × (is_some s.pending ≡ true) × IsOnDisk env s disk
found-covered env none h = absurd (ground (arith, h))
found-covered env (some body) h = by_state (env.decode_state body) refl h
  where
    by_state :
        (o : Option ReportState)
        → env.decode_state body ≡ o
        → elim o [ none ↦ false | some s ↦ is_some s.pending ] ≡ true
        → (s : ReportState) × (is_some s.pending ≡ true) × IsOnDisk env s (some body)
    by_state none e p = absurd (ground (arith, p))
    by_state (some s) e p = (s, p, inr (body, refl, e))

module _ (env : Env) (laws : CodecLaws env) where
  step-Kept : (w : World) (c : Call) → Kept env w → Kept env (step env w c)
  unfolding step new_client
  step-Kept w (flushes batches) k =
      Kept-Post env (λ _ w'. IsLoaded env w') (flush_traffic_limit env batches w)
        (flush_traffic_limit_lem env laws w batches k)
  step-Kept w persists k =
      Kept-Post env _ (persist_traffic env w) (persist_traffic_lem env laws w k)
  step-Kept w restarts k = record {
    sound = k.sound;
    charged = λ used. refl;
    covered = λ used. found-covered env w.disk used;
    clear = tt;
  }

  run-Kept : (w : World) (cs : List Call) → Kept env w → Kept env (run env w cs)
  unfolding run
  run-Kept w [] k = k
  run-Kept w (c ∷ cs) k = run-Kept (step env w c) cs (step-Kept w c k)

  start-Kept : (path : String) (disk : Option String) → Kept env (start env path disk)
  unfolding start new_client
  start-Kept path disk = record {
    sound = tt;
    charged = λ used. refl;
    covered = λ used. found-covered env disk used;
    clear = tt;
  }

  -- Whatever the panel answers and whichever file operations fail, in every history of rounds,
  -- final drains and restarts from any outbox file: each batch that is posted is pending, and not
  -- marked as resolved, in the outbox file at that moment; and rows are taken from the running
  -- counters only for the pending batch of the file, only right after an acknowledgement with its
  -- number and digest or with its resolution in the file, at most once before the file takes a state
  -- with nothing pending, and never for a batch that the process found in the file when it started.
  pub run-IsSound :
      (path : String) (disk : Option String) (cs : List Call)
      → IsSound env (run env (start env path disk) cs).trace
  run-IsSound path disk cs = (run-Kept (start env path disk) cs (start-Kept path disk)).sound

  -- A round that succeeds, in a world that some history has reached and whose file holds the
  -- client's state, leaves nothing pending, in the client and in the file, with the buffered rows
  -- unchanged; a round that fails keeps the invariant.
  pub send_pending-IsSent :
      (path : String) (disk : Option String) (cs : List Call) (s : ReportState)
      → Holds env s (run env (start env path disk) cs)
      → Post env (λ _ w. IsSent env s w) (send_pending env (run env (start env path disk) cs))
  send_pending-IsSent path disk cs s h =
      send_pending_lem env _ s (run-Kept (start env path disk) cs (start-Kept path disk)) h
