-- ===== src/Traffic/Examples.antt =====
-- A concrete environment, in which the panel is down and the codec keeps two states, with the
-- theorems on the traffic client applied in it.
use v2node_hy.Base.{◌≤◌, All, arith}
use v2node_hy.Traffic.{TrafficHold, TrafficConflict, user_rows}
use v2node_hy.Traffic.Checks.{
  can_rebase_traffic, trim_traffic_holds, can_isolate_traffic, valid_traffic_digest, all_lower_hex,
}
use v2node_hy.Traffic.Flush.{rotate_rows, drain_captured}
use v2node_hy.Traffic.Holds.{IsWithinWeek, trim_traffic_holds_lem}
use v2node_hy.Traffic.Rotation.{rotate_rows-perm}
use v2node_hy.Traffic.Fuel.{drain_captured-fuel}
use v2node_hy.Base.{
  InInt64, ◌-ℤ◌, ℕ, pos, String, Bool, true, false, ◌≡◌, refl, inl, List, [], ◌∷◌, ◌++◌, length,
  Option, none, some, is_some, str_eq, if◌then◌else◌,
}
use v2node_hy.Traffic.{TrafficRow, ReportState}
use v2node_hy.Traffic.Select.{Selection}
use v2node_hy.Traffic.Select.Partition.{IsPartial, select_traffic_batch_partition}
use v2node_hy.Traffic.Effect.{Env, transport_failed, locked, ok}
use v2node_hy.Traffic.Checks.{
  all_lower_hex, any_not_positive, can_isolate_traffic, can_rebase_traffic, trim_traffic_holds,
  valid_hold, valid_holds, valid_pending, valid_report_state, valid_resolution,
  valid_traffic_digest, valid_traffic_isolation, validate_traffic_ack,
}
use v2node_hy.Traffic.Select.{place_row, seen, select_loop, select_traffic_batch}
use v2node_hy.Traffic.Effect.{new_client}
use v2node_hy.Traffic.Panel.{
  check_reply, commit_users, cursor_next, decode_traffic_conflict, get_current_users, get_users,
  has_prefix, invalidate_users, is_bad_cursor, lower, read_answer, read_traffic_cursor, request,
  snapshot_of,
}
use v2node_hy.Traffic.Store.{
  adopt_outbox, adopt_saved, changed_outbox, check_outbox, check_size, finish_state_sync, fit_state,
  is_not_exist, load_outbox, load_report_state, open_read, read_report_state, rename_state,
  save_report_state, settle, start_outbox, supersedes, sync_leftover, without_holds, write_state,
}
use v2node_hy.Traffic.Send.{
  advance, after_failure, after_uncertain, conflict_next, conflict_of, consume_rows, file_isolated,
  finish_traffic_isolation, is_unconfirmed, isolate_at, isolate_at_cursor, isolate_traffic, lapsed,
  may_isolate, note_last_uid, post_batch, read_ack, rebase_traffic_conflict, retry_round,
  revoke_users, send_batch, send_next, send_pending, send_pending_once, send_rounds, settle_round,
}
use v2node_hy.Traffic.Flush.{
  after_buffered, begin_flush, drain_buffered, drain_captured, drain_step, final_rows,
  flush_captured, flush_rest, flush_traffic_limit, insert_row, less_pending, past, persist_rows,
  persist_traffic, rotate_rows, send_buffered, send_captured, sort_from, spend, start_draining,
  up_to,
}
use v2node_hy.Base.{wrap, signed, bits, ◌+ℤ◌, ◌-ℤ◌}
use v2node_hy.Traffic.Audit.{CodecLaws, IsSound, Holds, Post}
use v2node_hy.Traffic.Audit.Send.{IsSent}
use v2node_hy.Traffic.Audit.Runs.{
  Call, flushes, restarts, run, step, start, run-IsSound, send_pending-IsSent,
}
use mathlib.Core.List.{Perm}

abbrev small_row : ℕ → TrafficRow
small_row uid = record { uid = pos uid; upload = pos 10; download = pos 20; uuid = "u" }

abbrev idle_state : ReportState
idle_state = record {
  version = pos 1;
  next = 1;
  pending = none;
  buffered = [];
  failures = pos 0;
  resolution = none;
  held = [];
}

abbrev pending_state : ReportState
pending_state = record idle_state {
  pending = some (record { sequence = 1; rows = small_row 7 ∷ [] });
}

abbrev encoded : ReportState → Option String
encoded s = some (if is_some s.pending then "pending" else "idle")

abbrev decoded : String → Option ReportState
decoded body = if str_eq body "pending" then some pending_state else some idle_state

-- The panel does not answer, and every file operation succeeds.
abbrev quiet_env : Env
quiet_env = record {
  encode_state = encoded;
  decode_state = decoded;
  encode_batch = λ _. some "batch";
  decode_ack = λ _. none;
  decode_conflict = λ _. none;
  decode_next = λ _. none;
  decode_cursor = λ _. none;
  decode_users = λ _. none;
  sha256_hex = λ _. "00";
  transport = λ _ _. transport_failed "down";
  file_fault = λ _ _. none;
  renamed_anyway = λ _. false;
  lock = λ _. locked;
  now = λ _. pos 1_000_000;
  context_error = λ _. none;
  commit = λ _ _. none;
  revoke = λ _ _. none;
  capture = λ _. ok [];
}

encoded-pending :
    (p : Bool) (t : ReportState) (body : String)
    → some (if p then "pending" else "idle") ≡ some body
    → decoded body ≡ some t
    → is_some t.pending ≡ p
encoded-pending true t body e d = cc
encoded-pending false t body e d = cc

quiet_laws : CodecLaws quiet_env
quiet_laws = record {
  encodes = λ s. refl;
  keeps_pending = λ s t body e d. encoded-pending (is_some s.pending) t body e d;
}

abbrev sample_calls : List Call
sample_calls = flushes 1 ∷ restarts ∷ flushes 0 ∷ []

run-IsSound_example :
    IsSound quiet_env (run quiet_env (start quiet_env "outbox" (some "pending")) sample_calls).trace
run-IsSound_example = run-IsSound quiet_env quiet_laws "outbox" (some "pending") sample_calls

abbrev failed_state : ReportState
failed_state = record pending_state { failures = pos 1 }

sample-Holds :
    Holds quiet_env failed_state
      (run quiet_env (start quiet_env "outbox" (some "pending")) (flushes 1 ∷ []))
unfolding wrap signed bits ◌+ℤ◌ ◌-ℤ◌ run step start adopt_outbox adopt_saved advance after_buffered
    after_failure after_uncertain all_lower_hex any_not_positive begin_flush can_isolate_traffic
    can_rebase_traffic changed_outbox check_outbox check_reply check_size commit_users conflict_next
    conflict_of consume_rows cursor_next decode_traffic_conflict drain_buffered drain_captured
    drain_step file_isolated final_rows finish_state_sync finish_traffic_isolation fit_state
    flush_captured flush_rest flush_traffic_limit get_current_users get_users has_prefix insert_row
    invalidate_users is_bad_cursor is_not_exist is_unconfirmed isolate_at isolate_at_cursor
    isolate_traffic lapsed less_pending load_outbox load_report_state lower may_isolate new_client
    note_last_uid open_read past persist_rows persist_traffic place_row post_batch read_ack
    read_answer read_report_state read_traffic_cursor rebase_traffic_conflict rename_state request
    retry_round revoke_users rotate_rows save_report_state seen select_loop select_traffic_batch
    send_batch send_buffered send_captured send_next send_pending send_pending_once send_rounds
    settle settle_round snapshot_of sort_from spend start_draining start_outbox supersedes
    sync_leftover trim_traffic_holds up_to valid_hold valid_holds valid_pending valid_report_state
    valid_resolution valid_traffic_digest valid_traffic_isolation validate_traffic_ack without_holds
    write_state
sample-Holds = record { no_unsynced = refl; current = refl; on_disk = inl refl }

send_pending-IsSent_example :
    Post quiet_env
      (λ _ w. IsSent quiet_env failed_state w)
      (send_pending quiet_env
        (run quiet_env (start quiet_env "outbox" (some "pending")) (flushes 1 ∷ [])))
send_pending-IsSent_example =
    send_pending-IsSent quiet_env quiet_laws "outbox" (some "pending") (flushes 1 ∷ []) failed_state
      sample-Holds

abbrev sample_rows : List TrafficRow
sample_rows = small_row 1 ∷ small_row 1 ∷ []

abbrev sample_selection : Selection
sample_selection = record { selected = small_row 1 ∷ []; rest = small_row 1 ∷ [] }

sample-selects : select_traffic_batch sample_rows ≡ some sample_selection
unfolding select_traffic_batch select_loop place_row seen
sample-selects = refl

select_traffic_batch_partition_example :
    IsPartial sample_selection
    × Perm (sample_selection.selected ++ sample_selection.rest) sample_rows
select_traffic_batch_partition_example = select_traffic_batch_partition sample_rows sample-selects

abbrev old_hold : TrafficHold
old_hold = record { at = pos 1; batch = none }

abbrev new_hold : TrafficHold
new_hold = record { at = pos 900_000; batch = none }

-- The panel is one batch ahead.
abbrev passed_conflict : TrafficConflict
passed_conflict = record {
  kind = "conflict";
  sequence = 4;
  digest = "00112233445566778899aabbccddeeff00112233445566778899aabbccddeeff";
  next = 5;
  request_sequence = 3;
  request_digest = "d";
}

isolates :
    can_isolate_traffic passed_conflict
      (some (record { sequence = 3; rows = small_row 1 ∷ [] }))
      (some "d")
    ≡ true
unfolding can_isolate_traffic valid_traffic_digest all_lower_hex
isolates = refl

a_week_back : InInt64 (pos 1_000_000 -ℤ pos 604_800)
unfolding ◌-ℤ◌
a_week_back = (omega arith, omega arith)

trim_traffic_holds_lem_example :
    (length (trim_traffic_holds (old_hold ∷ new_hold ∷ []) (pos 1_000_000)) ≤ 16)
    × All
        (IsWithinWeek (pos 1_000_000))
        (trim_traffic_holds (old_hold ∷ new_hold ∷ []) (pos 1_000_000))
    × (length (old_hold ∷ new_hold ∷ []) ≤ 16
        → All (IsWithinWeek (pos 1_000_000)) (old_hold ∷ new_hold ∷ [])
        → trim_traffic_holds (old_hold ∷ new_hold ∷ []) (pos 1_000_000) ≡ old_hold ∷ new_hold ∷ [])
trim_traffic_holds_lem_example =
    trim_traffic_holds_lem (old_hold ∷ new_hold ∷ []) (pos 1_000_000) a_week_back

rotate_rows-perm_example :
    Perm
      (rotate_rows (pos 2) (user_rows (small_row 3 ∷ small_row 1 ∷ [])))
      (user_rows (small_row 3 ∷ small_row 1 ∷ []))
rotate_rows-perm_example = rotate_rows-perm (pos 2) (user_rows (small_row 3 ∷ small_row 1 ∷ []))

drain_captured-fuel_example :
    drain_captured quiet_env 2 0 sample_rows (start quiet_env "outbox" none)
    ≡ drain_captured quiet_env 5 0 sample_rows (start quiet_env "outbox" none)
drain_captured-fuel_example =
    drain_captured-fuel quiet_env 2 5 0 sample_rows (start quiet_env "outbox" none) (ground arith)
      (ground arith)
