-- ===== src/Traffic/Store.antt =====
-- The outbox file: readReportState, loadReportState, saveReportState and finishStateSync of
-- api/v2board/traffic.go. The removal of the temporary file is left out.
use Prim.Native.String.{String, len}
use v2node_hy.Base.{
  ℕ, suc, ◌+◌, ◌%◌, pos, eqb_ℤ, word_mod, Bool, true, false, not, ◌&&◌, ltb, ◌==◌, str_eq,
  if◌then◌else◌, [], ◌∷◌, Option, none, some, is_some, or_else,
}
use v2node_hy.Traffic.{ReportState}
use v2node_hy.Traffic.Checks.{valid_report_state}
use v2node_hy.Traffic.Panel.{request}
use v2node_hy.Traffic.Effect.{
  Error, text, outside, not_exist, nil_pointer, wrapped, unconfirmed, Client, World, stored, FileOp,
  make_directory, open_file, read_file, create_temp, write_temp, sync_temp, close_temp, rename_temp,
  sync_directory, Env, Result, ok, err, M, ◌>>=◌, ◌>>◌, pure, raise, try, gets, the_client, update,
  require, os_error, raise_if,
}

-- 16 << 20
abbrev pub max_state_bytes : ℕ
max_state_bytes = 16_777_216

-- errors.Is(err, os.ErrNotExist)
unfoldable pub is_not_exist : Error → Bool
is_not_exist not_exist = true
is_not_exist (wrapped why e) = is_not_exist e
is_not_exist (unconfirmed e) = is_not_exist e
is_not_exist _ = false

abbrev pub fresh_state : ℕ → ReportState
fresh_state next = record {
  version = pos 1;
  next = next;
  pending = none;
  buffered = [];
  failures = pos 0;
  resolution = none;
  held = [];
}

-- The effect of `os.Rename` on the outbox file.
abbrev pub replace_file : ReportState → String → World → World
replace_file s body w = record w { disk = some body; trace = stored s ∷ w.trace }

-- The fields that `finishStateSync` sets, once the directory is synchronized.
unfoldable pub settle : ReportState → Client → Client
settle s c =
    let moved = record c { outbox = some s; unsynced = none } in
    if is_some s.pending then moved else record moved { recovered = false; committed = false }

module _ (env : Env) where
  open env use {encode_state, decode_state, decode_next, file_fault, renamed_anyway}

  abbrev pub file_call : FileOp → M (Unit {0})
  file_call op w = os_error (file_fault w.calls op) (record w { calls = suc w.calls })

  unfoldable pub check_size : String → M String
  check_size body =
      if ltb max_state_bytes (len body) then raise (text "traffic state too large") else pure body

  unfoldable pub read_report_state : M String
  unfolding check_size
  read_report_state = do
    file_call open_file
    disk ← gets (λ w. w.disk)
    body ← require disk not_exist
    within ← check_size body
    file_call read_file
    pure within

  unfoldable pub finish_state_sync : M (Unit {0})
  unfolding settle
  finish_state_sync = do
    file_call sync_directory
    c ← the_client
    s ← require c.unsynced nil_pointer
    update (settle s)

  -- The state that fits the size bound, with its held batches dropped if need be, and its bytes.
  unfoldable pub without_holds : ReportState → M (ReportState × String)
  without_holds s = do
    raise_if (elim s.held [ [] ↦ true | h ∷ hs ↦ false ])
        (text "traffic state exceeds durable size bound")
    body ← require (encode_state (record s { held = [] })) (outside "json")
    raise_if (ltb max_state_bytes (len body)) (text "traffic state exceeds durable size bound")
    pure (record s { held = [] }, body)

  unfoldable pub fit_state : ReportState → M (ReportState × String)
  unfolding without_holds
  fit_state s = do
    body ← require (encode_state s) (outside "json")
    if ltb max_state_bytes (len body) then without_holds s else pure (s, body)

  unfoldable pub rename_state : ReportState → String → M (Unit {0})
  rename_state s body w = elim (file_fault w.calls rename_temp) [
    | none ↦ (ok tt, record (replace_file s body w) { calls = suc w.calls })
    | some why ↦ (
      err (outside why),
      if renamed_anyway w.calls
          then record (replace_file s body w) { calls = suc w.calls }
          else record w { calls = suc w.calls },
    )
  ]

  -- The temporary file is written, synchronized and closed; the first failure is the result.
  unfoldable pub write_state : M (Unit {0})
  write_state = do
    file_call create_temp
    written ← try (do file_call write_temp; file_call sync_temp)
    closed ← try (file_call close_temp)
    elim written [ err e ↦ raise e | ok _ ↦ elim closed [ err e ↦ raise e | ok _ ↦ pure tt ] ]

  -- The state as it was saved: the argument is a pointer, whose `Held` may have been cleared.
  unfoldable pub save_report_state : ReportState → M ReportState
  unfolding fit_state write_state rename_state finish_state_sync
  save_report_state s = do
    c ← the_client
    raise_if (str_eq c.outbox_path "") (text "traffic state path is required")
    file_call make_directory
    p ← fit_state s
    write_state
    rename_state p.0 p.1
    update (λ c. record c { unsynced = some p.0 })
    finish_state_sync
    pure p.0

  -- The first block of loadReportState: a state that was replaced but not synchronized.
  unfoldable pub sync_leftover : Option ReportState → M (Unit {0})
  unfolding read_report_state finish_state_sync
  sync_leftover none = pure tt
  sync_leftover (some s) = do
    disk ← read_report_state
    raise_if (not (str_eq disk (or_else (encode_state s) "")))
        (text "unconfirmed traffic state changed on disk")
    finish_state_sync

  -- The state on disk, if it is the settled successor of the committed pending batch.
  unfoldable pub supersedes : Client → ReportState → ReportState → Bool
  supersedes c current saved =
      c.committed
      && is_some current.pending
      && eqb_ℤ saved.version (pos 1)
      && not (is_some saved.pending)
      && saved.next == (current.next + 1) % word_mod

  unfoldable pub adopt_saved : ReportState → M (Unit {0})
  adopt_saved saved =
      update (λ c. record c { outbox = some saved; committed = false; recovered = false })

  unfoldable pub changed_outbox : ReportState → String → M (Unit {0})
  unfolding supersedes adopt_saved
  changed_outbox current disk = do
    c ← the_client
    saved ← require (decode_state disk) (text "traffic state changed by another controller")
    if supersedes c current saved
        then adopt_saved saved
        else raise (text "traffic state changed by another controller")

  -- The second block, where a state is loaded.
  unfoldable pub check_outbox : ReportState → M (Unit {0})
  unfolding read_report_state changed_outbox
  check_outbox current = do
    disk ← read_report_state
    if str_eq disk (or_else (encode_state current) "") then pure tt else changed_outbox current disk

  unfoldable pub adopt_outbox : String → M (Unit {0})
  adopt_outbox body = do
    s ← require (decode_state body) (text "invalid traffic outbox")
    raise_if (not (valid_report_state s)) (text "invalid traffic outbox")
    update (λ c. record c { outbox = some s; recovered = is_some s.pending })

  unfoldable pub start_outbox : M (Unit {0})
  unfolding request save_report_state
  start_outbox = do
    a ← request env (record { method = "GET"; action = "state"; etag = ""; body = none })
    next ← require (decode_next a.body) (text "invalid report cursor")
    raise_if (next == 0) (text "invalid report cursor")
    s ← save_report_state (fresh_state next)
    update (λ c. record c { outbox = some s })

  unfoldable pub open_read : Result String → M (Unit {0})
  unfolding adopt_outbox start_outbox
  open_read (ok body) = adopt_outbox body
  open_read (err e) =
      if is_not_exist e then start_outbox else raise (wrapped "read traffic outbox" e)

  -- The second block and what follows it.
  unfoldable pub load_outbox : Option ReportState → M (Unit {0})
  unfolding read_report_state check_outbox open_read
  load_outbox (some s) = check_outbox s
  load_outbox none = do r ← try read_report_state; open_read r

  unfoldable pub load_report_state : M (Unit {0})
  unfolding sync_leftover load_outbox
  load_report_state = do
    c ← the_client
    sync_leftover c.unsynced
    d ← the_client
    load_outbox d.outbox
