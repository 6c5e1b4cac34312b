-- ===== src/Traffic/Flush.antt =====
-- A reporting round and the final drain: FlushTraffic, FlushTrafficLimit and PersistTraffic of
-- api/v2board/traffic.go. A limit of 0 batches is no limit. The lock file's own text is left out.
use v2node_hy.Base.{
  ℕ, zero, suc, ◌-◌, ℤ, pos, wrap, ◌+ℤ◌, ◌-ℤ◌, ltb_ℤ, leb_ℤ, eqb_ℤ, String, true, not, ◌&&◌, ◌||◌,
  ltb, ◌==◌, str_eq, if◌then◌else◌, List, [], ◌∷◌, ◌++◌, map, length, Option, none, some, is_some,
}
use v2node_hy.Traffic.{TrafficRow, UserTraffic, ReportState, queued_row}
use v2node_hy.Traffic.Select.{Selection, select_traffic_batch}
use v2node_hy.Traffic.Store.{file_call, save_report_state, load_report_state}
use v2node_hy.Traffic.Send.{send_pending}
use v2node_hy.Traffic.Effect.{
  text, outside, out_of_fuel, Client, make_directory, locked, busy, lock_failed, Env, M, ◌>>=◌,
  ◌>>◌, pure, raise, the_client, the_outbox, update, outside_call, require, when_failed, raise_if,
}

-- sort.SliceStable by UID: a row goes before the first row of a greater UID.
unfoldable pub insert_row : UserTraffic → List UserTraffic → List UserTraffic
insert_row r [] = r ∷ []
insert_row r (s ∷ rows) =
    if ltb_ℤ s.uid r.uid || eqb_ℤ s.uid r.uid then s ∷ insert_row r rows else r ∷ s ∷ rows

unfoldable pub sort_from : List UserTraffic → List UserTraffic → List UserTraffic
unfolding insert_row
sort_from sorted [] = sorted
sort_from sorted (r ∷ rows) = sort_from (insert_row r sorted) rows

abbrev pub sort_rows : List UserTraffic → List UserTraffic
sort_rows rows = sort_from [] rows

-- The rows before and from the first one above the last reported user.
unfoldable pub up_to : ℤ → List UserTraffic → List UserTraffic
up_to last [] = []
up_to last (r ∷ rows) = if ltb_ℤ last r.uid then [] else r ∷ up_to last rows

unfoldable pub past : ℤ → List UserTraffic → List UserTraffic
past last [] = []
past last (r ∷ rows) = if ltb_ℤ last r.uid then r ∷ rows else past last rows

unfoldable pub rotate_rows : ℤ → List UserTraffic → List UserTraffic
unfolding sort_from up_to past
rotate_rows last rows = past last (sort_rows rows) ++ up_to last (sort_rows rows)

-- One pass over the pending rows takes their bytes off a captured row.
unfoldable pub less_pending : List TrafficRow → UserTraffic → UserTraffic
less_pending [] r = r
less_pending (p ∷ ps) r = less_pending ps (
    if str_eq r.uuid p.uuid && eqb_ℤ r.uid p.uid
    then record r {
      upload = wrap (r.upload -ℤ p.upload);
      download = wrap (r.download -ℤ p.download);
    }
    else r)

-- The row of the final buffer; its credential is not kept.
abbrev pub final_row : UserTraffic → TrafficRow
final_row r = record { uid = r.uid; upload = r.upload; download = r.download; uuid = "" }

-- The loop of PersistTraffic over the captured rows; `none` is "inconsistent final counters".
unfoldable pub final_rows :
    List TrafficRow → List UserTraffic → List TrafficRow → Option (List TrafficRow)
unfolding less_pending
final_rows pending [] buffer = some buffer
final_rows pending (r ∷ rows) buffer =
    let t = less_pending pending r in
    let next = final_rows pending rows (
      if ltb_ℤ (pos 0) (wrap (t.upload +ℤ t.download))
      then buffer ++ final_row t ∷ []
      else buffer) in
    if leb_ℤ t.uid (pos 0) || ltb_ℤ t.upload (pos 0) || ltb_ℤ t.download (pos 0) then none else next

-- The state that a selection of the buffered rows, or of the captured rows, makes pending.
abbrev pub buffered_state : ReportState → Selection → ReportState
buffered_state s sel = record {
  version = pos 1;
  next = s.next;
  pending = some (record { sequence = s.next; rows = sel.selected });
  buffered = sel.rest;
  failures = pos 0;
  resolution = none;
  held = s.held;
}

abbrev pub captured_state : ReportState → Selection → ReportState
captured_state s sel = record {
  version = pos 1;
  next = s.next;
  pending = some (record { sequence = s.next; rows = sel.selected });
  buffered = [];
  failures = pos 0;
  resolution = none;
  held = s.held;
}

-- `if batches > 0 { batches--; if batches == 0 { return nil } }`: `none` is the return.
unfoldable pub spend : ℕ → Option ℕ
spend batches =
    if ltb 0 batches then (if batches - 1 == 0 then none else some (batches - 1)) else some batches

-- The loops take fuel; `none` is a return inside the loop, and the batches left go on.
abbrev pub when_left : {A : Type 0} → Option ℕ → (ℕ → M (Option A)) → M (Option A)
when_left none f = pure none
when_left (some b) f = f b

-- The pending rows whose bytes are still in the running counters.
abbrev pub overlap : Client → ReportState → List TrafficRow
overlap c s = elim s.pending [
  | none ↦ []
  | some b ↦ if not c.committed && not c.recovered then b.rows else []
]

-- The base of the final buffer is fixed by the first attempt.
unfoldable pub start_draining : ReportState → Client → Client
start_draining s c = if c.draining then c else record c { drain_base = s.buffered; draining = true }

module _ (env : Env) where
  open env use {lock, context_error, capture}

  abbrev pub take_lock : String → M (Unit {0})
  take_lock why = do
    r ← outside_call lock
    elim r [ locked ↦ pure tt | busy ↦ raise (text why) | lock_failed e ↦ raise (outside e) ]

  -- The checks and the lock that open a round, and the load of the state.
  unfoldable pub begin_flush : M (Unit {0})
  unfolding load_report_state
  begin_flush = do
    c ← the_client
    raise_if c.draining (text "traffic outbox is draining")
    raise_if (str_eq c.outbox_path "") (text "traffic state path is required")
    file_call env make_directory
    take_lock "traffic state is already in use"
    load_report_state env

  -- One round of the loop over the buffered rows.
  unfoldable pub send_buffered : ReportState → M (Unit {0})
  unfolding select_traffic_batch save_report_state send_pending
  send_buffered s = do
    sel ← require (select_traffic_batch s.buffered) (text "invalid traffic counters")
    update (λ c. record c { recovered = true })
    saved ← save_report_state env (buffered_state s sel)
    send_pending env

  -- The loop's test on the buffered rows, and its body; `again` is the next round.
  unfoldable pub drain_step : ReportState → List TrafficRow → ℕ → (ℕ → M (Option ℕ)) → M (Option ℕ)
  unfolding send_buffered spend
  drain_step s [] batches again = pure (some batches)
  drain_step s (r ∷ rs) batches again = do send_buffered s; when_left (spend batches) again

  unfoldable pub drain_buffered : ℕ → ℕ → M (Option ℕ)
  unfolding drain_step
  drain_buffered zero batches = raise out_of_fuel
  drain_buffered (suc fuel) batches = do
    s ← the_outbox
    drain_step s s.buffered batches (drain_buffered fuel)

  -- One round of the loop over the captured rows; the result is the rows left.
  unfoldable pub send_captured : List TrafficRow → M (List TrafficRow)
  unfolding select_traffic_batch save_report_state send_pending
  send_captured queued = do
    late ← outside_call context_error
    when_failed late
    sel ← require (select_traffic_batch queued) (text "invalid traffic counters")
    s ← the_outbox
    saved ← save_report_state env (captured_state s sel)
    update (λ c. record c { outbox = some saved })
    send_pending env
    pure sel.rest

  unfoldable pub drain_captured : ℕ → ℕ → List TrafficRow → M (Unit {0})
  unfolding send_captured spend
  drain_captured fuel batches [] = pure tt
  drain_captured zero batches (r ∷ rs) = raise out_of_fuel
  drain_captured (suc fuel) batches (r ∷ rs) = do
    rest ← send_captured (r ∷ rs)
    elim (spend batches) [ none ↦ pure tt | some b ↦ drain_captured fuel b rest ]

  unfoldable pub flush_captured : ℕ → M (Unit {0})
  unfolding rotate_rows drain_captured
  flush_captured batches = do
    r ← outside_call capture
    rows ← λ w. (r, w)
    c ← the_client
    let queued = map queued_row (rotate_rows c.last_traffic_uid rows)
    drain_captured (length queued) batches queued

  unfoldable pub after_buffered : Option ℕ → M (Unit {0})
  unfolding flush_captured
  after_buffered none = pure tt
  after_buffered (some batches) = flush_captured batches

  -- The fuel of the first loop is one more than the rows buffered when it starts.
  unfoldable pub flush_rest : Option ℕ → M (Unit {0})
  unfolding drain_buffered after_buffered
  flush_rest none = pure tt
  flush_rest (some batches) = do
    s ← the_outbox
    left ← drain_buffered (suc (length s.buffered)) batches
    after_buffered left

  unfoldable pub flush_traffic_limit : ℕ → M (Unit {0})
  unfolding begin_flush send_pending flush_rest
  flush_traffic_limit batches = do
    begin_flush
    s ← the_outbox
    send_pending env
    flush_rest (if is_some s.pending then spend batches else some batches)

  abbrev pub flush_traffic : M (Unit {0})
  flush_traffic = flush_traffic_limit 0

  unfoldable pub persist_rows : M (Unit {0})
  unfolding start_draining final_rows save_report_state
  persist_rows = do
    s ← the_outbox
    update (start_draining s)
    r ← outside_call capture
    rows ← λ w. (r, w)
    c ← the_client
    buffer ←
        require (final_rows (overlap c s) rows c.drain_base) (text "inconsistent final counters")
    raise_if (ltb 200_000 (length buffer)) (text "final accounting exceeds bounded outbox")
    saved ← save_report_state env (record s { buffered = buffer })
    update (λ c. record c { drain_saved = true })

  unfoldable pub persist_traffic : M (Unit {0})
  unfolding load_report_state persist_rows
  persist_traffic = do
    c ← the_client
    raise_if (str_eq c.outbox_path "") (text "traffic state path is required")
    take_lock "traffic state busy"
    load_report_state env
    d ← the_client
    if d.drain_saved then pure tt else persist_rows
