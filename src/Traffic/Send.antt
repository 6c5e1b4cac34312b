-- ===== src/Traffic/Send.antt =====
-- Sending the pending batch: sendPending and sendPendingOnce of api/v2board/traffic.go,
-- rebaseTrafficConflict of traffic_conflict.go, isolateTraffic and finishTrafficIsolation of
-- traffic_isolation.go.
use v2node_hy.Base.{
  ℕ, zero, suc, ◌+◌, ◌%◌, ℤ, pos, wrap, ◌+ℤ◌, ltb_ℤ, leb_ℤ, word_mod, String, Bool, true, false,
  not, ◌||◌, ◌==◌, if◌then◌else◌, List, [], ◌∷◌, ◌++◌, Option, none, some, is_some, or_else,
}
use v2node_hy.Users.{UserInfo, has_id}
use v2node_hy.Traffic.{
  TrafficRow, TrafficBatch, TrafficAck, TrafficResolution, ReportState, TrafficConflict, user_rows,
}
use v2node_hy.Traffic.Checks.{
  trim_traffic_holds, can_isolate_traffic, can_rebase_traffic, validate_traffic_ack,
}
use v2node_hy.Traffic.Panel.{Answer, request, get_users, read_traffic_cursor, invalidate_users}
use v2node_hy.Traffic.Store.{save_report_state}
use v2node_hy.Traffic.Effect.{
  Error, text, outside, nil_pointer, bad_ack, conflicting, wrapped, unconfirmed, Client, posted,
  acked, consumed, revoked, Env, Result, ok, err, M, ◌>>=◌, ◌>>◌, pure, raise, try, the_client,
  the_outbox, update, emit, outside_call, require, when_failed, raise_if,
}

-- errors.As(err, &uncertain)
unfoldable pub is_unconfirmed : Error → Bool
is_unconfirmed (unconfirmed e) = true
is_unconfirmed (wrapped why e) = is_unconfirmed e
is_unconfirmed _ = false

-- errors.As(err, &conflict)
unfoldable pub conflict_of : Error → Option TrafficConflict
conflict_of (conflicting c) = some c
conflict_of (unconfirmed e) = conflict_of e
conflict_of (wrapped why e) = conflict_of e
conflict_of _ = none

abbrev pub last_uid : List TrafficRow → Option ℤ
last_uid [] = none
last_uid (r ∷ []) = some r.uid
last_uid (r ∷ s ∷ rs) = last_uid (s ∷ rs)

-- min(next.Failures+1, 3)
abbrev pub more_failures : ℤ → ℤ
more_failures n = let m = wrap (n +ℤ pos 1) in if ltb_ℤ m (pos 3) then m else pos 3

-- The users of the batch that the snapshot lacks.
unfoldable pub lapsed : List UserInfo → List TrafficRow → List ℤ
unfolding has_id
lapsed users [] = []
lapsed users (r ∷ rs) =
    let rest = lapsed users rs in if has_id r.uid users then rest else r.uid ∷ rest

-- The state after an acknowledged batch.
abbrev pub next_state : ReportState → TrafficBatch → ℤ → ReportState
next_state s batch now = record {
  version = pos 1;
  next = (batch.sequence + 1) % word_mod;
  pending = none;
  buffered = s.buffered;
  failures = pos 0;
  resolution = none;
  held = trim_traffic_holds s.held now;
}

-- The state after an isolated batch.
abbrev pub isolated_state : ReportState → TrafficBatch → TrafficResolution → ℤ → ReportState
isolated_state s batch r now = record {
  version = pos 1;
  next = r.next;
  pending = none;
  buffered = s.buffered;
  failures = pos 0;
  resolution = none;
  held = trim_traffic_holds (s.held ++ record { at = r.at; batch = some batch } ∷ []) now;
}

-- The state with the same rows under the panel's cursor.
abbrev pub rebased_state : ReportState → TrafficBatch → ℕ → ReportState
rebased_state s batch next = record {
  version = pos 1;
  next = next;
  pending = some (record { sequence = next; rows = batch.rows });
  buffered = s.buffered;
  failures = s.failures;
  resolution = none;
  held = s.held;
}

unfoldable pub note_last_uid : Option ℤ → Client → Client
note_last_uid none c = c
note_last_uid (some uid) c = record c { last_traffic_uid = uid }

unfoldable pub conflict_next : Option TrafficConflict → ℕ
conflict_next none = 0
conflict_next (some c) = c.next

module _ (env : Env) where
  open env use {encode_batch, decode_ack, sha256_hex, now, commit, revoke}

  abbrev pub digest_of : TrafficBatch → Option String
  digest_of batch = elim (encode_batch batch) [ none ↦ none | some body ↦ some (sha256_hex body) ]

  -- The rows are taken from the running counters, unless they were, or came from an earlier run.
  unfoldable pub consume_rows : List TrafficRow → M (Unit {0})
  consume_rows rows = do
    c ← the_client
    if c.committed || c.recovered then pure tt else do
      failed ← outside_call (λ n. commit n (user_rows rows))
      when_failed failed
      emit (λ w. consumed (user_rows rows) w.disk)
      update (λ c. record c { committed = true })

  unfoldable pub revoke_users : List ℤ → M (Unit {0})
  revoke_users ids = do
    failed ← outside_call (λ n. revoke n ids)
    when_failed failed
    emit (λ w. revoked ids)

  unfoldable pub read_ack : TrafficBatch → String → Result Answer → Result TrafficAck
  read_ack batch digest (err e) = err (unconfirmed e)
  read_ack batch digest (ok a) = elim (decode_ack a.body) [
    | none ↦ err (unconfirmed (wrapped "decode traffic acknowledgement" (outside "json")))
    | some ack ↦ elim (validate_traffic_ack ack batch.sequence digest) [
      | some fault ↦ err (unconfirmed (bad_ack fault))
      | none ↦ ok ack
    ]
  ]

  -- One POST of the batch, up to its verified acknowledgement.
  unfoldable pub post_batch : TrafficBatch → M TrafficAck
  unfolding request read_ack
  post_batch batch = do
    body ← require (encode_batch batch) (outside "json")
    emit (λ w. posted batch w.disk)
    r ←
        try (
          request env (record { method = "POST"; action = "traffic"; etag = ""; body = some body }))
    λ w. (read_ack batch (sha256_hex body) r, w)

  -- What follows the acknowledgement and the commit.
  unfoldable pub advance : ReportState → TrafficBatch → M (Unit {0})
  unfolding note_last_uid save_report_state
  advance s batch = do
    update (note_last_uid (last_uid batch.rows))
    at ← outside_call now
    raise_if ((next_state s batch at).next == 0) (text "report sequence overflow")
    saved ← save_report_state env (next_state s batch at)
    update (λ c. record c { outbox = some saved; recovered = false; committed = false })

  unfoldable pub send_batch : ReportState → TrafficBatch → M (Unit {0})
  unfolding post_batch consume_rows revoke_users advance
  send_batch s batch = do
    ack ← post_batch batch
    emit (λ w. acked batch ack)
    consume_rows batch.rows
    revoke_users (or_else ack.revoked [])
    advance s batch

  unfoldable pub send_next : ReportState → Option TrafficBatch → M (Unit {0})
  unfolding send_batch
  send_next s none = pure tt
  send_next s (some batch) = send_batch s batch

  unfoldable pub send_pending_once : M (Unit {0})
  unfolding send_next
  send_pending_once = do s ← the_outbox; send_next s s.pending

  -- The end of finishTrafficIsolation: the batch is filed among the held ones.
  unfoldable pub file_isolated : ReportState → TrafficBatch → M (Unit {0})
  unfolding save_report_state
  file_isolated s batch = do
    resolution ← require s.resolution nil_pointer
    at ← outside_call now
    saved ← save_report_state env (isolated_state s batch resolution at)
    uid ← require (last_uid batch.rows) nil_pointer
    update (λ c. record c { last_traffic_uid = uid })

  unfoldable pub finish_traffic_isolation : M (Unit {0})
  unfolding get_users lapsed revoke_users consume_rows file_isolated invalidate_users
  finish_traffic_isolation = do
    s ← the_outbox
    update invalidate_users
    found ← get_users env ""
    snapshot ← require found (text "missing users while resolving traffic")
    batch ← require s.pending nil_pointer
    revoke_users (lapsed snapshot.users batch.rows)
    consume_rows batch.rows
    file_isolated s batch

  unfoldable pub isolate_traffic : ℕ → M (Unit {0})
  unfolding save_report_state finish_traffic_isolation
  isolate_traffic next = do
    s ← the_outbox
    at ← outside_call now
    saved ← save_report_state env (record s { resolution = some (record { next = next; at = at }) })
    finish_traffic_isolation

  unfoldable pub rebase_traffic_conflict : TrafficConflict → M (Unit {0})
  unfolding save_report_state
  rebase_traffic_conflict conflict = do
    s ← the_outbox
    batch ← require s.pending (conflicting conflict)
    c ← the_client
    raise_if c.committed (conflicting conflict)
    digest ← require (digest_of batch) (outside "json")
    raise_if (not (can_rebase_traffic conflict batch.sequence digest)) (conflicting conflict)
    saved ← save_report_state env (rebased_state s batch conflict.next)
    pure tt

  unfoldable pub isolate_at : Result ℕ → M (Unit {0})
  unfolding isolate_traffic
  isolate_at (ok cursor) = isolate_traffic cursor
  isolate_at (err e) = raise (wrapped "traffic unresolved; cannot confirm current panel cursor" e)

  -- Three failures: the batch is isolated at the panel's present cursor.
  unfoldable pub isolate_at_cursor : M (Unit {0})
  unfolding read_traffic_cursor isolate_at
  isolate_at_cursor = do r ← try (read_traffic_cursor env); isolate_at r

  -- The end of a round: `retry` is the next round, which only the first one has.
  unfoldable pub retry_round : Error → Option TrafficConflict → Option (M (Unit {0})) → M (Unit {0})
  unfolding rebase_traffic_conflict
  retry_round e none retry = raise e
  retry_round e (some c) none = raise e
  retry_round e (some c) (some retry) = do rebase_traffic_conflict c; retry

  unfoldable pub may_isolate : Option TrafficConflict → Option TrafficBatch → Bool
  may_isolate none pending = false
  may_isolate (some c) pending =
      can_isolate_traffic c pending (elim pending [ none ↦ none | some b ↦ digest_of b ])

  -- What follows the count of the failure.
  unfoldable pub after_failure : Error → Option (M (Unit {0})) → ReportState → M (Unit {0})
  unfolding isolate_traffic isolate_at_cursor retry_round may_isolate conflict_next
  after_failure e retry saved =
      if may_isolate (conflict_of e) saved.pending
      then isolate_traffic (conflict_next (conflict_of e))
      else if leb_ℤ (pos 3) saved.failures
      then isolate_at_cursor
      else retry_round e (conflict_of e) retry

  unfoldable pub after_uncertain : Error → Option (M (Unit {0})) → M (Unit {0})
  unfolding save_report_state after_failure
  after_uncertain e retry = do
    s ← the_outbox
    saved ← save_report_state env (record s { failures = more_failures s.failures })
    after_failure e retry saved

  unfoldable pub settle_round : Result (Unit {0}) → Option (M (Unit {0})) → M (Unit {0})
  unfolding after_uncertain
  settle_round (ok _) retry = pure tt
  settle_round (err e) retry = if is_unconfirmed e then after_uncertain e retry else raise e

  -- The loop of sendPending, by the rounds that may follow: `attempt == 0` is one more.
  unfoldable pub send_rounds : ℕ → M (Unit {0})
  unfolding send_pending_once settle_round
  send_rounds zero = do r ← try send_pending_once; settle_round r none
  send_rounds (suc n) = do r ← try send_pending_once; settle_round r (some (send_rounds n))

  unfoldable pub send_pending : M (Unit {0})
  unfolding finish_traffic_isolation send_rounds
  send_pending = do
    s ← the_outbox
    if is_some s.resolution then finish_traffic_isolation else send_rounds 1
