-- ===== src/Traffic/Audit/Rounds.antt =====
-- The whole of `sendPending` under the invariant.
use v2node_hy.Base.{
  ℕ, zero, suc, pos, leb_ℤ, not, ◌≡◌, ◌∙◌, inl, inr, Option, none, some, Bool-cases, Option-cases,
  arith,
}
use v2node_hy.Traffic.{TrafficConflict, ReportState}
use v2node_hy.Traffic.Checks.{can_rebase_traffic}
use v2node_hy.Traffic.Panel.{read_traffic_cursor}
use v2node_hy.Traffic.Store.{save_report_state}
use v2node_hy.Traffic.Send.{
  is_unconfirmed, conflict_of, more_failures, rebased_state, digest_of, finish_traffic_isolation,
  isolate_traffic, isolate_at, isolate_at_cursor, rebase_traffic_conflict, retry_round, may_isolate,
  conflict_next, after_failure, after_uncertain, settle_round, send_pending_once, send_rounds,
  send_pending,
}
use v2node_hy.Traffic.Effect.{
  Error, conflicting, outside, World, Env, Result, ok, err, M, require, raise_if, the_outbox,
}
use v2node_hy.Traffic.Audit.{Kept, Holds, Post, Post-bind, Post-weaken}
use v2node_hy.Traffic.Audit.Store.{IsSavedAs, save_report_state_lem}
use v2node_hy.Traffic.Audit.Send.{IsThe, IsSent, Tried, the_outbox_lem, send_pending_once_lem}
use v2node_hy.Traffic.Audit.Isolate.{
  read_traffic_cursor-SameAs, same-Kept, require_lem, raise_if_lem, finish_traffic_isolation_lem,
  same-Holds,
}

module _ (env : Env) where
  isolate_traffic_lem :
      (w : World) (s : ReportState) (next : ℕ)
      → Kept env w
      → Holds env s w
      → Post env (λ _ w'. IsSent env s w') (isolate_traffic env next w)
  unfolding isolate_traffic
  isolate_traffic_lem w s next k h =
      Post-bind env (IsThe env s) (λ _ w'. IsSent env s w') (the_outbox w) _
        (the_outbox_lem env w s k h)
        λ t w1 k1 h1.
          let w2 : World = record w1 { calls = suc w1.calls } in
          let marked = record s {
            resolution = some (record { next = next; at = env.now w1.calls });
          } in
          rw h1.0 (
            Post-bind env (IsSavedAs env marked) (λ _ w'. IsSent env s w')
              (save_report_state env marked w2) _
              (save_report_state_lem env w2 marked k1 h1.1.no_unsynced
                (λ o. ground (arith, o, h1.1.current)))
              λ p w3 k3 h3.
                Post-weaken env (λ _ w'. IsSent env p w') (λ _ w'. IsSent env s w')
                  (finish_traffic_isolation env w3)
                  (finish_traffic_isolation_lem env w3 p (ground arith) k3 h3.1)
                  λ _ w4 h4. (h4.0, h4.1, h4.2, h4.3 ∙ h3.0.buffered))

  isolate_at_lem :
      (r : Result ℕ) (w : World) (s : ReportState)
      → Kept env w
      → Holds env s w
      → Post env (λ _ w'. IsSent env s w') (isolate_at env r w)
  unfolding isolate_at
  isolate_at_lem (ok cursor) w s k h = isolate_traffic_lem w s cursor k h
  isolate_at_lem (err e) w s k h = k

  isolate_at_cursor_lem :
      (w : World) (s : ReportState)
      → Kept env w
      → Holds env s w
      → Post env (λ _ w'. IsSent env s w') (isolate_at_cursor env w)
  unfolding isolate_at_cursor
  isolate_at_cursor_lem w s k h =
      let r = read_traffic_cursor env w in
      let same = read_traffic_cursor-SameAs env w in
      isolate_at_lem r.0 r.1 s (same-Kept env w r.1 same k) (same-Holds env s w r.1 same h)

  -- A rebased batch keeps the buffered rows and may be sent again.
  abbrev IsRebased : ReportState → World → Type 0
  IsRebased s w =
      (t : ReportState) × Holds env t w × (t.buffered ≡ s.buffered) × (t.resolution ≡ none)

  rebase_traffic_conflict_lem :
      (w : World) (s : ReportState) (c : TrafficConflict)
      → Kept env w
      → Holds env s w
      → Post env (λ _ w'. IsRebased s w') (rebase_traffic_conflict env c w)
  unfolding rebase_traffic_conflict
  rebase_traffic_conflict_lem w s c k h =
      Post-bind env (IsThe env s) (λ _ w'. IsRebased s w') (the_outbox w) _
        (the_outbox_lem env w s k h)
        λ t w1 k1 h1. rw h1.0 (
          Post-bind env (λ b w'. (s.pending ≡ some b) × (w' ≡ w1)) (λ _ w'. IsRebased s w')
            (require s.pending (conflicting c) w1) _
            (require_lem env s.pending (conflicting c) w1 k1)
            λ b w2 k2 h2.
              Post-bind env (λ _ w'. _ × (w' ≡ w2)) (λ _ w'. IsRebased s w')
                (raise_if w2.client.committed (conflicting c) w2) _
                (raise_if_lem env w2.client.committed (conflicting c) w2 k2)
                λ _ w3 k3 h3.
                  Post-bind env (λ d w'. (digest_of env b ≡ some d) × (w' ≡ w3))
                    (λ _ w'. IsRebased s w') (require (digest_of env b) (outside "json") w3) _
                    (require_lem env (digest_of env b) (outside "json") w3 k3)
                    λ d w4 k4 h4.
                      let refused = not (can_rebase_traffic c b.sequence d) in
                      Post-bind env (λ _ w'. _ × (w' ≡ w4)) (λ _ w'. IsRebased s w')
                        (raise_if refused (conflicting c) w4) _
                        (raise_if_lem env refused (conflicting c) w4 k4)
                        λ _ w5 k5 h5.
                          Post-bind env (IsSavedAs env (rebased_state s b c.next))
                            (λ _ w'. IsRebased s w')
                            (save_report_state env (rebased_state s b c.next) w5) _
                            (save_report_state_lem env w5 (rebased_state s b c.next) k5
                              (ground arith) (λ o. ground arith))
                            λ p w6 k6 h6. (k6, (p, h6.1, h6.0.buffered, h6.0.resolution)))

  abbrev IsRetry : Option (M (Unit {0})) → Type 0
  IsRetry none = Unit {0}
  IsRetry (some m) =
      (w : World) (s : ReportState)
      → s.resolution ≡ none
      → Kept env w
      → Holds env s w
      → Post env (λ _ w'. IsSent env s w') (m w)

  retry_round_lem :
      (e : Error) (c : Option TrafficConflict) (retry : Option (M (Unit {0}))) (w : World)
      (s : ReportState)
      → IsRetry retry
      → Kept env w
      → Holds env s w
      → Post env (λ _ w'. IsSent env s w') (retry_round env e c retry w)
  unfolding retry_round
  retry_round_lem e none retry w s i k h = k
  retry_round_lem e (some c) none w s i k h = k
  retry_round_lem e (some c) (some m) w s i k h =
      Post-bind env (λ _ w'. IsRebased s w') (λ _ w'. IsSent env s w')
        (rebase_traffic_conflict env c w) _ (rebase_traffic_conflict_lem w s c k h)
        λ _ w1 k1 h1.
          Post-weaken env (λ _ w'. IsSent env h1.0 w') (λ _ w'. IsSent env s w') (m w1)
            (i w1 h1.0 h1.3 k1 h1.1) λ _ w2 h2. (h2.0, h2.1, h2.2, h2.3 ∙ h1.2)

  IsSent-Saved :
      (s p : ReportState) (r : Result (Unit {0}) × World)
      → p.buffered ≡ s.buffered
      → Post env (λ _ w'. IsSent env p w') r
      → Post env (λ _ w'. IsSent env s w') r
  IsSent-Saved s p r e h =
      Post-weaken env (λ _ w'. IsSent env p w') (λ _ w'. IsSent env s w') r h
        λ _ w1 h1. (h1.0, h1.1, h1.2, h1.3 ∙ e)

  after_failure_lem :
      (e : Error) (retry : Option (M (Unit {0}))) (p : ReportState) (w : World)
      → IsRetry retry
      → Kept env w
      → Holds env p w
      → Post env (λ _ w'. IsSent env p w') (after_failure env e retry p w)
  unfolding after_failure
  after_failure_lem e retry p w i k h =
      elim (Bool-cases (may_isolate env (conflict_of e) p.pending)) [
        | inl ahead ↦ rw ahead (isolate_traffic_lem w p (conflict_next (conflict_of e)) k h)
        | inr no_proof ↦ elim (Bool-cases (leb_ℤ (pos 3) p.failures)) [
          | inl worn ↦ rw no_proof (rw worn (isolate_at_cursor_lem w p k h))
          | inr young ↦ rw no_proof (rw young (retry_round_lem e (conflict_of e) retry w p i k h))
        ]
      ]

  after_uncertain_lem :
      (e : Error) (retry : Option (M (Unit {0}))) (w : World) (s : ReportState)
      → IsRetry retry
      → Kept env w
      → Holds env s w
      → Post env (λ _ w'. IsSent env s w') (after_uncertain env e retry w)
  unfolding after_uncertain
  after_uncertain_lem e retry w s i k h =
      Post-bind env (IsThe env s) (λ _ w'. IsSent env s w') (the_outbox w) _
        (the_outbox_lem env w s k h)
        λ t w1 k1 h1.
          let failed = record s { failures = more_failures s.failures } in
          rw h1.0 (
            Post-bind env (IsSavedAs env failed) (λ _ w'. IsSent env s w')
              (save_report_state env failed w1) _
              (save_report_state_lem env w1 failed k1 h1.1.no_unsynced
                (λ o. ground (arith, o, h1.1.current)))
              λ p w2 k2 h2.
                IsSent-Saved s p _ h2.0.buffered (after_failure_lem e retry p w2 i k2 h2.1))

  settle_round_lem :
      (r : Result (Unit {0})) (retry : Option (M (Unit {0}))) (w : World) (s : ReportState)
      → IsRetry retry
      → Tried env s (λ _ w'. IsSent env s w') (r, w)
      → Post env (λ _ w'. IsSent env s w') (settle_round env r retry w)
  unfolding settle_round
  settle_round_lem (ok u) retry w s i h = h
  settle_round_lem (err e) retry w s i h = elim (Bool-cases (is_unconfirmed e)) [
    | inl doubt ↦ rw doubt (after_uncertain_lem e retry w s i h.0 (h.1 doubt))
    | inr plain ↦ rw plain h.0
  ]

  send_rounds_lem :
      (n : ℕ) (w : World) (s : ReportState)
      → s.resolution ≡ none
      → Kept env w
      → Holds env s w
      → Post env (λ _ w'. IsSent env s w') (send_rounds env n w)
  unfolding send_rounds
  send_rounds_lem zero w s r k h =
      settle_round_lem (send_pending_once env w).0 none (send_pending_once env w).1 s tt
        (send_pending_once_lem env w s r k h)
  send_rounds_lem (suc n) w s r k h =
      settle_round_lem (send_pending_once env w).0 (some (send_rounds env n))
        (send_pending_once env w).1 s (send_rounds_lem n) (send_pending_once_lem env w s r k h)

  -- A round that succeeds leaves nothing pending and the buffered rows as they were.
  pub send_pending_lem :
      (w : World) (s : ReportState)
      → Kept env w
      → Holds env s w
      → Post env (λ _ w'. IsSent env s w') (send_pending env w)
  unfolding send_pending
  send_pending_lem w s k h =
      Post-bind env (IsThe env s) (λ _ w'. IsSent env s w') (the_outbox w) _
        (the_outbox_lem env w s k h)
        λ t w1 k1 h1. elim (Option-cases s.resolution) [
          | inl sends ↦ rw h1.0 (rw sends (send_rounds_lem 1 w1 s sends k1 h1.1))
          | inr (r, marked) ↦
              rw h1.0 (rw marked (finish_traffic_isolation_lem env w1 s (ground arith) k1 h1.1))
        ]
