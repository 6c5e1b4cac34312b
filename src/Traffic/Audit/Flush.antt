-- ===== src/Traffic/Audit/Flush.antt =====
-- A reporting round and the final drain under the invariant.
use v2node_hy.Base.{
  ℕ, zero, suc, ◌<◌, String, true, false, ◌≡◌, refl, ◌∙◌, ap, subst, inl, inr, List, [], ◌∷◌,
  length, Option, none, some, Option-cases, arith, str_eq,
}
use v2node_hy.Traffic.{TrafficRow, ReportState}
use v2node_hy.Traffic.Select.{Selection, select_traffic_batch}
use v2node_hy.Traffic.Select.Partition.{length-rest-lt}
use v2node_hy.Traffic.Store.{file_call, save_report_state}
use v2node_hy.Traffic.Send.{send_pending}
use v2node_hy.Traffic.Flush.{
  begin_flush, take_lock, buffered_state, captured_state, send_buffered, spend, drain_step,
  drain_buffered, send_captured, drain_captured, flush_captured, after_buffered, flush_rest,
  flush_traffic_limit,
}
use v2node_hy.Traffic.Effect.{
  Error, make_directory, World, Env, Result, ok, err, M, ◌>>◌, require, raise_if, when_failed,
  update, pure, the_outbox,
}
use v2node_hy.Traffic.Audit.{CodecLaws, Kept, Holds, IsLoaded, Post, Post-bind, Post-weaken}
use v2node_hy.Traffic.Audit.Store.{SameAs, IsSavedAs, file_call_lem, save_report_state_lem}
use v2node_hy.Traffic.Audit.Load.{load_report_state_lem}
use v2node_hy.Traffic.Audit.Send.{IsThe, IsSent, the_outbox_lem}
use v2node_hy.Traffic.Audit.Isolate.{require_lem, raise_if_lem}
use v2node_hy.Traffic.Audit.Rounds.{send_pending_lem}

module _ (env : Env) (laws : CodecLaws env) where
  pub take_lock_lem :
      (why : String) (w : World) → Kept env w → Post env (λ _. SameAs w) (take_lock env why w)
  take_lock_lem why w k = ground arith

  begin_flush_lem :
      (w : World) → Kept env w → Post env (λ _ w'. IsLoaded env w') (begin_flush env w)
  unfolding begin_flush
  begin_flush_lem w k =
      let drains = w.client.draining in
      let unnamed = str_eq w.client.outbox_path "" in
      Post-bind env (λ _ w'. (drains ≡ false) × (w' ≡ w)) (λ _ w'. IsLoaded env w')
        (raise_if drains _ w) _ (raise_if_lem env drains _ w k)
        λ _ w1 k1 h1.
          Post-bind env (λ _ w'. (str_eq w.client.outbox_path "" ≡ false) × (w' ≡ w1))
            (λ _ w'. IsLoaded env w') (raise_if (str_eq w.client.outbox_path "") _ w1) _
            (raise_if_lem env (str_eq w.client.outbox_path "") _ w1 k1)
            λ _ w2 k2 h2.
              Post-bind env (λ _. SameAs w2) (λ _ w'. IsLoaded env w')
                (file_call env make_directory w2) _ (file_call_lem env make_directory w2 k2)
                λ _ w3 k3 h3.
                  Post-bind env (λ _. SameAs w3) (λ _ w'. IsLoaded env w') (take_lock env _ w3) _
                    (take_lock_lem _ w3 k3) λ _ w4 k4 h4. load_report_state_lem env laws w4 k4

  -- Fewer rows are buffered, and nothing is pending.
  abbrev IsShorter : ReportState → World → Type 0
  IsShorter s w = (t : ReportState) × Holds env t w × (length t.buffered < length s.buffered)

  send_buffered_lem :
      (w : World) (s : ReportState) (r : TrafficRow) (rs : List TrafficRow)
      → s.buffered ≡ r ∷ rs
      → Kept env w
      → Holds env s w
      → Post env (λ _ w'. IsShorter s w') (send_buffered env s w)
  unfolding send_buffered
  send_buffered_lem w s r rs e k h =
      Post-bind env (λ sel w'. (select_traffic_batch s.buffered ≡ some sel) × (w' ≡ w))
        (λ _ w'. IsShorter s w') (require (select_traffic_batch s.buffered) _ w) _
        (require_lem env (select_traffic_batch s.buffered) _ w k)
        λ sel w1 k1 h1.
          let w2 : World = record w1 { client = record w1.client { recovered = true } } in
          let state = buffered_state s sel in
          Post-bind env (IsSavedAs env state) (λ _ w'. IsShorter s w')
            (save_report_state env state w2) _
            (save_report_state_lem env w2 state
              (record {
                sound = k1.sound;
                charged = λ used. ground arith;
                covered = k1.covered;
                clear = k1.clear;
              })
              (ground arith) (λ o. ground (arith, o, h.current)))
            λ p w3 k3 h3.
              Post-weaken env (λ _ w'. IsSent env p w') (λ _ w'. IsShorter s w')
                (send_pending env w3) (send_pending_lem env w3 p k3 h3.1)
                λ _ w4 h4. (
                  h4.0,
                  h4.1,
                  omega (
                    arith,
                    ap length (h4.3 ∙ h3.0.buffered),
                    ap length e,
                    length-rest-lt r rs (subst (λ l. select_traffic_batch l ≡ some sel) e h1.0),
                  ),
                )

  drain_step_lem :
      (w : World) (s : ReportState) (rows : List TrafficRow) (batches : ℕ)
      (again : ℕ → M (Option ℕ))
      → s.buffered ≡ rows
      → ((w : World) (t : ReportState) (b : ℕ)
          → Kept env w
          → Holds env t w
          → Post env (λ _ w'. IsLoaded env w') (again b w))
      → Kept env w
      → Holds env s w
      → Post env (λ _ w'. IsLoaded env w') (drain_step env s rows batches again w)
  unfolding drain_step
  drain_step_lem w s [] batches again e i k h = (k, (s, h))
  drain_step_lem w s (r ∷ rs) batches again e i k h =
      Post-bind env (λ _ w'. IsShorter s w') (λ _ w'. IsLoaded env w') (send_buffered env s w) _
        (send_buffered_lem w s r rs e k h)
        λ _ w1 k1 h1. elim (Option-cases (spend batches)) [
          | inl stop ↦ rw stop (k1, (h1.0, h1.1))
          | inr (b, more) ↦ rw more (i w1 h1.0 b k1 h1.1)
        ]

  drain_buffered_lem :
      (fuel : ℕ) (w : World) (s : ReportState) (batches : ℕ)
      → Kept env w
      → Holds env s w
      → Post env (λ _ w'. IsLoaded env w') (drain_buffered env fuel batches w)
  unfolding drain_buffered
  drain_buffered_lem zero w s batches k h = k
  drain_buffered_lem (suc fuel) w s batches k h =
      Post-bind env (IsThe env s) (λ _ w'. IsLoaded env w') (the_outbox w) _
        (the_outbox_lem env w s k h)
        λ t w1 k1 h1. rw h1.0 (
          drain_step_lem w1 s s.buffered batches (drain_buffered env fuel) refl
            (λ w2 t2 b k2 h2. drain_buffered_lem fuel w2 t2 b k2 h2) k1 h1.1)

  -- The rows that a round leaves queued.
  abbrev IsLeft : List TrafficRow → List TrafficRow → World → Type 0
  IsLeft queued rest w =
      ((sel : Selection) × (select_traffic_batch queued ≡ some sel) × (rest ≡ sel.rest))
      × IsLoaded env w

  when_failed_lem :
      (o : Option Error) (w : World) → Kept env w → Post env (λ _ w'. w' ≡ w) (when_failed o w)
  when_failed_lem none w k = (k, refl)
  when_failed_lem (some e) w k = k

  -- The end of a round over the captured rows.
  send_then : List TrafficRow → ReportState → M (List TrafficRow)
  send_then rest p = do update (λ c. record c { outbox = some p }); send_pending env; pure rest

  send_and_leave :
      (queued : List TrafficRow) (sel : Selection)
      → select_traffic_batch queued ≡ some sel
      → (p : ReportState) (w : World) → Kept env w
      → Holds env p w
      → Post env (IsLeft queued) (send_then sel.rest p w)
  unfolding send_then
  send_and_leave queued sel e p w k h =
      let w1 : World = record w { client = record w.client { outbox = some p } } in
      Post-bind env (λ _ w'. IsSent env p w') (IsLeft queued) (send_pending env w1) _
        (send_pending_lem env w1 p
          (record {
            sound = k.sound;
            charged = λ used. ground (arith, k.charged used, h.current);
            covered = k.covered;
            clear = rw h.no_unsynced tt;
          })
          (record { no_unsynced = h.no_unsynced; current = refl; on_disk = h.on_disk }))
        λ _ w2 k2 h2. (k2, ((sel, e, refl), (h2.0, h2.1)))

  send_captured_lem :
      (w : World) (s : ReportState) (queued : List TrafficRow)
      → Kept env w
      → Holds env s w
      → Post env (IsLeft queued) (send_captured env queued w)
  unfolding send_captured send_then
  send_captured_lem w s queued k h =
      let w0 : World = record w { calls = suc w.calls } in
      Post-bind env (λ _ w'. w' ≡ w0) (IsLeft queued) (when_failed (env.context_error w.calls) w0) _
        (when_failed_lem (env.context_error w.calls) w0 k)
        λ _ w1 k1 h1.
          Post-bind env (λ sel w'. (select_traffic_batch queued ≡ some sel) × (w' ≡ w1))
            (IsLeft queued) (require (select_traffic_batch queued) _ w1) _
            (require_lem env (select_traffic_batch queued) _ w1 k1)
            λ sel w2 k2 h2.
              Post-bind env (IsThe env s) (IsLeft queued) (the_outbox w2) _
                (the_outbox_lem env w2 s k2 (ground arith))
                λ t w3 k3 h3.
                  let state = captured_state s sel in
                  rw h3.0 (
                    Post-bind env (IsSavedAs env state) (IsLeft queued)
                      (save_report_state env state w3) _
                      (save_report_state_lem env w3 state k3 h3.1.no_unsynced
                        (λ o. ground (arith, o, h3.1.current)))
                      λ p w4 k4 h4. send_and_leave queued sel h2.0 p w4 k4 h4.1)

  drain_captured-Kept :
      (fuel : ℕ) (w : World) (batches : ℕ) (queued : List TrafficRow)
      → Kept env w
      → IsLoaded env w
      → Post env (λ _ w'. IsLoaded env w') (drain_captured env fuel batches queued w)
  unfolding drain_captured
  drain_captured-Kept fuel w batches [] k h = (k, h)
  drain_captured-Kept zero w batches (r ∷ rs) k h = k
  drain_captured-Kept (suc fuel) w batches (r ∷ rs) k h =
      Post-bind env (IsLeft (r ∷ rs)) (λ _ w'. IsLoaded env w') (send_captured env (r ∷ rs) w) _
        (send_captured_lem w h.0 (r ∷ rs) k h.1)
        λ rest w1 k1 h1. elim (Option-cases (spend batches)) [
          | inl stop ↦ rw stop (k1, h1.1)
          | inr (b, more) ↦ rw more (drain_captured-Kept fuel w1 b rest k1 h1.1)
        ]

  pub result_lem :
      {A : Type 0} (r : Result A) (w : World)
      → Kept env w
      → Post env (λ a w'. (r ≡ ok a) × (w' ≡ w)) (r, w)
  result_lem (ok a) w k = (k, (refl, refl))
  result_lem (err e) w k = k

  flush_captured_lem :
      (w : World) (batches : ℕ)
      → Kept env w
      → IsLoaded env w
      → Post env (λ _ w'. IsLoaded env w') (flush_captured env batches w)
  unfolding flush_captured
  flush_captured_lem w batches k h =
      let w0 : World = record w { calls = suc w.calls } in
      Post-bind env (λ rows w'. (env.capture w.calls ≡ ok rows) × (w' ≡ w0))
        (λ _ w'. IsLoaded env w') (env.capture w.calls, w0) _
        (result_lem (env.capture w.calls) w0 k)
        λ rows w1 k1 h1. drain_captured-Kept _ w1 batches _ k1 (h.0, ground arith)

  after_buffered_lem :
      (o : Option ℕ) (w : World)
      → Kept env w
      → IsLoaded env w
      → Post env (λ _ w'. IsLoaded env w') (after_buffered env o w)
  unfolding after_buffered
  after_buffered_lem none w k h = (k, h)
  after_buffered_lem (some b) w k h = flush_captured_lem w b k h

  flush_rest_lem :
      (o : Option ℕ) (w : World)
      → Kept env w
      → IsLoaded env w
      → Post env (λ _ w'. IsLoaded env w') (flush_rest env o w)
  unfolding flush_rest
  flush_rest_lem none w k h = (k, h)
  flush_rest_lem (some b) w k h =
      Post-bind env (IsThe env h.0) (λ _ w'. IsLoaded env w') (the_outbox w) _
        (the_outbox_lem env w h.0 k h.1)
        λ t w1 k1 h1.
          Post-bind env (λ _ w'. IsLoaded env w') (λ _ w'. IsLoaded env w')
            (drain_buffered env (suc (length t.buffered)) b w1) _
            (drain_buffered_lem (suc (length t.buffered)) w1 h.0 b k1 h1.1)
            λ left w2 k2 h2. after_buffered_lem left w2 k2 h2

  -- A round keeps the invariant; one that succeeds leaves the client with the state on disk.
  pub flush_traffic_limit_lem :
      (w : World) (batches : ℕ)
      → Kept env w
      → Post env (λ _ w'. IsLoaded env w') (flush_traffic_limit env batches w)
  unfolding flush_traffic_limit
  flush_traffic_limit_lem w batches k =
      Post-bind env (λ _ w'. IsLoaded env w') (λ _ w'. IsLoaded env w') (begin_flush env w) _
        (begin_flush_lem w k)
        λ _ w1 k1 h1.
          Post-bind env (IsThe env h1.0) (λ _ w'. IsLoaded env w') (the_outbox w1) _
            (the_outbox_lem env w1 h1.0 k1 h1.1)
            λ t w2 k2 h2.
              Post-bind env (λ _ w'. IsSent env h1.0 w') (λ _ w'. IsLoaded env w')
                (send_pending env w2) _ (send_pending_lem env w2 h1.0 k2 h2.1)
                λ _ w3 k3 h3. flush_rest_lem _ w3 k3 (h3.0, h3.1)
