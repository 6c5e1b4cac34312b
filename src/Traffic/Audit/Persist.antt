-- ===== src/Traffic/Audit/Persist.antt =====
-- The final drain under the invariant.
use v2node_hy.Base.{
  if◌then◌else◌, suc, ltb, String, Bool, true, false, ◌≡◌, List, length, Option, none, some, arith,
  str_eq,
}
use v2node_hy.Traffic.{ReportState}
use v2node_hy.Traffic.Store.{save_report_state, load_report_state}
use v2node_hy.Traffic.Flush.{
  take_lock, persist_rows, persist_traffic, start_draining, final_rows, overlap,
}
use v2node_hy.Traffic.Effect.{Client, World, Event, Env, ok, M, require, raise_if, pure, the_outbox}
use v2node_hy.Traffic.Audit.{CodecLaws, Inv, Kept, Holds, IsLoaded, Post, Post-bind}
use v2node_hy.Traffic.Audit.Store.{SameAs, IsSavedAs, save_report_state_lem}
use v2node_hy.Traffic.Audit.Load.{load_report_state_lem}
use v2node_hy.Traffic.Audit.Send.{IsThe, the_outbox_lem}
use v2node_hy.Traffic.Audit.Isolate.{require_lem, raise_if_lem}
use v2node_hy.Traffic.Audit.Flush.{take_lock_lem, result_lem}

module _ (env : Env) (laws : CodecLaws env) where
  if_Inv :
      (b : Bool) (c d : Client) (disk : Option String) (es : List Event)
      → Inv env c disk es
      → Inv env d disk es
      → Inv env (if b then c else d) disk es
  if_Inv true c d disk es h k = h
  if_Inv false c d disk es h k = k

  start_draining-Inv :
      (s : ReportState) (c : Client) (disk : Option String) (es : List Event)
      → Inv env c disk es
      → Inv env (start_draining s c) disk es
  unfolding start_draining
  start_draining-Inv s c disk es k =
      if_Inv c.draining c (record c { drain_base = s.buffered; draining = true }) disk es k
        (record { sound = k.sound; charged = k.charged; covered = k.covered; clear = k.clear })

  unsynced-start_draining :
      (s : ReportState) (c : Client) → c.unsynced ≡ none → (start_draining s c).unsynced ≡ none
  unfolding start_draining
  unsynced-start_draining s c u = ground arith

  outbox-start_draining : (s : ReportState) (c : Client) → (start_draining s c).outbox ≡ c.outbox
  unfolding start_draining
  outbox-start_draining s c = ground arith

  abbrev Anything : World → Type 0
  Anything w = Unit {0}

  persist_rows_lem :
      (w : World) (s : ReportState)
      → Kept env w
      → Holds env s w
      → Post env (λ _ w'. Anything w') (persist_rows env w)
  unfolding persist_rows
  persist_rows_lem w s k h =
      Post-bind env (IsThe env s) (λ _ w'. Anything w') (the_outbox w) _
        (the_outbox_lem env w s k h)
        λ t w1 k1 h1.
          let w2 : World = record w1 {
            client = start_draining s w1.client;
            calls = suc w1.calls;
          } in
          rw h1.0 (
            Post-bind env (λ rows w'. (env.capture w1.calls ≡ ok rows) × (w' ≡ w2))
              (λ _ w'. Anything w') (env.capture w1.calls, w2) _
              (result_lem env laws (env.capture w1.calls) w2
                (start_draining-Inv s w1.client w1.disk w1.trace k1))
              λ rows w3 k3 h3.
                let final = final_rows (overlap w3.client s) rows w3.client.drain_base in
                Post-bind env (λ b w'. (final ≡ some b) × (w' ≡ w3)) (λ _ w'. Anything w')
                  (require final _ w3) _ (require_lem env final _ w3 k3)
                  λ b w4 k4 h4.
                    let large = ltb 200_000 (length b) in
                    Post-bind env (λ _ w'. (large ≡ false) × (w' ≡ w4)) (λ _ w'. Anything w')
                      (raise_if large _ w4) _ (raise_if_lem env large _ w4 k4)
                      λ _ w5 k5 h5.
                        let state = record s { buffered = b } in
                        Post-bind env (IsSavedAs env state) (λ _ w'. Anything w')
                          (save_report_state env state w5) _
                          (save_report_state_lem env w5 state k5
                            (ground (arith, unsynced-start_draining s w1.client h1.1.no_unsynced))
                            (λ o.
                              ground (arith, o, outbox-start_draining s w1.client, h1.1.current)))
                          λ p w6 k6 h6. (
                            record {
                              sound = k6.sound;
                              charged = k6.charged;
                              covered = k6.covered;
                              clear = k6.clear;
                            },
                            tt,
                          ))

  if_Post :
      (b : Bool) (m n : M (Unit {0})) (w : World)
      → Post env (λ _ w'. Anything w') (m w)
      → Post env (λ _ w'. Anything w') (n w)
      → Post env (λ _ w'. Anything w') ((if b then m else n) w)
  if_Post true m n w h k = h
  if_Post false m n w h k = k

  -- The final drain keeps the invariant.
  pub persist_traffic_lem :
      (w : World) → Kept env w → Post env (λ _ w'. Anything w') (persist_traffic env w)
  unfolding persist_traffic
  persist_traffic_lem w k =
      let unnamed = str_eq w.client.outbox_path "" in
      Post-bind env (λ _ w'. (unnamed ≡ false) × (w' ≡ w)) (λ _ w'. Anything w')
        (raise_if unnamed _ w) _ (raise_if_lem env unnamed _ w k)
        λ _ w1 k1 h1.
          Post-bind env (λ _. SameAs w1) (λ _ w'. Anything w') (take_lock env _ w1) _
            (take_lock_lem env laws _ w1 k1)
            λ _ w2 k2 h2.
              Post-bind env (λ _ w'. IsLoaded env w') (λ _ w'. Anything w')
                (load_report_state env w2) _ (load_report_state_lem env laws w2 k2)
                λ _ w3 k3 h3.
                  if_Post w3.client.drain_saved (pure tt) (persist_rows env) w3 (k3, tt)
                    (persist_rows_lem w3 h3.0 k3 h3.1)
