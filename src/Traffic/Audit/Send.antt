-- ===== src/Traffic/Audit/Send.antt =====
-- Sending under the invariant: a round that succeeds leaves nothing pending, with the buffered rows
-- as they were.
use v2node_hy.Base.{
  suc, String, true, false, ◌||◌, ◌==◌, ◌≡◌, refl, ◌⊎◌, inl, inr, List, [], ◌∷◌, Option, none, some,
  is_some, or_else, Bool-cases, Option-cases, arith, ℤ,
}
use v2node_hy.Traffic.{TrafficBatch, TrafficAck, ReportState, user_rows}
use v2node_hy.Traffic.Store.{save_report_state}
use v2node_hy.Traffic.Send.{
  consume_rows, revoke_users, post_batch, advance, send_batch, send_next, send_pending_once,
  is_unconfirmed, next_state, note_last_uid, last_uid,
}
use v2node_hy.Traffic.Effect.{
  Client, World, Event, acked, consumed, Env, Result, ok, err, M, continue_with, the_outbox,
}
use v2node_hy.Traffic.Audit.{Names, JustAcked, spent, Inv, Synced, Kept, Holds, Post, Post-bind}
use v2node_hy.Traffic.Audit.Certain.{IsCertain, IsCertain-bind, save_report_state-IsCertain}
use v2node_hy.Traffic.Audit.Store.{IsSavedAs, save_report_state_lem}
use v2node_hy.Traffic.Audit.Acks.{IsNamed, read_ack-IsNamed}

module _ (env : Env) where
  abbrev pub IsThe : ReportState → ReportState → World → Type 0
  IsThe s t w = (t ≡ s) × Holds env s w

  pub the_outbox_lem :
      (w : World) (s : ReportState) → Kept env w → Holds env s w → Post env (IsThe s) (the_outbox w)
  the_outbox_lem w s k h = ground arith

  consumed_Inv :
      (c : Client) (disk : Option String) (es : List Event) (s : ReportState) (b : TrafficBatch)
      → Inv env c disk es
      → Synced env s c disk
      → s.pending ≡ some b
      → JustAcked env b es ⊎ (is_some s.resolution ≡ true)
      → spent es ≡ false
      → Inv env (record c { committed = true }) disk (consumed (user_rows b.rows) disk ∷ es)
  consumed_Inv c disk es s b k h p permit unspent = record {
    sound = (unspent, (s, b, h.on_disk, p, refl, permit), k.sound);
    charged = λ used. refl;
    covered = λ used. (s, ground arith, h.on_disk);
    clear = rw h.no_unsynced tt;
  }

  -- The result of a step of a round: an unconfirmed failure leaves the state as it was.
  abbrev pub Tried : {A : Type 0} → ReportState → (A → World → Type 0) → Result A × World → Type 0
  Tried s Q (ok a, w) = Kept env w × Q a w
  Tried s Q (err e, w) = Kept env w × (is_unconfirmed e ≡ true → Holds env s w)

  Tried-bind :
      {A B : Type 0} (s : ReportState) (Q : A → World → Type 0) (R : B → World → Type 0)
      (r : Result A × World) (f : A → M B)
      → Tried s Q r
      → ((a : A) (w : World) → Kept env w → Q a w → Tried s R (f a w))
      → Tried s R (continue_with r f)
  Tried-bind s Q R (ok a, w) f h k = k a w h.0 h.1
  Tried-bind s Q R (err e, w) f h k = h

  pub Post-Tried :
      {A : Type 0} (s : ReportState) (Q : A → World → Type 0) (r : Result A × World)
      → Tried s Q r
      → Post env Q r
  Post-Tried s Q (ok a, w) h = h
  Post-Tried s Q (err e, w) h = h.0

  Tried-certain :
      {A : Type 0} (s : ReportState) (Q : A → World → Type 0) (r : Result A × World)
      → Post env Q r
      → IsCertain r
      → Tried s Q r
  Tried-certain s Q (ok a, w) h c = h
  Tried-certain s Q (err e, w) h c = (h, λ u. ground arith)

  pub consume_rows_lem :
      (w : World) (s : ReportState) (b : TrafficBatch)
      → Kept env w
      → Holds env s w
      → s.pending ≡ some b
      → JustAcked env b w.trace ⊎ (is_some s.resolution ≡ true)
      → Tried s (λ _ w'. Holds env s w') (consume_rows env b.rows w)
  unfolding consume_rows
  consume_rows_lem w s b k h p permit =
      elim (Bool-cases (w.client.committed || w.client.recovered)) [
        | inl done ↦ rw done (k, h)
        | inr fresh ↦ rw fresh (elim (Option-cases (env.commit w.calls (user_rows b.rows))) [
          | inr (e, failed) ↦ rw failed (k, λ u. h)
          | inl fine ↦ rw fine (
            consumed_Inv w.client w.disk w.trace s b k h p permit
                (elim (Bool-cases (spent w.trace)) [
                  | inl used ↦ ground (arith, k.charged used, fresh, h.current)
                  | inr unused ↦ unused
                ]),
            record { no_unsynced = h.no_unsynced; current = h.current; on_disk = h.on_disk },
          )
        ])
      ]

  pub revoke_users_lem :
      (w : World) (s : ReportState) (ids : List ℤ)
      → Kept env w
      → Holds env s w
      → Tried s (λ _ w'. Holds env s w') (revoke_users env ids w)
  unfolding revoke_users
  revoke_users_lem w s ids k h = elim (Option-cases (env.revoke w.calls ids)) [
    | inr (e, failed) ↦ rw failed (k, λ u. h)
    | inl fine ↦
        rw fine
          (record { sound = k.sound; charged = k.charged; covered = k.covered; clear = k.clear }, h)
  ]

  -- Something sent leaves nothing pending, and the buffered rows as they were.
  abbrev pub IsSent : ReportState → World → Type 0
  IsSent s w = (t : ReportState) × Holds env t w × (t.pending ≡ none) × (t.buffered ≡ s.buffered)

  note_last_uid-Inv :
      (o : Option ℤ) (c : Client) (disk : Option String) (es : List Event)
      → Inv env c disk es
      → Inv env (note_last_uid o c) disk es
  unfolding note_last_uid
  note_last_uid-Inv none c disk es k = k
  note_last_uid-Inv (some uid) c disk es k = record {
    sound = k.sound;
    charged = k.charged;
    covered = k.covered;
    clear = k.clear;
  }

  note_last_uid-unsynced :
      (o : Option ℤ) (c : Client) → c.unsynced ≡ none → (note_last_uid o c).unsynced ≡ none
  unfolding note_last_uid
  note_last_uid-unsynced none c u = u
  note_last_uid-unsynced (some uid) c u = u

  -- The flags are cleared once nothing is pending.
  cleared_Inv :
      {s : ReportState} (t : ReportState) (w : World)
      → Kept env w
      → IsSavedAs env s t w
      → s.pending ≡ none
      → Inv env
          (record w.client { outbox = some t; recovered = false; committed = false })
          w.disk
          w.trace
  cleared_Inv t w k h idle = record {
    sound = k.sound;
    charged = λ used. ground (arith, (h.2 (ground (arith, h.0.pending, idle))).1, used);
    covered = k.covered;
    clear = rw h.1.no_unsynced tt;
  }

  Tried-steady :
      {A : Type 0} (s : ReportState) (r : Result A) (w : World)
      → Kept env w
      → Holds env s w
      → Tried s (λ _ w'. Holds env s w') (r, w)
  Tried-steady s (ok a) w k h = (k, h)
  Tried-steady s (err e) w k h = (k, λ u. h)

  advance_lem :
      (w : World) (s : ReportState) (b : TrafficBatch)
      → Kept env w
      → Holds env s w
      → Post env (λ _ w'. IsSent s w') (advance env s b w)
  unfolding advance
  advance_lem w s b k h =
      let now = env.now w.calls in
      let w0 : World = record w {
        client = note_last_uid (last_uid b.rows) w.client;
        calls = suc w.calls;
      } in
      elim (Bool-cases ((next_state s b now).next == 0)) [
        | inl overflow ↦ rw overflow (note_last_uid-Inv (last_uid b.rows) w.client w.disk w.trace k)
        | inr fits ↦ rw fits (
            Post-bind env (IsSavedAs env (next_state s b now)) (λ _ w'. IsSent s w')
              (save_report_state env (next_state s b now) w0) _
              (save_report_state_lem env w0 (next_state s b now)
                (note_last_uid-Inv (last_uid b.rows) w.client w.disk w.trace k)
                (note_last_uid-unsynced (last_uid b.rows) w.client h.no_unsynced) (λ o. refl))
              λ t w1 k1 h1. (
                cleared_Inv t w1 k1 h1 refl,
                (
                  t,
                  record { no_unsynced = h1.1.no_unsynced; current = refl; on_disk = h1.1.on_disk },
                  h1.0.pending,
                  h1.0.buffered,
                ),
              ))
      ]

  advance-IsCertain :
      (w : World) (s : ReportState) (b : TrafficBatch) → IsCertain (advance env s b w)
  unfolding advance is_unconfirmed
  advance-IsCertain w s b = elim (Bool-cases ((next_state s b (env.now w.calls)).next == 0)) [
    | inl overflow ↦ rw overflow refl
    | inr fits ↦ rw fits (
        IsCertain-bind (save_report_state env (next_state s b (env.now w.calls)) _) _
          (save_report_state-IsCertain env (next_state s b (env.now w.calls)) _) λ t w1. tt)
  ]

  Tried-named :
      (s : ReportState) (b : TrafficBatch) (r : Result TrafficAck) (w : World)
      → Kept env w
      → Holds env s w
      → IsNamed env b r
      → Tried s (λ ack w'. Holds env s w' × Names env b ack) (r, w)
  Tried-named s b (ok a) w k h n = (k, (h, n))
  Tried-named s b (err e) w k h n = (k, λ u. h)

  post_batch_lem :
      (w : World) (s : ReportState) (b : TrafficBatch)
      → Kept env w
      → Holds env s w
      → s.pending ≡ some b
      → s.resolution ≡ none
      → Tried s (λ ack w'. Holds env s w' × Names env b ack) (post_batch env b w)
  unfolding post_batch
  post_batch_lem w s b k h p r = elim (Option-cases (env.encode_batch b)) [
    | inl bad ↦ rw bad (k, λ u. h)
    | inr (body, good) ↦ rw good (
        Tried-named s b _ _
          (record {
            sound = ((s, h.on_disk, p, r), k.sound);
            charged = k.charged;
            covered = k.covered;
            clear = k.clear;
          })
          h (read_ack-IsNamed env b body _ good))
  ]

  send_batch_lem :
      (w : World) (s : ReportState) (b : TrafficBatch)
      → Kept env w
      → Holds env s w
      → s.pending ≡ some b
      → s.resolution ≡ none
      → Tried s (λ _ w'. IsSent s w') (send_batch env s b w)
  unfolding send_batch
  send_batch_lem w s b k h p r =
      Tried-bind s (λ ack w'. Holds env s w' × Names env b ack) (λ _ w'. IsSent s w')
        (post_batch env b w) _ (post_batch_lem w s b k h p r)
        λ ack w1 k1 h1.
          let w2 : World = record w1 { trace = acked b ack ∷ w1.trace } in
          Tried-bind s (λ _ w'. Holds env s w') (λ _ w'. IsSent s w') (consume_rows env b.rows w2) _
            (consume_rows_lem w2 s b
              (record {
                sound = k1.sound;
                charged = k1.charged;
                covered = k1.covered;
                clear = k1.clear;
              })
              h1.0 p (inl (refl, h1.1)))
            λ _ w3 k3 h3.
              let ids = or_else ack.revoked [] in
              Tried-bind s (λ _ w'. Holds env s w') (λ _ w'. IsSent s w') (revoke_users env ids w3)
                _ (revoke_users_lem w3 s ids k3 h3)
                λ _ w4 k4 h4.
                  Tried-certain s (λ _ w'. IsSent s w') (advance env s b w4)
                    (advance_lem w4 s b k4 h4) (advance-IsCertain w4 s b)

  send_next_lem :
      (w : World) (s : ReportState) (o : Option TrafficBatch)
      → s.pending ≡ o
      → s.resolution ≡ none
      → Kept env w
      → Holds env s w
      → Tried s (λ _ w'. IsSent s w') (send_next env s o w)
  unfolding send_next
  send_next_lem w s none p r k h = (k, (s, h, p, refl))
  send_next_lem w s (some b) p r k h = send_batch_lem w s b k h p r

  pub send_pending_once_lem :
      (w : World) (s : ReportState)
      → s.resolution ≡ none
      → Kept env w
      → Holds env s w
      → Tried s (λ _ w'. IsSent s w') (send_pending_once env w)
  unfolding send_pending_once
  send_pending_once_lem w s r k h =
      Tried-bind s (IsThe s) (λ _ w'. IsSent s w') (the_outbox w) _ (ground arith)
        λ t w1 k1 h1. rw h1.0 (send_next_lem w1 s s.pending refl r k1 h1.1)
