-- ===== src/Traffic/Audit/Isolate.antt =====
-- Isolation under the invariant: a marked batch is consumed without being posted again.
use v2node_hy.Base.{
  suc, ℤ, String, Bool, true, false, ◌≡◌, refl, sym, inl, inr, List, Option, none, some, is_some,
  Bool-cases, arith,
}
use mathlib.Core.Path.{subst₃}
use v2node_hy.Users.{UserSnapshot}
use v2node_hy.Traffic.{TrafficBatch, ReportState}
use v2node_hy.Traffic.Panel.{
  check_reply, request, get_users, snapshot_of, read_traffic_cursor, invalidate_users,
}
use v2node_hy.Traffic.Store.{save_report_state}
use v2node_hy.Traffic.Send.{
  consume_rows, revoke_users, file_isolated, finish_traffic_isolation, isolated_state, lapsed,
  last_uid,
}
use v2node_hy.Traffic.Effect.{
  Client, World, Event, Env, Result, ok, err, M, ◌>>=◌, the_outbox, Error, text, nil_pointer,
  require, raise_if, Request, ◌>>◌,
}
use v2node_hy.Traffic.Audit.{Inv, Kept, Holds, Synced, Post, Post-bind}
use v2node_hy.Traffic.Audit.Store.{SameAs, IsSavedAs, save_report_state_lem}
use v2node_hy.Traffic.Audit.Send.{
  IsThe, IsSent, the_outbox_lem, consume_rows_lem, revoke_users_lem, Post-Tried,
}

module _ (env : Env) where
  Post-steady :
      {A : Type 0} (w : World) (r : Result A) (w1 : World)
      → Kept env w1
      → SameAs w w1
      → Post env (λ _. SameAs w) (r, w1)
  Post-steady w (ok a) w1 k h = (k, h)
  Post-steady w (err e) w1 k h = k

  request_lem : (q : Request) (w : World) → Kept env w → Post env (λ _. SameAs w) (request env q w)
  unfolding request
  request_lem q w k =
      Post-steady w (check_reply env q (env.transport w.calls q)) (record w { calls = suc w.calls })
        k (refl, refl, refl)

  get_users_lem :
      (etag : String) (w : World) → Kept env w → Post env (λ _. SameAs w) (get_users env etag w)
  unfolding get_users
  get_users_lem etag w k =
      Post-bind env (λ _. SameAs w) (λ _. SameAs w) (request env _ w) _ (request_lem _ w k)
        λ a w1 k1 h1. elim (Bool-cases a.unchanged) [
          | inl same ↦ rw same (k1, h1)
          | inr other ↦ rw other (Post-steady w (snapshot_of env a) w1 k1 h1)
        ]

  pub read_traffic_cursor-SameAs : (w : World) → SameAs w (read_traffic_cursor env w).1
  unfolding read_traffic_cursor request
  read_traffic_cursor-SameAs w = ground arith

  pub same-Kept : (w w1 : World) → SameAs w w1 → Kept env w → Kept env w1
  same-Kept w w1 e k = subst₃ (λ c d t. Inv env c d t) (sym e.0) (sym e.1) (sym e.2) k

  pub same-Holds : (s : ReportState) (w w1 : World) → SameAs w w1 → Holds env s w → Holds env s w1
  same-Holds s w w1 e h = ground arith

  pub require_lem :
      {A : Type 0} (o : Option A) (e : Error) (w : World)
      → Kept env w
      → Post env (λ a w'. (o ≡ some a) × (w' ≡ w)) (require o e w)
  require_lem none e w k = k
  require_lem (some a) e w k = (k, (refl, refl))

  pub raise_if_lem :
      (b : Bool) (e : Error) (w : World)
      → Kept env w
      → Post env (λ _ w'. (b ≡ false) × (w' ≡ w)) (raise_if b e w)
  raise_if_lem true e w k = k
  raise_if_lem false e w k = (k, (refl, refl))

  noted_uid_Inv :
      (c : Client) (disk : Option String) (es : List Event) (uid : ℤ)
      → Inv env c disk es
      → Inv env (record c { last_traffic_uid = uid }) disk es
  noted_uid_Inv c disk es uid k = record {
    sound = k.sound;
    charged = k.charged;
    covered = k.covered;
    clear = k.clear;
  }

  invalidate_users-Inv :
      (c : Client) (disk : Option String) (es : List Event)
      → Inv env c disk es
      → Inv env (invalidate_users c) disk es
  unfolding invalidate_users
  invalidate_users-Inv c disk es k = record {
    sound = k.sound;
    charged = k.charged;
    covered = k.covered;
    clear = k.clear;
  }

  invalidate_users-Synced :
      (s : ReportState) (c : Client) (disk : Option String)
      → Synced env s c disk
      → Synced env s (invalidate_users c) disk
  unfolding invalidate_users
  invalidate_users-Synced s c disk h = record {
    no_unsynced = h.no_unsynced;
    current = h.current;
    on_disk = h.on_disk;
  }

  file_isolated_lem :
      (w : World) (s : ReportState) (b : TrafficBatch)
      → Kept env w
      → Holds env s w
      → Post env (λ _ w'. IsSent env s w') (file_isolated env s b w)
  unfolding file_isolated
  file_isolated_lem w s b k h =
      Post-bind env (λ r w'. (s.resolution ≡ some r) × (w' ≡ w)) (λ _ w'. IsSent env s w')
        (require s.resolution nil_pointer w) _ (require_lem s.resolution nil_pointer w k)
        λ r w1 k1 h1.
          let at = env.now w1.calls in
          let state = isolated_state s b r at in
          Post-bind env (IsSavedAs env state) (λ _ w'. IsSent env s w')
            (save_report_state env state (record w1 { calls = suc w1.calls })) _
            (save_report_state_lem env (record w1 { calls = suc w1.calls }) state k1 (ground arith)
              (λ o. refl))
            λ t w2 k2 h2.
              Post-bind env (λ u w'. (last_uid b.rows ≡ some u) × (w' ≡ w2))
                (λ _ w'. IsSent env s w') (require (last_uid b.rows) nil_pointer w2) _
                (require_lem (last_uid b.rows) nil_pointer w2 k2)
                λ uid w3 k3 h3. (
                  noted_uid_Inv w3.client w3.disk w3.trace uid k3,
                  (t, ground arith, h2.0.pending, h2.0.buffered),
                )

  -- What follows the refreshed list of users.
  refresh_then_file : ReportState → Option UserSnapshot → M (Unit {0})
  refresh_then_file s found = do
    snapshot ← require found (text "missing users while resolving traffic")
    batch ← require s.pending nil_pointer
    revoke_users env (lapsed snapshot.users batch.rows)
    consume_rows env batch.rows
    file_isolated env s batch

  refresh :
      (s : ReportState) (r : is_some s.resolution ≡ true) (found : Option UserSnapshot) (w : World)
      → Kept env w
      → Holds env s w
      → Post env (λ _ w'. IsSent env s w') (refresh_then_file s found w)
  unfolding refresh_then_file
  refresh s r found w k h =
      Post-bind env (λ u w'. (found ≡ some u) × (w' ≡ w)) (λ _ w'. IsSent env s w')
        (require found _ w) _ (require_lem found _ w k)
        λ u w1 k1 h1.
          Post-bind env (λ b w'. (s.pending ≡ some b) × (w' ≡ w1)) (λ _ w'. IsSent env s w')
            (require s.pending nil_pointer w1) _ (require_lem s.pending nil_pointer w1 k1)
            λ b w2 k2 h2.
              let ids = lapsed u.users b.rows in
              Post-bind env (λ _ w'. Holds env s w') (λ _ w'. IsSent env s w')
                (revoke_users env ids w2) _
                (Post-Tried env s (λ _ w'. Holds env s w') (revoke_users env ids w2)
                  (revoke_users_lem env w2 s ids k2 (ground arith)))
                λ _ w3 k3 h3.
                  Post-bind env (λ _ w'. Holds env s w') (λ _ w'. IsSent env s w')
                    (consume_rows env b.rows w3) _
                    (Post-Tried env s (λ _ w'. Holds env s w') (consume_rows env b.rows w3)
                      (consume_rows_lem env w3 s b k3 h3 h2.0 (inr r)))
                    λ _ w4 k4 h4. file_isolated_lem w4 s b k4 h4

  pub finish_traffic_isolation_lem :
      (w : World) (s : ReportState)
      → is_some s.resolution ≡ true
      → Kept env w
      → Holds env s w
      → Post env (λ _ w'. IsSent env s w') (finish_traffic_isolation env w)
  unfolding finish_traffic_isolation refresh_then_file
  finish_traffic_isolation_lem w s r k h =
      Post-bind env (IsThe env s) (λ _ w'. IsSent env s w') (the_outbox w) _
        (the_outbox_lem env w s k h)
        λ t w1 k1 h1.
          let w2 : World = record w1 { client = invalidate_users w1.client } in
          rw h1.0 (
            Post-bind env (λ _. SameAs w2) (λ _ w'. IsSent env s w') (get_users env "" w2) _
              (get_users_lem "" w2 (invalidate_users-Inv w1.client w1.disk w1.trace k1))
              λ found w3 k3 h3.
                refresh s r found w3 k3
                  (same-Holds s w2 w3 h3 (invalidate_users-Synced s w1.client w1.disk h1.1)))
