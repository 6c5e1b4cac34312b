-- ===== src/Traffic/Audit/Load.antt =====
-- Loading the outbox under the invariant: whatever the file holds, a load that succeeds leaves the
-- client with the state on disk.
use v2node_hy.Base.{
  suc, String, true, false, str_eq, str_eq_iff, ◌≡◌, refl, sym, subst, ◌∙◌, ap, inl, inr, List,
  Option, none, some, is_some, or_else, Bool-cases, Option-cases, ◌==◌, arith,
}
use v2node_hy.Traffic.{ReportState}
use v2node_hy.Traffic.Checks.{valid_report_state}
use v2node_hy.Traffic.Panel.{Answer, check_reply, request}
use v2node_hy.Traffic.Store.{
  is_not_exist, read_report_state, finish_state_sync, save_report_state, sync_leftover, open_read,
  load_outbox, supersedes, adopt_saved, changed_outbox, check_outbox, adopt_outbox, start_outbox,
  load_report_state, fresh_state,
}
use v2node_hy.Traffic.Effect.{Request, Client, World, Event, Env, Result, ok, err}
use v2node_hy.Traffic.Audit.{
  CodecLaws, spent, IsOnDisk, Inv, Kept, Holds, IsLoaded, Post, Post-bind, Post-weaken,
}
use v2node_hy.Traffic.Audit.Store.{
  SameAs, IsPlain, IsSavedAs, finish_state_sync_lem, save_report_state_lem,
}

module _ (env : Env) (laws : CodecLaws env) where
  -- A text that equals the encoding, or nothing where encoding fails, is the encoding.
  is_encoding :
      (s : ReportState) (body : String)
      → str_eq body (or_else (env.encode_state s) "") ≡ true
      → env.encode_state s ≡ some body
  is_encoding s body e = elim (Option-cases (env.encode_state s)) [
    | inl bad ↦ ground (arith, laws.encodes s)
    | inr (t, good) ↦ ground (arith, str_eq_iff body t)
  ]

  -- Two states that one file holds agree on whether a batch is pending.
  on_disk_pending :
      (s t : ReportState) (body : String)
      → IsOnDisk env s (some body)
      → env.decode_state body ≡ some t
      → is_some t.pending ≡ is_some s.pending
  on_disk_pending s t body (inl e) d = laws.keeps_pending s t body (sym e) d
  on_disk_pending s t body (inr (other, e, d')) d = ground arith

  abbrev IsRead : World → String → World → Type 0
  IsRead w body w' = SameAs w w' × (w.disk ≡ some body)

  read_report_state_lem : (w : World) → Kept env w → Post env (IsRead w) (read_report_state env w)
  unfolding read_report_state
  read_report_state_lem w k = ground arith

  client-read_report_state : (w : World) → (read_report_state env w).1.client ≡ w.client
  unfolding read_report_state
  client-read_report_state w = ground arith

  abbrev IsIdle : World → Type 0
  IsIdle w = w.client.unsynced ≡ none

  replied_lem :
      (r : Result Answer) (w : World)
      → Kept env w
      → Post env (λ _. SameAs w) (r, record w { calls = suc w.calls })
  replied_lem (ok a) w k = (k, (refl, refl, refl))
  replied_lem (err e) w k = k

  pub request_lem :
      (q : Request) (w : World) → Kept env w → Post env (λ _. SameAs w) (request env q w)
  unfolding request
  request_lem q w k = replied_lem (check_reply env q (env.transport w.calls q)) w k

  sync_leftover_lem :
      (o : Option ReportState) (w : World)
      → w.client.unsynced ≡ o
      → Kept env w
      → Post env (λ _ w'. IsIdle w') (sync_leftover env o w)
  unfolding sync_leftover
  sync_leftover_lem none w u k = (k, u)
  sync_leftover_lem (some s) w u k =
      Post-bind env (IsRead w) (λ _ w'. IsIdle w') (read_report_state env w) _
        (read_report_state_lem w k)
        λ body w1 k1 h1. elim (Bool-cases (str_eq body (or_else (env.encode_state s) ""))) [
          | inr differs ↦ rw differs k1
          | inl agrees ↦ rw agrees (
              Post-weaken env (λ _ w'. Holds env s w' × IsPlain env s w') (λ _ w'. IsIdle w')
                (finish_state_sync env w1)
                (finish_state_sync_lem env w1 s k1 (ground arith)
                  (ground (arith, is_encoding s body agrees)))
                λ _ w2 h2. h2.0.no_unsynced)
        ]

  -- If the file holds a state with nothing pending, no rows are consumed for a present batch.
  unspent :
      (c : Client) (body : String) (disk : Option String) (es : List Event) (s : ReportState)
      → Inv env c disk es
      → disk ≡ some body
      → env.decode_state body ≡ some s
      → s.pending ≡ none
      → spent es ≡ false
  unspent c body disk es s k e d p = elim (Bool-cases (spent es)) [
    | inr unused ↦ unused
    | inl used ↦
        let (t, has, held) = k.covered used in
        ground (arith, on_disk_pending t s body (subst (IsOnDisk env t) e held) d)
  ]

  supersedes-pending :
      (c : Client) (s t : ReportState) → supersedes env c s t ≡ true → t.pending ≡ none
  unfolding supersedes
  supersedes-pending c s t h = ground arith

  adopt_saved_lem :
      (t : ReportState) (body : String) (w : World)
      → Kept env w
      → IsIdle w
      → w.disk ≡ some body
      → env.decode_state body ≡ some t
      → t.pending ≡ none
      → Post env (λ _ w'. IsLoaded env w') (adopt_saved env t w)
  unfolding adopt_saved
  adopt_saved_lem t body w k u d good idle =
      let unused : spent w.trace ≡ false = unspent w.client body w.disk w.trace t k d good idle in
      (
        record { sound = k.sound; charged = ground arith; covered = k.covered; clear = rw u tt },
        (t, record { no_unsynced = u; current = refl; on_disk = inr (body, d, good) }),
      )

  changed_outbox_lem :
      (s : ReportState) (body : String) (w : World)
      → Kept env w
      → IsIdle w
      → w.disk ≡ some body
      → Post env (λ _ w'. IsLoaded env w') (changed_outbox env s body w)
  unfolding changed_outbox
  changed_outbox_lem s body w k u d = elim (Option-cases (env.decode_state body)) [
    | inl bad ↦ rw bad k
    | inr (t, good) ↦ elim (Bool-cases (supersedes env w.client s t)) [
      | inr other ↦ rw (good) (rw other k)
      | inl next ↦
          rw (good)
            (rw next (adopt_saved_lem t body w k u d good (supersedes-pending w.client s t next)))
    ]
  ]

  adopt_outbox_lem :
      (body : String) (w : World)
      → Kept env w
      → IsIdle w
      → w.disk ≡ some body
      → Post env (λ _ w'. IsLoaded env w') (adopt_outbox env body w)
  unfolding adopt_outbox
  adopt_outbox_lem body w k u d = elim (Option-cases (env.decode_state body)) [
    | inl bad ↦ rw bad k
    | inr (t, good) ↦ elim (Bool-cases (valid_report_state t)) [
      | inr invalid ↦ rw (good) (rw invalid k)
      | inl valid ↦ rw (good) (
          rw valid (
            record {
              sound = k.sound;
              charged = λ used. elim (Bool-cases (is_some t.pending)) [
                | inl has ↦ ground (arith, has)
                | inr idle ↦ ground (
                  arith,
                  used,
                  unspent w.client body w.disk w.trace t k d good (ground (arith, idle)),
                )
              ];
              covered = k.covered;
              clear = rw u tt;
            },
            (t, record { no_unsynced = u; current = refl; on_disk = inr (body, d, good) }),
          ))
    ]
  ]

  start_outbox_lem :
      (w : World) → Kept env w → IsIdle w → Post env (λ _ w'. IsLoaded env w') (start_outbox env w)
  unfolding start_outbox
  start_outbox_lem w k u =
      Post-bind env (λ _. SameAs w) (λ _ w'. IsLoaded env w') (request env _ w) _
        (request_lem _ w k)
        λ a w1 k1 h1. elim (Option-cases (env.decode_next a.body)) [
          | inl bad ↦ rw bad k1
          | inr (next, good) ↦ elim (Bool-cases (next == 0)) [
            | inl zero_next ↦ rw (good) (rw zero_next k1)
            | inr positive ↦ rw (good) (
                rw positive (
                  Post-bind env (IsSavedAs env (fresh_state next)) (λ _ w'. IsLoaded env w')
                    (save_report_state env (fresh_state next) w1) _
                    (save_report_state_lem env w1 (fresh_state next) k1 (ground arith) (λ o. refl))
                    λ s w2 k2 h2. (
                      record {
                        sound = k2.sound;
                        charged =
                            λ used. ground (arith, (h2.2 (ground (arith, h2.0.pending))).1, used);
                        covered = k2.covered;
                        clear = rw h2.1.no_unsynced tt;
                      },
                      (
                        s,
                        record {
                          no_unsynced = h2.1.no_unsynced;
                          current = refl;
                          on_disk = h2.1.on_disk;
                        },
                      ),
                    )))
          ]
        ]

  open_read_lem :
      (r : Result String) (w : World)
      → Post env (λ body w'. w'.disk ≡ some body) (r, w)
      → IsIdle w
      → Post env (λ _ w'. IsLoaded env w') (open_read env r w)
  unfolding open_read
  open_read_lem (ok body) w h u = adopt_outbox_lem body w h.0 u h.1
  open_read_lem (err e) w h u = elim (Bool-cases (is_not_exist e)) [
    | inl missing ↦ rw missing (start_outbox_lem w h u)
    | inr other ↦ rw other h
  ]

  check_outbox_lem :
      (s : ReportState) (w : World)
      → Kept env w
      → IsIdle w
      → w.client.outbox ≡ some s
      → Post env (λ _ w'. IsLoaded env w') (check_outbox env s w)
  unfolding check_outbox
  check_outbox_lem s w k u o =
      Post-bind env (IsRead w) (λ _ w'. IsLoaded env w') (read_report_state env w) _
        (read_report_state_lem w k)
        λ body w1 k1 h1. elim (Bool-cases (str_eq body (or_else (env.encode_state s) ""))) [
          | inr differs ↦ rw differs (changed_outbox_lem s body w1 k1 (ground arith) (ground arith))
          | inl agrees ↦ rw agrees (
            k1,
            (
              s,
              record {
                no_unsynced = ground arith;
                current = ground arith;
                on_disk = inl (ground (arith, is_encoding s body agrees));
              },
            ),
          )
        ]

  load_outbox_lem :
      (o : Option ReportState) (w : World)
      → w.client.outbox ≡ o
      → Kept env w
      → IsIdle w
      → Post env (λ _ w'. IsLoaded env w') (load_outbox env o w)
  unfolding load_outbox
  load_outbox_lem (some s) w o k u = check_outbox_lem s w k u o
  load_outbox_lem none w o k u =
      let r = read_report_state env w in
      open_read_lem r.0 r.1
        (Post-weaken env (IsRead w) (λ body w'. w'.disk ≡ some body) r (read_report_state_lem w k)
          λ body w' h. ground arith)
        (ap (λ (c : Client). c.unsynced) (client-read_report_state w) ∙ u)

  -- A load that succeeds leaves the client with the state on disk.
  pub load_report_state_lem :
      (w : World) → Kept env w → Post env (λ _ w'. IsLoaded env w') (load_report_state env w)
  unfolding load_report_state
  load_report_state_lem w k =
      Post-bind env (λ _ w'. IsIdle w') (λ _ w'. IsLoaded env w')
        (sync_leftover env w.client.unsynced w) _ (sync_leftover_lem w.client.unsynced w refl k)
        λ _ w1 k1 u1. load_outbox_lem w1.client.outbox w1 refl k1 u1
