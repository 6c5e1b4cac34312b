-- ===== src/Traffic/Audit/Store.antt =====
-- The outbox file under the invariant: what a save and a load leave.
use v2node_hy.Base.{
  String, false, ◌≡◌, List, ◌∷◌, Option, none, some, is_some, arith, refl, sym, Bool-cases, inl,
  inr, str_eq,
}
use v2node_hy.Traffic.{ReportState}
use v2node_hy.Traffic.Store.{
  fit_state, write_state, rename_state, finish_state_sync, save_report_state, file_call,
}
use v2node_hy.Traffic.Effect.{
  FileOp, make_directory, Client, World, Event, stored, Env, M, update, pure, ◌>>◌,
}
use v2node_hy.Traffic.Audit.{spent, Inv, Kept, Holds, Post, Post-bind, Post-weaken}

-- A saved state differs from the given one in its held batches at most.
pub record Saved (s p : ReportState) : Type 0 where
  pub version : p.version ≡ s.version
  pub next : p.next ≡ s.next
  pub pending : p.pending ≡ s.pending
  pub buffered : p.buffered ≡ s.buffered
  pub failures : p.failures ≡ s.failures
  pub resolution : p.resolution ≡ s.resolution

abbrev pub SameAs : World → World → Type 0
SameAs w w' = (w'.client ≡ w.client) × (w'.disk ≡ w.disk) × (w'.trace ≡ w.trace)

module _ (env : Env) where
  -- With nothing pending, the flag of consumed rows is cleared, and no rows are spent.
  abbrev pub IsPlain : ReportState → World → Type 0
  IsPlain p w = is_some p.pending ≡ false → (w.client.committed ≡ false) × (spent w.trace ≡ false)

  abbrev pub IsSavedAs : ReportState → ReportState → World → Type 0
  IsSavedAs s p w = Saved s p × Holds env p w × IsPlain p w

  abbrev IsFitted : ReportState → World → ReportState × String → World → Type 0
  IsFitted s w p w' = Saved s p.0 × (w' ≡ w) × (env.encode_state p.0 ≡ some p.1)

  abbrev IsPlaced : ReportState → ReportState → World → Type 0
  IsPlaced p q w = (q ≡ p) × Holds env p w × IsPlain p w

  pub finish_state_sync_lem :
      (w : World) (s : ReportState)
      → Kept env w
      → w.client.unsynced ≡ some s
      → w.disk ≡ env.encode_state s
      → Post env (λ _ w'. Holds env s w' × IsPlain s w') (finish_state_sync env w)
  unfolding finish_state_sync
  finish_state_sync_lem w s k u d = ground arith

  fit_state_lem :
      (w : World) (s : ReportState) → Kept env w → Post env (IsFitted s w) (fit_state env s w)
  unfolding fit_state
  fit_state_lem w s k = ground arith

  write_state_lem : (w : World) → Kept env w → Post env (λ _. SameAs w) (write_state env w)
  unfolding write_state
  write_state_lem w k = ground arith

  pub file_call_lem :
      (op : FileOp) (w : World) → Kept env w → Post env (λ _. SameAs w) (file_call env op w)
  file_call_lem op w k = ground arith

  -- A new state on disk keeps the invariant, whatever it holds.
  stored_Inv :
      (c : Client) (disk : Option String) (es : List Event) (s : ReportState) (body : String)
      → Inv env c disk es
      → c.unsynced ≡ none
      → env.encode_state s ≡ some body
      → Inv env c (some body) (stored s ∷ es)
  stored_Inv c disk es s body k u e = record {
    sound = k.sound;
    charged = ground arith;
    covered = λ used. (s, ground arith, inl (sym e));
    clear = rw u tt;
  }

  rename_state_lem :
      (w : World) (s : ReportState) (body : String)
      → Kept env w
      → w.client.unsynced ≡ none
      → env.encode_state s ≡ some body
      → Post env
          (λ _ w'. (w'.client ≡ w.client) × (w'.disk ≡ some body) × (w'.trace ≡ stored s ∷ w.trace))
          (rename_state env s body w)
  unfolding rename_state
  rename_state_lem w s body k u e = ground (arith, stored_Inv w.client w.disk w.trace s body k u e)

  noted_Inv :
      (c : Client) (disk : Option String) (es old : List Event) (s : ReportState)
      → Inv env c disk es
      → es ≡ stored s ∷ old
      → (is_some c.outbox ≡ false → is_some s.pending ≡ false)
      → Inv env (record c { unsynced = some s }) disk es
  noted_Inv c disk es old s k e fresh = record {
    sound = k.sound;
    charged = k.charged;
    covered = k.covered;
    clear = (λ idle. rw e (ground arith), fresh);
  }

  -- The replaced file is noted and its directory synchronized.
  place_state : ReportState → String → M ReportState
  unfolding rename_state finish_state_sync
  place_state p body = do
    rename_state env p body
    update (λ c. record c { unsynced = some p })
    finish_state_sync env
    pure p

  place_state_lem :
      (w : World) (p : ReportState) (body : String)
      → Kept env w
      → w.client.unsynced ≡ none
      → env.encode_state p ≡ some body
      → (is_some w.client.outbox ≡ false → is_some p.pending ≡ false)
      → Post env (IsPlaced p) (place_state p body w)
  unfolding place_state
  place_state_lem w p body k u e fresh =
      Post-bind env _ (IsPlaced p) (rename_state env p body w) _ (rename_state_lem w p body k u e)
        λ _ w1 k1 h1.
          Post-bind env _ (IsPlaced p)
            (finish_state_sync env (record w1 { client = record w1.client { unsynced = some p } }))
            _
            (finish_state_sync_lem _ p
              (noted_Inv _ _ _ _ p k1 h1.2 (λ o. fresh (ground (arith, o, h1.0)))) refl
              (ground arith))
            λ _ w2 k2 h2. (k2, (refl, h2.0, h2.1))

  -- A save keeps the invariant; where it succeeds, the client's state is the one on disk.
  pub save_report_state_lem :
      (w : World) (s : ReportState)
      → Kept env w
      → w.client.unsynced ≡ none
      → (is_some w.client.outbox ≡ false → is_some s.pending ≡ false)
      → Post env (IsSavedAs s) (save_report_state env s w)
  unfolding save_report_state place_state
  save_report_state_lem w s k u fresh = elim (Bool-cases (str_eq w.client.outbox_path "")) [
    | inl empty ↦ rw empty k
    | inr named ↦ rw named (
        Post-bind env (λ _. SameAs w) (IsSavedAs s) (file_call env make_directory w) _
          (file_call_lem make_directory w k)
          λ _ w1 k1 h1.
            Post-bind env (IsFitted s w1) (IsSavedAs s) (fit_state env s w1) _
              (fit_state_lem w1 s k1)
              λ p w2 k2 h2.
                Post-bind env (λ _. SameAs w2) (IsSavedAs s) (write_state env w2) _
                  (write_state_lem w2 k2)
                  λ _ w3 k3 h3.
                    Post-weaken env (IsPlaced p.0) (IsSavedAs s) (place_state p.0 p.1 w3)
                      (place_state_lem w3 p.0 p.1 k3 (ground arith) h2.2
                        (λ o. ground (arith, fresh, h2.0.pending, o)))
                      λ q w4 h4. (rw h4.0 h2.0, rw h4.0 h4.1, rw h4.0 h4.2))
  ]
