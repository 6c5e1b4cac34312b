-- ===== src/Traffic/Audit/Certain.antt =====
-- A save never fails with an unconfirmed error, so such an error comes from the panel or from a
-- callback.
use v2node_hy.Base.{false, String, str_eq, ◌≡◌, refl, inl, inr, Bool-cases, arith}
use v2node_hy.Traffic.{ReportState}
use v2node_hy.Traffic.Send.{is_unconfirmed}
use v2node_hy.Traffic.Store.{
  file_call, fit_state, write_state, rename_state, finish_state_sync, save_report_state,
}
use v2node_hy.Traffic.Effect.{FileOp, make_directory, World, Env, Result, ok, err, M, continue_with}

abbrev pub IsCertain : {A : Type 0} → Result A × World → Type 0
IsCertain (ok a, w) = Unit {0}
IsCertain (err e, w) = is_unconfirmed e ≡ false

pub IsCertain-bind :
    {A B : Type 0} (r : Result A × World) (f : A → M B)
    → IsCertain r
    → ((a : A) (w : World) → IsCertain (f a w))
    → IsCertain (continue_with r f)
IsCertain-bind (ok a, w) f h k = k a w
IsCertain-bind (err e, w) f h k = h

module _ (env : Env) where
  file_call-IsCertain : (op : FileOp) (w : World) → IsCertain (file_call env op w)
  unfolding is_unconfirmed
  file_call-IsCertain op w = ground arith

  fit_state-IsCertain : (s : ReportState) (w : World) → IsCertain (fit_state env s w)
  unfolding fit_state is_unconfirmed
  fit_state-IsCertain s w = ground arith

  write_state-IsCertain : (w : World) → IsCertain (write_state env w)
  unfolding write_state is_unconfirmed
  write_state-IsCertain w = ground arith

  rename_state-IsCertain :
      (s : ReportState) (body : String) (w : World) → IsCertain (rename_state env s body w)
  unfolding rename_state is_unconfirmed
  rename_state-IsCertain s body w = ground arith

  finish_state_sync-IsCertain : (w : World) → IsCertain (finish_state_sync env w)
  unfolding finish_state_sync is_unconfirmed
  finish_state_sync-IsCertain w = ground arith

  pub save_report_state-IsCertain :
      (s : ReportState) (w : World) → IsCertain (save_report_state env s w)
  unfolding save_report_state is_unconfirmed
  save_report_state-IsCertain s w = elim (Bool-cases (str_eq w.client.outbox_path "")) [
    | inl empty ↦ rw empty refl
    | inr named ↦ rw named (
        IsCertain-bind (file_call env make_directory w) _ (file_call-IsCertain make_directory w)
          λ _ w1. IsCertain-bind (fit_state env s w1) _ (fit_state-IsCertain s w1) λ p w2.
            IsCertain-bind (write_state env w2) _ (write_state-IsCertain w2) λ _ w3.
              IsCertain-bind (rename_state env p.0 p.1 w3) _ (rename_state-IsCertain p.0 p.1 w3)
                λ _ w4.
                  IsCertain-bind (finish_state_sync env _) _ (finish_state_sync-IsCertain _)
                    λ _ w5. tt)
  ]
