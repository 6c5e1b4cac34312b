-- ===== src/Traffic/Fuel.antt =====
-- The loop over the captured rows has enough fuel.
use v2node_hy.Base.{
  ℕ, zero, suc, ◌≤◌, ◌<◌, ◌≡◌, refl, Option, none, some, List, [], ◌∷◌, length, arith,
}
use v2node_hy.Traffic.{TrafficRow}
use v2node_hy.Traffic.Select.{select_traffic_batch}
use v2node_hy.Traffic.Select.Partition.{length-rest-lt}
use v2node_hy.Traffic.Send.{send_pending}
use v2node_hy.Traffic.Store.{save_report_state}
use v2node_hy.Traffic.Flush.{captured_state, spend, send_captured, drain_captured}
use v2node_hy.Traffic.Effect.{
  Error, World, Env, Result, ok, err, M, continue_with, pure, the_outbox, require, when_failed,
}

-- The rows that a round leaves are fewer than `n`.
abbrev Leaves : ℕ → Result (List TrafficRow) × World → Type 0
Leaves n (ok rest, w) = length rest < n
Leaves n (err e, w) = Unit {0}

Leaves-bind :
    {A : Type 0} (n : ℕ) (r : Result A × World) (f : A → M (List TrafficRow))
    → ((a : A) (w : World) → Leaves n (f a w))
    → Leaves n (continue_with r f)
Leaves-bind n (ok a, w) f h = h a w
Leaves-bind n (err e, w) f h = tt

Leaves-require :
    {A : Type 0} (n : ℕ) (o : Option A) (e : Error) (w : World) (f : A → M (List TrafficRow))
    → ((a : A) → o ≡ some a → (v : World) → Leaves n (f a v))
    → Leaves n (continue_with (require o e w) f)
Leaves-require n none e w f h = tt
Leaves-require n (some a) e w f h = h a refl w

module _ (env : Env) where
  send_captured-Leaves :
      (r : TrafficRow) (rows : List TrafficRow) (w : World)
      → Leaves (length (r ∷ rows)) (send_captured env (r ∷ rows) w)
  unfolding send_captured
  send_captured-Leaves r rows w =
      let n = length (r ∷ rows) in
      Leaves-bind n (when_failed (env.context_error w.calls) _) _ (λ _ w1.
        Leaves-require n (select_traffic_batch (r ∷ rows)) _ w1 _ (λ sel e w2.
          Leaves-bind n (the_outbox w2) _ (λ s w3.
            Leaves-bind n (save_report_state env (captured_state s sel) w3) _ (λ saved w4.
              Leaves-bind n
                (send_pending env (record w4 { client = record w4.client { outbox = some saved } }))
                (λ _. pure sel.rest) (λ _ w5. length-rest-lt r rows e)))))

  continue_same :
      {A B : Type 0} (P : Result A × World → Type 0) (r : Result A × World) (f g : A → M B)
      → P r
      → ((a : A) (w : World) → P (ok a, w) → f a w ≡ g a w)
      → continue_with r f ≡ continue_with r g
  continue_same P (ok a, w) f g p h = h a w p
  continue_same P (err e, w) f g p h = refl

  go_on_same :
      (o : Option ℕ) (f g : ℕ → M (Unit {0})) (w : World)
      → ((b : ℕ) → f b w ≡ g b w)
      → (elim o as (λ x. M (Unit {0})) [ none ↦ pure tt | some b ↦ f b ]) w
        ≡ (elim o as (λ x. M (Unit {0})) [ none ↦ pure tt | some b ↦ g b ]) w
  go_on_same none f g w h = refl
  go_on_same (some b) f g w h = h b

  -- Fuel for as many rounds as there are rows is enough: with more of it, and for every limit of
  -- batches, the loop has the same result and leaves the same world.
  pub drain_captured-fuel :
      (fuel more batches : ℕ) (rows : List TrafficRow) (w : World)
      → length rows ≤ fuel
      → length rows ≤ more
      → drain_captured env fuel batches rows w ≡ drain_captured env more batches rows w
  unfolding drain_captured
  drain_captured-fuel zero zero batches rows w h k = refl
  drain_captured-fuel zero (suc m) batches [] w h k = refl
  drain_captured-fuel (suc f) zero batches [] w h k = refl
  drain_captured-fuel (suc f) (suc m) batches [] w h k = refl
  drain_captured-fuel zero (suc m) batches (r ∷ rows) w h k = absurd (ground arith)
  drain_captured-fuel (suc f) zero batches (r ∷ rows) w h k = absurd (ground arith)
  drain_captured-fuel (suc f) (suc m) batches (r ∷ rows) w h k =
      continue_same (Leaves (length (r ∷ rows))) (send_captured env (r ∷ rows) w) _ _
        (send_captured-Leaves r rows w)
        (λ rest v l.
          go_on_same (spend batches) _ _ v
            (λ b. drain_captured-fuel f m b rest v (ground arith) (ground arith)))
