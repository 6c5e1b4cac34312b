-- ===== src/Process/Reloading.antt =====
-- What a reload has done when it returns.
use v2node_hy.Base.{
  ◌==◌, Bool, true, false, not, Option, none, some, List, [], ◌∷◌, length, map, keep_if,
  if◌then◌else◌, ◌≡◌, refl, ap, ◌∙◌, ◌⊎◌, inl, inr, arith,
}
use v2node_hy.Traffic.Effect.{Error, text, Result, ok, err}
use v2node_hy.NodeInfo.{NodeInfo}
use v2node_hy.Conf.{NodeConfig, Conf, new_conf}
use v2node_hy.Process.{
  ManagedController, new_controller, cancel_tasks, close_controllers, after_controllers, add_info,
  NodeManager, usable_nodes, new_nodes, start_nodes, close_nodes, new_core, Process, Event,
  old_nodes_closed, old_core_closed, new_core_closed, nodes_started, ReloadResults, ReloadOutcome,
  rollback_failed, rollback_runtime, after_core, after_nodes, with_new_nodes, with_new_conf, reload,
}

abbrev is_start : Event → Bool
is_start nodes_started = true
is_start _ = false

abbrev is_nodes_end : Event → Bool
is_nodes_end old_nodes_closed = true
is_nodes_end _ = false

abbrev pub has_event : (Event → Bool) → List Event → Bool
has_event f [] = false
has_event f (e ∷ es) = if f e then true else has_event f es

-- What a Close of controllers, all of which have their tasks cancelled, leaves at its first error:
-- those before the controller that fails are closed, and that one and the others are not.
pub data ClosedUpTo (failed : NodeConfig → Option Error)
    : List ManagedController → List ManagedController → Type 0 where
  fails :
      (c : ManagedController) (cs : List ManagedController) (e : Error)
      → failed c.config ≡ some e
      → ClosedUpTo failed (c ∷ cs) (cancel_tasks c ∷ map cancel_tasks cs)
  passes :
      (c : ManagedController) (cs ds : List ManagedController)
      → failed c.config ≡ none
      → ClosedUpTo failed cs ds
      → ClosedUpTo failed (c ∷ cs) (record c { tasks_cancelled = true; closed = true } ∷ ds)

-- The manager has the nodes of a configuration that panel.New accepts, and a controller for each.
abbrev pub IsFor : ReloadResults → Conf → NodeManager → Type 0
IsFor r c n =
    (n.configs ≡ keep_if r.accepts c.node_configs)
    × (n.controllers ≡ map new_controller (keep_if r.accepts c.node_configs))

-- After a reload that succeeds the nodes of the configuration that has been read run on a core of
-- it, and were started after the end of the old nodes and of the old core. One that fails has
-- started no nodes. If it has not come to the old nodes, nothing has changed; if it has not closed
-- them, the old core is there, and so are the controllers, closed up to the one that failed or as
-- they were; and if it has, the manager has none.
abbrev pub IsReloaded : ReloadResults → Process → ReloadOutcome → Type 0
IsReloaded r p (none, (q, es)) =
    (q.nodes.started ≡ true)
    × (q.nodes.closed ≡ false)
    × (q.core.is_open ≡ true)
    × (es ≡ old_nodes_closed ∷ old_core_closed ∷ nodes_started ∷ [])
    × ((c : Conf) × (r.load new_conf ≡ ok c) × (q.core.config ≡ some c) × IsFor r c q.nodes)
IsReloaded r p (some e, (q, es)) =
    (has_event is_start es ≡ false)
    × (es ≡ [] → q ≡ p)
    × (has_event is_nodes_end es ≡ false
        → (q.core ≡ p.core)
          × ((q.nodes.controllers ≡ p.nodes.controllers)
              ⊎ ClosedUpTo r.nodes_failed p.nodes.controllers q.nodes.controllers))
    × (has_event is_nodes_end es ≡ true → q.nodes.controllers ≡ [])

-- A manager as New makes it.
abbrev IsNew : ReloadResults → Conf → Result NodeManager → Type 0
IsNew r c (err e) = Unit
IsNew r c (ok n) = (n.closed ≡ false) × (n.started ≡ false) × IsFor r c n

usable_nodes-accepts :
    (accepts : NodeConfig → Bool) (fetch : NodeConfig → Result (Option NodeInfo))
    (nodes : List NodeConfig)
    → (usable_nodes accepts fetch nodes).0 ≡ keep_if accepts nodes
unfolding usable_nodes
usable_nodes-accepts accepts fetch [] = refl
usable_nodes-accepts accepts fetch (n ∷ ns) =
    by_test (accepts n) (usable_nodes-accepts accepts fetch ns)
  where
    by_test :
        (b : Bool)
        → (usable_nodes accepts fetch ns).0 ≡ keep_if accepts ns
        → (if b
            then (
              n ∷ (usable_nodes accepts fetch ns).0,
              add_info (fetch n) (usable_nodes accepts fetch ns).1,
            )
            else usable_nodes accepts fetch ns).0
          ≡ (if b then n ∷ keep_if accepts ns else keep_if accepts ns)
    by_test true h = ap (λ l. n ∷ l) h
    by_test false h = h

new_nodes-IsNew :
    (r : ReloadResults) (c : Conf) → IsNew r c (new_nodes r.accepts r.fetch c.node_configs)
unfolding new_nodes
new_nodes-IsNew r c = by_test (length (usable_nodes r.accepts r.fetch c.node_configs).0 == 0)
  where
    by_test :
        (b : Bool)
        → IsNew r c (
            if b
            then err (text "no valid node controller")
            else ok (record {
              configs = (usable_nodes r.accepts r.fetch c.node_configs).0;
              node_infos = (usable_nodes r.accepts r.fetch c.node_configs).1;
              controllers = map new_controller (usable_nodes r.accepts r.fetch c.node_configs).0;
              started = false;
              closed = false;
            }))
    by_test true = tt
    by_test false =
        let e = usable_nodes-accepts r.accepts r.fetch c.node_configs in
        (refl, refl, (e, ap (map new_controller) e))

start_nodes-new :
    (r : ReloadResults) (c : Conf) (n : NodeManager)
    → IsNew r c (ok n)
    → ((start_nodes n).0 ≡ none)
      × ((start_nodes n).1.started ≡ true)
      × ((start_nodes n).1.closed ≡ false)
      × ((start_nodes n).1.configs ≡ n.configs)
      × ((start_nodes n).1.controllers ≡ n.controllers)
unfolding start_nodes
start_nodes-new r c n h = (
  ground (arith, h.0, h.1),
  ground (arith, h.0, h.1),
  ground (arith, h.0, h.1),
  ground (arith, h.0, h.1),
  ground (arith, h.0, h.1),
)

close_controllers-ClosedUpTo :
    (failed : NodeConfig → Option Error) (cs : List ManagedController) (e : Error)
    → (close_controllers failed (map cancel_tasks cs)).0 ≡ some e
    → ClosedUpTo failed cs (close_controllers failed (map cancel_tasks cs)).1
unfolding close_controllers
close_controllers-ClosedUpTo failed [] e h = absurd (ground (arith, h))
close_controllers-ClosedUpTo failed (c ∷ cs) e h =
    by_close (failed c.config) refl h (close_controllers-ClosedUpTo failed cs e)
  where
    rest : Option Error × List ManagedController
    rest = close_controllers failed (map cancel_tasks cs)

    close_first : Option Error → Option Error × List ManagedController
    close_first o = elim o [
      | some f ↦ (some f, cancel_tasks c ∷ map cancel_tasks cs)
      | none ↦ (rest.0, record c { tasks_cancelled = true; closed = true } ∷ rest.1)
    ]

    by_close :
        (o : Option Error)
        → failed c.config ≡ o
        → (close_first o).0 ≡ some e
        → (rest.0 ≡ some e → ClosedUpTo failed cs rest.1)
        → ClosedUpTo failed (c ∷ cs) (close_first o).1
    by_close (some f) k h g = fails c cs f k
    by_close none k h g = passes c cs rest.1 k (g h)

-- What the manager has after its Close.
abbrev IsClosing : ReloadResults → NodeManager → Option Error × NodeManager → Type 0
IsClosing r n (none, m) = m.controllers ≡ []
IsClosing r n (some e, m) =
    (m.controllers ≡ n.controllers) ⊎ ClosedUpTo r.nodes_failed n.controllers m.controllers

close_nodes-IsClosing :
    (r : ReloadResults) (n : NodeManager) → IsClosing r n (close_nodes r.joined r.nodes_failed n)
unfolding close_nodes
close_nodes-IsClosing r n = by_join r.joined
  where
    m : NodeManager
    m = record n { closed = true }

    by_controllers :
        (o : Option Error × List ManagedController)
        → ((e : Error) → o.0 ≡ some e → ClosedUpTo r.nodes_failed n.controllers o.1)
        → IsClosing r n (after_controllers m o)
    by_controllers (some e, cs) h = inr (h e refl)
    by_controllers (none, cs) h = refl

    by_join :
        (b : Bool)
        → IsClosing r n (
            if not b
            then (some (text "node startup did not stop; core retained"), m)
            else after_controllers m
                (close_controllers r.nodes_failed (map cancel_tasks n.controllers)))
    by_join true =
        by_controllers (close_controllers r.nodes_failed (map cancel_tasks n.controllers))
          (close_controllers-ClosedUpTo r.nodes_failed n.controllers)
    by_join false = inl refl

module _ (r : ReloadResults) (c : Conf) (loaded : r.load new_conf ≡ ok c) (p : Process) where
  after_core-IsReloaded :
      (old : Option Conf) (n : NodeManager) (q : Process) (failure : Option Error)
      → IsNew r c (ok n)
      → q.nodes.controllers ≡ []
      → IsReloaded r p (after_core r old c n q failure)
  unfolding after_core
  after_core-IsReloaded old n q (some e) h k =
      (refl, λ t. absurd (ground (arith, t)), λ t. absurd (ground (arith, t)), λ t. k)
  after_core-IsReloaded old n q none h k = by_start (start_nodes n).0 (start_nodes-new r c n h).0
    where
      by_start :
          (o : Option Error)
          → o ≡ none
          → IsReloaded r p (elim o [
            | some e ↦ rollback_failed e (
                rollback_runtime r old
                  (record q { core = record { config = none; is_open = false } })
                  (old_nodes_closed ∷ old_core_closed ∷ new_core_closed ∷ []))
            | none ↦ (
              none,
              (
                record { nodes = (start_nodes n).1; core = new_core c },
                old_nodes_closed ∷ old_core_closed ∷ nodes_started ∷ [],
              ),
            )
          ])
      by_start none e =
          let s = start_nodes-new r c n h in
          (s.1, s.2, refl, refl, (c, loaded, refl, (s.3 ∙ h.2.0, s.4 ∙ h.2.1)))
      by_start (some x) e = absurd (ground (arith, e))

  after_nodes-IsReloaded :
      (n : NodeManager) (o : Option Error × NodeManager)
      → IsNew r c (ok n)
      → IsClosing r p.nodes o
      → IsReloaded r p (after_nodes r c n (record p { nodes = o.1 }) o.0)
  unfolding after_nodes
  after_nodes-IsReloaded n (some e, m) h k =
      (refl, λ t. absurd (ground (arith, t)), λ t. (refl, k), λ t. absurd (ground (arith, t)))
  after_nodes-IsReloaded n (none, m) h k =
      after_core-IsReloaded p.core.config n (record p { nodes = m }) r.core_failed h k

  with_new_nodes-IsReloaded :
      (o : Result NodeManager) → IsNew r c o → IsReloaded r p (with_new_nodes r c p o)
  unfolding with_new_nodes
  with_new_nodes-IsReloaded (err e) h =
      (refl, λ t. refl, λ t. (refl, inl refl), λ t. absurd (ground (arith, t)))
  with_new_nodes-IsReloaded (ok n) h =
      after_nodes-IsReloaded n (close_nodes r.joined r.nodes_failed p.nodes) h
        (close_nodes-IsClosing r p.nodes)

-- A reload that succeeds has started the nodes of the configuration that it has read, on a core of
-- this configuration, after the end of the old nodes and of the old core. One that fails, at
-- whatever point, has started no nodes. If it fails before it closes the old nodes, nothing has
-- changed; if it fails to close them, the old core is in place, and so are the controllers, of
-- which those before the one that fails have been closed; if it fails later, the old nodes are
-- closed.
pub reload-IsReloaded : (r : ReloadResults) (p : Process) → IsReloaded r p (reload r p)
unfolding reload with_new_conf
reload-IsReloaded r p = by_conf (r.load new_conf) refl
  where
    by_conf : (o : Result Conf) → r.load new_conf ≡ o → IsReloaded r p (with_new_conf r p o)
    by_conf (err e) h = (refl, λ t. refl, λ t. (refl, inl refl), λ t. absurd (ground (arith, t)))
    by_conf (ok c) h =
        with_new_nodes-IsReloaded r c h p (new_nodes r.accepts r.fetch c.node_configs)
          (new_nodes-IsNew r c)
