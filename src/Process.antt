-- ===== src/Process.antt =====
-- The nodes of a process and their replacement: node/node.go, and reload and rollbackRuntime of
-- cmd/server.go. The controllers run on their own; a manager is seen by its configurations and by
-- its flags, and the results of the panel and of the controllers are arguments.
pub mod Reloading
mod Examples
use v2node_hy.Base.{
  ℕ, ◌==◌, Bool, true, false, not, ◌&&◌, Option, none, some, List, [], ◌∷◌, ◌++◌, length, map,
  if◌then◌else◌,
}
use v2node_hy.Traffic.Effect.{Error, text, wrapped, Result, ok, err}
use v2node_hy.NodeInfo.{NodeInfo}
use v2node_hy.Conf.{NodeConfig, Conf, new_conf}

-- A controller as its manager treats it; a Close that fails leaves it open for another one.
pub record ManagedController : Type 0 where
  pub config : NodeConfig
  pub tasks_cancelled : Bool
  pub closed : Bool

abbrev pub new_controller : NodeConfig → ManagedController
new_controller n = record { config = n; tasks_cancelled = false; closed = false }

abbrev pub cancel_tasks : ManagedController → ManagedController
cancel_tasks c = record c { tasks_cancelled = true }

-- One controller for each configuration in `configs`.
pub record NodeManager : Type 0 where
  pub configs : List NodeConfig
  pub node_infos : List NodeInfo
  pub controllers : List ManagedController
  pub started : Bool
  pub closed : Bool

-- A client is refused by panel.New; information that cannot be fetched is fetched again later.
unfoldable pub add_info : Result (Option NodeInfo) → List NodeInfo → List NodeInfo
add_info (ok (some n)) infos = n ∷ infos
add_info _ infos = infos

unfoldable pub usable_nodes :
    (NodeConfig → Bool)
    → (NodeConfig → Result (Option NodeInfo))
    → List NodeConfig
    → List NodeConfig × List NodeInfo
unfolding add_info
usable_nodes accepts fetch [] = ([], [])
usable_nodes accepts fetch (n ∷ ns) =
    let rest = usable_nodes accepts fetch ns in
    if accepts n then (n ∷ rest.0, add_info (fetch n) rest.1) else rest

unfoldable pub new_nodes :
    (NodeConfig → Bool)
    → (NodeConfig → Result (Option NodeInfo))
    → List NodeConfig
    → Result NodeManager
unfolding usable_nodes
new_nodes accepts fetch nodes =
    let (configs, infos) = usable_nodes accepts fetch nodes in
    if length configs == 0
    then err (text "no valid node controller")
    else ok (record {
      configs = configs;
      node_infos = infos;
      controllers = map new_controller configs;
      started = false;
      closed = false;
    })

unfoldable pub start_nodes : NodeManager → Option Error × NodeManager
start_nodes n =
    if n.closed
    then (some (text "node manager closed"), n)
    else if n.started
    then (none, n)
    else (none, record n { started = true })

-- The controllers are closed in their order, up to the first error; `failed` is the error of the
-- Close of a controller with this configuration.
unfoldable pub close_controllers :
    (NodeConfig → Option Error) → List ManagedController → Option Error × List ManagedController
close_controllers failed [] = (none, [])
close_controllers failed (c ∷ cs) =
    let rest = close_controllers failed cs in
    elim (failed c.config) [
      | some e ↦ (some e, c ∷ cs)
      | none ↦ (rest.0, record c { closed = true } ∷ rest.1)
    ]

abbrev pub after_controllers :
    NodeManager → Option Error × List ManagedController → Option Error × NodeManager
after_controllers m (some e, cs) = (some e, record m { controllers = cs })
after_controllers m (none, cs) = (none, record m { controllers = [] })

-- `joined` tells whether the starting controllers end in time.
unfoldable pub close_nodes :
    Bool → (NodeConfig → Option Error) → NodeManager → Option Error × NodeManager
unfolding close_controllers
close_nodes joined failed n =
    let m = record n { closed = true } in
    if not joined
    then (some (text "node startup did not stop; core retained"), m)
    else after_controllers m (close_controllers failed (map cancel_tasks n.controllers))

-- A try of startControllerWithRetry: whether the context has ended before it or in the pause after
-- it, and the error of StartContext.
pub record Attempt : Type 0 where
  pub ended : Bool
  pub failure : Option Error
  pub ended_later : Bool

-- Whether the controller has been started.
unfoldable pub start_controller_with_retry : List Attempt → Bool
start_controller_with_retry [] = false
start_controller_with_retry (a ∷ as1) =
    let later = start_controller_with_retry as1 in
    if a.ended
    then false
    else elim a.failure [ none ↦ true | some e ↦ if a.ended_later then false else later ]

pub record Core : Type 0 where
  pub config : Option Conf
  pub is_open : Bool

abbrev pub new_core : Conf → Core
new_core c = record { config = some c; is_open = true }

-- What `nodes` and `v2core` of the command point to.
pub record Process : Type 0 where
  pub nodes : NodeManager
  pub core : Core

-- The order of what a reload does.
pub data Event : Type 0 where
  old_nodes_closed old_core_closed new_core_closed nodes_started : Event

-- What the calls return: reading the new configuration, the old nodes' and the old core's Close.
pub record ReloadResults : Type 0 where
  pub load : Conf → Result Conf
  pub accepts : NodeConfig → Bool
  pub fetch : NodeConfig → Result (Option NodeInfo)
  pub joined : Bool
  pub nodes_failed : NodeConfig → Option Error
  pub core_failed : Option Error

-- The error, what the command points to afterwards, and the events in their order.
abbrev pub ReloadOutcome : Type 0
ReloadOutcome = Option Error × (Process × List Event)

abbrev pub closed_process : Bool → (NodeConfig → Option Error) → Process → Process
closed_process joined failed p = record p { nodes = (close_nodes joined failed p.nodes).1 }

unfoldable pub after_rollback : Conf → Process → List Event → Result NodeManager → ReloadOutcome
unfolding start_nodes
after_rollback c p es (err e) = (some e, (p, es))
after_rollback c p es (ok n) = elim (start_nodes n).0 [
  | some e ↦ (some e, (p, es ++ new_core_closed ∷ []))
  | none ↦
      (none, (record { nodes = (start_nodes n).1; core = new_core c }, es ++ nodes_started ∷ []))
]

unfoldable pub rollback_runtime : ReloadResults → Option Conf → Process → List Event → ReloadOutcome
unfolding after_rollback new_nodes
rollback_runtime r none p es = (some (text "old config is empty"), (p, es))
rollback_runtime r (some c) p es =
    after_rollback c p es (new_nodes r.accepts r.fetch c.node_configs)

abbrev pub rollback_failed : Error → ReloadOutcome → ReloadOutcome
rollback_failed e (none, rest) = (none, rest)
rollback_failed e (some f, rest) = (some (wrapped "start new nodes; rollback failed" e), rest)

-- A core whose Close fails has lost its configuration, and is open all the same.
unfoldable pub after_core :
    ReloadResults → Option Conf → Conf → NodeManager → Process → Option Error → ReloadOutcome
unfolding start_nodes rollback_runtime
after_core r old_conf c n p (some e) = (
  some (wrapped "close old core" e),
  (record p { core = record p.core { config = none } }, old_nodes_closed ∷ []),
)
after_core r old_conf c n p none =
    let q = record p { core = record { config = none; is_open = false } } in
    let es = old_nodes_closed ∷ old_core_closed ∷ [] in
    elim (start_nodes n).0 [
      | some e ↦ rollback_failed e (rollback_runtime r old_conf q (es ++ new_core_closed ∷ []))
      | none ↦ (
        none,
        (record { nodes = (start_nodes n).1; core = new_core c }, es ++ nodes_started ∷ []),
      )
    ]

unfoldable pub after_nodes :
    ReloadResults → Conf → NodeManager → Process → Option Error → ReloadOutcome
unfolding after_core
after_nodes r c n p (some e) = (some (wrapped "close old nodes" e), (p, new_core_closed ∷ []))
after_nodes r c n p none = after_core r p.core.config c n p r.core_failed

unfoldable pub with_new_nodes : ReloadResults → Conf → Process → Result NodeManager → ReloadOutcome
unfolding after_nodes close_nodes
with_new_nodes r c p (err e) = (some e, (p, []))
with_new_nodes r c p (ok n) =
    after_nodes r c n (closed_process r.joined r.nodes_failed p)
      (close_nodes r.joined r.nodes_failed p.nodes).0

unfoldable pub with_new_conf : ReloadResults → Process → Result Conf → ReloadOutcome
unfolding with_new_nodes new_nodes
with_new_conf r p (err e) = (some e, (p, []))
with_new_conf r p (ok c) = with_new_nodes r c p (new_nodes r.accepts r.fetch c.node_configs)

unfoldable pub reload : ReloadResults → Process → ReloadOutcome
unfolding with_new_conf
reload r p = with_new_conf r p (r.load new_conf)
