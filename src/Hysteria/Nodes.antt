-- ===== src/Hysteria/Nodes.antt =====
-- The nodes of the manager: AddNode, DelNode and Close of core/officialhy2/manager.go, QuiesceNode
-- of accounting.go, and the runtime's methods of core/node.go and core/core.go on them. What the
-- configuration and the server of a node return, and what stopping it returns, are arguments.
use v2node_hy.Base.{
  String, not, Option, none, some, is_some, [], ◌∷◌, get, put, del, string_key, str_eq,
  if◌then◌else◌,
}
use v2node_hy.Traffic.Effect.{Error, text, wrapped}
use v2node_hy.Limiter.{Limiter}
use v2node_hy.NodeInfo.{NodeInfo}
use v2node_hy.Hysteria.{new_node}
use v2node_hy.Hysteria.Users.{Manager, has_node, quiesce_users}
use v2node_hy.Hysteria.Core.{V2Core}

-- `server` is the error of newServer, and `limiter` what GetLimiter finds.
unfoldable pub add_node : String → Option Limiter → Option Error → Manager → Option Error × Manager
add_node tag limiter server m =
    if is_some (get tag m)
    then (some (text "node already exists"), m)
    else elim server [ some e ↦ (some e, m) | none ↦ (none, put tag (new_node tag limiter) m) ]

-- `stopped` is the error of the node's stop.
unfoldable pub del_node : String → Option Error → Manager → Option Error × Manager
del_node tag stopped m =
    if is_some (get tag m) then (stopped, del tag m) else (some (text "node not found"), m)

-- `none` for the part of DelUsers is its error, "node not found".
unfoldable pub quiesced : Option Manager → Option Error → Manager → Option Error × Manager
quiesced none stopped m = (some (text "node not found"), m)
quiesced (some n) stopped m = (stopped, n)

unfoldable pub quiesce_node : String → Option Error → Manager → Option Error × Manager
unfolding quiesced quiesce_users
quiesce_node tag stopped m =
    if is_some (get tag m) then quiesced (quiesce_users tag m) stopped m else (none, m)

-- The error of Close is the first one, in the order in which the map is walked.
unfoldable pub first_error : (String → Option Error) → Manager → Option Error
first_error stopped [] = none
first_error stopped ((tag, n) ∷ m) =
    let rest = first_error stopped m in
    elim (stopped tag) [ some e ↦ some (wrapped "close hysteria2 node" e) | none ↦ rest ]

unfoldable pub close : (String → Option Error) → Manager → Option Error × Manager
unfolding first_error
close stopped m = (first_error stopped m, [])

-- The methods of V2Core; nil node information is `none`.
unfoldable pub core_add_node :
    String → Option NodeInfo → Option Limiter → Option Error → V2Core → Option Error × V2Core
unfolding add_node
core_add_node tag none limiter server vc = (some (text "node has empty config"), vc)
core_add_node tag (some n) limiter server vc =
    if not (str_eq n.node_type "hysteria2")
    then (some (text "HY2-only backend does not support node type"), vc)
    else let (e, m) = add_node tag limiter server vc.hy2 in (e, record vc { hy2 = m })

unfoldable pub core_del_node : String → Option Error → V2Core → Option Error × V2Core
unfolding del_node
core_del_node tag stopped vc =
    if has_node tag vc.hy2
    then (let (e, m) = del_node tag stopped vc.hy2 in (e, record vc { hy2 = m }))
    else (none, vc)

unfoldable pub core_quiesce_node : String → Option Error → V2Core → Option Error × V2Core
unfolding quiesce_node
core_quiesce_node tag stopped vc =
    let (e, m) = quiesce_node tag stopped vc.hy2 in (e, record vc { hy2 = m })

-- `none` is the runtime without a manager that Close leaves; a failed Close leaves the manager.
unfoldable pub core_close : (String → Option Error) → Option V2Core → Option Error × Option V2Core
unfolding close
core_close stopped none = (none, none)
core_close stopped (some vc) = elim (close stopped vc.hy2).0 [
  | some e ↦ (some e, some (record vc { hy2 = (close stopped vc.hy2).1 }))
  | none ↦ (none, none)
]
