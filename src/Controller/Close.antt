-- ===== src/Controller/Close.antt =====
-- The end of a controller: CloseContext of node/controller.go. `stop` of a node runs once, so the
-- one in DelNode, after that of QuiesceNode, returns no error.
use v2node_hy.Base.{
  pos, String, Bool, true, false, Option, none, some, is_some, List, [], get, del, get-put_self,
  get-del_self, string_key, str_eq, ◌≡◌, refl, sym, ◌∙◌, subst, arith, if◌then◌else◌, unless,
}
use v2node_hy.Traffic.{UserTraffic}
use v2node_hy.Traffic.Effect.{Error, wrapped}
use v2node_hy.Hysteria.Users.{Manager, get_user_traffic_slice, quiesce_users, del_users, del_found}
use v2node_hy.Hysteria.Core.{V2Core, user_traffic_slice}
use v2node_hy.Hysteria.Nodes.{core_del_node, del_node, core_quiesce_node, quiesce_node, quiesced}
use v2node_hy.Controller.Lifecycle.{Service, core_is}
use v2node_hy.Controller.Start.{nodes_of}

-- What the calls of CloseContext return: the end of the tasks, the stop of the node, and
-- PersistTraffic, which captures the rows of the node unless it fails before that.
pub record CloseResults : Type 0 where
  pub tasks : Option Error
  pub stopped : Option Error
  pub captures : Bool
  pub persist : List UserTraffic → Option Error

unfoldable pub after_persist : Option Error → Service → Option Error × Service
unfolding core_del_node
after_persist (some e) s = (some (wrapped "persist final traffic" e), s)
after_persist none s =
    let tag = s.monitor.controller.tag in
    let (e, vc) = core_del_node tag none s.monitor.controller.server in
    elim e [
      | some f ↦ (some (wrapped "del node error" f), core_is vc s)
      | none ↦ (none, record (core_is vc s) { limiters = del tag s.limiters; closed = true })
    ]

-- The rows that PersistTraffic captures, if it does.
unfoldable pub captured : CloseResults → String → V2Core → List UserTraffic × V2Core
unfolding user_traffic_slice
captured r tag vc = if r.captures then user_traffic_slice tag (pos 0) vc else ([], vc)

unfoldable pub after_quiesce :
    CloseResults → Service → Option Error × V2Core → Option Error × Service
unfolding after_persist captured
after_quiesce r s (some e, vc) = (some e, core_is vc s)
after_quiesce r s (none, vc) =
    let (rows, left) = captured r s.monitor.controller.tag vc in
    after_persist (r.persist rows) (core_is left s)

unfoldable pub after_tasks : CloseResults → Option Error → Service → Option Error × Service
unfolding core_quiesce_node after_quiesce
after_tasks r (some e) s = (some e, s)
after_tasks r none s =
    let c = s.monitor.controller in
    if str_eq c.tag ""
    then (none, s)
    else after_quiesce r s (core_quiesce_node c.tag r.stopped c.server)

unfoldable pub close_context : CloseResults → Service → Option Error × Service
unfolding after_tasks
close_context r s = if s.closed then (none, s) else after_tasks r r.tasks s

abbrev has : String → Service → Bool
has tag s = is_some (get tag (nodes_of s))

-- The rows that the close saves.
abbrev pub saved_rows : CloseResults → Service → List UserTraffic
saved_rows r s =
    let c = s.monitor.controller in
    (captured r c.tag (core_quiesce_node c.tag r.stopped c.server).1).0

abbrev IsKept : String → Service → Service → Type 0
IsKept tag s t =
    (has tag t ≡ has tag s) × (get tag t.limiters ≡ get tag s.limiters) × (t.closed ≡ s.closed)

abbrev IsGone : String → Service → Type 0
IsGone tag t = (get tag (nodes_of t) ≡ none) × (get tag t.limiters ≡ none) × (t.closed ≡ true)

-- A close that fails keeps the node and its limiter; one that succeeds has saved the rows.
abbrev pub IsSaved :
    CloseResults → List UserTraffic → String → Service → Option Error × Service → Type 0
IsSaved r rows tag s (some e, t) = IsKept tag s t
IsSaved r rows tag s (none, t) = (r.persist rows ≡ none) × IsGone tag t

quiesce-present :
    (tag : String) (stopped : Option Error) (m : Manager)
    → is_some (get tag (quiesce_node tag stopped m).1) ≡ is_some (get tag m)
unfolding quiesce_node quiesced quiesce_users del_users del_found
quiesce-present tag stopped m = grind (arith, get-put_self)

slice-present :
    (tag : String) (vc : V2Core)
    → is_some (get tag (user_traffic_slice tag (pos 0) vc).1.hy2) ≡ is_some (get tag vc.hy2)
unfolding user_traffic_slice get_user_traffic_slice
slice-present tag vc = grind (arith, get-put_self)

delete-gone :
    (tag : String) (vc : V2Core)
    → ((core_del_node tag none vc).0 ≡ none) × (get tag (core_del_node tag none vc).1.hy2 ≡ none)
unfolding core_del_node del_node
delete-gone tag vc = ground (arith, get-del_self tag vc.hy2)

after_persist-IsSaved :
    (r : CloseResults) (rows : List UserTraffic) (o : Option Error) (s t : Service)
    → r.persist rows ≡ o
    → IsKept t.monitor.controller.tag s t
    → IsSaved r rows t.monitor.controller.tag s (after_persist o t)
unfolding after_persist
after_persist-IsSaved r rows (some e) s t p k = k
after_persist-IsSaved r rows none s t p k =
    let tag = t.monitor.controller.tag in
    by_result (core_del_node tag none t.monitor.controller.server).0
      (delete-gone tag t.monitor.controller.server).0
  where
    by_result :
        (e : Option Error)
        → e ≡ none
        → IsSaved r rows t.monitor.controller.tag s (elim e [
          | some f ↦ (
            some (wrapped "del node error" f),
            core_is (core_del_node t.monitor.controller.tag none t.monitor.controller.server).1 t,
          )
          | none ↦ (
            none,
            record (core_is
                (core_del_node t.monitor.controller.tag none t.monitor.controller.server).1
                t) { limiters = del t.monitor.controller.tag t.limiters; closed = true },
          )
        ])
    by_result none e = (
      p,
      (
        (delete-gone t.monitor.controller.tag t.monitor.controller.server).1,
        get-del_self t.monitor.controller.tag t.limiters,
        refl,
      ),
    )
    by_result (some f) e = absurd (ground (arith, e))

captured-present :
    (r : CloseResults) (tag : String) (vc : V2Core)
    → is_some (get tag (captured r tag vc).1.hy2) ≡ is_some (get tag vc.hy2)
unfolding captured
captured-present r tag vc = by_capture r.captures
  where
    by_capture :
        (b : Bool)
        → is_some (get tag (if b then user_traffic_slice tag (pos 0) vc else ([], vc)).1.hy2)
          ≡ is_some (get tag vc.hy2)
    by_capture true = slice-present tag vc
    by_capture false = refl

after_quiesce-IsSaved :
    (r : CloseResults) (s : Service) (q : Option Error × V2Core)
    → is_some (get s.monitor.controller.tag q.1.hy2) ≡ has s.monitor.controller.tag s
    → IsSaved r
        (captured r s.monitor.controller.tag q.1).0
        s.monitor.controller.tag
        s
        (after_quiesce r s q)
unfolding after_quiesce
after_quiesce-IsSaved r s (some e, vc) h = (h, refl, refl)
after_quiesce-IsSaved r s (none, vc) h =
    let tag = s.monitor.controller.tag in
    let c = captured r tag vc in
    after_persist-IsSaved r c.0 (r.persist c.0) s (core_is c.1 s) refl
      (captured-present r tag vc ∙ h, refl, refl)

core_quiesce-present :
    (tag : String) (stopped : Option Error) (vc : V2Core)
    → is_some (get tag (core_quiesce_node tag stopped vc).1.hy2) ≡ is_some (get tag vc.hy2)
unfolding core_quiesce_node
core_quiesce-present tag stopped vc = quiesce-present tag stopped vc.hy2

after_tasks-IsSaved :
    (r : CloseResults) (tasks : Option Error) (s : Service)
    → str_eq s.monitor.controller.tag "" ≡ false
    → IsSaved r (saved_rows r s) s.monitor.controller.tag s (after_tasks r tasks s)
unfolding after_tasks
after_tasks-IsSaved r (some e) s h = (refl, refl, refl)
after_tasks-IsSaved r none s h =
    let c = s.monitor.controller in
    subst (IsSaved r (saved_rows r s) c.tag s) (sym (unless (str_eq c.tag "") _ _ h)) (
      after_quiesce-IsSaved r s (core_quiesce_node c.tag r.stopped c.server)
        (core_quiesce-present c.tag r.stopped c.server))

-- A close of an open controller with a tag that returns an error keeps the node and its limiter,
-- and the controller stays open; one that returns none has saved the rows that were captured after
-- the users had gone, and then the node and the limiter are gone and the controller is closed.
pub close_context-IsSaved :
    (r : CloseResults) (s : Service)
    → s.closed ≡ false
    → str_eq s.monitor.controller.tag "" ≡ false
    → IsSaved r (saved_rows r s) s.monitor.controller.tag s (close_context r s)
unfolding close_context
close_context-IsSaved r s c h =
    subst (IsSaved r (saved_rows r s) s.monitor.controller.tag s) (sym (unless s.closed _ _ c))
      (after_tasks-IsSaved r r.tasks s h)
