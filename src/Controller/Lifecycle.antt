-- ===== src/Controller/Lifecycle.antt =====
-- Start and end of a node's controller: StartContext and CloseContext of node/controller.go, and
-- startTasks of node/task.go. The results of the panel's methods, of the certificate's request and
-- of the server are arguments; the panel's methods themselves are in Traffic and NodeInfo.
use v2node_hy.Base.{
  ℤ, pos, eqb_ℤ, String, Bool, true, false, not, ◌&&◌, Option, none, some, List, [], Table, get,
  put, del, string_key, str_eq, if◌then◌else◌,
}
use v2node_hy.Users.{UserInfo, UserSnapshot}
use v2node_hy.Traffic.Effect.{Error, text, wrapped, Result, ok, err}
use v2node_hy.Traffic.Panel.{commit_users}
use v2node_hy.NodeInfo.{CertInfo, CommonNode, NodeInfo, commit_node_info}
use v2node_hy.Limiter.{Limiter, add_limiter}
use v2node_hy.Hysteria.Core.{V2Core, add_users}
use v2node_hy.Hysteria.Nodes.{core_add_node, core_del_node}
use v2node_hy.Controller.{Controller, is_added}
use v2node_hy.Controller.Monitor.{Monitor}

-- A controller with its runtime, and the registry of limiters.
pub record Service : Type 0 where
  pub monitor : Monitor
  pub limiters : Table String Limiter
  pub alive_map : Table ℤ ℤ
  pub renews_cert : Bool
  pub closed : Bool

-- What the calls of StartContext return. `stopped` is for the node that a failed start removes.
pub record StartResults : Type 0 where
  pub node_info : Result (Option NodeInfo)
  pub flush : Option Error
  pub users : Result (Option UserSnapshot)
  pub alive : Result (Table ℤ ℤ)
  pub context : Option Error
  pub cert : Option Error
  pub server : Option Error
  pub stopped : Option Error

-- The configuration that the controller was made with, or else the panel's.
unfoldable pub starting_info : Option NodeInfo → Result (Option NodeInfo) → Result (Option NodeInfo)
starting_info (some n) fetched = ok (some n)
starting_info none fetched = fetched

abbrev pub controller_of : (Controller → Controller) → Service → Service
controller_of f s = record s { monitor = record s.monitor { controller = f s.monitor.controller } }

abbrev pub core_is : V2Core → Service → Service
core_is vc = controller_of (λ c. record c { server = vc })

unfoldable pub users_of : Option UserSnapshot → List UserInfo → List UserInfo
users_of none users = users
users_of (some s) users = s.users

unfoldable pub alive_of : Result (Table ℤ ℤ) → Table ℤ ℤ
alive_of (err e) = []
alive_of (ok a) = a

-- The deferred cleanup of a start that fails.
unfoldable pub drop_limiter : Error → Service → Option Error × Service
drop_limiter e s = (some e, record s { limiters = del s.monitor.controller.tag s.limiters })

unfoldable pub drop_node : StartResults → Error → Service → Option Error × Service
unfolding drop_limiter core_del_node
drop_node r e s =
    drop_limiter e
      (core_is (core_del_node s.monitor.controller.tag r.stopped s.monitor.controller.server).1 s)

abbrev pub renewing : Option CertInfo → Bool
renewing none = false
renewing (some i) =
    not (str_eq i.cert_mode "none")
    && not (str_eq i.cert_mode "")
    && not (str_eq i.cert_mode "file")
    && not (str_eq i.cert_mode "self")
    && not (str_eq i.cert_mode "remote")

abbrev pub cert_of : Option CommonNode → Option CertInfo
cert_of none = none
cert_of (some cm) = cm.cert_info

-- The tasks of a node, whose certificate GetNodeInfo has described; the one that renews a certificate runs where the mode asks for it.
unfoldable pub start_tasks : NodeInfo → Service → Service
start_tasks n s = record s {
  monitor = record s.monitor {
    node_info_interval = some n.pull_interval;
    user_report_interval = some n.push_interval;
    heartbeat_interval = some n.push_interval;
  };
  renews_cert = eqb_ℤ n.security (pos 1) && renewing (cert_of n.common);
}

unfoldable pub commit_start : NodeInfo → Option UserSnapshot → Service → Service
unfolding commit_users commit_node_info
commit_start n snapshot s =
    controller_of (λ c. record c { api_client = commit_users snapshot c.api_client })
      (record s {
        monitor = record s.monitor {
          info = some n;
          node_cache = commit_node_info (some n) s.monitor.node_cache;
        };
      })

unfoldable pub after_users :
    StartResults → NodeInfo → Option UserSnapshot → Service → Bool × V2Core → Option Error × Service
unfolding drop_node start_tasks commit_start
after_users r n snapshot s (false, vc) = drop_node r (text "add users error") (core_is vc s)
after_users r n snapshot s (true, vc) =
    (none, start_tasks n (commit_start n snapshot (core_is vc s)))

unfoldable pub after_node :
    StartResults
    → NodeInfo
    → Option UserSnapshot
    → Service
    → Option Error × V2Core
    → Option Error × Service
unfolding drop_limiter add_users after_users
after_node r n snapshot s (some e, vc) =
    drop_limiter (wrapped "add new node error" e) (core_is vc s)
after_node r n snapshot s (none, vc) = after_users r n snapshot s (
    is_added
      (add_users (some n.node_type) s.monitor.controller.tag s.monitor.controller.user_list vc))

unfoldable pub after_cert :
    StartResults → NodeInfo → Option UserSnapshot → Service → Option Error → Option Error × Service
unfolding drop_limiter core_add_node after_node
after_cert r n snapshot s (some e) = drop_limiter (wrapped "request cert error" e) s
after_cert r n snapshot s none =
    let c = s.monitor.controller in
    after_node r n snapshot s
      (core_add_node c.tag (some n) (get c.tag s.limiters) r.server c.server)

unfoldable pub after_alive :
    StartResults → NodeInfo → Option UserSnapshot → Option Error → Service → Option Error × Service
unfolding after_cert
after_alive r n snapshot (some e) s = (some e, s)
after_alive r n snapshot none s =
    let c = s.monitor.controller in
    after_cert r n snapshot
      (record s {
        limiters = put c.tag (add_limiter n.node_type c.tag c.user_list s.alive_map) s.limiters;
      })
      (if eqb_ℤ n.security (pos 1) then r.cert else none)

unfoldable pub after_flush :
    StartResults → NodeInfo → Result (Option UserSnapshot) → Service → Option Error × Service
unfolding after_alive users_of alive_of
after_flush r n (err e) s = (some (wrapped "get initial users" e), s)
after_flush r n (ok snapshot) s = after_alive r n snapshot r.context (
    controller_of (λ c. record c { user_list = users_of snapshot c.user_list; tag = n.tag })
      (record s { alive_map = alive_of r.alive }))

unfoldable pub after_info :
    StartResults → Result (Option NodeInfo) → Service → Option Error × Service
unfolding after_flush
after_info r (err e) s = (some (wrapped "get node info error" e), s)
after_info r (ok none) s = (some (text "node info is empty"), s)
after_info r (ok (some n)) s = elim r.flush [
  | some e ↦ (
    some (wrapped "recover traffic before accepting users" e),
    record s { monitor = record s.monitor { info = some n } },
  )
  | none ↦ after_flush r n r.users (record s { monitor = record s.monitor { info = some n } })
]

unfoldable pub start_context : StartResults → Service → Option Error × Service
unfolding after_info starting_info
start_context r s = after_info r (starting_info s.monitor.info r.node_info) s
