-- ===== src/Controller/Monitor.antt =====
-- The task that asks for the configuration: nodeInfoMonitor, applyRuntimeNodeInfo and
-- requestReload of node/task.go. Intervals are nanoseconds; `none` is a task that is not there.
use v2node_hy.Base.{ℕ, ℤ, Bool, true, Option, none, some, ◌≡◌, if◌then◌else◌}
use v2node_hy.Users.{UserSnapshot}
use v2node_hy.Traffic.Effect.{Result, ok, err}
use v2node_hy.NodeInfo.{NodeInfo, NodeCache, commit_node_info}
use v2node_hy.Controller.{Controller, sync_users, request_reload}
use v2node_hy.Controller.Fingerprint.{core_reload_fingerprint, NodeCoreFingerprint}
use v2node_hy.Controller.Reload.{requires_core_reload}

-- `reload_ch` is `none` for a nil channel, and else tells whether its one place is taken.
pub record Monitor : Type 0 where
  pub controller : Controller
  pub info : Option NodeInfo
  pub node_cache : NodeCache
  pub node_info_interval : Option ℤ
  pub user_report_interval : Option ℤ
  pub heartbeat_interval : Option ℤ
  pub last_reload_at : Option ℕ
  pub reload_ch : Option Bool

abbrev pub set_interval : ℤ → Option ℤ → Option ℤ
set_interval i none = none
set_interval i (some old) = some i

unfoldable pub apply_runtime_node_info : Option NodeInfo → Monitor → Monitor
apply_runtime_node_info none m = m
apply_runtime_node_info (some n) m = record m {
  info = some n;
  node_cache = commit_node_info (some n) m.node_cache;
  node_info_interval = set_interval n.pull_interval m.node_info_interval;
  user_report_interval = set_interval n.push_interval m.user_report_interval;
  heartbeat_interval = set_interval n.push_interval m.heartbeat_interval;
}

abbrev pub rung : Bool → Option Bool → Option Bool
rung true (some full) = some true
rung _ ch = ch

-- requestReload at `now`; a full channel is left as it is.
unfoldable pub note_reload : ℕ → Monitor → Monitor
unfolding request_reload
note_reload now m =
    let (accepted, last) = request_reload now m.last_reload_at in
    record m { last_reload_at = last; reload_ch = rung accepted m.reload_ch }

-- The request for users began in `generation`; a failed one is logged and forgotten.
unfoldable pub sync_step : ℕ → Result (Option UserSnapshot) → Monitor → Monitor
sync_step generation (err e) m = m
sync_step generation (ok s) m = record m { controller = sync_users generation s m.controller }

-- One run of the task at `now`, with what GetNodeInfo and then GetUsers return.
unfoldable pub node_info_monitor :
    ℕ → ℕ → Result (Option NodeInfo) → Result (Option UserSnapshot) → Monitor → Monitor
unfolding apply_runtime_node_info note_reload sync_step
node_info_monitor now generation (err e) users m = m
node_info_monitor now generation (ok none) users m = sync_step generation users m
node_info_monitor now generation (ok (some n)) users m =
    if requires_core_reload m.info (some n)
    then note_reload now m
    else sync_step generation users (apply_runtime_node_info (some n) m)

-- The core of the configuration in force.
abbrev pub core_of : Option NodeInfo → Option NodeCoreFingerprint
core_of none = none
core_of (some n) = some (core_reload_fingerprint n)

-- The validators that the client sends are those of the configuration in force.
abbrev pub IsCommitted : Monitor → Type 0
IsCommitted m = m.node_cache ≡ commit_node_info m.info m.node_cache
