-- ===== src/Controller/Examples.antt =====
-- A controller over its life, and the theorems on its reloads, its start and its end applied to it.
use v2node_hy.Base.{
  pos, true, false, none, some, [], ◌∷◌, get, put, string_key, ◌≡◌, ◌≢◌, ◌↔◌, refl, ap, arith,
}
use v2node_hy.Users.{UserSnapshot}
use v2node_hy.Traffic.Effect.{new_client, ok, err, text}
use v2node_hy.NodeInfo.{NodeInfo, commit_node_info}
use v2node_hy.Hysteria.{new_node}
use v2node_hy.Controller.{Controller}
use v2node_hy.Controller.Fingerprint.{core_reload_fingerprint}
use v2node_hy.Controller.Reload.{
  requires_core_reload, core_reload_reasons, core_reload_reasons-requires_core_reload,
}
use v2node_hy.Controller.Monitor.{Monitor, IsCommitted, core_of, node_info_monitor}
use v2node_hy.Controller.Steady.{
  node_info_monitor-core, node_info_monitor-IsCommitted, node_info_monitor-rings,
}
use v2node_hy.Controller.Lifecycle.{Service, StartResults, start_context}
use v2node_hy.Controller.Close.{
  CloseResults, close_context, saved_rows, IsSaved, close_context-IsSaved,
}

abbrev old_info : NodeInfo
old_info = record {
  etag = "v1";
  body_hash = "00";
  id = pos 7;
  node_type = "hysteria2";
  security = pos 1;
  push_interval = pos 60_000_000_000;
  pull_interval = pos 60_000_000_000;
  tag = "t";
  common = none;
}

-- Without TLS, and with another validator.
abbrev new_info : NodeInfo
new_info = record old_info { security = pos 0; etag = "v2"; body_hash = "01" }

core_reload_reasons-requires_core_reload_example :
    (core_reload_reasons (some old_info) (some new_info) ≡ "unknown" ∷ [])
    ↔ (requires_core_reload (some old_info) (some new_info) ≡ false)
core_reload_reasons-requires_core_reload_example =
    core_reload_reasons-requires_core_reload (some old_info) (some new_info)

changed_reasons : core_reload_reasons (some old_info) (some new_info) ≡ "security" ∷ []
unfolding core_reload_reasons core_reload_fingerprint
changed_reasons = refl

abbrev idle : Controller
idle = record {
  tag = "t";
  server = record { hy2 = []; uid_map = [] };
  api_client = new_client "outbox";
  user_list = [];
  user_generation = 0;
  online_small_traffic = [];
}

abbrev watching : Monitor
watching = record {
  controller = idle;
  info = some old_info;
  node_cache = record { node_etag = "v1"; response_body_hash = "00" };
  node_info_interval = some (pos 60_000_000_000);
  user_report_interval = some (pos 60_000_000_000);
  heartbeat_interval = none;
  last_reload_at = some 5;
  reload_ch = some false;
}

node_info_monitor-core_example :
    core_of (node_info_monitor 9 0 (ok (some new_info)) (ok none) watching).info
    ≡ core_of watching.info
node_info_monitor-core_example = node_info_monitor-core 9 0 (ok (some new_info)) (ok none) watching

watching-IsCommitted : IsCommitted watching
unfolding commit_node_info
watching-IsCommitted = refl

node_info_monitor-IsCommitted_example :
    IsCommitted (node_info_monitor 9 0 (ok (some new_info)) (ok none) watching)
node_info_monitor-IsCommitted_example =
    node_info_monitor-IsCommitted 9 0 (ok (some new_info)) (ok none) watching watching-IsCommitted

infos_differ : core_reload_fingerprint old_info ≢ core_reload_fingerprint new_info
unfolding core_reload_fingerprint
infos_differ = λ p. absurd (ground (arith, ap (λ f. f.security) p))

node_info_monitor-rings_example :
    (node_info_monitor 60_000_000_005 0 (ok (some new_info)) (ok none) watching).reload_ch
    ≡ some true
node_info_monitor-rings_example =
    node_info_monitor-rings 60_000_000_005 0 old_info new_info (ok none) watching false refl
      infos_differ (omega arith) refl

abbrev alone : Service
alone = record {
  monitor = record watching { info = none };
  limiters = [];
  alive_map = [];
  renews_cert = false;
  closed = false;
}

abbrev first_users : UserSnapshot
first_users = record {
  users = record { id = pos 1; uuid = "a"; speed_limit = pos 0; device_limit = pos 2 } ∷ [];
  etag = "u1";
}

abbrev start_results : StartResults
start_results = record {
  node_info = ok (some new_info);
  flush = none;
  users = ok (some first_users);
  alive = err (text "panel status");
  context = none;
  cert = none;
  server = none;
  stopped = none;
}

-- This start succeeds.
alone-runs : (start_context start_results alone).0 ≡ none
unfolding start_context get put
alone-runs = refl

abbrev close_results : CloseResults
close_results = record { tasks = none; stopped = none; captures = true; persist = λ rows. none }

abbrev running : Service
running = record alone {
  monitor = record watching {
    controller = record idle {
      server = record { hy2 = ("t", new_node "t" none) ∷ []; uid_map = [] };
    };
  };
}

close_context-IsSaved_example :
    IsSaved close_results
      (saved_rows close_results running)
      "t"
      running
      (close_context close_results running)
close_context-IsSaved_example = close_context-IsSaved close_results running refl refl

running-closes : (close_context close_results running).0 ≡ none
unfolding close_context get put new_node
running-closes = refl
