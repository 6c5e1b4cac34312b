-- ===== src/Process/Examples.antt =====
-- A reload, and the theorem on it applied to it.
use v2node_hy.Base.{pos, true, false, none, some, [], ◌∷◌, ◌≡◌, refl, eqb_ℤ, if◌then◌else◌}
use v2node_hy.Traffic.Effect.{ok, err, text}
use v2node_hy.Conf.{NodeConfig, new_conf}
use v2node_hy.Process.{new_controller, cancel_tasks, Process, new_core, ReloadResults, reload}
use v2node_hy.Process.Reloading.{IsReloaded, reload-IsReloaded}

abbrev one_config : NodeConfig
one_config = record {
  state_directory = "";
  api_host = "https://panel";
  node_id = pos 7;
  key = "k";
  timeout = pos 0;
  retry_count = none;
}

abbrev two_config : NodeConfig
two_config = record one_config { node_id = pos 8 }

abbrev running : Process
running = record {
  nodes = record {
    configs = one_config ∷ two_config ∷ [];
    node_infos = [];
    controllers = new_controller one_config ∷ new_controller two_config ∷ [];
    started = true;
    closed = false;
  };
  core = new_core new_conf;
}

abbrev results : ReloadResults
results = record {
  load = λ c. ok (record c { node_configs = one_config ∷ [] });
  accepts = λ n. true;
  fetch = λ n. err (text "panel status");
  joined = true;
  nodes_failed = λ n. none;
  core_failed = none;
}

reload-IsReloaded_example : IsReloaded results running (reload results running)
reload-IsReloaded_example = reload-IsReloaded results running

running-reloaded : (reload results running).0 ≡ none
unfolding reload
running-reloaded = refl

-- The final reports of the second node cannot be saved: the first one is closed all the same.
abbrev unsaved : ReloadResults
unsaved = record results {
  nodes_failed = λ n. if eqb_ℤ n.node_id (pos 8) then some (text "persist final traffic") else none;
}

running-kept :
    (reload unsaved running).1.0.nodes.controllers
    ≡ record { config = one_config; tasks_cancelled = true; closed = true }
      ∷ cancel_tasks (new_controller two_config)
      ∷ []
unfolding reload
running-kept = refl
