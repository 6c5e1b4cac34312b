-- ===== src/Controller/Start.antt =====
-- What a start of a controller leaves behind, when it succeeds and when it fails.
use v2node_hy.Base.{String, true, Option, none, some, is_some, get, string_key, ◌≡◌}
use v2node_hy.Traffic.Effect.{Error}
use v2node_hy.NodeInfo.{NodeInfo}
use v2node_hy.Limiter.{Limiter}
use v2node_hy.Hysteria.Users.{Manager}
use v2node_hy.Hysteria.Users as hy2
use v2node_hy.Controller.Lifecycle.{Service}

abbrev pub nodes_of : Service → Manager
nodes_of s = s.monitor.controller.server.hy2

abbrev pub IsClean : String → Service → Type 0
IsClean tag s = (get tag (nodes_of s) ≡ none) × (get tag s.limiters ≡ none)

-- A start that has failed leaves nothing of the tag; one that has succeeded, a node and a limiter.
abbrev pub IsAllOrNothing : String → Option Error × Service → Type 0
IsAllOrNothing tag (some e, s) = IsClean tag s
IsAllOrNothing tag (none, s) =
    (is_some (get tag (nodes_of s)) ≡ true) × (is_some (get tag s.limiters) ≡ true)

-- The tag of the controller, with a limiter and without a node.
abbrev IsLimited : String → Service → Type 0
IsLimited tag s = (s.monitor.controller.tag ≡ tag) × (is_some (get tag s.limiters) ≡ true)
