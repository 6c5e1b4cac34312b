-- ===== src/Controller/Reports.antt =====
-- What reportUserTrafficTask of node/user.go captures for a report, and the users with little
-- traffic whom the heartbeat leaves out.
use v2node_hy.Base.{ℤ, pos, wrap, ◌+ℤ◌, ltb_ℤ, Option, none, some, List, [], ◌∷◌, if◌then◌else◌}
use v2node_hy.Traffic.{UserTraffic}
use v2node_hy.NodeInfo.{BaseConfig, CommonNode, NodeInfo}
use v2node_hy.Hysteria.Users.{kilo}
use v2node_hy.Hysteria.Core.{user_traffic_slice}
use v2node_hy.Controller.{Controller}

-- `NodeReportMinTraffic` and `DeviceOnlineMinTraffic`.
abbrev minima_in : Option BaseConfig → ℤ × ℤ
minima_in none = (pos 0, pos 0)
minima_in (some b) = (b.node_report_min_traffic, b.device_online_min_traffic)

abbrev common_minima : Option CommonNode → ℤ × ℤ
common_minima none = (pos 0, pos 0)
common_minima (some cm) = minima_in cm.base_config

unfoldable pub traffic_minima : Option NodeInfo → ℤ × ℤ
traffic_minima none = (pos 0, pos 0)
traffic_minima (some n) = common_minima n.common

unfoldable pub small_users : ℤ → List UserTraffic → List ℤ
unfolding kilo
small_users device_min [] = []
small_users device_min (r ∷ rs) =
    let rest = small_users device_min rs in
    if ltb_ℤ (wrap (r.upload +ℤ r.download)) (wrap (kilo device_min)) then r.uid ∷ rest else rest

-- The capture of a report, in which the controller notes these users.
unfoldable pub capture_traffic : Option NodeInfo → Controller → List UserTraffic × Controller
unfolding traffic_minima small_users user_traffic_slice
capture_traffic info c =
    let minima = traffic_minima info in
    let (rows, vc) = user_traffic_slice c.tag minima.0 c.server in
    (rows, record c { server = vc; online_small_traffic = small_users minima.1 rows })
