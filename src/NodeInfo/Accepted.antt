-- ===== src/NodeInfo/Accepted.antt =====
-- What a configuration that GetNodeInfo returns has passed.
use v2node_hy.Base.{
  ℤ, pos, ◌≤ℤ◌, Bool, true, false, not, String, str_eq, str_eq_iff, Option, none, some, ◌≡◌, refl,
  arith, if◌then◌else◌, is_nil, trim_space,
}
use v2node_hy.Traffic.Checks.{codes}
use v2node_hy.Traffic.Effect.{text, Env, Result, ok, err, World, continue_with}
use v2node_hy.Traffic.Panel.{Answer, request}
use v2node_hy.NodeInfo.{CommonNode, NodeInfo, NodeCache, min_panel_interval, default_panel_interval}
use v2node_hy.NodeInfo.Intervals.{interval_to_time-bound}
use v2node_hy.NodeInfo.Fetch.{
  is_invalid_node, base_config_of, node_info_of, checked_node, parse_node, get_node_info,
}

pub record IsValidNode (cm : CommonNode) : Type 0 where
  pub protocol_known : cm.protocol ≡ "hysteria2"
  pub port_low : pos 1 ≤ℤ cm.server_port
  pub port_high : cm.server_port ≤ℤ pos 65535
  pub up_low : pos 0 ≤ℤ cm.up_mbps
  pub down_low : pos 0 ≤ℤ cm.down_mbps

abbrev pub IsValidCommon : Option CommonNode → Type 0
IsValidCommon none = ⊥
IsValidCommon (some cm) = IsValidNode cm

pub record IsAccepted (n : NodeInfo) : Type 0 where
  pub type_known : n.node_type ≡ "hysteria2"
  pub push_low : min_panel_interval ≤ℤ n.push_interval
  pub pull_low : min_panel_interval ≤ℤ n.pull_interval
  pub common_valid : IsValidCommon n.common

abbrev pub IsAcceptedResult : Result (Option NodeInfo) → Type 0
IsAcceptedResult (ok (some n)) = IsAccepted n
IsAcceptedResult _ = Unit

node_info_of-IsAccepted :
    (host : String) (id : ℤ) (etag hash : String) (cm : CommonNode)
    → str_eq cm.protocol "hysteria2" ≡ true
    → is_invalid_node cm ≡ false
    → IsAccepted (node_info_of host id etag hash cm)
unfolding node_info_of
node_info_of-IsAccepted host id etag hash cm h k = record {
  type_known = (str_eq_iff cm.protocol "hysteria2").0 h;
  push_low =
      interval_to_time-bound (base_config_of cm).push_interval default_panel_interval
        (ground arith);
  pull_low =
      interval_to_time-bound (base_config_of cm).pull_interval default_panel_interval
        (ground arith);
  common_valid = record {
    protocol_known = (str_eq_iff cm.protocol "hysteria2").0 h;
    port_low = ground (arith, k);
    port_high = ground (arith, k);
    up_low = ground (arith, k);
    down_low = ground (arith, k);
  };
}

checked_node-IsAccepted :
    (host : String) (id : ℤ) (etag hash : String) (o : Option CommonNode)
    → IsAcceptedResult (checked_node host id etag hash o)
unfolding checked_node
checked_node-IsAccepted host id etag hash none = tt
checked_node-IsAccepted host id etag hash (some cm) =
    by_tests (str_eq cm.protocol "hysteria2") (is_invalid_node cm)
      (node_info_of-IsAccepted host id etag hash cm)
  where
    by_tests :
        (b c : Bool)
        → (b ≡ true → c ≡ false → IsAccepted (node_info_of host id etag hash cm))
        → IsAcceptedResult (
            if not b
            then err (text "unsupport protocol")
            else if c
            then err (text "invalid HY2 port or bandwidth")
            else ok (some (node_info_of host id etag hash cm)))
    by_tests true true h = tt
    by_tests true false h = h refl refl
    by_tests false c h = tt

module _ (host : String) (id : ℤ) (env : Env) (decode_node : String → Option CommonNode) where
  parse_node-IsAccepted :
      (cache : NodeCache) (a : Answer)
      → IsAcceptedResult (parse_node host id env decode_node cache a)
  unfolding parse_node
  parse_node-IsAccepted cache a =
      by_tests (is_nil (trim_space (codes a.body)))
        (str_eq cache.response_body_hash (env.sha256_hex a.body))
        (checked_node host id a.etag (env.sha256_hex a.body) (decode_node a.body))
        (checked_node-IsAccepted host id a.etag (env.sha256_hex a.body) (decode_node a.body))
    where
      by_tests :
          (b c : Bool) (r : Result (Option NodeInfo))
          → IsAcceptedResult r
          → IsAcceptedResult
              (if b then err (text "empty node params response") else if c then ok none else r)
      by_tests true c r h = tt
      by_tests false true r h = tt
      by_tests false false r h = h

  -- Whatever the panel answers, a configuration that GetNodeInfo returns is for the protocol of
  -- the node, has a port from 1 to 65535, no negative bandwidth, and asks and reports at intervals
  -- of five seconds at least.
  pub get_node_info-IsAccepted :
      (cache : NodeCache) (w : World)
      → IsAcceptedResult (get_node_info host id env decode_node cache w).0
  unfolding get_node_info
  get_node_info-IsAccepted cache w = by_answer (
      request env
        (record { method = "GET"; action = "config"; etag = cache.node_etag; body = none }) w)
    where
      unchanged_or :
          (b : Bool) (a : Answer) (v : World)
          → IsAcceptedResult
              (if◌then◌else◌ {A = World → Result (Option NodeInfo) × World} b
                (λ u. (ok none, u))
                (λ u. (parse_node host id env decode_node cache a, u))
                v).0
      unchanged_or true a v = tt
      unchanged_or false a v = parse_node-IsAccepted cache a

      by_answer :
          (r : Result Answer × World)
          → IsAcceptedResult
              (continue_with {B = Option NodeInfo} r (λ a.
                if◌then◌else◌ {A = World → Result (Option NodeInfo) × World} a.unchanged
                  (λ u. (ok none, u))
                  (λ u. (parse_node host id env decode_node cache a, u)))).0
      by_answer (ok a, v) = unchanged_or a.unchanged a v
      by_answer (err e, v) = tt
