-- ===== src/NodeInfo/Fetch.antt =====
-- GetNodeInfo of api/v2board/node.go. The request is that of api/v2board/panel.go.
use v2node_hy.Base.{
  ℤ, pos, ltb_ℤ, Bool, not, ◌||◌, String, str_append, str_eq, Option, none, some, [], decimal,
  is_nil, trim_space, if◌then◌else◌,
}
use v2node_hy.Traffic.Checks.{codes}
use v2node_hy.Traffic.Effect.{text, outside, wrapped, Env, Result, ok, err, M, ◌>>=◌, pure}
use v2node_hy.Traffic.Panel.{Answer, request}
use v2node_hy.NodeInfo.{
  CertInfo, BaseConfig, CommonNode, NodeInfo, NodeCache, float_value, primary_server_name,
  parse_dns_env, default_panel_interval, interval_to_time,
}

abbrev pub is_invalid_node : CommonNode → Bool
is_invalid_node cm =
    ltb_ℤ cm.server_port (pos 1)
    || ltb_ℤ (pos 65535) cm.server_port
    || ltb_ℤ cm.up_mbps (pos 0)
    || ltb_ℤ cm.down_mbps (pos 0)

-- A path of the settings, or the default with this extension.
abbrev pub path_or : String → String → ℤ → String → String
path_or path protocol id extension =
    if str_eq path ""
    then str_append "/etc/v2node/" (str_append protocol (str_append (decimal id) extension))
    else path

unfoldable pub cert_info_of : CommonNode → ℤ → CertInfo
unfolding primary_server_name parse_dns_env
cert_info_of cm id =
    let t = cm.tls_settings in
    let is_remote = str_eq t.cert_mode "remote" in
    record {
      cert_mode = t.cert_mode;
      cert_file = path_or t.cert_file cm.protocol id ".cer";
      key_file = path_or t.key_file cm.protocol id ".key";
      tls_cert = if is_remote then t.tls_cert else "";
      tls_key = if is_remote then t.tls_key else "";
      email = "node@v2board.com";
      cert_domain = primary_server_name t;
      dns_env = if str_eq t.cert_mode "dns" then parse_dns_env t.dns_env else [];
      provider = t.provider;
      reject_unknown_sni = str_eq t.reject_unknown_sni "1";
    }

abbrev pub base_config_of : CommonNode → BaseConfig
base_config_of cm = elim cm.base_config [
  | some b ↦ b
  | none ↦ record {
    push_interval = float_value (pos 60);
    pull_interval = float_value (pos 60);
    device_online_min_traffic = pos 0;
    node_report_min_traffic = pos 0;
  }
]

abbrev pub node_tag : String → String → ℤ → String
node_tag host kind id =
    str_append "["
      (str_append host (str_append "]-" (str_append kind (str_append ":" (decimal id)))))

module _ (api_host : String) (node_id : ℤ) where
  unfoldable pub node_info_of : String → String → CommonNode → NodeInfo
  unfolding cert_info_of interval_to_time
  node_info_of etag hash cm =
      let b = base_config_of cm in
      record {
        etag = etag;
        body_hash = hash;
        id = node_id;
        node_type = cm.protocol;
        security = cm.tls;
        push_interval = interval_to_time b.push_interval default_panel_interval;
        pull_interval = interval_to_time b.pull_interval default_panel_interval;
        tag = node_tag api_host cm.protocol node_id;
        common =
            some (record cm { cert_info = some (cert_info_of cm node_id); base_config = some b });
      }

  unfoldable pub checked_node : String → String → Option CommonNode → Result (Option NodeInfo)
  unfolding node_info_of
  checked_node etag hash none = err (wrapped "decode node params error" (outside "json"))
  checked_node etag hash (some cm) =
      if not (str_eq cm.protocol "hysteria2")
      then err (text "unsupport protocol")
      else if is_invalid_node cm
      then err (text "invalid HY2 port or bandwidth")
      else ok (some (node_info_of etag hash cm))

  module _ (env : Env) (decode_node : String → Option CommonNode) where
    unfoldable pub parse_node : NodeCache → Answer → Result (Option NodeInfo)
    unfolding checked_node
    parse_node cache a =
        let hash = env.sha256_hex a.body in
        if is_nil (trim_space (codes a.body))
        then err (text "empty node params response")
        else if str_eq cache.response_body_hash hash
        then ok none
        else checked_node a.etag hash (decode_node a.body)

    -- `none` is the nil that stands for an unchanged configuration.
    unfoldable pub get_node_info : NodeCache → M (Option NodeInfo)
    unfolding request parse_node
    get_node_info cache = do
      a ←
          request env
            (record { method = "GET"; action = "config"; etag = cache.node_etag; body = none })
      if a.unchanged then pure none else λ w. (parse_node cache a, w)
