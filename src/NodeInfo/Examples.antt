-- ===== src/NodeInfo/Examples.antt =====
-- A node that the panel describes, and the theorems on node information applied to it.
use v2node_hy.Base.{
  contains_byte, pos, ◌≡◌, refl, String, false, Option, none, some, [], ◌∷◌, All, Bytes, Table, get,
  bytes_key, decimal, trim_left, trim_right,
}
use v2node_hy.Traffic.Effect.{Env, Reply, answered, ok, World, new_client, locked}
use v2node_hy.Traffic.Panel.{Answer}
use v2node_hy.NodeInfo.{TlsSettings, CommonNode, NodeInfo, NodeCache, parse_dns_env}
use v2node_hy.NodeInfo.Environment.{IsPlain, IsTable, render_env, parse_dns_env-render_env}
use v2node_hy.NodeInfo.Fetch.{get_node_info, parse_node, node_info_of}
use v2node_hy.NodeInfo.Accepted.{IsAcceptedResult, get_node_info-IsAccepted}

-- CF_A=x and CF_B=y=z.
abbrev sample_env : Table Bytes Bytes
sample_env = (b'A' ∷ [], b'x' ∷ []) ∷ (b'B' ∷ [], b'y' ∷ b'=' ∷ b'z' ∷ []) ∷ []

sample-IsPlain : All IsPlain sample_env
unfolding contains_byte
sample-IsPlain = ((refl, refl, refl), ((refl, refl, refl), tt))

sample-IsTable : IsTable sample_env
unfolding get
sample-IsTable = (refl, (refl, tt))

parse_dns_env-render_env_example : parse_dns_env (render_env sample_env) ≡ sample_env
parse_dns_env-render_env_example = parse_dns_env-render_env sample_env sample-IsPlain sample-IsTable

abbrev sample_tls : TlsSettings
sample_tls = record {
  server_name = "node.example";
  server_names = none;
  cert_mode = "self";
  cert_file = "";
  key_file = "";
  tls_cert = "";
  tls_key = "";
  provider = "";
  dns_env = [];
  reject_unknown_sni = "0";
}

abbrev sample_common : CommonNode
sample_common = record {
  protocol = "hysteria2";
  listen_ip = [];
  server_port = pos 443;
  routes = none;
  base_config = none;
  tls = pos 1;
  tls_settings = sample_tls;
  cert_info = none;
  up_mbps = pos 0;
  down_mbps = pos 100;
  obfs = "";
  obfs_password = "";
  ignore_client_bandwidth = false;
}

abbrev decoded : String → Option CommonNode
decoded body = some sample_common

abbrev answering : Reply
answering = answered (record {
  status = 200;
  contract = "hy2-1";
  content_type = "application/json";
  etag = "v1";
  body = some "{}";
})

abbrev panel_env : Env
panel_env = record {
  encode_state = λ _. none;
  decode_state = λ _. none;
  encode_batch = λ _. none;
  decode_ack = λ _. none;
  decode_conflict = λ _. none;
  decode_next = λ _. none;
  decode_cursor = λ _. none;
  decode_users = λ _. none;
  sha256_hex = λ _. "00";
  transport = λ _ _. answering;
  file_fault = λ _ _. none;
  renamed_anyway = λ _. false;
  lock = λ _. locked;
  now = λ _. pos 1_000_000;
  context_error = λ _. none;
  commit = λ _ _. none;
  revoke = λ _ _. none;
  capture = λ _. ok [];
}

abbrev no_cache : NodeCache
no_cache = record { node_etag = ""; response_body_hash = "" }

abbrev first_world : World
first_world = record { client = new_client "outbox"; disk = none; calls = 0; trace = [] }

get_node_info-IsAccepted_example :
    IsAcceptedResult
      (get_node_info "https://panel" (pos 7) panel_env decoded no_cache first_world).0
get_node_info-IsAccepted_example =
    get_node_info-IsAccepted "https://panel" (pos 7) panel_env decoded no_cache first_world

abbrev sample_answer : Answer
sample_answer = record { body = "{}"; etag = "v1"; unchanged = false }

abbrev sample_info : NodeInfo
sample_info = node_info_of "https://panel" (pos 7) "v1" "00" sample_common

-- The request of the example is answered with this configuration, which has this tag.
sample-fetched :
    (get_node_info "https://panel" (pos 7) panel_env decoded no_cache first_world).0
    ≡ ok (some sample_info)
unfolding get_node_info trim_right trim_left
sample-fetched = refl

sample-tag : sample_info.tag ≡ "[https://panel]-hysteria2:7"
unfolding node_info_of decimal
sample-tag = refl

sample-parsed :
    parse_node "https://panel" (pos 7) panel_env decoded no_cache sample_answer
    ≡ ok (some sample_info)
unfolding parse_node trim_right trim_left
sample-parsed = refl
