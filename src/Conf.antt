-- ===== src/Conf.antt =====
-- The configuration file: conf/conf.go. Reading and decoding it is outside this code.
use v2node_hy.Base.{ℤ, pos, String, Bool, false, Option, none, some, List, [], map, Bytes, Table}
use v2node_hy.Traffic.Effect.{Error, wrapped, Result, ok, err}

pub record LogConfig : Type 0 where
  pub level : String
  pub output : String
  pub access : String

pub record NodeConfig : Type 0 where
  pub state_directory : String
  pub api_host : String
  pub node_id : ℤ
  pub key : String
  pub timeout : ℤ
  pub retry_count : Option ℤ

pub record SocksConfig : Type 0 where
  pub tag : Bytes
  pub address : Bytes
  pub port : ℤ
  pub username : String
  pub password : String

pub record UnlockConfig : Type 0 where
  pub enable : Bool
  pub default_outbound : Bytes
  pub socks : List SocksConfig
  pub rules : List Bytes
  pub rule_sets : Table Bytes (List Bytes)

pub record Conf : Type 0 where
  pub log_config : LogConfig
  pub node_configs : List NodeConfig
  pub unlock : UnlockConfig
  pub pprof_port : ℤ

abbrev pub default_node_retry_count : ℤ
default_node_retry_count = pos 1

abbrev pub default_node_timeout : ℤ
default_node_timeout = pos 15

abbrev pub new_conf : Conf
new_conf = record {
  log_config = record { level = "info"; output = ""; access = "none" };
  node_configs = [];
  unlock = record { enable = false; default_outbound = []; socks = []; rules = []; rule_sets = [] };
  pprof_port = pos 0;
}

unfoldable pub with_retry_count : NodeConfig → NodeConfig
with_retry_count n = elim n.retry_count [
  | none ↦ record n { retry_count = some default_node_retry_count }
  | some c ↦ n
]

-- The errors of os.Open and of reading, and what decoding makes of the configuration so far.
unfoldable pub load_from_path :
    Option Error → Option Error → (Conf → Result Conf) → Conf → Result Conf
unfolding with_retry_count
load_from_path (some e) read decode c = err (wrapped "open config file error" e)
load_from_path none (some e) decode c = err (wrapped "read config file error" e)
load_from_path none none decode c = elim (decode c) [
  | err e ↦ err (wrapped "unmarshal config error" e)
  | ok d ↦ ok (record d { node_configs = map with_retry_count d.node_configs })
]
