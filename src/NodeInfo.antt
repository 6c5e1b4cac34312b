-- ===== src/NodeInfo.antt =====
-- What the panel says of a node: api/v2board/node.go. Durations are nanoseconds in an `int64`.
-- A slice is an `Option`, since nil is another value than an empty one. Decoding of JSON is a parameter; `Number` has a case for each type that the code converts.
pub mod Fetch
pub mod Accepted
pub mod Intervals
pub mod Environment
mod Examples
use v2node_hy.Base.{
  ℕ, suc, ◌-◌, ◌*◌, ◌==◌, ltb, leb, sign_bit, ℤ, pos, negsuc, sub_ℕ, wrap, leb_ℤ, ltb_ℤ, Bool, true,
  false, not, ◌&&◌, ◌||◌, String, str_append, str_eq, Option, none, some, List, [], ◌∷◌, length,
  Bytes, is_nil, trim_space, read_nat, cut, split, Table, put, bytes_key, if◌then◌else◌,
}

pub record TlsSettings : Type 0 where
  pub server_name : String
  pub server_names : Option (List String)
  pub cert_mode : String
  pub cert_file : String
  pub key_file : String
  pub tls_cert : String
  pub tls_key : String
  pub provider : String
  pub dns_env : Bytes
  pub reject_unknown_sni : String

pub record CertInfo : Type 0 where
  pub cert_mode : String
  pub cert_file : String
  pub key_file : String
  pub tls_cert : String
  pub tls_key : String
  pub email : String
  pub cert_domain : String
  pub dns_env : Table Bytes Bytes
  pub provider : String
  pub reject_unknown_sni : Bool

pub record Route : Type 0 where
  pub id : ℤ
  pub match_list : Option (List String)
  pub action : String
  pub action_value : Option String

-- A value of type `any`: the signed types, the unsigned ones that fit, `uint64`, the floats with
-- their conversion to `int64`, texts, and the rest.
pub data Number : Type 0 where
  int_value : ℤ → Number
  uint_value uint64_value : ℕ → Number
  float_value : ℤ → Number
  text_value : Bytes → Number
  other_value : Number

pub record BaseConfig : Type 0 where
  pub push_interval : Number
  pub pull_interval : Number
  pub device_online_min_traffic : ℤ
  pub node_report_min_traffic : ℤ

pub record CommonNode : Type 0 where
  pub protocol : String
  pub listen_ip : Bytes
  pub server_port : ℤ
  pub routes : Option (List Route)
  pub base_config : Option BaseConfig
  pub tls : ℤ
  pub tls_settings : TlsSettings
  pub cert_info : Option CertInfo
  pub up_mbps : ℤ
  pub down_mbps : ℤ
  pub obfs : String
  pub obfs_password : String
  pub ignore_client_bandwidth : Bool

pub record NodeInfo : Type 0 where
  pub etag : String
  pub body_hash : String
  pub id : ℤ
  pub node_type : String
  pub security : ℤ
  pub push_interval : ℤ
  pub pull_interval : ℤ
  pub tag : String
  pub common : Option CommonNode

-- The validators of the client.
pub record NodeCache : Type 0 where
  pub node_etag : String
  pub response_body_hash : String

unfoldable pub commit_node_info : Option NodeInfo → NodeCache → NodeCache
commit_node_info none c = c
commit_node_info (some n) c = record { node_etag = n.etag; response_body_hash = n.body_hash }

abbrev pub elements : {A : Type 0} → Option (List A) → List A
elements none = []
elements (some l) = l

abbrev pub effective_server_names : TlsSettings → Option (List String)
effective_server_names t =
    if ltb 0 (length (elements t.server_names))
    then t.server_names
    else if str_eq t.server_name ""
    then none
    else some (t.server_name ∷ [])

abbrev pub first_name : List String → String
first_name [] = ""
first_name (s ∷ ss) = s

unfoldable pub primary_server_name : TlsSettings → String
primary_server_name t = first_name (elements (effective_server_names t))

abbrev pub second : ℕ
second = 1_000_000_000

abbrev pub default_panel_interval : ℤ
default_panel_interval = pos (60 * second)

abbrev pub min_panel_interval : ℤ
min_panel_interval = pos (5 * second)

-- strconv.ParseInt(s, 10, 64).
abbrev pub in_range : Bool → Option ℕ → Option ℤ
in_range negative none = none
in_range false (some n) = if ltb n sign_bit then some (pos n) else none
in_range true (some n) = if leb n sign_bit then some (sub_ℕ 0 n) else none

unfoldable pub parse_int : Bytes → Option ℤ
parse_int [] = none
parse_int (c ∷ s) =
    if c == b'-'
    then in_range true (read_nat s)
    else if c == b'+'
    then in_range false (read_nat s)
    else in_range false (read_nat (c ∷ s))

-- The number of seconds; `none` is the fallback.
unfoldable pub seconds_of : Number → Option ℤ
unfolding parse_int
seconds_of (int_value v) = some v
seconds_of (uint_value v) = some (pos v)
seconds_of (uint64_value v) = if ltb (sign_bit - 1) v then none else some (pos v)
seconds_of (float_value v) = some v
seconds_of (text_value s) = parse_int (trim_space s)
seconds_of other_value = none

unfoldable pub nanoseconds : ℤ → ℤ
nanoseconds (pos n) = wrap (pos (n * second))
nanoseconds (negsuc n) = wrap (sub_ℕ 0 (suc n * second))

unfoldable pub checked_interval : Option ℤ → ℤ → ℤ
unfolding nanoseconds
checked_interval none fallback = fallback
checked_interval (some seconds) fallback =
    if leb_ℤ seconds (pos 0)
    then fallback
    else if ltb_ℤ (nanoseconds seconds) min_panel_interval
    then min_panel_interval
    else nanoseconds seconds

unfoldable pub interval_to_time : Number → ℤ → ℤ
unfolding seconds_of checked_interval
interval_to_time i fallback = checked_interval (seconds_of i) fallback

-- One item of `DNSEnv`, and the items of the list.
unfoldable pub note_env : Option (Bytes × Bytes) → Table Bytes Bytes → Table Bytes Bytes
note_env none m = m
note_env (some (k, v)) m = put k v m

unfoldable pub note_envs : List Bytes → Table Bytes Bytes → Table Bytes Bytes
unfolding note_env
note_envs [] m = m
note_envs (e ∷ es) m = note_envs es (note_env (cut b'=' e) m)

unfoldable pub parse_dns_env : Bytes → Table Bytes Bytes
unfolding note_envs
parse_dns_env s = if is_nil s then [] else note_envs (split b',' s) []
