-- ===== src/Server/Build.antt =====
-- Making the server of a node: buildConfig, getTLSConfig, getQUICConfig, getConn and
-- getBandwidthConfig of core/officialhy2/config.go, and newServer of manager.go. Sockets, the
-- obfuscation and the server are the library's; their results are arguments.
use v2node_hy.Base.{
  ℕ, ◌*◌, ◌/◌, ℤ, pos, eqb_ℤ, bits, String, Bool, true, false, ◌||◌, str_eq, Option, none, some, [],
  Bytes, eq_bytes, is_nil, if◌then◌else◌,
}
use v2node_hy.Traffic.Checks.{codes}
use v2node_hy.Traffic.Effect.{Error, text, outside, wrapped, Result, ok, err}
use v2node_hy.Limiter.{bytes_per_second}
use v2node_hy.NodeInfo.{CertInfo, CommonNode, NodeInfo}
use v2node_hy.Conf.{UnlockConfig}
use v2node_hy.Server.Certificates.{View, CertificateCache, new_certificate_cache}
use v2node_hy.Server.Addresses.{to_lower, normalize_listen_ip, format_address}
use v2node_hy.Server.Unlock.{OutboundConfig, failed, get_outbound_config}

-- Receive windows in bytes, and times in nanoseconds.
pub record QuicConfig : Type 0 where
  pub initial_stream_receive_window : ℕ
  pub max_stream_receive_window : ℕ
  pub initial_connection_receive_window : ℕ
  pub max_connection_receive_window : ℕ
  pub max_idle_timeout : ℕ
  pub max_incoming_streams : ℕ
  pub disable_path_mtu_discovery : Bool

abbrev default_stream_receive_window : ℕ
default_stream_receive_window = 8388608

abbrev default_conn_receive_window : ℕ
default_conn_receive_window = default_stream_receive_window * 5 / 2

abbrev pub quic_config : QuicConfig
quic_config = record {
  initial_stream_receive_window = default_stream_receive_window;
  max_stream_receive_window = default_stream_receive_window;
  initial_connection_receive_window = default_conn_receive_window;
  max_connection_receive_window = default_conn_receive_window;
  max_idle_timeout = 30 * 1_000_000_000;
  max_incoming_streams = 1024;
  disable_path_mtu_discovery = false;
}

-- Bytes per second; 0 is no limit.
pub record BandwidthConfig : Type 0 where
  pub force_server_bandwidth : Bool
  pub max_tx : ℕ
  pub max_rx : ℕ

abbrev rate_of : ℤ → ℕ
rate_of mbps = if eqb_ℤ mbps (pos 0) then 0 else bits (bytes_per_second mbps)

unfoldable pub bandwidth_config : Option CommonNode → BandwidthConfig
bandwidth_config none = record { force_server_bandwidth = true; max_tx = 0; max_rx = 0 }
bandwidth_config (some cm) = record {
  force_server_bandwidth = true;
  max_tx = rate_of cm.up_mbps;
  max_rx = rate_of cm.down_mbps;
}

abbrev cert_in : Option CommonNode → Option CertInfo
cert_in none = none
cert_in (some cm) = cm.cert_info

module _ {C : Type 0} where
  unfoldable pub cert_cache_of :
      ℕ → (String → String → View C) → CertInfo → Result (CertificateCache C)
  cert_cache_of done files i =
      if str_eq i.cert_mode "none" || str_eq i.cert_mode ""
      then err (text "hysteria2 cert mode cannot be none")
      else elim (new_certificate_cache done (files i.cert_file i.key_file)) [
        | none ↦ err (outside "load key pair")
        | some c ↦ ok c
      ]

  unfoldable pub tls_config :
      ℕ → (String → String → View C) → NodeInfo → Result (CertificateCache C)
  unfolding cert_cache_of
  tls_config done files n = elim (cert_in n.common) [
    | none ↦ err (text "hysteria2 cert info is empty")
    | some i ↦ cert_cache_of done files i
  ]

-- A socket, as it is or under the obfuscation, and the errors on the way to it.
pub data Conn : Type 0 where
  plain salamander : Conn

pub record ConnResults : Type 0 where
  pub resolve : Bytes → Option Error
  pub listen : Option Error
  pub wrap : Bytes → Option Error

-- The result, and whether a socket is open after it.
unfoldable pub wrap_conn : ConnResults → Bytes → Bytes → Result Conn × Bool
wrap_conn r kind password =
    if is_nil kind || eq_bytes kind (codes "plain")
    then (ok plain, true)
    else if eq_bytes kind (codes "salamander")
    then elim (r.wrap password) [ some e ↦ (err e, false) | none ↦ (ok salamander, true) ]
    else (err (text "unsupported hysteria2 obfs type"), false)

abbrev pub listen_address : Option CommonNode → Bytes
listen_address none = format_address [] (pos 0)
listen_address (some cm) = format_address (normalize_listen_ip cm.listen_ip) cm.server_port

abbrev pub obfs_of : Option CommonNode → Bytes
obfs_of none = []
obfs_of (some cm) = to_lower (codes cm.obfs)

abbrev pub obfs_password_of : Option CommonNode → Bytes
obfs_password_of none = []
obfs_password_of (some cm) = codes cm.obfs_password

unfoldable pub get_conn : ConnResults → Option CommonNode → Result Conn × Bool
unfolding format_address normalize_listen_ip wrap_conn
get_conn r o = elim (r.resolve (listen_address o)) [
  | some e ↦ (err e, false)
  | none ↦ elim r.listen [
    | some e ↦ (err e, false)
    | none ↦ wrap_conn r (obfs_of o) (obfs_password_of o)
  ]
]

-- What the server is made of; the rest are the node's loggers, its authenticator and constants.
pub record Config (C : Type 0) : Type 0 where
  pub tls : CertificateCache C
  pub quic : QuicConfig
  pub conn : Conn
  pub outbound : OutboundConfig
  pub bandwidth : BandwidthConfig
  pub ignore_client_bandwidth : Bool

module _ {C : Type 0} (done : ℕ) (files : String → String → View C) (is_ip : Bytes → Bool)
    (accepts : Bytes → Bool) (r : ConnResults) where
  abbrev ignores : Option CommonNode → Bool
  ignores none = false
  ignores (some cm) = cm.ignore_client_bandwidth

  unfoldable pub config_of :
      CertificateCache C → OutboundConfig → NodeInfo → Result Conn × Bool → Result (Config C) × Bool
  unfolding bandwidth_config
  config_of tls outbound n (err e, held) = (err e, held)
  config_of tls outbound n (ok conn, held) = (
    ok (record {
      tls = tls;
      quic = quic_config;
      conn = conn;
      outbound = outbound;
      bandwidth = bandwidth_config n.common;
      ignore_client_bandwidth = ignores n.common;
    }),
    held,
  )

  unfoldable pub after_outbound :
      CertificateCache C → OutboundConfig → NodeInfo → Result (Config C) × Bool
  unfolding config_of get_conn
  after_outbound tls failed n = (err (wrapped "build unlock acl" (outside "acl")), false)
  after_outbound tls outbound n = config_of tls outbound n (get_conn r n.common)

  unfoldable pub after_tls :
      Option UnlockConfig → NodeInfo → Result (CertificateCache C) → Result (Config C) × Bool
  unfolding after_outbound get_outbound_config
  after_tls unlock n (err e) = (err e, false)
  after_tls unlock n (ok tls) = after_outbound tls (get_outbound_config is_ip accepts unlock) n

  unfoldable pub build_config : Option UnlockConfig → NodeInfo → Result (Config C) × Bool
  unfolding after_tls tls_config
  build_config unlock n = after_tls unlock n (tls_config done files n)

  -- `refuses` is the error of the library's NewServer; the socket of a server that is not made is
  -- closed.
  unfoldable pub server_of :
      (Config C → Option Error) → Result (Config C) × Bool → Result (Config C) × Bool
  server_of refuses (err e, held) = (err e, held)
  server_of refuses (ok c, held) = elim (refuses c) [
    | some e ↦ (err e, false)
    | none ↦ (ok c, held)
  ]

  unfoldable pub new_server :
      (Config C → Option Error) → Option UnlockConfig → NodeInfo → Result (Config C) × Bool
  unfolding build_config server_of
  new_server refuses unlock n = server_of refuses (build_config unlock n)
