-- ===== src/Controller/Fingerprint.antt =====
-- The part of a node's configuration that needs a reload when it changes: coreReloadFingerprint of
-- node/task.go, and `reflect.DeepEqual` on it.
use v2node_hy.Base.{
  ℤ, pos, String, Bool, true, false, Option, none, some, List, [], ◌∷◌, Bytes, ◌≡◌, ◌↔◌, subst, All,
  Key, same_refl, string_key, int_key, bytes_key, bool_key, option_key, list_key,
}
use v2node_hy.NodeInfo.{TlsSettings, Route, CommonNode, NodeInfo}
use v2node_hy.Controller.Same.{same, the_path, IsTrue, all_of, all_of_iff, route_key, tls_key}

pub record CommonCoreFingerprint : Type 0 where
  pub protocol : String
  pub listen_ip : Bytes
  pub server_port : ℤ
  pub routes : Option (List Route)
  pub tls : ℤ
  pub tls_settings : TlsSettings
  pub up_mbps : ℤ
  pub down_mbps : ℤ
  pub obfs : String
  pub obfs_password : String
  pub ignore_client_bandwidth : Bool

pub record NodeCoreFingerprint : Type 0 where
  pub id : ℤ
  pub node_type : String
  pub security : ℤ
  pub tag : String
  pub common : CommonCoreFingerprint

abbrev empty_tls : TlsSettings
empty_tls = record {
  server_name = "";
  server_names = none;
  cert_mode = "";
  cert_file = "";
  key_file = "";
  tls_cert = "";
  tls_key = "";
  provider = "";
  dns_env = [];
  reject_unknown_sni = "";
}

unfoldable pub common_fingerprint : Option CommonNode → CommonCoreFingerprint
common_fingerprint none = record {
  protocol = "";
  listen_ip = [];
  server_port = pos 0;
  routes = none;
  tls = pos 0;
  tls_settings = empty_tls;
  up_mbps = pos 0;
  down_mbps = pos 0;
  obfs = "";
  obfs_password = "";
  ignore_client_bandwidth = false;
}
common_fingerprint (some cm) = record {
  protocol = cm.protocol;
  listen_ip = cm.listen_ip;
  server_port = cm.server_port;
  routes = cm.routes;
  tls = cm.tls;
  tls_settings = cm.tls_settings;
  up_mbps = cm.up_mbps;
  down_mbps = cm.down_mbps;
  obfs = cm.obfs;
  obfs_password = cm.obfs_password;
  ignore_client_bandwidth = cm.ignore_client_bandwidth;
}

unfoldable pub core_reload_fingerprint : NodeInfo → NodeCoreFingerprint
unfolding common_fingerprint
core_reload_fingerprint n = record {
  id = n.id;
  node_type = n.node_type;
  security = n.security;
  tag = n.tag;
  common = common_fingerprint n.common;
}

abbrev pub common_checks : CommonCoreFingerprint → CommonCoreFingerprint → List Bool
common_checks a b =
    same a.protocol b.protocol
    ∷ same a.listen_ip b.listen_ip
    ∷ same a.server_port b.server_port
    ∷ same a.routes b.routes
    ∷ same a.tls b.tls
    ∷ same a.tls_settings b.tls_settings
    ∷ same a.up_mbps b.up_mbps
    ∷ same a.down_mbps b.down_mbps
    ∷ same a.obfs b.obfs
    ∷ same a.obfs_password b.obfs_password
    ∷ same a.ignore_client_bandwidth b.ignore_client_bandwidth
    ∷ []

common_sound : (a b : CommonCoreFingerprint) → All IsTrue (common_checks a b) → a ≡ b
common_sound a b h =
    let protocol_path = the_path a.protocol b.protocol (h.0) in
    let listen_ip_path = the_path a.listen_ip b.listen_ip (h.1.0) in
    let server_port_path = the_path a.server_port b.server_port (h.1.1.0) in
    let routes_path = the_path a.routes b.routes (h.1.1.1.0) in
    let tls_path = the_path a.tls b.tls (h.1.1.1.1.0) in
    let tls_settings_path = the_path a.tls_settings b.tls_settings (h.1.1.1.1.1.0) in
    let up_mbps_path = the_path a.up_mbps b.up_mbps (h.1.1.1.1.1.1.0) in
    let down_mbps_path = the_path a.down_mbps b.down_mbps (h.1.1.1.1.1.1.1.0) in
    let obfs_path = the_path a.obfs b.obfs (h.1.1.1.1.1.1.1.1.0) in
    let obfs_password_path = the_path a.obfs_password b.obfs_password (h.1.1.1.1.1.1.1.1.1.0) in
    let ignore_client_bandwidth_path =
      the_path a.ignore_client_bandwidth b.ignore_client_bandwidth (h.1.1.1.1.1.1.1.1.1.1.0) in
    λ i. record {
      protocol = protocol_path i;
      listen_ip = listen_ip_path i;
      server_port = server_port_path i;
      routes = routes_path i;
      tls = tls_path i;
      tls_settings = tls_settings_path i;
      up_mbps = up_mbps_path i;
      down_mbps = down_mbps_path i;
      obfs = obfs_path i;
      obfs_password = obfs_password_path i;
      ignore_client_bandwidth = ignore_client_bandwidth_path i;
    }

common_refl : (a : CommonCoreFingerprint) → All IsTrue (common_checks a a)
common_refl a = (
  same_refl a.protocol,
  (
    same_refl a.listen_ip,
    (
      same_refl a.server_port,
      (
        same_refl a.routes,
        (
          same_refl a.tls,
          (
            same_refl a.tls_settings,
            (
              same_refl a.up_mbps,
              (
                same_refl a.down_mbps,
                (
                  same_refl a.obfs,
                  (same_refl a.obfs_password, (same_refl a.ignore_client_bandwidth, tt)),
                ),
              ),
            ),
          ),
        ),
      ),
    ),
  ),
)

pub common_iff : (a b : CommonCoreFingerprint) → (all_of (common_checks a b) ≡ true) ↔ (a ≡ b)
common_iff a b = (
  λ h. common_sound a b ((all_of_iff (common_checks a b)).0 h),
  λ p.
      (all_of_iff (common_checks a b)).1
        (subst (λ c. All IsTrue (common_checks a c)) p (common_refl a)),
)

instance abbrev pub common_key : Key CommonCoreFingerprint
common_key = record { same = λ a b. all_of (common_checks a b); same_iff = common_iff }

abbrev pub node_checks : NodeCoreFingerprint → NodeCoreFingerprint → List Bool
node_checks a b =
    same a.id b.id
    ∷ same a.node_type b.node_type
    ∷ same a.security b.security
    ∷ same a.tag b.tag
    ∷ same a.common b.common
    ∷ []

node_sound : (a b : NodeCoreFingerprint) → All IsTrue (node_checks a b) → a ≡ b
node_sound a b h =
    let id_path = the_path a.id b.id (h.0) in
    let node_type_path = the_path a.node_type b.node_type (h.1.0) in
    let security_path = the_path a.security b.security (h.1.1.0) in
    let tag_path = the_path a.tag b.tag (h.1.1.1.0) in
    let common_path = the_path a.common b.common (h.1.1.1.1.0) in
    λ i. record {
      id = id_path i;
      node_type = node_type_path i;
      security = security_path i;
      tag = tag_path i;
      common = common_path i;
    }

node_refl : (a : NodeCoreFingerprint) → All IsTrue (node_checks a a)
node_refl a = (
  same_refl a.id,
  (same_refl a.node_type, (same_refl a.security, (same_refl a.tag, (same_refl a.common, tt)))),
)

pub node_iff : (a b : NodeCoreFingerprint) → (all_of (node_checks a b) ≡ true) ↔ (a ≡ b)
node_iff a b = (
  λ h. node_sound a b ((all_of_iff (node_checks a b)).0 h),
  λ p. (all_of_iff (node_checks a b)).1 (subst (λ c. All IsTrue (node_checks a c)) p (node_refl a)),
)

instance abbrev pub node_key : Key NodeCoreFingerprint
node_key = record { same = λ a b. all_of (node_checks a b); same_iff = node_iff }
