-- ===== src/Server/Examples.antt =====
-- A server's files and configuration, and the theorems on them at these values.
use v2node_hy.Base.{
  ℕ, pos, eqb_ℤ, String, true, false, Option, none, some, List, [], ◌∷◌, trim_left, trim_right,
  ends_with, split, if◌then◌else◌, ◌≡◌, ◌⊎◌, refl,
}
use v2node_hy.Traffic.Checks.{codes}
use v2node_hy.Traffic.Panel.{lower}
use v2node_hy.Traffic.Effect.{text, Result, ok}
use v2node_hy.NodeInfo.{TlsSettings, CertInfo, NodeInfo, primary_server_name}
use v2node_hy.Conf.{UnlockConfig}
use v2node_hy.Server.Certificates.{
  FileInfo, View, CertificateCache, new_certificate_cache, reload_locked, get_certificate,
}
use v2node_hy.Server.Freshness.{Call, certificates, ServesAll, served, certificates-ServesAll}
use v2node_hy.Server.Addresses.{masq_site}
use v2node_hy.Server.Unlock.{get_unlock_outbounds, socks_entries}
use v2node_hy.Server.Choices.{IsSafe, masq_site-IsSafe, has_proxy, get_unlock_outbounds-proxy}
use v2node_hy.Server.Build.{ConnResults, new_server}
use v2node_hy.Server.Outbounds.{Ip, ipv4_address, ipv6_address, AddrEx, resolve_addr_ex_tcp}
use v2node_hy.Server.Families.{IsV4, resolve_addr_ex_tcp-IsV4}
use v2node_hy.Server.Sockets.{IsTidy, new_server-IsTidy}

-- Certificates are named by their files: those of an early time are "old".
abbrev content : FileInfo → FileInfo → Option String
content i k = some (if eqb_ℤ i.mod_time (pos 1) then "old" else "new")

abbrev info_at : ℕ → FileInfo
info_at t = record { mod_time = pos t; size = pos 100 }

abbrev files_at : ℕ → View String
files_at t = record {
  pair = content (info_at t) (info_at t);
  cert_stat = some (info_at t);
  key_stat = some (info_at t);
}

abbrev first_cache : CertificateCache String
first_cache = record { cert = "old"; cert_stat = info_at 1; key_stat = info_at 1; last_check = 0 }

abbrev calls : List (Call String)
calls =
    record { now = 1_000_000_000; done = 1_000_000_000; files = files_at 2 }
    ∷ record { now = 6_000_000_000; done = 6_000_000_001; files = files_at 2 }
    ∷ []

cache-made : new_certificate_cache 0 (files_at 1) ≡ some first_cache
unfolding reload_locked
cache-made = refl

certificates-ServesAll_example :
    ServesAll content calls (served content first_cache) (certificates calls first_cache)
certificates-ServesAll_example =
    certificates-ServesAll content 0 (files_at 1) first_cache calls refl cache-made
      (refl, (refl, tt))

-- The second call is late enough to see the new files.
certificates-renewed : certificates calls first_cache ≡ "old" ∷ "new" ∷ []
unfolding get_certificate
certificates-renewed = refl

abbrev sample_tls : TlsSettings
sample_tls = record {
  server_name = "Ovo.example";
  server_names = none;
  cert_mode = "file";
  cert_file = "c";
  key_file = "k";
  tls_cert = "";
  tls_key = "";
  provider = "";
  dns_env = [];
  reject_unknown_sni = "0";
}

abbrev sample_cert : CertInfo
sample_cert = record {
  cert_mode = "file";
  cert_file = "c";
  key_file = "k";
  tls_cert = "";
  tls_key = "";
  email = "";
  cert_domain = "";
  dns_env = [];
  provider = "";
  reject_unknown_sni = false;
}

abbrev sample_info : NodeInfo
sample_info = record {
  etag = "";
  body_hash = "";
  id = pos 7;
  node_type = "hysteria2";
  security = pos 1;
  push_interval = pos 60_000_000_000;
  pull_interval = pos 60_000_000_000;
  tag = "t";
  common = some (record {
    protocol = "hysteria2";
    listen_ip = [];
    server_port = pos 443;
    routes = none;
    base_config = none;
    tls = pos 1;
    tls_settings = sample_tls;
    cert_info = some sample_cert;
    up_mbps = pos 0;
    down_mbps = pos 100;
    obfs = "salamander";
    obfs_password = "secret";
    ignore_client_bandwidth = false;
  });
}

masq_site-IsSafe_example : IsSafe (masq_site (some sample_info))
masq_site-IsSafe_example = masq_site-IsSafe (some sample_info)

sample-site : masq_site (some sample_info) ≡ codes "ovo"
unfolding masq_site ends_with trim_right trim_left primary_server_name lower split
sample-site = refl

abbrev sample_unlock : UnlockConfig
sample_unlock = record {
  enable = true;
  default_outbound = codes "direct";
  socks =
      record {
        tag = codes " HK ";
        address = codes "10.0.0.1";
        port = pos 1080;
        username = "";
        password = "";
      }
      ∷ [];
  rules = [];
  rule_sets = [];
}

get_unlock_outbounds-proxy_example :
    ((socks_entries sample_unlock.socks ≡ []) × ((get_unlock_outbounds sample_unlock).0 ≡ []))
    ⊎ (has_proxy (get_unlock_outbounds sample_unlock).0 (get_unlock_outbounds sample_unlock).1
        ≡ true)
get_unlock_outbounds-proxy_example = get_unlock_outbounds-proxy sample_unlock

sample-outbound : (get_unlock_outbounds sample_unlock).0 ≡ codes "hk"
unfolding get_unlock_outbounds trim_right trim_left lower
sample-outbound = refl

-- The obfuscation fails.
abbrev conn_results : ConnResults
conn_results = record {
  resolve = λ s. none;
  listen = none;
  wrap = λ s. some (text "short password");
}

new_server-IsTidy_example : IsTidy (
    new_server 0
      (λ c k. files_at 1)
      (λ s. false)
      (λ s. true)
      conn_results
      (λ c. none)
      (some sample_unlock)
      sample_info)
new_server-IsTidy_example =
    new_server-IsTidy 0 (λ c k. files_at 1) (λ s. false) (λ s. true) conn_results (λ c. none)
      (some sample_unlock) sample_info

-- A host with an address of each family.
abbrev both_families : Result (List Ip)
both_families = ok (ipv6_address "::1" ∷ ipv4_address "10.0.0.1" ∷ [])

abbrev sample_host : AddrEx
sample_host = record { host = "example"; port = 443; resolve_info = none }

resolve_addr_ex_tcp-IsV4_example :
    IsV4 443 (resolve_addr_ex_tcp (λ s. none) (λ s. both_families) sample_host)
resolve_addr_ex_tcp-IsV4_example =
    resolve_addr_ex_tcp-IsV4 (λ s. none) (λ s. both_families) sample_host tt

sample-resolved :
    resolve_addr_ex_tcp (λ s. none) (λ s. both_families) sample_host
    ≡ ok (ipv4_address "10.0.0.1", 443)
unfolding resolve_addr_ex_tcp
sample-resolved = refl
