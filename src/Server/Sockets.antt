-- ===== src/Server/Sockets.antt =====
-- No socket is left open by a server that is not made.
use v2node_hy.Base.{
  ℕ, String, Bool, true, false, ◌||◌, Option, none, some, Bytes, is_nil, eq_bytes, if◌then◌else◌,
  ◌≡◌, refl,
}
use v2node_hy.Traffic.Checks.{codes}
use v2node_hy.Traffic.Effect.{Error, text, Result, ok, err}
use v2node_hy.NodeInfo.{CommonNode, NodeInfo}
use v2node_hy.Conf.{UnlockConfig}
use v2node_hy.Server.Certificates.{View, CertificateCache}
use v2node_hy.Server.Unlock.{
  OutboundConfig, library_default, direct_only, by_rules, failed, get_outbound_config,
}
use v2node_hy.Server.Build.{
  Config, Conn, plain, salamander, ConnResults, wrap_conn, get_conn, listen_address, obfs_of,
  obfs_password_of, tls_config, config_of, after_outbound, after_tls, build_config, server_of,
  new_server,
}

-- A socket is open exactly where there is a result.
abbrev pub IsTidy : {A : Type 0} → Result A × Bool → Type 0
IsTidy (ok a, held) = held ≡ true
IsTidy (err e, held) = held ≡ false

wrap_conn-IsTidy : (r : ConnResults) (kind password : Bytes) → IsTidy (wrap_conn r kind password)
unfolding wrap_conn
wrap_conn-IsTidy r kind password =
    by_kind (is_nil kind || eq_bytes kind (codes "plain")) (eq_bytes kind (codes "salamander"))
      (r.wrap password)
  where
    by_kind :
        (b c : Bool) (o : Option Error)
        → IsTidy {A = Conn} (
            if b
            then (ok plain, true)
            else if c
            then elim o [ some e ↦ (err e, false) | none ↦ (ok salamander, true) ]
            else (err (text "unsupported hysteria2 obfs type"), false))
    by_kind true c o = refl
    by_kind false true (some e) = refl
    by_kind false true none = refl
    by_kind false false o = refl

get_conn-IsTidy : (r : ConnResults) (o : Option CommonNode) → IsTidy (get_conn r o)
unfolding get_conn
get_conn-IsTidy r o = by_errors (r.resolve (listen_address o)) r.listen
  where
    by_errors :
        (e f : Option Error)
        → IsTidy {A = Conn} (elim e [
          | some x ↦ (err x, false)
          | none ↦ elim f [
            | some x ↦ (err x, false)
            | none ↦ wrap_conn r (obfs_of o) (obfs_password_of o)
          ]
        ])
    by_errors (some x) f = refl
    by_errors none (some x) = refl
    by_errors none none = wrap_conn-IsTidy r (obfs_of o) (obfs_password_of o)

module _ {C : Type 0} (done : ℕ) (files : String → String → View C) (is_ip : Bytes → Bool)
    (accepts : Bytes → Bool) (r : ConnResults) where
  config_of-IsTidy :
      (tls : CertificateCache C) (outbound : OutboundConfig) (n : NodeInfo) (c : Result Conn × Bool)
      → IsTidy c
      → IsTidy (config_of done files is_ip accepts r tls outbound n c)
  unfolding config_of
  config_of-IsTidy tls outbound n (err e, held) h = h
  config_of-IsTidy tls outbound n (ok c, held) h = h

  after_outbound-IsTidy :
      (tls : CertificateCache C) (outbound : OutboundConfig) (n : NodeInfo)
      → IsTidy (after_outbound done files is_ip accepts r tls outbound n)
  unfolding after_outbound
  after_outbound-IsTidy tls failed n = refl
  after_outbound-IsTidy tls library_default n =
      config_of-IsTidy tls library_default n _ (get_conn-IsTidy r n.common)
  after_outbound-IsTidy tls direct_only n =
      config_of-IsTidy tls direct_only n _ (get_conn-IsTidy r n.common)
  after_outbound-IsTidy tls (by_rules s es) n =
      config_of-IsTidy tls (by_rules s es) n _ (get_conn-IsTidy r n.common)

  after_tls-IsTidy :
      (unlock : Option UnlockConfig) (n : NodeInfo) (t : Result (CertificateCache C))
      → IsTidy (after_tls done files is_ip accepts r unlock n t)
  unfolding after_tls
  after_tls-IsTidy unlock n (err e) = refl
  after_tls-IsTidy unlock n (ok tls) =
      after_outbound-IsTidy tls (get_outbound_config is_ip accepts unlock) n

  server_of-IsTidy :
      (refuses : Config C → Option Error) (c : Result (Config C) × Bool)
      → IsTidy c
      → IsTidy (server_of done files is_ip accepts r refuses c)
  unfolding server_of
  server_of-IsTidy refuses (err e, held) h = h
  server_of-IsTidy refuses (ok c, held) h = by_refusal (refuses c)
    where
      by_refusal :
          (o : Option Error)
          → IsTidy {A = Config C} (elim o [ some e ↦ (err e, false) | none ↦ (ok c, held) ])
      by_refusal (some e) = refl
      by_refusal none = h

  -- Making a server that fails, at whatever point, leaves no socket open, and one that succeeds
  -- leaves the server's.
  pub new_server-IsTidy :
      (refuses : Config C → Option Error) (unlock : Option UnlockConfig) (n : NodeInfo)
      → IsTidy (new_server done files is_ip accepts r refuses unlock n)
  unfolding new_server build_config
  new_server-IsTidy refuses unlock n =
      server_of-IsTidy refuses (build_config done files is_ip accepts r unlock n)
        (after_tls-IsTidy unlock n (tls_config done files n))
