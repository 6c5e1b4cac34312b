-- ===== src/Server/Certificates.antt =====
-- The cache of a node's certificate: certificateCache of core/officialhy2/config.go. The loaded
-- certificate is of the TLS library; times are nanoseconds.
use v2node_hy.Base.{
  ℕ, ◌-◌, ◌*◌, ℤ, Bool, true, false, not, ◌||◌, Option, none, some, ltb, eqb_ℤ, if◌then◌else◌,
}

-- What os.Stat tells of a file, as far as the cache looks at it.
pub record FileInfo : Type 0 where
  pub mod_time : ℤ
  pub size : ℤ

-- What LoadX509KeyPair and the two calls of Stat return; `none` is an error.
pub record View (C : Type 0) : Type 0 where
  pub pair : Option C
  pub cert_stat : Option FileInfo
  pub key_stat : Option FileInfo

pub record CertificateCache (C : Type 0) : Type 0 where
  pub cert : C
  pub cert_stat : FileInfo
  pub key_stat : FileInfo
  pub last_check : ℕ

abbrev pub default_cert_check_interval : ℕ
default_cert_check_interval = 5 * 1_000_000_000

module _ {C : Type 0} where
  -- The loaded certificate with the stats, at the time of their end.
  unfoldable pub loaded :
      ℕ → Option C → Option FileInfo → Option FileInfo → Option (CertificateCache C)
  loaded done (some c) (some i) (some k) =
      some (record { cert = c; cert_stat = i; key_stat = k; last_check = done })
  loaded done _ _ _ = none

  unfoldable pub reload_locked : ℕ → View C → Option (CertificateCache C)
  unfolding loaded
  reload_locked done v = loaded done v.pair v.cert_stat v.key_stat

  abbrev pub new_certificate_cache : ℕ → View C → Option (CertificateCache C)
  new_certificate_cache done v = reload_locked done v

  unfoldable pub stats_differ : Option FileInfo → Option FileInfo → CertificateCache C → Option Bool
  stats_differ (some i) (some k) c = some (
      not (eqb_ℤ i.mod_time c.cert_stat.mod_time)
      || not (eqb_ℤ k.mod_time c.key_stat.mod_time)
      || not (eqb_ℤ i.size c.cert_stat.size)
      || not (eqb_ℤ k.size c.key_stat.size))
  stats_differ _ _ c = none

  -- `none` is an error.
  unfoldable pub changed_locked : View C → CertificateCache C → Option Bool
  unfolding stats_differ
  changed_locked v c = stats_differ v.cert_stat v.key_stat c

  abbrev pub is_fresh : ℕ → CertificateCache C → Bool
  is_fresh now c = ltb (now - c.last_check) default_cert_check_interval

  abbrev pub noted : ℕ → CertificateCache C → CertificateCache C
  noted now c = record c { last_check = now }

  unfoldable pub after_reload :
      ℕ → Option (CertificateCache C) → CertificateCache C → CertificateCache C
  after_reload now none c = noted now c
  after_reload now (some d) c = d

  unfoldable pub after_change :
      ℕ → ℕ → Option Bool → View C → CertificateCache C → CertificateCache C
  unfolding after_reload reload_locked
  after_change now done none v c = noted now c
  after_change now done (some false) v c = noted now c
  after_change now done (some true) v c = after_reload now (reload_locked done v) c

  -- The part of GetCertificate under the lock of writers, at `now`; a reload ends at `done`, and
  -- sees the second view.
  unfoldable pub refresh : ℕ → ℕ → View C → View C → CertificateCache C → CertificateCache C
  unfolding changed_locked after_change
  refresh now done v w c =
      if is_fresh now c then c else after_change now done (changed_locked v c) w c

  -- GetCertificate, where no other call comes between its two parts.
  unfoldable pub get_certificate :
      ℕ → ℕ → View C → View C → CertificateCache C → C × CertificateCache C
  unfolding refresh
  get_certificate now done v w c =
      if is_fresh now c then (c.cert, c) else (let d = refresh now done v w c in (d.cert, d))
