-- ===== src/Certs.antt =====
-- The certificate files of a node: requestCert, generateSelfSslCertificate and renewCertTask of
-- node/cert.go, and node/lego.go but for the account's file. Paths are lists of code points; the
-- ACME client, keys, certificates and faults of the file system are results in a record.
pub mod Account
pub mod Reopened
pub mod Writes
pub mod Ready
mod Examples
use v2node_hy.Base.{
  ℕ, zero, suc, ℤ, pos, ltb_ℤ, String, Bool, true, false, not, ◌&&◌, ◌||◌, ◌==◌, str_eq, Option,
  none, some, is_some, or_else, List, [], ◌∷◌, ◌++◌, length, drop, Bytes, is_nil, Table, get, put,
  bytes_key, if◌then◌else◌,
}
use v2node_hy.Traffic.Checks.{codes}
use v2node_hy.Traffic.Effect.{Error, text, wrapped, Result, ok, err}
use v2node_hy.Traffic.Panel.{has_prefix}
use v2node_hy.NodeInfo.{CertInfo}

pub record Resource : Type 0 where
  pub certificate : Bytes
  pub private_key : Bytes

-- `stat_fault` is an error of os.Stat other than "not exist"; `days_left` is `none` for a file that
-- is no certificate; the self-signed pair is `none` where x509 refuses it.
pub record CertResults : Type 0 where
  pub stat_fault : Bytes → Bool
  pub read_fault : Bytes → Option Error
  pub make_directory : Bytes → Option Error
  pub write_fault : Bytes → Option Error
  pub user : Option Error
  pub client : Option Error
  pub http_provider : Option Error
  pub dns_provider : Option Error
  pub set_dns_provider : Option Error
  pub obtain : Result Resource
  pub renew : Bytes → Result Resource
  pub days_left : Bytes → Option ℤ
  pub self_signed : Result Resource

abbrev pub Files : Type 0
Files = Table Bytes Bytes

-- `{domain}` and `{email}` in a path, by strings.NewReplacer; the number is of code points to skip.
unfoldable pub expand : Bytes → Bytes → ℕ → Bytes → Bytes
unfolding has_prefix
expand domain email k [] = []
expand domain email (suc k) (c ∷ s) = expand domain email k s
expand domain email zero (c ∷ s) =
    let after_domain = expand domain email 7 s in
    let after_email = expand domain email 6 s in
    let rest = expand domain email 0 s in
    if has_prefix (codes "{domain}") (c ∷ s)
    then domain ++ after_domain
    else if has_prefix (codes "{email}") (c ∷ s)
    then email ++ after_email
    else c ∷ rest

unfoldable pub parse_params : CertInfo → Bytes → Bytes
unfolding expand
parse_params i path = expand (codes i.cert_domain) (codes i.email) 0 path

module _ (r : CertResults) where
  abbrev pub is_exist : Bytes → Files → Bool
  is_exist path files = is_some (get path files) || r.stat_fault path

  -- checkPath and os.WriteFile; `path` is the one as it stands, and `target` the one written to.
  unfoldable pub write_file : Bytes → Bytes → Bytes → Files → Option Error × Files
  write_file path target content files = elim (r.make_directory path) [
    | some e ↦ (some (wrapped "check path error" e), files)
    | none ↦ elim (r.write_fault target) [
      | some e ↦ (some e, files)
      | none ↦ (none, put target content files)
    ]
  ]

  unfoldable pub write_key : CertInfo → Resource → Option Error × Files → Option Error × Files
  unfolding write_file parse_params
  write_key i c (some e, files) = (some e, files)
  write_key i c (none, files) =
      write_file (codes i.key_file) (parse_params i (codes i.key_file)) c.private_key files

  unfoldable pub write_cert : CertInfo → Resource → Files → Option Error × Files
  unfolding write_key write_file
  write_cert i c files =
      write_key i c
        (write_file (codes i.cert_file) (parse_params i (codes i.cert_file)) c.certificate files)

  unfoldable pub set_provider : CertInfo → Option Error
  set_provider i =
      if str_eq i.cert_mode "http"
      then r.http_provider
      else if str_eq i.cert_mode "dns"
      then elim r.dns_provider [
        | some e ↦ some (wrapped "create dns challenge provider error" e)
        | none ↦ elim r.set_dns_provider [
          | some e ↦ some (wrapped "set dns provider error" e)
          | none ↦ none
        ]
      ]
      else none

  unfoldable pub new_lego : CertInfo → Option Error
  unfolding set_provider
  new_lego i = elim r.user [
    | some e ↦ some (wrapped "create user error" e)
    | none ↦ elim r.client [
      | some e ↦ some e
      | none ↦ elim (set_provider i) [
        | some e ↦ some (wrapped "set provider error" e)
        | none ↦ none
      ]
    ]
  ]

  abbrev wrap_error : String → Option Error × Files → Option Error × Files
  wrap_error why (some e, files) = (some (wrapped why e), files)
  wrap_error why (none, files) = (none, files)

  unfoldable pub create_cert : CertInfo → Files → Option Error × Files
  unfolding write_cert
  create_cert i files = elim r.obtain [
    | err e ↦ (some (wrapped "obtain certificate error" e), files)
    | ok c ↦ wrap_error "write certificate error" (write_cert i c files)
  ]

  -- More than thirty days are left; a file that is no certificate has an error as well.
  unfoldable pub check_cert : Bytes → Bool × Option Error
  check_cert content = elim (r.days_left content) [
    | none ↦ (false, some (text "parse certificate"))
    | some days ↦ if ltb_ℤ (pos 30) days then (false, none) else (true, none)
  ]

  -- The condition of the renewal is tested before the error.
  unfoldable pub after_check : CertInfo → Bytes → Files → Bool × Option Error → Option Error × Files
  unfolding write_cert
  after_check i content files (false, e) = (none, files)
  after_check i content files (true, some e) = (some (wrapped "check cert error" e), files)
  after_check i content files (true, none) = elim (r.renew content) [
    | err e ↦ (some e, files)
    | ok c ↦ wrap_error "write certificate error" (write_cert i c files)
  ]

  unfoldable pub renew_cert : CertInfo → Files → Option Error × Files
  unfolding check_cert after_check
  renew_cert i files = elim (r.read_fault (codes i.cert_file)) [
    | some e ↦ (some (wrapped "read cert file error" e), files)
    | none ↦
        let content = or_else (get (codes i.cert_file) files) [] in
        after_check i content files (check_cert content)
  ]

  -- The task logs an error and goes on.
  unfoldable pub renew_cert_task : CertInfo → Files → Files
  unfolding new_lego renew_cert
  renew_cert_task i files = elim (new_lego i) [ some e ↦ files | none ↦ (renew_cert i files).1 ]

  -- os.OpenFile without O_TRUNC: what is longer than the new content stays behind it.
  abbrev overwritten : Bytes → Option Bytes → Bytes
  overwritten content none = content
  overwritten content (some old) = content ++ drop (length content) old

  unfoldable pub overwrite : Bytes → Bytes → Files → Option Error × Files
  overwrite path content files = elim (r.write_fault path) [
    | some e ↦ (some e, files)
    | none ↦ (none, put path (overwritten content (get path files)) files)
  ]

  unfoldable pub sign_key : Bytes → Resource → Option Error × Files → Option Error × Files
  unfolding overwrite
  sign_key path c (some e, files) = (some e, files)
  sign_key path c (none, files) = overwrite path c.private_key files

  unfoldable pub generate_self_ssl_certificate : Bytes → Bytes → Files → Option Error × Files
  unfolding overwrite sign_key
  generate_self_ssl_certificate cert_path key_path files = elim r.self_signed [
    | err e ↦ (some e, files)
    | ok c ↦ sign_key key_path c (overwrite cert_path c.certificate files)
  ]

  abbrev pub have_both : CertInfo → Files → Bool
  have_both i files = is_exist (codes i.cert_file) files && is_exist (codes i.key_file) files

  abbrev pub no_path : CertInfo → Bool
  no_path i = str_eq i.cert_file "" || str_eq i.key_file ""

  abbrev path_missing : Error
  path_missing = text "cert file path or key file path not exist"

  unfoldable pub obtain_files : CertInfo → Files → Option Error × Files
  unfolding new_lego create_cert
  obtain_files i files =
      if no_path i
      then (some path_missing, files)
      else if have_both i files
      then (none, files)
      else elim (new_lego i) [
        | some e ↦ (some (wrapped "create lego object error" e), files)
        | none ↦ wrap_error "create lego cert error" (create_cert i files)
      ]

  unfoldable pub sign_files : CertInfo → Files → Option Error × Files
  unfolding generate_self_ssl_certificate
  sign_files i files =
      if no_path i
      then (some path_missing, files)
      else if have_both i files
      then (none, files)
      else wrap_error "generate self cert error"
          (generate_self_ssl_certificate (codes i.cert_file) (codes i.key_file) files)

  unfoldable pub request_cert : CertInfo → Files → Option Error × Files
  unfolding obtain_files sign_files
  request_cert i files =
      if str_eq i.cert_mode "none" || str_eq i.cert_mode ""
      then (none, files)
      else if str_eq i.cert_mode "file"
      then (if no_path i then (some path_missing, files) else (none, files))
      else if str_eq i.cert_mode "dns" || str_eq i.cert_mode "http"
      then obtain_files i files
      else if str_eq i.cert_mode "self"
      then sign_files i files
      else (some (text "unsupported certmode"), files)
