-- ===== src/Controller/Same.antt =====
-- `reflect.DeepEqual` on the routes and the TLS settings of a configuration, field by field.
use v2node_hy.Base.{
  Bool, true, ◌&&◌, List, [], ◌∷◌, ◌≡◌, ◌↔◌, refl, arith, subst, All, Key, same_refl, string_key,
  int_key, bytes_key, bool_key, option_key, list_key,
}
use v2node_hy.NodeInfo.{TlsSettings, Route}

-- `reflect.DeepEqual` on the records, field by field.
abbrev pub same : {A : Type 0} ⦃e : Key A⦄ → A → A → Bool
same ⦃e⦄ a b = e.same a b

pub the_path : {A : Type 0} ⦃e : Key A⦄ (a b : A) → e.same a b ≡ true → a ≡ b
the_path ⦃e⦄ a b h = (e.same_iff a b).0 h

abbrev pub IsTrue : Bool → Type 0
IsTrue b = b ≡ true

abbrev pub all_of : List Bool → Bool
all_of [] = true
all_of (b ∷ bs) = b && all_of bs

pub all_of_iff : (bs : List Bool) → (all_of bs ≡ true) ↔ All IsTrue bs
all_of_iff [] = (λ h. tt, λ h. refl)
all_of_iff (b ∷ bs) = ground (arith, all_of_iff bs)

abbrev pub route_checks : Route → Route → List Bool
route_checks a b =
    same a.id b.id
    ∷ same a.match_list b.match_list
    ∷ same a.action b.action
    ∷ same a.action_value b.action_value
    ∷ []

route_sound : (a b : Route) → All IsTrue (route_checks a b) → a ≡ b
route_sound a b h =
    let id_path = the_path a.id b.id (h.0) in
    let match_list_path = the_path a.match_list b.match_list (h.1.0) in
    let action_path = the_path a.action b.action (h.1.1.0) in
    let action_value_path = the_path a.action_value b.action_value (h.1.1.1.0) in
    λ i. record {
      id = id_path i;
      match_list = match_list_path i;
      action = action_path i;
      action_value = action_value_path i;
    }

route_refl : (a : Route) → All IsTrue (route_checks a a)
route_refl a =
    (same_refl a.id, (same_refl a.match_list, (same_refl a.action, (same_refl a.action_value, tt))))

pub route_iff : (a b : Route) → (all_of (route_checks a b) ≡ true) ↔ (a ≡ b)
route_iff a b = (
  λ h. route_sound a b ((all_of_iff (route_checks a b)).0 h),
  λ p.
      (all_of_iff (route_checks a b)).1
        (subst (λ c. All IsTrue (route_checks a c)) p (route_refl a)),
)

instance abbrev pub route_key : Key Route
route_key = record { same = λ a b. all_of (route_checks a b); same_iff = route_iff }

abbrev pub tls_checks : TlsSettings → TlsSettings → List Bool
tls_checks a b =
    same a.server_name b.server_name
    ∷ same a.server_names b.server_names
    ∷ same a.cert_mode b.cert_mode
    ∷ same a.cert_file b.cert_file
    ∷ same a.key_file b.key_file
    ∷ same a.tls_cert b.tls_cert
    ∷ same a.tls_key b.tls_key
    ∷ same a.provider b.provider
    ∷ same a.dns_env b.dns_env
    ∷ same a.reject_unknown_sni b.reject_unknown_sni
    ∷ []

tls_sound : (a b : TlsSettings) → All IsTrue (tls_checks a b) → a ≡ b
tls_sound a b h =
    let server_name_path = the_path a.server_name b.server_name (h.0) in
    let server_names_path = the_path a.server_names b.server_names (h.1.0) in
    let cert_mode_path = the_path a.cert_mode b.cert_mode (h.1.1.0) in
    let cert_file_path = the_path a.cert_file b.cert_file (h.1.1.1.0) in
    let key_file_path = the_path a.key_file b.key_file (h.1.1.1.1.0) in
    let tls_cert_path = the_path a.tls_cert b.tls_cert (h.1.1.1.1.1.0) in
    let tls_key_path = the_path a.tls_key b.tls_key (h.1.1.1.1.1.1.0) in
    let provider_path = the_path a.provider b.provider (h.1.1.1.1.1.1.1.0) in
    let dns_env_path = the_path a.dns_env b.dns_env (h.1.1.1.1.1.1.1.1.0) in
    let reject_unknown_sni_path =
      the_path a.reject_unknown_sni b.reject_unknown_sni (h.1.1.1.1.1.1.1.1.1.0) in
    λ i. record {
      server_name = server_name_path i;
      server_names = server_names_path i;
      cert_mode = cert_mode_path i;
      cert_file = cert_file_path i;
      key_file = key_file_path i;
      tls_cert = tls_cert_path i;
      tls_key = tls_key_path i;
      provider = provider_path i;
      dns_env = dns_env_path i;
      reject_unknown_sni = reject_unknown_sni_path i;
    }

tls_refl : (a : TlsSettings) → All IsTrue (tls_checks a a)
tls_refl a = (
  same_refl a.server_name,
  (
    same_refl a.server_names,
    (
      same_refl a.cert_mode,
      (
        same_refl a.cert_file,
        (
          same_refl a.key_file,
          (
            same_refl a.tls_cert,
            (
              same_refl a.tls_key,
              (same_refl a.provider, (same_refl a.dns_env, (same_refl a.reject_unknown_sni, tt))),
            ),
          ),
        ),
      ),
    ),
  ),
)

pub tls_iff : (a b : TlsSettings) → (all_of (tls_checks a b) ≡ true) ↔ (a ≡ b)
tls_iff a b = (
  λ h. tls_sound a b ((all_of_iff (tls_checks a b)).0 h),
  λ p. (all_of_iff (tls_checks a b)).1 (subst (λ c. All IsTrue (tls_checks a c)) p (tls_refl a)),
)

instance abbrev pub tls_key : Key TlsSettings
tls_key = record { same = λ a b. all_of (tls_checks a b); same_iff = tls_iff }
