-- ===== src/Server/Choices.antt =====
-- What the server chooses by its configuration: the masquerade site, the outbound and its rules.
use v2node_hy.Base.{
  ℕ, ℤ, Bool, true, false, not, ◌&&◌, ◌||◌, Option, none, some, List, [], ◌∷◌, ◌++◌, Bytes, is_nil,
  eq_bytes, eq_bytes_iff, trim_space, split, if◌then◌else◌, ◌≡◌, ◌⊎◌, inl, inr, refl, sym, ◌∙◌,
  arith,
}
use v2node_hy.Traffic.Checks.{codes}
use v2node_hy.Traffic.Panel.{lower}
use v2node_hy.NodeInfo.{CommonNode, NodeInfo, parse_int, primary_server_name}
use v2node_hy.Conf.{SocksConfig, UnlockConfig}
use v2node_hy.Server.Addresses.{
  to_lower, trim_dot, first_label, is_site, masq_site_by_port, site_of_label, masq_site_by_name,
  masq_site_of, masq_site, cert_domain_of,
}
use v2node_hy.Server.Unlock.{
  Outbound, direct_outbound, socks_outbound, OutboundEntry, socks_entries, first_tag,
  direct_entries, is_named, choose_tag, get_unlock_outbounds,
}

-- No site, or one of the six.
abbrev pub IsSafe : Bytes → Type 0
IsSafe s = (is_nil s || is_site s) ≡ true

masq_site_by_port-IsSafe : (port : ℤ) → IsSafe (masq_site_by_port port)
unfolding masq_site_by_port is_site
masq_site_by_port-IsSafe port = ground arith

site_of_label-IsSafe : (label : Bytes) → IsSafe (site_of_label label)
unfolding site_of_label
site_of_label-IsSafe label = by_tests (is_site label) refl (parse_int label)
  where
    by_tests :
        (b : Bool)
        → is_site label ≡ b
        → (o : Option ℤ)
        → IsSafe (if b then label else elim o [ none ↦ [] | some port ↦ masq_site_by_port port ])
    by_tests true e o = ground (arith, e)
    by_tests false e none = refl
    by_tests false e (some port) = masq_site_by_port-IsSafe port

pick : (b : Bool) (s t : Bytes) → IsSafe s → IsSafe t → IsSafe (if b then s else t)
pick true s t h k = h
pick false s t h k = k

masq_site_by_name-IsSafe : (name : Bytes) → IsSafe (masq_site_by_name name)
unfolding masq_site_by_name
masq_site_by_name-IsSafe name =
    let trimmed = trim_dot (trim_space (to_lower name)) in
    let label = first_label (split b'.' trimmed) in
    pick (is_nil trimmed) [] (site_of_label label) refl (site_of_label-IsSafe label)

masq_site_of-IsSafe : (cm : CommonNode) → IsSafe (masq_site_of cm)
unfolding masq_site_of
masq_site_of-IsSafe cm =
    let domain = cert_domain_of cm.cert_info in
    let name =
      (if is_nil domain then to_lower (codes (primary_server_name cm.tls_settings)) else domain) in
    pick (is_nil (masq_site_by_name name)) (masq_site_by_port cm.server_port)
      (masq_site_by_name name) (masq_site_by_port-IsSafe cm.server_port)
      (masq_site_by_name-IsSafe name)

-- Whatever the panel says of a node, the directory of its page is none or one of the six sites.
pub masq_site-IsSafe : (info : Option NodeInfo) → IsSafe (masq_site info)
unfolding masq_site
masq_site-IsSafe none = refl
masq_site-IsSafe (some n) = by_common n.common
  where
    by_common : (o : Option CommonNode) → IsSafe (elim o [ none ↦ [] | some cm ↦ masq_site_of cm ])
    by_common none = refl
    by_common (some cm) = masq_site_of-IsSafe cm

lower-lower : (c : ℕ) → lower (lower c) ≡ lower c
unfolding lower
lower-lower c = ground arith

to_lower-to_lower : (s : Bytes) → to_lower (to_lower s) ≡ to_lower s
to_lower-to_lower [] = refl
to_lower-to_lower (c ∷ s) = λ i. lower-lower c i ∷ to_lower-to_lower s i

first_tag-named :
    (es : List OutboundEntry) → is_nil (first_tag es) ≡ false → is_named (first_tag es) es ≡ true
unfolding is_named
first_tag-named [] h = absurd (ground arith)
first_tag-named (e ∷ es) h =
    ground (arith, (eq_bytes_iff (to_lower e.name) (to_lower e.name)).1 refl)

direct_names :
    (to_lower (codes "direct") ≡ codes "direct") × (to_lower (codes "default") ≡ codes "default")
unfolding lower
direct_names = (refl, refl)

choose_tag-named :
    (target first : Bytes) (es : List OutboundEntry)
    → to_lower target ≡ target
    → is_named first es ≡ true
    → is_named (choose_tag target first (direct_entries ++ es)) es ≡ true
unfolding choose_tag is_named
choose_tag-named target first es l h =
    by_tests (is_named target (direct_entries ++ es)) (eq_bytes target (codes "direct"))
      (eq_bytes target (codes "default"))
      (λ n d e. ground (
        arith,
        n,
        d,
        e,
        l,
        direct_names,
        eq_bytes_iff (codes "direct") target,
        eq_bytes_iff target (codes "direct"),
        eq_bytes_iff (codes "default") target,
        eq_bytes_iff target (codes "default"),
      ))
  where
    by_tests :
        (b d e : Bool)
        → (b ≡ true → d ≡ false → e ≡ false → is_named target es ≡ true)
        → is_named (if b && not d && not e then target else first) es ≡ true
    by_tests true true e k = h
    by_tests true false true k = h
    by_tests true false false k = k refl refl refl
    by_tests false d e k = h

-- Every entry of a proxy is one of a proxy.
abbrev is_proxy : Outbound → Bool
is_proxy direct_outbound = false
is_proxy (socks_outbound a u p) = true

-- A proxy among the entries has this name, up to case.
unfoldable pub has_proxy : Bytes → List OutboundEntry → Bool
has_proxy tag [] = false
has_proxy tag (e ∷ es) =
    (eq_bytes (to_lower e.name) (to_lower tag) && is_proxy e.outbound) || has_proxy tag es

socks_entries-proxy :
    (items : List SocksConfig) (tag : Bytes)
    → is_named tag (socks_entries items) ≡ has_proxy tag (socks_entries items)
unfolding socks_entries is_named has_proxy
socks_entries-proxy [] tag = refl
socks_entries-proxy (item ∷ items) tag = ground (arith, socks_entries-proxy items tag)

first_tag-lower :
    (items : List SocksConfig)
    → to_lower (first_tag (socks_entries items)) ≡ first_tag (socks_entries items)
unfolding socks_entries
first_tag-lower [] = refl
first_tag-lower (item ∷ items) =
    ground (arith, first_tag-lower items, to_lower-to_lower (trim_space item.tag))

socks_entries-none :
    (items : List SocksConfig)
    → is_nil (first_tag (socks_entries items)) ≡ true
    → socks_entries items ≡ []
unfolding socks_entries
socks_entries-none [] h = refl
socks_entries-none (item ∷ items) h = ground (arith, h, socks_entries-none items)

target_lower :
    (b : Bool) (s t : Bytes)
    → to_lower s ≡ s
    → to_lower t ≡ t
    → to_lower (if b then s else t) ≡ (if b then s else t)
target_lower true s t h k = h
target_lower false s t h k = k

has_proxy-direct :
    (tag : Bytes) (es : List OutboundEntry)
    → has_proxy tag es ≡ true
    → has_proxy tag (direct_entries ++ es) ≡ true
unfolding has_proxy
has_proxy-direct tag es h = ground (arith, h)

-- Where no proxy of the configuration is usable the rules have no outbound; else their outbound is
-- the name of a usable proxy.
pub get_unlock_outbounds-proxy :
    (u : UnlockConfig)
    → ((socks_entries u.socks ≡ []) × ((get_unlock_outbounds u).0 ≡ []))
      ⊎ (has_proxy (get_unlock_outbounds u).0 (get_unlock_outbounds u).1 ≡ true)
unfolding get_unlock_outbounds
get_unlock_outbounds-proxy u =
    let socks = socks_entries u.socks in
    let first = first_tag socks in
    let wanted = to_lower (trim_space u.default_outbound) in
    let target = (if is_nil wanted then first else wanted) in
    by_first (is_nil first) (choose_tag target first (direct_entries ++ socks))
      (socks_entries-none u.socks)
      (λ h. has_proxy-direct (choose_tag target first (direct_entries ++ socks)) socks (
        sym (socks_entries-proxy u.socks (choose_tag target first (direct_entries ++ socks)))
        ∙ choose_tag-named target first socks
            (target_lower (is_nil wanted) first wanted (first_tag-lower u.socks)
              (to_lower-to_lower (trim_space u.default_outbound)))
            (first_tag-named socks h)))
  where
    by_first :
        (b : Bool) (tag : Bytes)
        → (b ≡ true → socks_entries u.socks ≡ [])
        → (b ≡ false → has_proxy tag (direct_entries ++ socks_entries u.socks) ≡ true)
        → ((socks_entries u.socks ≡ []) × ((if b then [] else tag) ≡ []))
          ⊎ (has_proxy (if b then [] else tag) (direct_entries ++ socks_entries u.socks) ≡ true)
    by_first true tag f g = inl (f refl, refl)
    by_first false tag f g = inr (g refl)
