-- ===== src/Server/Addresses.antt =====
-- Addresses and names of the server: formatAddress, normalizeListenIP, trimBracketedIP and the
-- masquerade sites of core/officialhy2/config.go.
use v2node_hy.Base.{
  ℕ, suc, ◌==◌, ℤ, pos, negsuc, eqb_ℤ, Bool, false, not, ◌&&◌, ◌||◌, Option, none, some, List, [],
  ◌∷◌, ◌++◌, map, Bytes, is_nil, eq_bytes, trim_space, contains_byte, ends_with, drop_last, split,
  show_nat, if◌then◌else◌,
}
use v2node_hy.Traffic.Checks.{codes}
use v2node_hy.Traffic.Panel.{lower}
use v2node_hy.NodeInfo.{CertInfo, CommonNode, NodeInfo, primary_server_name, parse_int}

abbrev pub to_lower : Bytes → Bytes
to_lower s = map lower s

abbrev pub starts_with : ℕ → Bytes → Bool
starts_with b [] = false
starts_with b (c ∷ s) = c == b

abbrev drop_first : Bytes → Bytes
drop_first [] = []
drop_first (c ∷ s) = s

unfoldable pub trim_bracketed_ip : Bytes → Bytes
trim_bracketed_ip ip =
    if starts_with b'[' ip && ends_with b']' ip
    then (let inner = drop_first ip in if ends_with b']' inner then drop_last inner else inner)
    else ip

unfoldable pub show_int : ℤ → Bytes
show_int (pos n) = show_nat n
show_int (negsuc n) = b'-' ∷ show_nat (suc n)

unfoldable pub format_address : Bytes → ℤ → Bytes
unfolding trim_bracketed_ip show_int
format_address ip port =
    let host = trim_bracketed_ip (trim_space ip) in
    if is_nil host
    then b':' ∷ show_int port
    else if contains_byte b':' host
    then b'[' ∷ host ++ (b']' ∷ b':' ∷ show_int port)
    else host ++ b':' ∷ show_int port

unfoldable pub is_wildcard : Bytes → Bool
is_wildcard ip =
    is_nil ip
    || eq_bytes ip (codes "*")
    || eq_bytes ip (codes "0.0.0.0")
    || eq_bytes ip (codes "::")

unfoldable pub normalize_listen_ip : Bytes → Bytes
unfolding is_wildcard trim_bracketed_ip
normalize_listen_ip ip =
    let host = trim_bracketed_ip (trim_space ip) in if is_wildcard (to_lower host) then [] else host

unfoldable pub masq_site_by_port : ℤ → Bytes
masq_site_by_port port =
    if eqb_ℤ port (pos 51801)
    then codes "gm"
    else if eqb_ℤ port (pos 51802)
    then codes "nnm"
    else if eqb_ℤ port (pos 51803)
    then codes "ovo"
    else if eqb_ℤ port (pos 51804)
    then codes "yiyuan"
    else if eqb_ℤ port (pos 51805)
    then codes "clash"
    else if eqb_ℤ port (pos 51806)
    then codes "pianyi"
    else []

unfoldable pub is_site : Bytes → Bool
is_site s =
    eq_bytes s (codes "gm")
    || eq_bytes s (codes "nnm")
    || eq_bytes s (codes "ovo")
    || eq_bytes s (codes "yiyuan")
    || eq_bytes s (codes "clash")
    || eq_bytes s (codes "pianyi")

abbrev pub first_label : List Bytes → Bytes
first_label [] = []
first_label (l ∷ ls) = l

abbrev pub trim_dot : Bytes → Bytes
trim_dot s = if ends_with b'.' s then drop_last s else s

unfoldable pub site_of_label : Bytes → Bytes
unfolding is_site masq_site_by_port
site_of_label label =
    if is_site label
    then label
    else elim (parse_int label) [ none ↦ [] | some port ↦ masq_site_by_port port ]

unfoldable pub masq_site_by_name : Bytes → Bytes
unfolding site_of_label
masq_site_by_name name =
    let trimmed = trim_dot (trim_space (to_lower name)) in
    if is_nil trimmed then [] else site_of_label (first_label (split b'.' trimmed))

unfoldable pub cert_domain_of : Option CertInfo → Bytes
cert_domain_of none = []
cert_domain_of (some i) = to_lower (codes i.cert_domain)

unfoldable pub masq_site_of : CommonNode → Bytes
unfolding cert_domain_of masq_site_by_name masq_site_by_port
masq_site_of cm =
    let domain = cert_domain_of cm.cert_info in
    let name =
      (if is_nil domain then to_lower (codes (primary_server_name cm.tls_settings)) else domain) in
    let site = masq_site_by_name name in
    if is_nil site then masq_site_by_port cm.server_port else site

abbrev masq_site_in : Option CommonNode → Bytes
masq_site_in none = []
masq_site_in (some cm) = masq_site_of cm

unfoldable pub masq_site : Option NodeInfo → Bytes
unfolding masq_site_of
masq_site none = []
masq_site (some n) = masq_site_in n.common

-- The page of a node. `read_file` is os.ReadFile on `index.html` in the site's directory.
pub record StaticMasqHandler : Type 0 where
  pub site : Bytes
  pub content : Bytes
  pub content_type : Bytes

-- `default_page` is the page with the escaped title.
unfoldable pub page_of : (Bytes → Bytes) → Bytes → Option Bytes → StaticMasqHandler
page_of default_page site found =
    let html = codes "text/html; charset=utf-8" in
    elim found [
      | none ↦ record { site = site; content = default_page site; content_type = html }
      | some content ↦ record {
        site = site;
        content = if is_nil content then default_page site else content;
        content_type = html;
      }
    ]

unfoldable pub static_masq_handler :
    (Bytes → Option Bytes) → (Bytes → Bytes) → Option NodeInfo → StaticMasqHandler
unfolding masq_site page_of
static_masq_handler read_file default_page info =
    let site = masq_site info in
    if is_nil site
    then page_of default_page (codes "v2node") none
    else page_of default_page site (read_file site)

-- The answer to a request: `none` is "not found".
unfoldable pub serve_http : StaticMasqHandler → Bytes → Option Bytes
serve_http h path =
    if not (eq_bytes path (codes "/")) && not (eq_bytes path (codes "/index.html"))
    then none
    else some h.content
