-- ===== src/Server/Unlock.antt =====
-- The outbounds of a node and the rules that choose among them: getOutboundConfig,
-- getUnlockOutbounds, getUnlockRules and aclRuleLine of core/officialhy2/config.go. The ACL engine
-- is the library's; `is_ip` is `net.ParseIP(s) != nil`.
use v2node_hy.Base.{
  pos, leb_ℤ, ltb, length, String, Bool, false, not, ◌&&◌, ◌||◌, ◌==◌, Option, none, some, List, [],
  ◌∷◌, ◌++◌, Bytes, is_nil, eq_bytes, trim_space, contains_byte, ends_with, join, Table,
  if◌then◌else◌,
}
use v2node_hy.Traffic.Checks.{codes}
use v2node_hy.Conf.{SocksConfig, UnlockConfig}
use v2node_hy.Server.Addresses.{to_lower, format_address}

pub data Outbound : Type 0 where
  direct_outbound : Outbound
  socks_outbound : Bytes → String → String → Outbound

pub record OutboundEntry : Type 0 where
  pub name : Bytes
  pub outbound : Outbound

abbrev pub tag_of : SocksConfig → Bytes
tag_of item = to_lower (trim_space item.tag)

abbrev pub is_skipped_item : SocksConfig → Bool
is_skipped_item item = is_nil (tag_of item) || is_nil item.address || leb_ℤ item.port (pos 0)

-- The loop over the items: the first tag that is used, and their entries.
unfoldable pub socks_entries : List SocksConfig → List OutboundEntry
unfolding format_address
socks_entries [] = []
socks_entries (item ∷ items) =
    let rest = socks_entries items in
    if is_skipped_item item
    then rest
    else record {
      name = tag_of item;
      outbound = socks_outbound (format_address item.address item.port) item.username item.password;
    }
      ∷ rest

abbrev pub first_tag : List OutboundEntry → Bytes
first_tag [] = []
first_tag (e ∷ es) = e.name

abbrev pub direct_entries : List OutboundEntry
direct_entries =
    record { name = codes "direct"; outbound = direct_outbound }
    ∷ record { name = codes "default"; outbound = direct_outbound }
    ∷ []

-- strings.EqualFold against each name.
unfoldable pub is_named : Bytes → List OutboundEntry → Bool
is_named tag [] = false
is_named tag (e ∷ es) = eq_bytes (to_lower e.name) (to_lower tag) || is_named tag es

unfoldable pub choose_tag : Bytes → Bytes → List OutboundEntry → Bytes
unfolding is_named
choose_tag target first entries =
    if is_named target entries
      && not (eq_bytes target (codes "direct"))
      && not (eq_bytes target (codes "default"))
    then target
    else first

unfoldable pub get_unlock_outbounds : UnlockConfig → Bytes × List OutboundEntry
unfolding socks_entries choose_tag
get_unlock_outbounds u =
    let socks = socks_entries u.socks in
    let entries = direct_entries ++ socks in
    let first = first_tag socks in
    let wanted = to_lower (trim_space u.default_outbound) in
    let target = (if is_nil wanted then first else wanted) in
    (if is_nil first then [] else choose_tag target first entries, entries)

abbrev pub default_unlock_domains : List Bytes
default_unlock_domains =
    codes "netflix.com"
    ∷ codes "netflix.net"
    ∷ codes "nflxext.com"
    ∷ codes "nflximg.net"
    ∷ codes "nflxso.net"
    ∷ codes "nflxvideo.net"
    ∷ codes "disneyplus.com"
    ∷ codes "disney-plus.net"
    ∷ codes "dssott.com"
    ∷ codes "bamgrid.com"
    ∷ codes "max.com"
    ∷ codes "hbomax.com"
    ∷ codes "hbomaxcdn.com"
    ∷ codes "hulu.com"
    ∷ codes "huluim.com"
    ∷ codes "primevideo.com"
    ∷ codes "amazonvideo.com"
    ∷ codes "media-amazon.com"
    ∷ codes "tv.apple.com"
    ∷ codes "itunes.apple.com"
    ∷ []

-- What the node goes out by; `failed` is the error of the ACL engine.
pub data OutboundConfig : Type 0 where
  library_default direct_only : OutboundConfig
  by_rules : Bytes → List OutboundEntry → OutboundConfig
  failed : OutboundConfig

module _ (is_ip : Bytes → Bool) where
  abbrev pub trim_first_dot : Bytes → Bytes
  trim_first_dot [] = []
  trim_first_dot (c ∷ s) = if c == b'.' then s else c ∷ s

  abbrev pub rule_address : Bytes → Bytes
  rule_address value =
      if not (contains_byte b':' value) && not (contains_byte b'/' value) && not (is_ip value)
      then codes "suffix:" ++ trim_first_dot value
      else value

  -- The empty line stands for no rule.
  unfoldable pub acl_rule_line : Bytes → Bytes → Bytes
  acl_rule_line outbound value =
      let name = to_lower (trim_space outbound) in
      let rule = trim_space value in
      if is_nil name || is_nil rule
      then []
      else if contains_byte b'(' rule && ends_with b')' rule
      then rule
      else name ++ (b'(' ∷ rule_address rule ++ b')' ∷ [])

  -- The lines of some rules, without the empty ones.
  unfoldable pub rule_lines : Bytes → List Bytes → List Bytes
  unfolding acl_rule_line
  rule_lines outbound [] = []
  rule_lines outbound (r ∷ rs) =
      let rest = rule_lines outbound rs in
      let line = acl_rule_line outbound r in if is_nil line then rest else line ∷ rest

  unfoldable pub set_lines : Bytes → Table Bytes (List Bytes) → List Bytes
  unfolding rule_lines
  set_lines default_outbound [] = []
  set_lines default_outbound ((tag, rules) ∷ sets) =
      let rest = set_lines default_outbound sets in
      let name = to_lower (trim_space tag) in
      rule_lines (if is_nil name then default_outbound else name) rules ++ rest

  abbrev pub or_default_lines : Bytes → List Bytes → List Bytes
  or_default_lines outbound [] = rule_lines outbound default_unlock_domains
  or_default_lines outbound (l ∷ ls) = l ∷ ls

  unfoldable pub get_unlock_rules : UnlockConfig → Bytes → Bytes
  unfolding set_lines rule_lines
  get_unlock_rules u default_outbound = join (b'\n' ∷ []) (
      or_default_lines default_outbound
        (set_lines default_outbound u.rule_sets ++ rule_lines default_outbound u.rules))

  -- `accepts` tells whether the engine takes the rules.
  abbrev with_rules : (Bytes → Bool) → Bytes → List OutboundEntry → OutboundConfig
  with_rules accepts rules entries =
      if is_nil rules then direct_only else if accepts rules then by_rules rules entries else failed

  unfoldable pub outbound_of : (Bytes → Bool) → UnlockConfig → OutboundConfig
  unfolding get_unlock_outbounds get_unlock_rules
  outbound_of accepts u =
      let (tag, entries) = get_unlock_outbounds u in
      if is_nil tag then direct_only else with_rules accepts (get_unlock_rules u tag) entries

  unfoldable pub get_outbound_config : (Bytes → Bool) → Option UnlockConfig → OutboundConfig
  unfolding outbound_of
  get_outbound_config accepts none = library_default
  get_outbound_config accepts (some u) =
      if u.enable && ltb 0 (length u.socks) then outbound_of accepts u else library_default
