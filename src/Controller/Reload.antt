-- ===== src/Controller/Reload.antt =====
-- Whether a change of the configuration needs a reload, and why: requiresCoreReload and
-- coreReloadReasons of node/task.go.
use v2node_hy.Base.{
  String, Bool, true, false, not, Option, none, some, List, [], ◌∷◌, ◌≡◌, ◌↔◌, All, arith,
  if◌then◌else◌, str_eq, str_eq_iff, string_key, int_key, bytes_key, bool_key, option_key, list_key,
}
use v2node_hy.NodeInfo.{NodeInfo}
use v2node_hy.Controller.Same.{same, all_of, tls_key, route_key}
use v2node_hy.Controller.Fingerprint.{
  NodeCoreFingerprint, core_reload_fingerprint, node_key, node_iff, node_checks, common_checks,
  common_key,
}

unfoldable pub requires_core_reload : Option NodeInfo → Option NodeInfo → Bool
requires_core_reload (some old) (some new) =
    not (same (core_reload_fingerprint old) (core_reload_fingerprint new))
requires_core_reload _ _ = true

-- The names whose test has failed.
unfoldable pub changed : List (String × Bool) → List String
changed [] = []
changed ((name, unchanged) ∷ l) = if unchanged then changed l else name ∷ changed l

abbrev node_tests : NodeCoreFingerprint → NodeCoreFingerprint → List (String × Bool)
node_tests a b =
    ("id", same a.id b.id)
    ∷ ("type", same a.node_type b.node_type)
    ∷ ("security", same a.security b.security)
    ∷ ("tag", same a.tag b.tag)
    ∷ ("protocol", same a.common.protocol b.common.protocol)
    ∷ ("listen_ip", same a.common.listen_ip b.common.listen_ip)
    ∷ ("server_port", same a.common.server_port b.common.server_port)
    ∷ ("routes", same a.common.routes b.common.routes)
    ∷ ("tls", same a.common.tls b.common.tls)
    ∷ ("tls_settings", same a.common.tls_settings b.common.tls_settings)
    ∷ ("up_mbps", same a.common.up_mbps b.common.up_mbps)
    ∷ ("down_mbps", same a.common.down_mbps b.common.down_mbps)
    ∷ ("obfs", same a.common.obfs b.common.obfs)
    ∷ ("obfs_password", same a.common.obfs_password b.common.obfs_password)
    ∷ (
      "ignore_client_bandwidth",
      same a.common.ignore_client_bandwidth b.common.ignore_client_bandwidth,
    )
    ∷ []

abbrev or_unknown : List String → List String
or_unknown [] = "unknown" ∷ []
or_unknown (r ∷ rs) = r ∷ rs

unfoldable pub core_reload_reasons : Option NodeInfo → Option NodeInfo → List String
unfolding changed
core_reload_reasons (some old) (some new) =
    or_unknown (changed (node_tests (core_reload_fingerprint old) (core_reload_fingerprint new)))
core_reload_reasons _ _ = "node" ∷ []

-- A change that is no change of the fingerprint needs no reload, and every other one does.
pub requires_core_reload_iff :
    (old new : NodeInfo)
    → (requires_core_reload (some old) (some new) ≡ false)
      ↔ (core_reload_fingerprint old ≡ core_reload_fingerprint new)
unfolding requires_core_reload
requires_core_reload_iff old new =
    ground (arith, node_iff (core_reload_fingerprint old) (core_reload_fingerprint new))

results : List (String × Bool) → List Bool
results [] = []
results (t ∷ l) = t.1 ∷ results l

changed-none : (l : List (String × Bool)) → (changed l ≡ []) ↔ (all_of (results l) ≡ true)
unfolding changed results
changed-none [] = ground arith
changed-none ((name, true) ∷ l) = ground (arith, changed-none l)
changed-none ((name, false) ∷ l) = ground arith

IsNamed : String × Bool → Type 0
IsNamed t = str_eq t.0 "unknown" ≡ false

or_unknown_lem :
    (l : List (String × Bool))
    → All IsNamed l
    → (or_unknown (changed l) ≡ "unknown" ∷ []) ↔ (changed l ≡ [])
unfolding changed IsNamed
or_unknown_lem [] h = ground arith
or_unknown_lem ((name, true) ∷ l) (n, h) = or_unknown_lem l h
or_unknown_lem ((name, false) ∷ l) (n, h) = ground (arith, n, str_eq_iff name "unknown")

not_iff : (b : Bool) → (b ≡ true) ↔ (not b ≡ false)
not_iff b = ground arith

flattened :
    (a b c d : Bool) (l : List Bool)
    → (all_of (a ∷ b ∷ c ∷ d ∷ all_of l ∷ []) ≡ true) ↔ (all_of (a ∷ b ∷ c ∷ d ∷ l) ≡ true)
flattened a b c d l = ground arith

-- The only reason is "unknown" exactly where no reload is required.
pub core_reload_reasons-requires_core_reload :
    (old new : Option NodeInfo)
    → (core_reload_reasons old new ≡ "unknown" ∷ []) ↔ (requires_core_reload old new ≡ false)
unfolding core_reload_reasons requires_core_reload IsNamed results
core_reload_reasons-requires_core_reload none new = ground (arith, str_eq_iff "node" "unknown")
core_reload_reasons-requires_core_reload (some old) none =
    ground (arith, str_eq_iff "node" "unknown")
core_reload_reasons-requires_core_reload (some old) (some new) =
    let a = core_reload_fingerprint old in
    let b = core_reload_fingerprint new in
    let named = or_unknown_lem (node_tests a b) (ground arith) in
    let counted = changed-none (node_tests a b) in
    let flat =
      flattened (same a.id b.id) (same a.node_type b.node_type) (same a.security b.security)
        (same a.tag b.tag) (common_checks a.common b.common) in
    let denied = not_iff (all_of (node_checks a b)) in
    (λ h. denied.0 (flat.1 (counted.0 (named.0 h))), λ h. named.1 (counted.1 (flat.0 (denied.1 h))))
