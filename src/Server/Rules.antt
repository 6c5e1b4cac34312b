-- ===== src/Server/Rules.antt =====
-- The rules of the outbounds are never empty.
use v2node_hy.Base.{
  Bool, true, false, ◌&&◌, ◌||◌, List, [], ◌∷◌, ◌++◌, All, Bytes, is_nil, trim_space, trim_left,
  trim_right, join, Table, contains_byte, ends_with, if◌then◌else◌, ◌≡◌, refl, ap, ◌∙◌, arith,
  unless,
}
use v2node_hy.Traffic.Checks.{codes}
use v2node_hy.NodeInfo.Environment.{join-nonempty}
use v2node_hy.Conf.{UnlockConfig}
use v2node_hy.Server.Addresses.{to_lower}
use v2node_hy.Server.Unlock.{
  acl_rule_line, rule_lines, set_lines, or_default_lines, get_unlock_rules, rule_address,
}

line_filled : (name value : Bytes) → is_nil name ≡ false → is_nil (name ++ value) ≡ false
line_filled (c ∷ s) value h = refl
line_filled [] value h = absurd (ground arith)

-- No line is empty.
abbrev AreFilled : List Bytes → Type 0
AreFilled ls = All (λ l. is_nil l ≡ false) ls

filled-append : (ls ms : List Bytes) → AreFilled ls → AreFilled ms → AreFilled (ls ++ ms)
filled-append [] ms h k = k
filled-append (l ∷ ls) ms (a, h) k = (a, filled-append ls ms h k)

filled-join :
    (l : Bytes) (ls : List Bytes) → AreFilled (l ∷ ls) → is_nil (join (b'\n' ∷ []) (l ∷ ls)) ≡ false
filled-join l ls h = join-nonempty b'\n' l ls h.0

module _ (is_ip : Bytes → Bool) where
  rule_lines-AreFilled :
      (outbound : Bytes) (rules : List Bytes) → AreFilled (rule_lines is_ip outbound rules)
  unfolding rule_lines
  rule_lines-AreFilled outbound [] = tt
  rule_lines-AreFilled outbound (r ∷ rs) =
      by_line (is_nil (acl_rule_line is_ip outbound r)) (rule_lines-AreFilled outbound rs) refl
    where
      by_line :
          (b : Bool)
          → AreFilled (rule_lines is_ip outbound rs)
          → is_nil (acl_rule_line is_ip outbound r) ≡ b
          → AreFilled (
              if b
              then rule_lines is_ip outbound rs
              else acl_rule_line is_ip outbound r ∷ rule_lines is_ip outbound rs)
      by_line true ih e = ih
      by_line false ih e = (e, ih)

  set_lines-AreFilled :
      (outbound : Bytes) (sets : Table Bytes (List Bytes))
      → AreFilled (set_lines is_ip outbound sets)
  unfolding set_lines
  set_lines-AreFilled outbound [] = tt
  set_lines-AreFilled outbound ((tag, rules) ∷ sets) =
      let name = to_lower (trim_space tag) in
      let chosen = (if is_nil name then outbound else name) in
      filled-append (rule_lines is_ip chosen rules) (set_lines is_ip outbound sets)
        (rule_lines-AreFilled chosen rules) (set_lines-AreFilled outbound sets)

  acl_rule_line-filled :
      (outbound value : Bytes)
      → is_nil (to_lower (trim_space outbound)) ≡ false
      → is_nil (trim_space value) ≡ false
      → is_nil (acl_rule_line is_ip outbound value) ≡ false
  unfolding acl_rule_line
  acl_rule_line-filled outbound value h k =
      let name = to_lower (trim_space outbound) in
      let rule = trim_space value in
      ap is_nil (unless (is_nil name || is_nil rule) [] _ (ground (arith, h, k)))
      ∙ by_form (contains_byte b'(' rule && ends_with b')' rule)
    where
      by_form :
          (b : Bool)
          → is_nil (
              if b
              then trim_space value
              else to_lower (trim_space outbound)
                ++ (b'(' ∷ rule_address is_ip (trim_space value) ++ b')' ∷ []))
            ≡ false
      by_form true = k
      by_form false = line_filled (to_lower (trim_space outbound)) _ h

  filled_first :
      (outbound value : Bytes) (rules : List Bytes)
      → is_nil (acl_rule_line is_ip outbound value) ≡ false
      → rule_lines is_ip outbound (value ∷ rules)
        ≡ acl_rule_line is_ip outbound value ∷ rule_lines is_ip outbound rules
  unfolding rule_lines
  filled_first outbound value rules h = unless (is_nil (acl_rule_line is_ip outbound value)) _ _ h

  first_domain-filled : is_nil (trim_space (codes "netflix.com")) ≡ false
  unfolding trim_left trim_right
  first_domain-filled = refl

  or_default-filled :
      (outbound : Bytes) (ls : List Bytes)
      → is_nil (to_lower (trim_space outbound)) ≡ false
      → AreFilled ls
      → is_nil (join (b'\n' ∷ []) (or_default_lines is_ip outbound ls)) ≡ false
  or_default-filled outbound (l ∷ ls) h k = filled-join l ls k
  or_default-filled outbound [] h k =
      let first = acl_rule_line-filled outbound (codes "netflix.com") h first_domain-filled in
      ap (λ ls. is_nil (join (b'\n' ∷ []) ls)) (filled_first outbound (codes "netflix.com") _ first)
      ∙ join-nonempty b'\n' (acl_rule_line is_ip outbound (codes "netflix.com")) _ first

  -- For an outbound that is not blank the rules are not empty, whatever the configuration has.
  get_unlock_rules-filled :
      (u : UnlockConfig) (outbound : Bytes)
      → is_nil (to_lower (trim_space outbound)) ≡ false
      → is_nil (get_unlock_rules is_ip u outbound) ≡ false
  unfolding get_unlock_rules
  get_unlock_rules-filled u outbound h =
      or_default-filled outbound
        (set_lines is_ip outbound u.rule_sets ++ rule_lines is_ip outbound u.rules) h
        (filled-append (set_lines is_ip outbound u.rule_sets) (rule_lines is_ip outbound u.rules)
          (set_lines-AreFilled outbound u.rule_sets) (rule_lines-AreFilled outbound u.rules))
