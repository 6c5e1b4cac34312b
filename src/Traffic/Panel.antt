-- ===== src/Traffic/Panel.antt =====
-- Requests to the panel: `request` of api/v2board/panel.go, the users snapshot of user.go,
-- `decodeTrafficConflict` of traffic_conflict.go and `readTrafficCursor` of traffic_isolation.go.
use Prim.Native.String.{String, len}
use v2node_hy.Base.{
  ℕ, suc, ◌+◌, ◌-◌, ◌%◌, word_mod, sign_bit, Bool, true, false, not, ◌&&◌, ◌||◌, ltb, leb, ◌==◌,
  str_eq, if◌then◌else◌, List, [], ◌∷◌, map, Option, none, some,
}
use v2node_hy.Users.{UserSnapshot, any_refused_user}
use v2node_hy.Traffic.Checks.{codes, valid_traffic_digest}
use v2node_hy.Traffic.Effect.{
  Error, text, outside, conflicting, wrapped, Client, Env, Request, Response, Reply,
  transport_failed, no_response, answered, Cursor, Result, ok, err, M, ◌>>=◌, pure, the_client,
}

abbrev pub contract_version : String
contract_version = "hy2-1"

-- 16 << 20
abbrev pub max_response_bytes : ℕ
max_response_bytes = 16_777_216

-- strings.ToLower on a code point, as far as the result can be an ASCII letter.
unfoldable pub lower : ℕ → ℕ
lower c =
    if leb b'A' c && leb c b'Z'
    then c + 32
    else if c == 0x130
    then b'i'
    else if c == 0x212A
    then b'k'
    else c

unfoldable pub has_prefix : List ℕ → List ℕ → Bool
has_prefix [] s = true
has_prefix (p ∷ ps) [] = false
has_prefix (p ∷ ps) (c ∷ s) = p == c && has_prefix ps s

abbrev pub is_json : String → Bool
is_json content_type = has_prefix (codes "application/json") (map lower (codes content_type))

pub record Answer : Type 0 where
  pub body : String
  pub etag : String
  pub unchanged : Bool

module _ (env : Env) where
  open env use {decode_conflict, transport, decode_users, decode_cursor}

  unfoldable pub decode_traffic_conflict : String → Error
  decode_traffic_conflict body = elim (decode_conflict body) [
    | none ↦ text "panel traffic: status 409 without a verifiable cursor"
    | some c ↦
        if not (str_eq c.kind "traffic_sequence_conflict")
        then text "panel traffic: status 409 without a verifiable cursor"
        else conflicting c
  ]

  -- What follows the status and contract checks.
  unfoldable pub read_answer : Request → Bool → Response → Result Answer
  unfolding decode_traffic_conflict has_prefix lower
  read_answer q conflict r =
      if r.status == 304
      then (if not (str_eq q.method "GET") || str_eq q.etag ""
          then err (text "unexpected 304")
          else ok (record { body = ""; etag = q.etag; unchanged = true }))
      else if not (is_json r.content_type)
      then err (text "expected JSON")
      else elim r.body [
        | none ↦ err (wrapped "panel body" (outside "read"))
        | some body ↦
            if ltb max_response_bytes (len body)
            then err (text "response too large")
            else if conflict
            then err (decode_traffic_conflict body)
            else ok (record { body = body; etag = r.etag; unchanged = false })
      ]

  unfoldable pub check_reply : Request → Reply → Result Answer
  unfolding read_answer
  check_reply q (transport_failed why) = err (wrapped "panel transport" (outside why))
  check_reply q no_response = err (text "missing response")
  check_reply q (answered r) =
      let conflict = r.status == 409 && str_eq q.method "POST" && str_eq q.action "traffic" in
      if not (r.status == 200) && not (r.status == 304) && not conflict
      then err (text "panel status")
      else if not (str_eq r.contract contract_version)
      then err (text "incompatible contract")
      else read_answer q conflict r

  unfoldable pub request : Request → M Answer
  unfolding check_reply
  request q w = (check_reply q (transport w.calls q), record w { calls = suc w.calls })

  unfoldable pub snapshot_of : Answer → Result (Option UserSnapshot)
  unfolding any_refused_user
  snapshot_of a = elim (decode_users a.body) [
    | none ↦ err (wrapped "decode users" (outside "json"))
    | some none ↦ err (text "missing or null users array")
    | some (some users) ↦
        if any_refused_user [] users
        then err (text "invalid or duplicate user")
        else ok (some (record { users = users; etag = a.etag }))
  ]

  -- `none` is the nil snapshot of an unchanged list.
  unfoldable pub get_users : String → M (Option UserSnapshot)
  unfolding request snapshot_of
  get_users etag = do
    a ← request (record { method = "GET"; action = "users"; etag = etag; body = none })
    if a.unchanged then pure none else λ w. (snapshot_of a, w)

  unfoldable pub get_current_users : M (Option UserSnapshot)
  unfolding get_users
  get_current_users = do c ← the_client; get_users c.user_etag

  unfoldable pub is_bad_cursor : Cursor → ℕ → Bool
  unfolding valid_traffic_digest
  is_bad_cursor c sequence =
      c.next == 0
      || ltb (sign_bit - 1) c.next
      || not (c.next == (sequence + 1) % word_mod)
      || (ltb 0 sequence && not (valid_traffic_digest c.digest))
      || (sequence == 0 && not (str_eq c.digest ""))

  unfoldable pub cursor_next : Option Cursor → Result ℕ
  unfolding is_bad_cursor
  cursor_next none = err (text "invalid isolation cursor")
  cursor_next (some c) = elim c.sequence [
    | none ↦ err (text "invalid isolation cursor")
    | some sequence ↦
        if is_bad_cursor c sequence then err (text "invalid isolation cursor") else ok c.next
  ]

  unfoldable pub read_traffic_cursor : M ℕ
  unfolding request cursor_next
  read_traffic_cursor = do
    a ← request (record { method = "GET"; action = "state"; etag = ""; body = none })
    λ w. (cursor_next (decode_cursor a.body), w)

unfoldable pub commit_users : Option UserSnapshot → Client → Client
commit_users none c = c
commit_users (some s) c = record c { user_etag = s.etag }

unfoldable pub invalidate_users : Client → Client
invalidate_users c = record c { user_etag = "" }
