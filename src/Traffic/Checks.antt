-- ===== src/Traffic/Checks.antt =====
-- The checks on decoded values: api/v2board/traffic_isolation.go (validTrafficIsolation,
-- trimTrafficHolds, canIsolateTraffic), traffic_conflict.go (validTrafficDigest, canRebaseTraffic)
-- and traffic.go (validateTrafficAck, the condition of loadReportState).
use Prim.Native.Char.{code}
use Prim.Native.String.{String}
use v2node_hy.Base.{
  ℕ, ◌+◌, ◌-◌, ◌%◌, ℤ, pos, wrap, ◌-ℤ◌, ltb_ℤ, leb_ℤ, eqb_ℤ, word_mod, sign_bit, Bool, true, false,
  not, ◌&&◌, ◌||◌, ltb, leb, ◌==◌, str_eq, if◌then◌else◌, List, [], ◌∷◌, length, drop, keep_if,
  Option, none, some, is_some,
}
use v2node_hy.Traffic.{
  TrafficBatch, TrafficAck, TrafficResolution, TrafficHold, ReportState, TrafficConflict,
  max_traffic_rows, max_traffic_holds, traffic_hold_ttl,
}

-- The code points of a text: its bytes, if it is ASCII.
abbrev pub codes : String → List ℕ
codes String.[] = []
codes (String.◌∷◌ c s) = code c ∷ codes s

abbrev pub is_lower_hex : ℕ → Bool
is_lower_hex c = (leb b'0' c && leb c b'9') || (leb b'a' c && leb c b'f')

unfoldable pub all_lower_hex : List ℕ → Bool
all_lower_hex [] = true
all_lower_hex (c ∷ cs) = is_lower_hex c && all_lower_hex cs

-- A text that decodes to 32 bytes and is its own re-encoding: 64 digits in lower case.
unfoldable pub valid_traffic_digest : String → Bool
unfolding all_lower_hex
valid_traffic_digest digest = length (codes digest) == 64 && all_lower_hex (codes digest)

-- len(b.Rows) == 0 || len(b.Rows) > maxTrafficRows
abbrev pub rows_out_of_range : TrafficBatch → Bool
rows_out_of_range b = length b.rows == 0 || ltb max_traffic_rows (length b.rows)

unfoldable pub valid_resolution : Option TrafficResolution → Option TrafficBatch → Bool
valid_resolution none pending = true
valid_resolution (some r) pending =
    not (not (is_some pending) || r.next == 0 || ltb (sign_bit - 1) r.next || leb_ℤ r.at (pos 0))

unfoldable pub valid_hold : TrafficHold → Bool
valid_hold h =
    not (leb_ℤ h.at (pos 0) || elim h.batch [ none ↦ true | some b ↦ rows_out_of_range b ])

unfoldable pub valid_holds : List TrafficHold → Bool
unfolding valid_hold
valid_holds [] = true
valid_holds (h ∷ hs) = valid_hold h && valid_holds hs

unfoldable pub valid_traffic_isolation : ReportState → Bool
unfolding valid_resolution valid_holds
valid_traffic_isolation s =
    if ltb_ℤ s.failures (pos 0) || ltb_ℤ (pos 3) s.failures || ltb max_traffic_holds (length s.held)
    then false
    else if not (valid_resolution s.resolution s.pending)
    then false
    else valid_holds s.held

unfoldable pub valid_pending : Option TrafficBatch → ℕ → Bool
valid_pending none next = true
valid_pending (some b) next = not (not (b.sequence == next) || rows_out_of_range b)

-- The test of `loadReportState` on a state that the disk holds at start.
unfoldable pub valid_report_state : ReportState → Bool
unfolding valid_traffic_isolation valid_pending
valid_report_state s = not (
    not (eqb_ℤ s.version (pos 1))
    || s.next == 0
    || ltb 200_000 (length s.buffered)
    || not (valid_traffic_isolation s)
    || not (valid_pending s.pending s.next))

abbrev pub is_recent : ℤ → TrafficHold → Bool
is_recent now h = ltb_ℤ (wrap (now -ℤ pos traffic_hold_ttl)) h.at

unfoldable pub trim_traffic_holds : List TrafficHold → ℤ → List TrafficHold
trim_traffic_holds held now =
    let result = keep_if (is_recent now) held in
    if ltb max_traffic_holds (length result)
    then drop (length result - max_traffic_holds) result
    else result

-- `digest` is the digest of the encoded batch; `none` where encoding fails.
unfoldable pub can_isolate_traffic : TrafficConflict → Option TrafficBatch → Option String → Bool
unfolding valid_traffic_digest
can_isolate_traffic c none digest = false
can_isolate_traffic c (some batch) digest =
    if leb c.sequence batch.sequence
      || not (c.next == (c.sequence + 1) % word_mod)
      || ltb (sign_bit - 1) c.next
      || c.next == 0
      || not (valid_traffic_digest c.digest)
      || not (c.request_sequence == batch.sequence)
    then false
    else elim digest [ none ↦ false | some d ↦ str_eq c.request_digest d ]

unfoldable pub can_rebase_traffic : TrafficConflict → ℕ → String → Bool
unfolding valid_traffic_digest
can_rebase_traffic c sequence digest =
    c.sequence == sequence
    && c.request_sequence == sequence
    && str_eq c.request_digest digest
    && valid_traffic_digest c.digest
    && not (str_eq c.digest digest)
    && c.next == (sequence + 1) % word_mod
    && not (c.next == 0)
    && leb c.next (sign_bit - 1)

unfoldable pub any_not_positive : List ℤ → Bool
any_not_positive [] = false
any_not_positive (uid ∷ uids) = leb_ℤ uid (pos 0) || any_not_positive uids

pub data AckFault : Type 0 where
  mismatch invalid_revoked : AckFault

unfoldable pub validate_traffic_ack : TrafficAck → ℕ → String → Option AckFault
unfolding any_not_positive
validate_traffic_ack ack sequence digest =
    if not ack.accepted
      || not (ack.sequence == sequence)
      || not (str_eq ack.digest digest)
      || not (is_some ack.revoked)
    then some mismatch
    else elim ack.revoked [
      | none ↦ none
      | some ids ↦ if any_not_positive ids then some invalid_revoked else none
    ]
