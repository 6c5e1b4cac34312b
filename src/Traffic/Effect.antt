-- ===== src/Traffic/Effect.antt =====
-- The world of the panel client (api/v2board/panel.go, Client) and the monad of its methods.
-- Files, the network, time, JSON, SHA-256 and the callbacks are outside this code: `Env` gives
-- their results, by the number of outside calls made so far. Each `posted` or `consumed` event
-- notes what the outbox file held at that moment, and a `restarted` one whether it held a batch.
use v2node_hy.Base.{ℕ, suc, ℤ, pos, String, Bool, true, false, List, [], ◌∷◌, Option, none, some}
use v2node_hy.Traffic.{
  TrafficRow, UserTraffic, TrafficBatch, TrafficAck, ReportState, TrafficConflict,
}
use v2node_hy.Traffic.Checks.{AckFault}
use v2node_hy.Users.{UserInfo}

-- `wrapped` is `fmt.Errorf` with %w; `unconfirmed` is `unconfirmedTraffic`; `out_of_fuel` is the
-- model's own, for a loop whose fuel is too little.
pub data Error : Type 0 where
  text : String → Error
  outside : String → Error
  not_exist : Error
  nil_pointer : Error
  bad_ack : AckFault → Error
  conflicting : TrafficConflict → Error
  wrapped : String → Error → Error
  unconfirmed : Error → Error
  out_of_fuel : Error

pub data Result {ℓ} (A : Type ℓ) : Type ℓ where
  ok : A → Result A
  err : Error → Result A

-- The outbox, the flags of its current batch, and the validator of the users snapshot.
pub record Client : Type 0 where
  pub outbox_path : String
  pub outbox : Option ReportState
  pub unsynced : Option ReportState
  pub recovered : Bool
  pub committed : Bool
  pub draining : Bool
  pub drain_saved : Bool
  pub drain_base : List TrafficRow
  pub last_traffic_uid : ℤ
  pub user_etag : String

pub data Event : Type 0 where
  posted : TrafficBatch → Option String → Event
  acked : TrafficBatch → TrafficAck → Event
  consumed : List UserTraffic → Option String → Event
  revoked : List ℤ → Event
  stored : ReportState → Event
  restarted : Bool → Event

-- `disk` is the outbox file; the newest event comes first.
pub record World : Type 0 where
  pub client : Client
  pub disk : Option String
  pub calls : ℕ
  pub trace : List Event

pub data FileOp : Type 0 where
  make_directory open_file read_file create_temp write_temp sync_temp close_temp rename_temp
        sync_directory :
      FileOp

pub data LockResult : Type 0 where
  locked busy : LockResult
  lock_failed : String → LockResult

pub record Request : Type 0 where
  pub method : String
  pub action : String
  pub etag : String
  pub body : Option String

-- `body` is `none` where reading it fails.
pub record Response : Type 0 where
  pub status : ℕ
  pub contract : String
  pub content_type : String
  pub etag : String
  pub body : Option String

pub data Reply : Type 0 where
  transport_failed : String → Reply
  no_response : Reply
  answered : Response → Reply

-- The fields of a `state` answer; `sequence` is a pointer.
pub record Cursor : Type 0 where
  pub sequence : Option ℕ
  pub next : ℕ
  pub digest : String

-- The names `encode…` and `decode…` stand for json.Marshal and json.Unmarshal; `none` is an error.
pub record Env : Type 0 where
  pub encode_state : ReportState → Option String
  pub decode_state : String → Option ReportState
  pub encode_batch : TrafficBatch → Option String
  pub decode_ack : String → Option TrafficAck
  pub decode_conflict : String → Option TrafficConflict
  pub decode_next : String → Option ℕ
  pub decode_cursor : String → Option Cursor
  pub decode_users : String → Option (Option (List UserInfo))
  pub sha256_hex : String → String
  pub transport : ℕ → Request → Reply
  pub file_fault : ℕ → FileOp → Option String
  pub renamed_anyway : ℕ → Bool
  pub lock : ℕ → LockResult
  pub now : ℕ → ℤ
  pub context_error : ℕ → Option Error
  pub commit : ℕ → List UserTraffic → Option Error
  pub revoke : ℕ → List ℤ → Option Error
  pub capture : ℕ → Result (List UserTraffic)

-- The client that `New` returns, in a process that has made no outside call.
unfoldable pub new_client : String → Client
new_client path = record {
  outbox_path = path;
  outbox = none;
  unsynced = none;
  recovered = false;
  committed = false;
  draining = false;
  drain_saved = false;
  drain_base = [];
  last_traffic_uid = pos 0;
  user_etag = "";
}

abbrev pub M : Type 0 → Type 0
M A = World → Result A × World

abbrev pub continue_with : {A B : Type 0} → Result A × World → (A → M B) → Result B × World
continue_with (ok a, w) f = f a w
continue_with (err e, w) f = (err e, w)

infixl 5 ◌>>=◌ ◌>>◌
abbrev pub ◌>>=◌ : {A B : Type 0} → M A → (A → M B) → M B
◌>>=◌ m f w = continue_with (m w) f

abbrev pub ◌>>◌ : {B : Type 0} → M (Unit {0}) → M B → M B
m >> k = m >>= λ _. k

abbrev pub pure : {A : Type 0} → A → M A
pure a w = (ok a, w)

abbrev pub raise : {A : Type 0} → Error → M A
raise e w = (err e, w)

-- The result of a call as a value: `err := f(); if …`.
abbrev pub try : {A : Type 0} → M A → M (Result A)
try m w = (ok (m w).0, (m w).1)

abbrev pub gets : {A : Type 0} → (World → A) → M A
gets f w = (ok (f w), w)

abbrev pub the_client : M Client
the_client = gets (λ w. w.client)

abbrev pub update : (Client → Client) → M (Unit {0})
update f w = (ok tt, record w { client = f w.client })

abbrev pub emit : (World → Event) → M (Unit {0})
emit e w = (ok tt, record w { trace = e w ∷ w.trace })

-- One call to the outside.
abbrev pub outside_call : {A : Type 0} → (ℕ → A) → M A
outside_call f w = (ok (f w.calls), record w { calls = suc w.calls })

abbrev pub require : {A : Type 0} → Option A → Error → M A
require none e = raise e
require (some a) e = pure a

abbrev pub when_failed : Option Error → M (Unit {0})
when_failed none = pure tt
when_failed (some e) = raise e

abbrev pub os_error : Option String → M (Unit {0})
os_error none = pure tt
os_error (some why) = raise (outside why)

abbrev pub raise_if : Bool → Error → M (Unit {0})
raise_if true e = raise e
raise_if false e = pure tt

-- `c.outbox`, where the code reads through the pointer.
abbrev pub the_outbox : M ReportState
the_outbox = do c ← the_client; require c.outbox nil_pointer
