-- ===== src/Traffic/Audit.antt =====
-- What a run of the client may show to the panel, to the disk and to the runtime's counters: the
-- statements about traces of `Traffic.Effect`, and the invariant that every method keeps.
pub mod Store
pub mod Load
pub mod Certain
pub mod Acks
pub mod Send
pub mod Isolate
pub mod Rounds
pub mod Flush
pub mod Persist
pub mod Runs
use v2node_hy.Base.{
  ℕ, ℤ, String, Bool, true, false, not, ◌||◌, ◌≡◌, ◌≢◌, ◌⊎◌, List, [], ◌∷◌, Option, none, some,
  is_some, if◌then◌else◌,
}
use v2node_hy.Traffic.{TrafficRow, UserTraffic, TrafficBatch, TrafficAck, ReportState, user_rows}
use v2node_hy.Traffic.Effect.{
  Error, Client, World, Event, posted, acked, consumed, revoked, stored, restarted, Env, Result, ok,
  err, M, continue_with,
}

-- The rows of the pending batch are not to be taken from the counters of this process: they have
-- been, or the process found the batch in the file, and its counters never had them; and the file
-- has not taken a state with nothing pending since.
abbrev pub spent : List Event → Bool
spent [] = false
spent (posted b disk ∷ es) = spent es
spent (acked b ack ∷ es) = spent es
spent (consumed rows disk ∷ es) = true
spent (revoked ids ∷ es) = spent es
spent (restarted holds_batch ∷ es) = holds_batch
spent (stored s ∷ es) = if is_some s.pending then spent es else false

-- The client does not consume the rows of its pending batch, or has not loaded its state.
abbrev pub is_barred : Client → Bool
is_barred c = c.committed || (c.recovered || not (is_some c.outbox))

-- What json.Marshal and json.Unmarshal promise of the outbox: encoding succeeds, and decoding an
-- encoded state gives a state that has a pending batch exactly if the first one has.
pub record CodecLaws (env : Env) : Type 0 where
  pub encodes : (s : ReportState) → is_some (env.encode_state s) ≡ true
  pub keeps_pending :
      (s t : ReportState) (body : String)
      → env.encode_state s ≡ some body
      → env.decode_state body ≡ some t
      → is_some t.pending ≡ is_some s.pending

module _ (env : Env) where
  -- The panel has accepted the batch: the answer has its number and the digest of its text.
  pub Names : TrafficBatch → TrafficAck → Type 0
  Names b ack =
      (ack.accepted ≡ true)
      × (ack.sequence ≡ b.sequence)
      × ((body : String) × (env.encode_batch b ≡ some body) × (ack.digest ≡ env.sha256_hex body))

  -- The newest event is the acknowledgement of the batch.
  abbrev pub JustAcked : TrafficBatch → List Event → Type 0
  JustAcked b [] = ⊥
  JustAcked b (acked a ack ∷ es) = (a ≡ b) × Names b ack
  JustAcked b (_ ∷ es) = ⊥

  -- The file holds a state: it is its encoding, or decodes to it.
  abbrev pub IsOnDisk : ReportState → Option String → Type 0
  IsOnDisk s disk =
      (disk ≡ env.encode_state s)
      ⊎ ((body : String) × (disk ≡ some body) × (env.decode_state body ≡ some s))

  -- The file holds a state with this batch pending, which may still be sent.
  abbrev pub IsDurable : TrafficBatch → Option String → Type 0
  IsDurable b disk =
      (s : ReportState) × IsOnDisk s disk × (s.pending ≡ some b) × (s.resolution ≡ none)

  -- The file holds a batch with these rows, just acknowledged or marked as resolved.
  abbrev pub IsSettled : List UserTraffic → Option String → List Event → Type 0
  IsSettled rows disk es =
      (s : ReportState) × (b : TrafficBatch) × IsOnDisk s disk
      × (s.pending ≡ some b)
      × (rows ≡ user_rows b.rows)
      × (JustAcked b es ⊎ (is_some s.resolution ≡ true))

  -- A batch is on disk before it is posted; rows are consumed at most once for a batch, in the
  -- process that made it, and only if its acknowledgement or its resolution is at hand.
  abbrev pub IsSound : List Event → Type 0
  IsSound [] = Unit
  IsSound (posted b disk ∷ es) = IsDurable b disk × IsSound es
  IsSound (acked b ack ∷ es) = IsSound es
  IsSound (consumed rows disk ∷ es) = (spent es ≡ false) × IsSettled rows disk es × IsSound es
  IsSound (revoked ids ∷ es) = IsSound es
  IsSound (stored s ∷ es) = IsSound es
  IsSound (restarted holds_batch ∷ es) = IsSound es

  -- A state that is not yet synchronized and has nothing pending follows no spent rows; before a
  -- state is loaded it is such a one.
  abbrev pub IsClear : Option ReportState → Option ReportState → Bool → Type 0
  IsClear none outbox used = Unit {0}
  IsClear (some s) outbox used =
      (is_some s.pending ≡ false → used ≡ false)
      × (is_some outbox ≡ false → is_some s.pending ≡ false)

  pub record Inv (c : Client) (disk : Option String) (es : List Event) : Type 0 where
    pub sound : IsSound es
    pub charged : spent es ≡ true → is_barred c ≡ true
    pub covered : spent es ≡ true → (s : ReportState) × (is_some s.pending ≡ true) × IsOnDisk s disk
    pub clear : IsClear c.unsynced c.outbox (spent es)

  -- The client's state is the one on disk.
  pub record Synced (s : ReportState) (c : Client) (disk : Option String) : Type 0 where
    pub no_unsynced : c.unsynced ≡ none
    pub current : c.outbox ≡ some s
    pub on_disk : IsOnDisk s disk

  abbrev pub Kept : World → Type 0
  Kept w = Inv w.client w.disk w.trace

  abbrev pub Holds : ReportState → World → Type 0
  Holds s w = Synced s w.client w.disk

  abbrev pub IsLoaded : World → Type 0
  IsLoaded w = (s : ReportState) × Holds s w

  -- The result of a method: a failure leaves the invariant, a success `Q`.
  abbrev pub Post : {A : Type 0} → (A → World → Type 0) → Result A × World → Type 0
  Post Q (ok a, w) = Kept w × Q a w
  Post Q (err e, w) = Kept w

  -- The rule for a sequence.
  pub Post-bind :
      {A B : Type 0} (Q : A → World → Type 0) (R : B → World → Type 0) (r : Result A × World)
      (f : A → M B)
      → Post Q r
      → ((a : A) (w : World) → Kept w → Q a w → Post R (f a w))
      → Post R (continue_with r f)
  Post-bind Q R (ok a, w) f h k = k a w h.0 h.1
  Post-bind Q R (err e, w) f h k = h

  pub Post-weaken :
      {A : Type 0} (Q R : A → World → Type 0) (r : Result A × World)
      → Post Q r
      → ((a : A) (w : World) → Q a w → R a w)
      → Post R r
  Post-weaken Q R (ok a, w) h k = (h.0, k a w h.1)
  Post-weaken Q R (err e, w) h k = h
