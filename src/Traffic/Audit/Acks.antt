-- ===== src/Traffic/Audit/Acks.antt =====
-- What an acknowledgement that post_batch returns says of its batch.
use v2node_hy.Base.{ℕ, String, true, str_eq_iff, ◌≡◌, refl, Option, none, some, arith}
use v2node_hy.Traffic.{TrafficBatch, TrafficAck}
use v2node_hy.Traffic.Checks.{AckFault, validate_traffic_ack}
use v2node_hy.Traffic.Panel.{Answer}
use v2node_hy.Traffic.Send.{read_ack}
use v2node_hy.Traffic.Effect.{unconfirmed, bad_ack, wrapped, outside, Env, Result, ok, err}
use v2node_hy.Traffic.Audit.{Names}

module _ (env : Env) where
  -- What is returned as an acknowledgement is one.
  abbrev pub IsNamed : TrafficBatch → Result TrafficAck → Type 0
  IsNamed b (err e) = Unit
  IsNamed b (ok ack) = Names env b ack

  validated :
      (ack : TrafficAck) (n : ℕ) (digest : String)
      → validate_traffic_ack ack n digest ≡ none
      → (ack.accepted ≡ true) × (ack.sequence ≡ n) × (ack.digest ≡ digest)
  unfolding validate_traffic_ack
  validated ack n digest h =
      (ground (arith, h), ground (arith, h), (str_eq_iff ack.digest digest).0 (ground (arith, h)))

  pub read_ack-IsNamed :
      (b : TrafficBatch) (body : String) (r : Result Answer)
      → env.encode_batch b ≡ some body
      → IsNamed b (read_ack env b (env.sha256_hex body) r)
  unfolding read_ack Names
  read_ack-IsNamed b body (err e) g = tt
  read_ack-IsNamed b body (ok a) g = by_ack (env.decode_ack a.body)
    where
      digest : String
      digest = env.sha256_hex body

      by_fault :
          (ack : TrafficAck) (o : Option AckFault)
          → validate_traffic_ack ack b.sequence digest ≡ o
          → IsNamed b (elim o [ some fault ↦ err (unconfirmed (bad_ack fault)) | none ↦ ok ack ])
      by_fault ack (some fault) e = tt
      by_fault ack none e = let v = validated ack b.sequence digest e in (v.0, v.1, (body, g, v.2))

      by_ack :
          (o : Option TrafficAck)
          → IsNamed b (elim o [
            | none ↦ err (unconfirmed (wrapped "decode traffic acknowledgement" (outside "json")))
            | some ack ↦ elim (validate_traffic_ack ack b.sequence digest) [
              | some fault ↦ err (unconfirmed (bad_ack fault))
              | none ↦ ok ack
            ]
          ])
      by_ack none = tt
      by_ack (some ack) = by_fault ack (validate_traffic_ack ack b.sequence digest) refl
