-- ===== src/Server/Uploader/Actor.antt =====
-- kafkrs-server/src/uploader.rs: the loop of the actor over its messages.
-- A turn has a message with the outcomes that it meets. The retry loop of an upload ends only by
-- itself, so `retrying` stays behind attempts that all fail.
use kafkrs.Prelude.{ℕ, Bool, true, false, Option, List, [], ◌∷◌, ◌++◌, if◌then◌else◌}
use kafkrs.Prelude.Int.{ℤ}
use kafkrs.Models.Record.{Record}
use kafkrs.Models.Topic.{ResolvedTopicConfig}
use kafkrs.Models.Manifest.{Manifest}
use kafkrs.Server.ObjectStore.{Store}
use kafkrs.Server.Uploader
use kafkrs.Server.Uploader.{UploadIo, RetentionIo, retention_pass}
use kafkrs.Server.PartitionWriter.State.{SealedBatch}
use kafkrs.Server.Partitions.{Message, update_config, retention_kick, shutdown}

-- The attempts of the retry loop, and the retention pass with the time that it reads.
pub record Turn : Type 0 where
  pub attempts : List UploadIo
  pub pass : RetentionIo
  pub now_ns : ℤ

-- `durable` has what `durable_tx` was sent, and `acked` says that the loop returned at a shutdown.
pub record State : Type 0 where
  pub store : Store
  pub cfg : ResolvedTopicConfig
  pub durable : List ℤ
  pub retrying : Bool
  pub acked : Bool

abbrev pub halted : State → Bool
halted u = if u.acked then true else u.retrying

module _ (write_segment : List Record → Option (List ℕ)) (to_vec : Manifest → List ℕ)
    (from_slice : List ℕ → Option Manifest) where
  -- The error of a pass is only logged.
  abbrev pub after_pass : Turn → State → State
  after_pass turn u = record u {
    store = (retention_pass write_segment to_vec from_slice turn.pass u.cfg turn.now_ns u.store).0;
  }

  -- What follows the retry loop: the notification, and a retention pass.
  abbrev pub uploaded : Turn → SealedBatch → Store × Bool → State → State
  uploaded turn batch (store, false) u = record u { store = store; retrying = true }
  uploaded turn batch (store, true) u =
      after_pass turn (record u { store = store; durable = u.durable ++ batch.base_offset ∷ [] })

  unfoldable pub step : Turn → Message → State → State
  step turn (Message.upload batch) u =
      uploaded turn batch
        (Uploader.upload write_segment to_vec from_slice turn.attempts batch u.store) u
  step turn retention_kick u = after_pass turn u
  step turn (update_config cfg) u = record u { cfg = cfg }
  step turn shutdown u = record u { acked = true }

  unfoldable pub run : List (Turn × Message) → State → State
  run [] u = u
  run ((turn, msg) ∷ msgs) u = let rest = run msgs (step turn msg u) in if halted u then u else rest
