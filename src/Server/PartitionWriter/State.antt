-- ===== src/Server/PartitionWriter/State.antt =====
-- The state of `PartitionWriter`, its messages, and the outcomes of the calls that it makes.
-- What the actor sends is kept in its state: acks that fired, batches for the uploader, high-water
-- marks for the tail. Time comes in as instants in milliseconds, and the clock's readings as a
-- function. Each call of the file system has its outcome as an argument.
use kafkrs.Prelude.{ℕ, Bool, Option, List}
use kafkrs.Prelude.Int.{ℤ}
use kafkrs.Models.Record.{Record}
use kafkrs.Models.Topic.{ResolvedTopicConfig}
use kafkrs.Server.WalFiles.{Files, Sync}
use kafkrs.Server.InFlight.{InFlight}

pub record IncomingRecord : Type 0 where
  pub schema_id : ℕ
  pub key : List ℕ
  pub value : List ℕ
  pub timestamp_ns : ℤ

pub record SealedBatch : Type 0 where
  pub records : List Record
  pub base_offset : ℤ
  pub last_offset : ℤ
  pub base_timestamp_ns : ℤ
  pub last_timestamp_ns : ℤ

pub data LocateResult : Type 0 where
  hwm_at : ℤ → LocateResult
  in_active_batch in_flight below_in_flight : LocateResult

-- The part of `PartitionWriter` that its messages read and write, the disk, and what was sent.
-- `wal` is the base offset of the file that is open.
pub record Writer : Type 0 where
  pub cfg : ResolvedTopicConfig
  pub next_offset : ℤ
  pub segment_base : ℤ
  pub active : List Record
  pub active_bytes : ℕ
  pub pending : List Record
  pub pending_acks : List ℕ
  pub pending_first_arrival : Option ℕ
  pub wal : ℤ
  pub sealed : InFlight
  pub files : Files
  pub acked : List (ℕ × ℤ)
  pub uploads : List SealedBatch
  pub tail : List ℤ

-- An actor that is running, has left its loop, or has panicked on a failed fsync.
pub data Actor : Type 0 where
  running stopped panicked : Writer → Actor

-- The outcomes of the file system calls that one message can make: the fsync of the group commit,
-- whether the next WAL opens, whether a sealed WAL's removal succeeds.
pub record Io : Type 0 where
  pub sync : Sync
  pub opens : Bool
  pub removes : Bool

-- `PwMsg`, the expiry of the commit timer, and the closing of the channel. `Locate` and
-- `ReadActive` answer by `locate` and `read_active` and leave the state as it is.
pub data Event : Type 0 where
  produce : (ℕ → ℤ) → ℕ → List IncomingRecord → ℕ → Event
  locates : ℤ → Event
  reads_active : ℤ → ℕ → Event
  segment_durable : ℤ → Event
  update_config : ResolvedTopicConfig → Event
  shutdown closed timer : Event
