-- ===== src/Server/Wire/Dispatch.antt =====
-- kafkrs-server/src/wire/connection.rs: `dispatch_one`, which hands a command to its handler.
-- What the actors of a partition answer is given as functions of the partition's handle.
pub mod Echo
pub mod Keeps
use kafkrs.Prelude.{ℕ, Bool, Option, none, some, List, [], ◌∷◌}
use kafkrs.Prelude.Int.{ℤ}
use kafkrs.Models.Record.{Record}
use kafkrs.Models.Manifest.{Manifest}
use kafkrs.Server.Fetcher.{Scene}
use kafkrs.Server.PartitionWriter.State.{IncomingRecord}
use kafkrs.Server.PendingDeletes.{PendingDelete}
use kafkrs.Server.BrokerIdentity.{BrokerIdentity}
use kafkrs.Server.Partitions.{PartitionHandle}
use kafkrs.Server.Wire.Frame.{Frame}
use kafkrs.Server.Wire.Command.{
  Body, Command, InRecordMeta, ProduceRequest, ProduceResponse, err_malformed_frame,
  err_invalid_command, bare, error_frame,
}
use kafkrs.Server.Wire.Produce
use kafkrs.Server.Wire.Produce.{produce_inner}
use kafkrs.Server.Wire.Resolve.{Resolved, found, refused, panicked, resolve_or_ensure_partition}
use kafkrs.Server.Wire.FetchHandler.{handle_fetch}
use kafkrs.Server.Wire.Metadata.{handle_ping, handle_metadata}
use kafkrs.Server.Wire.TopicAdmin.{
  SharedState, AdminIo, Answer, handle_create_topic, handle_describe_topic, handle_list_topics,
  handle_alter_topic_config,
}
use kafkrs.Server.Wire.DeleteTopic.{handle_delete_topic}

-- The outcomes that one command meets, and the broker's identity and settings.
pub record DispatchIo : Type 0 where
  pub admin : AdminIo
  pub replies : Bool
  pub auto_create : Option ℕ
  pub identity : BrokerIdentity
  pub writer : PartitionHandle → List IncomingRecord → Option ℤ
  pub scene : PartitionHandle → Scene

abbrev pub produce_frame : ℕ → Produce.Reply ProduceResponse → Frame Command
produce_frame cid (Produce.ok resp) = bare cid (Body.produce_resp resp)
produce_frame cid (Produce.error code) = error_frame cid code

abbrev pub produced : DispatchIo → ℕ → List InRecordMeta → List ℕ → SharedState → Resolved → Answer
produced io cid metas payload s (found h) =
    (s, some (produce_frame cid (produce_inner (some h.cfg) (io.writer h) metas payload)))
produced io cid metas payload s (refused code) = (s, some (error_frame cid code))
produced io cid metas payload s panicked = (s, none)

-- `handle_produce`, of a request without records and of one with them.
abbrev pub produce_of :
    DispatchIo → ℕ → ProduceRequest → List InRecordMeta → List ℕ → SharedState → Answer
produce_of io cid req [] payload s = (s, some (error_frame cid err_malformed_frame))
produce_of io cid req (m ∷ ms) payload s =
    let resolved =
      resolve_or_ensure_partition io.admin io.auto_create (req.topic, req.partition) s in
    produced io cid (m ∷ ms) payload resolved.0 resolved.1

unfoldable pub handle_produce : DispatchIo → ℕ → ProduceRequest → List ℕ → SharedState → Answer
handle_produce io cid req payload s = produce_of io cid req req.records payload s

module _ (to_vec : List PendingDelete → List ℕ) (from_str : List ℕ → Option (List PendingDelete))
    (from_slice : List ℕ → Option Manifest) (read_segment : List ℕ → Option (List Record)) where
  unfoldable pub dispatch_one : DispatchIo → ℕ → Body → List ℕ → SharedState → Answer
  dispatch_one io cid Body.ping payload s = (s, some (handle_ping cid))
  dispatch_one io cid (Body.produce req) payload s = handle_produce io cid req payload s
  dispatch_one io cid (Body.fetch req) payload s =
      (s, some (handle_fetch from_slice read_segment io.scene cid req s.partitions))
  dispatch_one io cid (Body.create_topic req) payload s = handle_create_topic io.admin cid req s
  dispatch_one io cid (Body.describe_topic topic) payload s =
      (s, some (handle_describe_topic io.admin.answers cid topic s))
  dispatch_one io cid Body.list_topics payload s =
      (s, some (handle_list_topics io.admin.answers io.replies cid s))
  dispatch_one io cid (Body.delete_topic req) payload s =
      handle_delete_topic to_vec from_str from_slice io.admin cid req s
  dispatch_one io cid (Body.alter_topic_config req) payload s =
      handle_alter_topic_config io.admin cid req s
  dispatch_one io cid (Body.metadata names) payload s =
      (s, some (handle_metadata io.admin.answers io.identity cid names s.registry.topics))
  dispatch_one io cid body payload s = (s, some (error_frame cid err_invalid_command))
