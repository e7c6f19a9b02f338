-- ===== src/Server/Wire/Metadata.antt =====
-- kafkrs-server/src/wire/dispatch/metadata.rs and lifecycle.rs: the read-only view of the cluster.
-- The answer to an empty filter is in an order of the map's; here it is that of the list of topics.
pub mod Filter
use kafkrs.Prelude.{
  ℕ, zero, suc, Bool, true, false, Option, none, some, List, [], ◌∷◌, ◌++◌, map, if◌then◌else◌, any,
}
use kafkrs.Models.Manifest.{Text}
use kafkrs.Models.Topic.{TopicEntry}
use kafkrs.Server.ObjectStore.{eqb_text}
use kafkrs.Server.TopicRegistry.{find}
use kafkrs.Server.BrokerIdentity.{BrokerIdentity}
use kafkrs.Server.Wire.Frame.{Frame}
use kafkrs.Server.Wire.Command.{
  Body, Command, PartitionMetadata, TopicMetadata, err_unknown_topic, err_broker_not_ready, bare,
  error_frame,
}
use kafkrs.Server.Wire.Connection.{protocol_version}

abbrev pub handle_ping : ℕ → Frame Command
handle_ping cid = bare cid Body.pong

abbrev pub handle_connected : BrokerIdentity → ℕ → Frame Command
handle_connected identity cid = bare cid (
    Body.connected (record {
      protocol_version = protocol_version;
      broker_id = identity.broker_id;
      cluster_id = identity.cluster_id;
    }))

-- The partitions from `p` on.
unfoldable pub partition_range : Text → ℕ → ℕ → List PartitionMetadata
partition_range leader p zero = []
partition_range leader p (suc n) =
    record { partition = p; leader_broker_id = leader } ∷ partition_range leader (suc p) n

unfoldable pub topic_meta_from_entry : TopicEntry → Text → TopicMetadata
topic_meta_from_entry entry leader = record {
  topic = entry.name;
  error_code = none;
  topic_uuid = entry.uuid;
  partitions = partition_range leader 0 entry.partition_count;
}

abbrev pub meta_or_unknown : Text → Text → Option TopicEntry → TopicMetadata
meta_or_unknown leader name (some entry) = topic_meta_from_entry entry leader
meta_or_unknown leader name none = record {
  topic = name;
  error_code = some err_unknown_topic;
  topic_uuid = [];
  partitions = [];
}

abbrev pub contains : Text → List Text → Bool
contains name seen = any (λ t. eqb_text t name) seen

-- The loop over the names of the request, over `seen` and `out`.
unfoldable pub filter_loop :
    Text → List TopicEntry → List Text → List Text → List TopicMetadata → List TopicMetadata
filter_loop leader topics [] seen out = out
filter_loop leader topics (name ∷ names) seen out =
    let skip = filter_loop leader topics names seen out in
    let rest =
      filter_loop leader topics names (name ∷ seen)
        (out ++ meta_or_unknown leader name (find name topics) ∷ []) in
    if contains name seen then skip else rest

unfoldable pub topics_of : Text → List TopicEntry → List Text → List TopicMetadata
topics_of leader topics [] = map (λ entry. topic_meta_from_entry entry leader) topics
topics_of leader topics (name ∷ names) = filter_loop leader topics (name ∷ names) [] []

-- `answers` is whether the registry takes the message and replies.
unfoldable pub handle_metadata :
    Bool → BrokerIdentity → ℕ → List Text → List TopicEntry → Frame Command
handle_metadata answers identity cid names topics =
    if answers
    then bare cid (
        Body.metadata_resp (record {
          cluster_id = identity.cluster_id;
          brokers =
              record {
                broker_id = identity.broker_id;
                host = identity.advertised_host;
                port = identity.advertised_port;
              }
              ∷ [];
          topics = topics_of identity.broker_id topics names;
        }))
    else error_frame cid err_broker_not_ready
