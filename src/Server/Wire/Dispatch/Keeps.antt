-- ===== src/Server/Wire/Dispatch/Keeps.antt =====
-- What every command keeps: its correlation id, and the partitions that are up.
use kafkrs.Prelude.{ℕ, ◌≡◌, refl, Bool, true, false, Option, none, some, List, [], ◌∷◌, not}
use kafkrs.Models.Record.{Record}
use kafkrs.Models.Manifest.{Text, Manifest}
use kafkrs.Server.Fetcher.{fetch}
use kafkrs.Server.PendingDeletes.{PendingDelete}
use kafkrs.Server.TopicRegistry.{Reply, find}
use kafkrs.Server.Partitions.{PartitionHandle, get_handle}
use kafkrs.Server.Wire.Command.{Body, FetchCommand}
use kafkrs.Server.Wire.FetchHandler.{fetch_from, fetch_request, handle_fetch}
use kafkrs.Server.Wire.Metadata.{handle_metadata}
use kafkrs.Server.Wire.TopicAdmin.{
  SharedState, AdminIo, handle_create_topic, handle_describe_topic, handle_list_topics,
  handle_alter_topic_config,
}
use kafkrs.Server.Wire.TopicAdmin.Served.{IsServed}
use kafkrs.Server.Wire.TopicAdmin.Keep.{handle_create_topic-IsServed, handle_delete_topic-IsServed}
use kafkrs.Server.Wire.TopicAdmin.Configure.{handle_alter_topic_config-IsServed}
use kafkrs.Server.Wire.DeleteTopic.{delete_data_of, deleted, handle_delete_topic}
use kafkrs.Server.Wire.Dispatch.{DispatchIo, handle_produce, dispatch_one}
use kafkrs.Server.Wire.Dispatch.Echo.{
  Echoed, if-Echoed, frame-Echoed, created-Echoed, altered-Echoed, persisted-Echoed,
  fetch_frame-Echoed, produce_of-Echoed, produce_of-IsServed, described-Echoed,
}

module _ (to_vec : List PendingDelete → List ℕ) (from_str : List ℕ → Option (List PendingDelete))
    (from_slice : List ℕ → Option Manifest) (read_segment : List ℕ → Option (List Record)) where
  delete_data_of-Echoed :
      (io : AdminIo) (cid : ℕ) (topic uuid : Text) (count : ℕ) (s : SharedState)
      → Echoed cid (delete_data_of to_vec from_str from_slice io cid topic uuid count s).1
  unfolding delete_data_of
  delete_data_of-Echoed io cid topic uuid count s = persisted-Echoed cid _ _ _

  deleted-Echoed :
      (io : AdminIo) (cid : ℕ) (topic : Text) (delete_data : Bool) (reply : Reply (Text × ℕ))
      (s : SharedState)
      → Echoed cid (deleted to_vec from_str from_slice io cid topic delete_data reply s).1
  deleted-Echoed io cid topic delete_data (Reply.err e) s = refl
  deleted-Echoed io cid topic false (Reply.ok (uuid, count)) s = refl
  deleted-Echoed io cid topic true (Reply.ok (uuid, count)) s =
      delete_data_of-Echoed io cid topic uuid count _

  fetch_from-Echoed :
      (io : DispatchIo) (cid : ℕ) (req : FetchCommand) (handle : Option PartitionHandle)
      → (fetch_from from_slice read_segment io.scene cid req handle).command.correlation_id ≡ cid
  fetch_from-Echoed io cid req none = refl
  fetch_from-Echoed io cid req (some handle) =
      fetch_frame-Echoed cid
        (fetch from_slice read_segment (io.scene handle) (fetch_request req handle))

  -- Whatever command is dispatched, in whatever state, and whichever of its calls fail: the frame
  -- that answers it, if its handler does not panic, has its correlation id.
  pub dispatch_one-Echoed :
      (io : DispatchIo) (cid : ℕ) (body : Body) (payload : List ℕ) (s : SharedState)
      → Echoed cid (dispatch_one to_vec from_str from_slice read_segment io cid body payload s).1
  unfolding dispatch_one handle_produce handle_fetch handle_create_topic handle_describe_topic
      handle_list_topics handle_delete_topic handle_alter_topic_config handle_metadata
  dispatch_one-Echoed io cid (Body.produce req) payload s =
      produce_of-Echoed io cid req req.records payload s
  dispatch_one-Echoed io cid (Body.fetch req) payload s =
      fetch_from-Echoed io cid req (get_handle (req.topic, req.partition) s.partitions)
  dispatch_one-Echoed io cid (Body.create_topic req) payload s =
      if-Echoed cid io.admin.answers _ _
        (created-Echoed io.admin cid req.topic req.partition_count _ _ _) refl
  dispatch_one-Echoed io cid (Body.describe_topic topic) payload s =
      frame-Echoed cid io.admin.answers _ _ (described-Echoed cid (find topic s.registry.topics))
        refl
  dispatch_one-Echoed io cid Body.list_topics payload s =
      frame-Echoed cid (not io.admin.answers) _ _ refl refl
  dispatch_one-Echoed io cid (Body.delete_topic req) payload s =
      if-Echoed cid io.admin.answers _ _ (deleted-Echoed io.admin cid req.topic _ _ _) refl
  dispatch_one-Echoed io cid (Body.alter_topic_config req) payload s =
      if-Echoed cid io.admin.answers _ _ (altered-Echoed cid req.topic _ _) refl
  dispatch_one-Echoed io cid (Body.metadata names) payload s =
      frame-Echoed cid io.admin.answers _ _ refl refl
  dispatch_one-Echoed io cid body payload s = refl

  dispatch_one-IsServed :
      (io : DispatchIo) (cid : ℕ) (body : Body) (payload : List ℕ) (s : SharedState)
      → IsServed s
      → IsServed (dispatch_one to_vec from_str from_slice read_segment io cid body payload s).0
  unfolding dispatch_one handle_produce
  dispatch_one-IsServed io cid (Body.produce req) payload s h =
      produce_of-IsServed io cid req req.records payload s h
  dispatch_one-IsServed io cid (Body.create_topic req) payload s h =
      handle_create_topic-IsServed io.admin cid req s h
  dispatch_one-IsServed io cid (Body.delete_topic req) payload s h =
      handle_delete_topic-IsServed to_vec from_str from_slice io.admin cid req s h
  dispatch_one-IsServed io cid (Body.alter_topic_config req) payload s h =
      handle_alter_topic_config-IsServed io.admin cid req s h
  dispatch_one-IsServed io cid body payload s h = h

  -- Commands in turn, each with the outcomes that it meets.
  abbrev pub dispatch_all : List (DispatchIo × ℕ × Body × List ℕ) → SharedState → SharedState
  dispatch_all [] s = s
  dispatch_all ((io, cid, body, payload) ∷ commands) s =
      dispatch_all commands
        (dispatch_one to_vec from_str from_slice read_segment io cid body payload s).0

  -- Whatever commands are dispatched one after the other, and whichever of their calls fail, every
  -- partition that is up is one of a topic that the registry has: its number is below the topic's
  -- partition count, it works on the topic's current incarnation, and its config is the resolution
  -- of the topic's overrides, in its handle and, behind the messages that they were sent, in its
  -- writer and its uploader.
  pub dispatch_all-IsServed :
      (commands : List (DispatchIo × ℕ × Body × List ℕ)) (s : SharedState)
      → IsServed s
      → IsServed (dispatch_all commands s)
  dispatch_all-IsServed [] s h = h
  dispatch_all-IsServed ((io, cid, body, payload) ∷ commands) s h =
      dispatch_all-IsServed commands
        (dispatch_one to_vec from_str from_slice read_segment io cid body payload s).0
        (dispatch_one-IsServed io cid body payload s h)
