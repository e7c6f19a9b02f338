-- ===== src/Server/Wire/Dispatch/Echo.antt =====
-- The parts of the handlers answer under the correlation id of their command.
use kafkrs.Prelude.{
  ℕ, ◌≡◌, refl, Bool, true, false, Option, none, some, List, [], ◌∷◌, if◌then◌else◌,
}
use kafkrs.Models.Manifest.{Text}
use kafkrs.Models.Topic.{TopicConfigOverrides, TopicEntry, ResolvedTopicConfig}
use kafkrs.Server.Fetcher.{Fetched}
use kafkrs.Server.PendingDeletes.{PendingDelete}
use kafkrs.Server.TopicRegistry.{Reply}
use kafkrs.Server.Partitions.{Key, spawn_range}
use kafkrs.Server.Wire.Frame.{Frame}
use kafkrs.Server.Wire.Command.{Command, InRecordMeta, ProduceRequest, ProduceResponse}
use kafkrs.Server.Wire.Produce
use kafkrs.Server.Wire.Resolve.{Resolved, found, refused, panicked, resolve_or_ensure_partition}
use kafkrs.Server.Wire.Resolve.Current.{resolve_or_ensure_partition-IsServed}
use kafkrs.Server.Wire.FetchHandler.{fetch_frame}
use kafkrs.Server.Wire.TopicAdmin.{SharedState, AdminIo, Answer, created, described, altered}
use kafkrs.Server.Wire.TopicAdmin.Served.{IsServed}
use kafkrs.Server.Wire.DeleteTopic.{persisted}
use kafkrs.Server.Wire.Dispatch.{DispatchIo, produce_frame, produced, produce_of}

-- A frame, if there is one, has the correlation id.
abbrev pub Echoed : ℕ → Option (Frame Command) → Type 0
Echoed cid none = Unit
Echoed cid (some frame) = frame.command.correlation_id ≡ cid

pub if-Echoed :
    (cid : ℕ) (b : Bool) (x y : Answer)
    → Echoed cid x.1
    → Echoed cid y.1
    → Echoed cid (if b then x else y).1
if-Echoed cid true x y h k = h
if-Echoed cid false x y h k = k

pub option-Echoed :
    (cid : ℕ) (b : Bool) (x : Frame Command)
    → x.command.correlation_id ≡ cid
    → Echoed cid (if b then some x else none)
option-Echoed cid true x h = h
option-Echoed cid false x h = tt

pub frame-Echoed :
    (cid : ℕ) (b : Bool) (x y : Frame Command)
    → x.command.correlation_id ≡ cid
    → y.command.correlation_id ≡ cid
    → (if b then x else y).command.correlation_id ≡ cid
frame-Echoed cid true x y h k = h
frame-Echoed cid false x y h k = k

pub created-Echoed :
    (io : AdminIo) (cid : ℕ) (topic : Text) (count : ℕ) (cfg : ResolvedTopicConfig)
    (reply : Reply Text) (s : SharedState)
    → Echoed cid (created io cid topic count cfg reply s).1
created-Echoed io cid topic count cfg (Reply.ok uuid) s =
    option-Echoed cid (spawn_range io.spawn_io topic uuid cfg 0 count s.partitions).1 _ refl
created-Echoed io cid topic count cfg (Reply.err e) s = refl

pub altered-Echoed :
    (cid : ℕ) (topic : Text) (reply : Reply TopicConfigOverrides) (s : SharedState)
    → Echoed cid (altered cid topic reply s).1
altered-Echoed cid topic (Reply.ok merged) s = refl
altered-Echoed cid topic (Reply.err e) s = refl

pub persisted-Echoed :
    (cid : ℕ) (r : PendingDelete) (ok : Bool) (s : SharedState)
    → Echoed cid (persisted cid r ok s).1
persisted-Echoed cid r true s = refl
persisted-Echoed cid r false s = refl

pub fetch_frame-Echoed :
    (cid : ℕ) (fetched : Fetched) → (fetch_frame cid fetched).command.correlation_id ≡ cid
unfolding fetch_frame
fetch_frame-Echoed cid (Fetched.ok resp) = refl
fetch_frame-Echoed cid (Fetched.err e) = refl

pub produce_frame-Echoed :
    (cid : ℕ) (reply : Produce.Reply ProduceResponse)
    → (produce_frame cid reply).command.correlation_id ≡ cid
produce_frame-Echoed cid (Produce.ok resp) = refl
produce_frame-Echoed cid (Produce.error code) = refl

pub produced-Echoed :
    (io : DispatchIo) (cid : ℕ) (metas : List InRecordMeta) (payload : List ℕ) (s : SharedState)
    (r : Resolved)
    → Echoed cid (produced io cid metas payload s r).1
produced-Echoed io cid metas payload s (found h) = produce_frame-Echoed cid _
produced-Echoed io cid metas payload s (refused code) = refl
produced-Echoed io cid metas payload s panicked = tt

pub produced-IsServed :
    (io : DispatchIo) (cid : ℕ) (metas : List InRecordMeta) (payload : List ℕ) (s : SharedState)
    (r : Resolved)
    → IsServed s
    → IsServed (produced io cid metas payload s r).0
produced-IsServed io cid metas payload s (found h) k = k
produced-IsServed io cid metas payload s (refused code) k = k
produced-IsServed io cid metas payload s panicked k = k

pub produce_of-Echoed :
    (io : DispatchIo) (cid : ℕ) (req : ProduceRequest) (metas : List InRecordMeta)
    (payload : List ℕ) (s : SharedState)
    → Echoed cid (produce_of io cid req metas payload s).1
produce_of-Echoed io cid req [] payload s = refl
produce_of-Echoed io cid req (m ∷ ms) payload s =
    let resolved =
      resolve_or_ensure_partition io.admin io.auto_create (req.topic, req.partition) s in
    produced-Echoed io cid (m ∷ ms) payload resolved.0 resolved.1

pub produce_of-IsServed :
    (io : DispatchIo) (cid : ℕ) (req : ProduceRequest) (metas : List InRecordMeta)
    (payload : List ℕ) (s : SharedState)
    → IsServed s
    → IsServed (produce_of io cid req metas payload s).0
produce_of-IsServed io cid req [] payload s h = h
produce_of-IsServed io cid req (m ∷ ms) payload s h =
    let key : Key = (req.topic, req.partition) in
    let resolved = resolve_or_ensure_partition io.admin io.auto_create key s in
    produced-IsServed io cid (m ∷ ms) payload resolved.0 resolved.1
      (resolve_or_ensure_partition-IsServed io.admin io.auto_create key s h)

pub described-Echoed :
    (cid : ℕ) (entry : Option TopicEntry) → (described cid entry).command.correlation_id ≡ cid
described-Echoed cid none = refl
described-Echoed cid (some entry) = refl
