-- ===== src/Server/Wire/FetchHandler.antt =====
-- kafkrs-server/src/wire/dispatch/fetch.rs: the handler of `Fetch`.
-- What the messages of the fetch meet is given as a scene for the partition that was found.
pub mod Payload
use kafkrs.Prelude.{ℕ, ◌%◌, ◌^◌, min, Option, none, some, List, [], ◌∷◌, ◌++◌, length}
use kafkrs.Models.Record.{Record}
use kafkrs.Models.Manifest.{Manifest}
use kafkrs.Server.Fetcher
use kafkrs.Server.Fetcher.{FetchRequest, FetchResponse, Fetched, Scene, fetch}
use kafkrs.Server.Partitions.{Partitions, PartitionHandle, get_handle}
use kafkrs.Server.Wire.Frame.{Frame}
use kafkrs.Server.Wire.Command.{
  Body, Command, OutRecordMeta, FetchCommand, err_unknown_topic, error_frame,
}
use kafkrs.Server.Wire.Errors.{fetch_error_code}

abbrev pub out_meta : Record → OutRecordMeta
out_meta r = record {
  offset = r.offset;
  timestamp_ns = r.timestamp_ns;
  schema_id = r.schema_id;
  key_len = length r.key % 2 ^ 32;
  value_len = length r.value % 2 ^ 32;
}

-- The loop over `metas` and `payload`.
unfoldable pub build : List Record → List OutRecordMeta → List ℕ → List OutRecordMeta × List ℕ
build [] metas payload = (metas, payload)
build (r ∷ rs) metas payload = build rs (metas ++ out_meta r ∷ []) ((payload ++ r.key) ++ r.value)

-- The frame for what the fetch answered.
unfoldable pub fetch_frame : ℕ → Fetched → Frame Command
fetch_frame cid (Fetched.err e) = error_frame cid (fetch_error_code e)
fetch_frame cid (Fetched.ok resp) =
    let (metas, payload) = build resp.records [] [] in
    record {
      command = record {
        correlation_id = cid;
        body = some (Body.fetch_resp (record { records = metas; hwm = resp.hwm }));
      };
      payload = payload;
    }

abbrev pub fetch_request : FetchCommand → PartitionHandle → FetchRequest
fetch_request req handle = record {
  from_offset = req.from_offset;
  max_records = req.max_records;
  max_wait_ms = min req.max_wait_ms handle.cfg.max_fetch_wait_ms;
}

module _ (from_slice : List ℕ → Option Manifest)
    (read_segment : List ℕ → Option (List Record)) where
  abbrev pub fetch_from :
      (PartitionHandle → Scene) → ℕ → FetchCommand → Option PartitionHandle → Frame Command
  fetch_from scene cid req none = error_frame cid err_unknown_topic
  fetch_from scene cid req (some handle) =
      fetch_frame cid (fetch from_slice read_segment (scene handle) (fetch_request req handle))

  unfoldable pub handle_fetch :
      (PartitionHandle → Scene) → ℕ → FetchCommand → Partitions → Frame Command
  handle_fetch scene cid req partitions =
      fetch_from scene cid req (get_handle (req.topic, req.partition) partitions)
