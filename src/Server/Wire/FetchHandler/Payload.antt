-- ===== src/Server/Wire/FetchHandler/Payload.antt =====
-- What a client reads out of the answer to a fetch.
use kafkrs.Prelude.{
  ℕ, ◌+◌, ◌%◌, ◌^◌, ◌<◌, ◌≤◌, ◌≡◌, lt→ltb, true, refl, ap, ◌∙◌, Option, some, List, [], ◌∷◌, ◌++◌,
  map, arith, ltb, length, take, drop, take-append, drop-append, append-nil, append_assoc, All,
  length-append,
}
use kafkrs.Models.Record.{Record}
use kafkrs.Server.Fetcher.{FetchResponse, Fetched}
use kafkrs.Server.Wire.Frame.{encode_frame, too_large, err, max_frame_size}
use kafkrs.Server.Wire.Command.{Body, Command, OutRecordMeta}
use kafkrs.Server.Wire.FetchHandler.{out_meta, build, fetch_frame}

-- The records that a client cuts out of a payload, as v1.proto describes it: the keys and the
-- values in a row, in the order of their descriptions.
unfoldable pub read_records : List OutRecordMeta → List ℕ → List Record
read_records [] payload = []
read_records (m ∷ ms) payload =
    record {
      offset = m.offset;
      timestamp_ns = m.timestamp_ns;
      schema_id = m.schema_id;
      key = take m.key_len payload;
      value = take m.value_len (drop m.key_len payload);
    }
    ∷ read_records ms (drop m.value_len (drop m.key_len payload))

abbrev pub payload_of : List Record → List ℕ
payload_of [] = []
payload_of (r ∷ rs) = r.key ++ (r.value ++ payload_of rs)

build_lem :
    (rs : List Record) (metas : List OutRecordMeta) (payload : List ℕ)
    → build rs metas payload ≡ (metas ++ map out_meta rs, payload ++ payload_of rs)
unfolding build
build_lem [] metas payload = rw (append-nil metas, append-nil payload) refl
build_lem (r ∷ rs) metas payload =
    build_lem rs (metas ++ out_meta r ∷ []) ((payload ++ r.key) ++ r.value) ∙ simp append_assoc refl

-- The lengths of the record fit in the `u32`s of its description.
abbrev pub IsSized : Record → Type 0
IsSized r = (length r.key < 2 ^ 32) × (length r.value < 2 ^ 32)

read-payload_of :
    (rs : List Record) → All IsSized rs → read_records (map out_meta rs) (payload_of rs) ≡ rs
unfolding read_records
read-payload_of [] h = refl
read-payload_of (r ∷ rs) h =
    let k : length r.key % 2 ^ 32 ≡ length r.key = omega arith in
    let v : length r.value % 2 ^ 32 ≡ length r.value = omega arith in
    simp (k, v, take-append, drop-append, read-payload_of rs h.1) refl

-- From the frame of an answered fetch a client reads the records of the answer, byte for byte, and
-- its high-water mark, when their keys and values are shorter than 2^32 bytes.
pub fetch_frame-read_records :
    (cid : ℕ) (resp : FetchResponse)
    → All IsSized resp.records
    → (metas : List OutRecordMeta) × ((fetch_frame cid (Fetched.ok resp)).command.body
        ≡ some (Body.fetch_resp (record { records = metas; hwm = resp.hwm })))
      × (read_records metas (fetch_frame cid (Fetched.ok resp)).payload ≡ resp.records)
unfolding fetch_frame
fetch_frame-read_records cid resp h =
    let built = build_lem resp.records [] [] in
    ((build resp.records [] []).0, refl, rw built (read-payload_of resp.records h))

abbrev pub total_len : List Record → ℕ
total_len [] = 0
total_len (r ∷ rs) = length r.key + length r.value + total_len rs

length-payload_of : (rs : List Record) → length (payload_of rs) ≡ total_len rs
length-payload_of [] = refl
length-payload_of (r ∷ rs) = omega (
  arith,
  length-payload_of rs,
  length-append r.key (r.value ++ payload_of rs),
  length-append r.value (payload_of rs),
)

-- An answer whose keys and values come to the largest frame or more has no encoding, however its
-- command is written: the writer of the connection closes it instead of answering.
pub fetch_frame-too_large :
    (encode : Command → List ℕ) (decode : List ℕ → Option Command) (cid : ℕ) (resp : FetchResponse)
    → max_frame_size ≤ total_len resp.records
    → (n : ℕ) × (encode_frame encode decode (fetch_frame cid (Fetched.ok resp)) ≡ err (too_large n))
unfolding fetch_frame encode_frame
fetch_frame-too_large encode decode cid resp h =
    let built = build resp.records [] [] in
    let command : Command = record {
      correlation_id = cid;
      body = some (Body.fetch_resp (record { records = built.0; hwm = resp.hwm }));
    } in
    let n = 4 + length (encode command) + length built.1 + 4 in
    let size =
      ap (λ x. length x.1) (build_lem resp.records [] []) ∙ length-payload_of resp.records in
    let big : ltb max_frame_size n ≡ true = lt→ltb max_frame_size n (omega (arith, size, h)) in
    (n, rw big refl)
