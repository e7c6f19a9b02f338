-- ===== src/Server/Wire/Produce/Slice.antt =====
-- The payload of a produce request against its records.
use kafkrs.Prelude.{
  ℕ, ◌+◌, ◌<◌, ◌≤◌, ◌^◌, ◌≡◌, ◌∙◌, refl, sym, ap, none, List, [], ◌∷◌, ◌++◌, arith, ltb, ◌==◌,
  length, take, drop, map, length-append, take-append, drop-append, drop-add, le→ltb, append-nil,
  append_assoc, All, List-cases, Bool-cases, false, inl, inr, take-append-drop, length-take,
  length-drop, ltb→le, ==_iff,
}
use kafkrs.Prelude.Int.{IsI64}
use kafkrs.Models.Wal.{header_after_len}
use kafkrs.Models.Topic.{ResolvedTopicConfig}
use kafkrs.Server.PartitionWriter.State.{IncomingRecord}
use kafkrs.Server.PartitionWriter.Assign.{IsStorable}
use kafkrs.Server.Wire.Produce.{Reply, ok, slice_loop, slice_payload, validate_record_sizes}
use kafkrs.Server.Wire.Command.{InRecordMeta}

-- What a client sends for its records: their descriptions, and their keys and values in a row.
abbrev pub meta_of : IncomingRecord → InRecordMeta
meta_of r = record {
  schema_id = r.schema_id;
  key_len = length r.key;
  value_len = length r.value;
  timestamp_ns = r.timestamp_ns;
}

abbrev pub payload_of : List IncomingRecord → List ℕ
payload_of [] = []
payload_of (r ∷ rs) = r.key ++ (r.value ++ payload_of rs)

module _ (payload : List ℕ) where
  -- The loop over a cursor behind which the payloads of `rs` and more bytes stand.
  loop-fits :
      (rs done : List IncomingRecord) (cursor : ℕ)
      → cursor ≤ length payload
      → drop cursor payload ≡ payload_of rs
      → slice_loop payload (map meta_of rs) cursor done ≡ ok (done ++ rs)
  unfolding slice_loop
  loop-fits [] done cursor h e =
      let at_end : cursor ≡ length payload =
        omega (arith, h, ap length e, length-drop cursor payload) in
      ground (arith, at_end, append-nil done)
  loop-fits (r ∷ rs) done cursor h e =
      let k = length r.key in
      let v = length r.value in
      let total : length payload ≡ cursor + k + v + length (payload_of rs) = omega (
        arith,
        h,
        ap length e,
        length-drop cursor payload,
        length-append r.key (r.value ++ payload_of rs),
        length-append r.value (payload_of rs),
      ) in
      let key_at : take k (drop cursor payload) ≡ r.key =
        ap (take k) e ∙ take-append r.key (r.value ++ payload_of rs) in
      let behind : drop (cursor + k) payload ≡ r.value ++ payload_of rs =
        sym (drop-add cursor k payload)
        ∙ (ap (drop k) e ∙ drop-append r.key (r.value ++ payload_of rs)) in
      let value_at : take v (drop (cursor + k) payload) ≡ r.value =
        ap (take v) behind ∙ take-append r.value (payload_of rs) in
      let rest_at : drop (cursor + k + v) payload ≡ payload_of rs =
        sym (drop-add (cursor + k) v payload)
        ∙ (ap (drop v) behind ∙ drop-append r.value (payload_of rs)) in
      let fits : ltb (length payload) (cursor + k + v) ≡ false =
        le→ltb (length payload) (cursor + k + v) (omega (arith, total)) in
      rw (fits, key_at, value_at)
        (loop-fits rs (done ++ r ∷ []) (cursor + k + v) (omega (arith, total)) rest_at
          ∙ ap Reply.ok (append_assoc done (r ∷ []) rs))

-- The records of a request come out of its payload as the client put them in.
pub slice_payload-payload_of :
    (rs : List IncomingRecord) → slice_payload (map meta_of rs) (payload_of rs) ≡ ok rs
unfolding slice_payload
slice_payload-payload_of rs = loop-fits (payload_of rs) rs [] 0 (omega arith) refl

module _ (payload : List ℕ) where
  drop_end : (cursor : ℕ) → cursor ≡ length payload → drop cursor payload ≡ []
  drop_end cursor e = elim (List-cases (drop cursor payload)) [
    | inl end ↦ end
    | inr (y, ys, more) ↦ absurd (omega (arith, ap length more, length-drop cursor payload))
  ]

  loop_sound :
      (ms : List InRecordMeta) (done rs : List IncomingRecord) (cursor : ℕ)
      → cursor ≤ length payload
      → slice_loop payload ms cursor done ≡ ok rs
      → (new : List IncomingRecord) × (rs ≡ done ++ new)
        × (map meta_of new ≡ ms)
        × (drop cursor payload ≡ payload_of new)
  unfolding slice_loop
  loop_sound [] done rs cursor h e = elim (Bool-cases (cursor == length payload)) [
    | inl whole ↦
        let end : cursor ≡ length payload = (==_iff cursor (length payload)).0 whole in
        ([], ground (arith, whole, e, append-nil done), refl, drop_end cursor end)
    | inr short ↦ absurd (ground (arith, short, e))
  ]
  loop_sound (m ∷ ms) done rs cursor h e =
      elim (Bool-cases (ltb (length payload) (cursor + m.key_len + m.value_len))) [
        | inl short ↦ absurd (ground (arith, short, e))
        | inr fits ↦
            let sliced : IncomingRecord = record {
              schema_id = m.schema_id;
              key = take m.key_len (drop cursor payload);
              value = take m.value_len (drop (cursor + m.key_len) payload);
              timestamp_ns = m.timestamp_ns;
            } in
            let next = cursor + m.key_len + m.value_len in
            let inside : next ≤ length payload = ltb→le (length payload) next fits in
            let later : slice_loop payload ms next (done ++ sliced ∷ []) ≡ ok rs = (rw fits at e) in
            let behind = drop cursor payload in
            let key_len : length sliced.key ≡ m.key_len =
              omega (arith, length-take m.key_len behind, length-drop cursor payload) in
            let value_len : length sliced.value ≡ m.value_len = omega (
              arith,
              length-take m.value_len (drop (cursor + m.key_len) payload),
              length-drop (cursor + m.key_len) payload,
            ) in
            let (new, parts, metas, left) =
              loop_sound ms (done ++ sliced ∷ []) rs next inside later in
            (
              sliced ∷ new,
              parts ∙ append_assoc done (sliced ∷ []) new,
              rw (key_len, value_len, metas) refl,
              sym (take-append-drop m.key_len behind)
                  ∙ ap (λ bytes. sliced.key ++ bytes)
                      (drop-add cursor m.key_len payload
                        ∙ sym (take-append-drop m.value_len (drop (cursor + m.key_len) payload))
                        ∙ ap (λ bytes. sliced.value ++ bytes)
                            (drop-add (cursor + m.key_len) m.value_len payload ∙ left)),
            )
      ]

-- What the handler takes from a request is what a client with those records would have sent: the
-- payload has exactly the bytes of their keys and values, no more and no fewer.
pub slice_payload_sound :
    (ms : List InRecordMeta) (payload : List ℕ) (rs : List IncomingRecord)
    → slice_payload ms payload ≡ ok rs
    → (map meta_of rs ≡ ms) × (payload ≡ payload_of rs)
unfolding slice_payload
slice_payload_sound ms payload rs e =
    let (new, parts, metas, left) = loop_sound payload ms [] rs 0 (omega arith) e in
    rw parts (metas, left)

-- A topic whose key limit is below 2 ^ 16, and whose two limits leave room for the header in 32
-- bits, only lets through records that the log can store, given that their schema ids fit 32 bits
-- and their timestamps 64.
pub validated-IsStorable :
    (cfg : ResolvedTopicConfig) (rs : List IncomingRecord)
    → cfg.max_key_size_bytes < 2 ^ 16
    → header_after_len + cfg.max_key_size_bytes + cfg.max_value_size_bytes < 2 ^ 32
    → All (λ r. (r.schema_id < 2 ^ 32) × IsI64 r.timestamp_ns) rs
    → validate_record_sizes cfg (map meta_of rs) ≡ none
    → All IsStorable rs
unfolding validate_record_sizes
validated-IsStorable cfg [] h k t e = tt
validated-IsStorable cfg (r ∷ rs) h k (t, ts) e =
    elim (Bool-cases (ltb cfg.max_key_size_bytes (length r.key))) [
      | inl long_key ↦ absurd (ground (arith, long_key, e))
      | inr key_fits ↦ elim (Bool-cases (ltb cfg.max_value_size_bytes (length r.value))) [
        | inl long_value ↦ absurd (ground (arith, key_fits, long_value, e))
        | inr value_fits ↦
            let key_le = ltb→le cfg.max_key_size_bytes (length r.key) key_fits in
            let value_le = ltb→le cfg.max_value_size_bytes (length r.value) value_fits in
            (
              record {
                key_fits = omega (arith, key_le);
                body_fits = omega (arith, key_le, value_le);
                schema_fits = t.0;
                timestamp_fits = t.1;
              },
              validated-IsStorable cfg rs h k ts (rw (key_fits, value_fits) at e),
            )
      ]
    ]
