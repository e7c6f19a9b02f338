-- ===== src/Server/Fetcher/Bounds.antt =====
-- What a fetch returns, whichever tier serves it.
use kafkrs.Prelude.{
  sym, ℕ, zero, suc, ◌+◌, ◌<◌, ◌≤◌, ◌^◌, ◌≡◌, refl, ap, ◌∙◌, false, ◌==◌, inl, inr, Option, none,
  some, List, [], ◌∷◌, arith, filter, take, drop, length, length-take, All, Bool-cases,
}
use kafkrs.Prelude.Int.{ℤ, pos, ltb_ℤ, leb_ℤ, ◌≤ℤ◌}
use kafkrs.Models.Record.{Record}
use kafkrs.Models.Manifest.{Manifest, SegmentEntry}
use kafkrs.Server.PartitionWriter.State.{
  Writer, LocateResult, hwm_at, in_active_batch, in_flight, below_in_flight,
}
use kafkrs.Server.PartitionWriter.Ops
use kafkrs.Server.PartitionWriter.Ops.{locate}
use kafkrs.Server.PartitionWriter.Invariant.{IsConsistent}
use kafkrs.Server.PartitionWriter.Read.{locate_lem, read_active_lem}
use kafkrs.Server.Fetcher.{
  FetchRequest, FetchResponse, Fetched, ok, err, Scene, ask_active, empty_at, select, of_records,
  of_bytes, of_segment, of_manifest, of_raw, read_object_store, after_wait, look_again, or_empty,
  serve, look, fetch,
}

-- At most the records that were asked for, and none before the offset.
abbrev pub Answers : FetchRequest → Fetched → Type 0
Answers req (ok resp) =
    (length resp.records ≤ req.max_records) × All (λ r. req.from_offset ≤ℤ r.offset) resp.records
Answers req (err e) = Unit

All-from :
    (from : ℤ) (rs : List Record)
    → All (λ r. from ≤ℤ r.offset) (filter (λ r. leb_ℤ from r.offset) rs)
unfolding filter
All-from from [] = tt
All-from from (r ∷ rs) = elim (Bool-cases (leb_ℤ from r.offset)) [
  | inl keep ↦ rw keep (ground (arith, keep), All-from from rs)
  | inr out ↦ rw out (All-from from rs)
]

cut-Answers :
    (from : ℤ) (n : ℕ) (rs : List Record)
    → (length (take n (filter (λ r. leb_ℤ from r.offset) rs)) ≤ n)
      × All (λ r. from ≤ℤ r.offset) (take n (filter (λ r. leb_ℤ from r.offset) rs))
cut-Answers from n rs = (
  omega (arith, length-take n (filter (λ r. leb_ℤ from r.offset) rs)),
  All-take n _ (All-from from rs),
)
  where
    All-take :
        (n : ℕ) (qs : List Record)
        → All (λ r. from ≤ℤ r.offset) qs
        → All (λ r. from ≤ℤ r.offset) (take n qs)
    All-take zero qs h = tt
    All-take (suc n) [] h = tt
    All-take (suc n) (q ∷ qs) (h, k) = (h, All-take n qs k)

ask_active-Answers : (o : Option Writer) (req : FetchRequest) → Answers req (ask_active o req)
unfolding ask_active Ops.read_active
ask_active-Answers none req = tt
ask_active-Answers (some w) req = cut-Answers req.from_offset req.max_records w.active

empty_at-Answers : (req : FetchRequest) (h : ℤ) → Answers req (empty_at h)
empty_at-Answers req h = (omega arith, tt)

select-Answers :
    (req : FetchRequest) (m : Manifest) (out : List Record) → Answers req (select req m out)
select-Answers req m out = cut-Answers req.from_offset req.max_records out

module _ (from_slice : List ℕ → Option Manifest)
    (read_segment : List ℕ → Option (List Record)) where
  of_records-Answers :
      (req : FetchRequest) (m : Manifest) (o : Option (List Record))
      → Answers req (of_records from_slice read_segment req m o)
  of_records-Answers req m none = tt
  of_records-Answers req m (some out) = select-Answers req m out

  of_bytes-Answers :
      (req : FetchRequest) (m : Manifest) (o : Option (List ℕ))
      → Answers req (of_bytes from_slice read_segment req m o)
  of_bytes-Answers req m none = tt
  of_bytes-Answers req m (some bytes) = of_records-Answers req m (read_segment bytes)

  of_segment-Answers :
      (scene : Scene) (req : FetchRequest) (m : Manifest) (o : Option SegmentEntry)
      → Answers req (of_segment from_slice read_segment scene req m o)
  of_segment-Answers scene req m none = tt
  of_segment-Answers scene req m (some seg) = of_bytes-Answers req m _

  of_manifest-Answers :
      (scene : Scene) (req : FetchRequest) (o : Option Manifest)
      → Answers req (of_manifest from_slice read_segment scene req o)
  of_manifest-Answers scene req none = tt
  of_manifest-Answers scene req (some m) = of_segment-Answers scene req m _

  of_raw-Answers :
      (scene : Scene) (req : FetchRequest) (o : Option (List ℕ))
      → Answers req (of_raw from_slice read_segment scene req o)
  of_raw-Answers scene req none = tt
  of_raw-Answers scene req (some raw) = of_manifest-Answers scene req (from_slice raw)

  read_object_store-Answers :
      (scene : Scene) (req : FetchRequest)
      → Answers req (read_object_store from_slice read_segment scene req)
  unfolding read_object_store
  read_object_store-Answers scene req = of_raw-Answers scene req _

  after_wait-Answers :
      (scene : Scene) (req : FetchRequest) (found : LocateResult)
      → Answers req (after_wait from_slice read_segment scene req found)
  after_wait-Answers scene req in_active_batch = ask_active-Answers scene.third req
  after_wait-Answers scene req (hwm_at h) = empty_at-Answers req h
  after_wait-Answers scene req in_flight = read_object_store-Answers scene req
  after_wait-Answers scene req below_in_flight = read_object_store-Answers scene req

  look_again-Answers :
      (scene : Scene) (req : FetchRequest) (o : Option Writer)
      → Answers req (look_again from_slice read_segment scene req o)
  look_again-Answers scene req none = tt
  look_again-Answers scene req (some w) = after_wait-Answers scene req (locate req.from_offset w)

  or_empty-Answers :
      (req : FetchRequest) (f : Fetched)
      → Answers req f
      → Answers req (or_empty from_slice read_segment f)
  or_empty-Answers req (ok resp) h = h
  or_empty-Answers req (err e) h = (omega arith, tt)

  serve-Answers :
      (scene : Scene) (req : FetchRequest) (found : LocateResult)
      → Answers req (serve from_slice read_segment scene req found)
  serve-Answers scene req in_active_batch = ask_active-Answers scene.second req
  serve-Answers scene req in_flight = or_empty-Answers req _ (read_object_store-Answers scene req)
  serve-Answers scene req below_in_flight = read_object_store-Answers scene req
  serve-Answers scene req (hwm_at h) = elim (Bool-cases (req.max_wait_ms == 0)) [
    | inl at_once ↦ rw at_once (empty_at-Answers req h)
    | inr waits ↦ rw waits (look_again-Answers scene req scene.second)
  ]

  look-Answers :
      (scene : Scene) (req : FetchRequest) (o : Option Writer)
      → Answers req (look from_slice read_segment scene req o)
  look-Answers scene req none = tt
  look-Answers scene req (some w) = serve-Answers scene req (locate req.from_offset w)

  -- Whichever tier serves a fetch, and whatever state the writer is in at each of its messages, an
  -- answer has at most the number of records that was asked for, and none before the offset.
  pub fetch-Answers :
      (scene : Scene) (req : FetchRequest) → Answers req (fetch from_slice read_segment scene req)
  unfolding fetch
  fetch-Answers scene req = elim (Bool-cases (ltb_ℤ req.from_offset (pos 0))) [
    | inl negative ↦ rw negative tt
    | inr fine ↦ rw fine (look-Answers scene req scene.first)
  ]

module _ (crc32c : List ℕ → ℕ) (crc_u32 : (bytes : List ℕ) → crc32c bytes < 2 ^ 32)
    (from_slice : List ℕ → Option Manifest) (read_segment : List ℕ → Option (List Record)) where
  -- A fetch of a record of the open segment that a consistent writer has committed is answered from
  -- memory, with the records from that one on, without a gap, up to the limit; the writer may
  -- have gone on between its two messages, but not to another segment.
  pub fetch-active :
      (scene : Scene) (req : FetchRequest) (w w' : Writer) (v : IsConsistent crc32c w)
      (v' : IsConsistent crc32c w') (k : ℕ)
      → scene.first ≡ some w
      → scene.second ≡ some w'
      → v'.base ≡ v.base
      → req.from_offset ≡ pos (v.base + k)
      → k < length w.active
      → (resp : FetchResponse) × (fetch from_slice read_segment scene req ≡ ok resp)
        × (resp.records ≡ take req.max_records (drop k w'.active))
  unfolding fetch ask_active
  fetch-active scene req w w' v v' k e1 e2 same from h =
      let found : locate req.from_offset w ≡ in_active_batch =
        ap (λ n. locate n w) from
        ∙ (locate_lem crc32c crc_u32 w v (v.base + k) (omega arith)).0 (omega arith)
            (omega arith) in
      let records : Ops.read_active req.from_offset req.max_records w'
          ≡ take req.max_records (drop k w'.active) =
        ap (λ n. Ops.read_active n req.max_records w') (from ∙ ap (λ b. pos (b + k)) (sym same))
        ∙ read_active_lem crc32c crc_u32 w' v' k req.max_records in
      let fine : ltb_ℤ req.from_offset (pos 0) ≡ false = ground (arith, from) in
      let start : fetch from_slice read_segment scene req
          ≡ look from_slice read_segment scene req scene.first =
        rw fine refl in
      (
        _,
        start
            ∙ ap (look from_slice read_segment scene req) e1
            ∙ ap (serve from_slice read_segment scene req) found
            ∙ ap (λ o. ask_active o req) e2,
        records,
      )
