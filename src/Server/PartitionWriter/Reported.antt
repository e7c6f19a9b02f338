-- ===== src/Server/PartitionWriter/Reported.antt =====
-- What the uploader's reports leave of a writer's log.
use kafkrs.Prelude.{ℕ, Bool, inl, inr, List, [], ◌∷◌, All-mono, Memᴰ, Bool-cases, sym}
use kafkrs.Prelude.Int.{ℤ, eqb_ℤ, eqb_ℤ_iff}
use kafkrs.Models.Record.{Record}
use kafkrs.Server.PartitionWriter.State.{
  Writer, Io, Event, produce, locates, reads_active, segment_durable, update_config, shutdown,
  closed, timer,
}
use kafkrs.Server.PartitionWriter.Ops.{on_durable}
use kafkrs.Server.PartitionWriter.Log.{IsLogged, Mem-remove}

-- The segments that the uploader has reported behind an event, and behind a list of events.
abbrev pub reported : Event → List ℤ → List ℤ
reported (segment_durable base) durable = base ∷ durable
reported e durable = durable

abbrev pub all_reported : List (Io × Event) → List ℤ → List ℤ
all_reported [] durable = durable
all_reported ((io, e) ∷ events) durable = all_reported events (reported e durable)

Mem-reported : (k : ℤ) (e : Event) (durable : List ℤ) → Memᴰ k durable → Memᴰ k (reported e durable)
Mem-reported k (segment_durable base) durable m = Memᴰ.tail m
Mem-reported k (produce clock instant incoming ack) durable m = m
Mem-reported k (locates from) durable m = m
Mem-reported k (reads_active from max_records) durable m = m
Mem-reported k (update_config cfg) durable m = m
Mem-reported k shutdown durable m = m
Mem-reported k closed durable m = m
Mem-reported k timer durable m = m

Mem-all_reported :
    (k : ℤ) (events : List (Io × Event)) (durable : List ℤ)
    → Memᴰ k durable
    → Memᴰ k (all_reported events durable)
Mem-all_reported k [] durable m = m
Mem-all_reported k ((io, e) ∷ events) durable m =
    Mem-all_reported k events (reported e durable) (Mem-reported k e durable m)

module _ (start : ℕ) (old : List Record) where
  pub all_reported-IsLogged :
      (events : List (Io × Event)) (durable : List ℤ) (w : Writer)
      → IsLogged start old durable w
      → IsLogged start old (all_reported events durable) w
  all_reported-IsLogged events durable w g = record {
    later = g.later;
    grown = g.grown;
    numbered = g.numbered;
    base_at = g.base_at;
    acknowledged = g.acknowledged;
    kept =
        All-mono _ _ w.uploads
          (λ b k. elim k [
            | inl there ↦ inl there
            | inr told ↦ inr (Mem-all_reported b.base_offset events durable told)
          ])
          g.kept;
  }

  pub on_durable-IsLogged :
      (removes : Bool) (base : ℤ) (durable : List ℤ) (w : Writer)
      → IsLogged start old durable w
      → IsLogged start old (base ∷ durable) (on_durable removes base w)
  unfolding on_durable
  on_durable-IsLogged removes base durable w g = record {
    later = g.later;
    grown = g.grown;
    numbered = g.numbered;
    base_at = g.base_at;
    acknowledged = g.acknowledged;
    kept =
        All-mono _ _ w.uploads
          (λ b k. elim (Bool-cases (eqb_ℤ base b.base_offset)) [
            | inl same ↦ inr (Memᴰ.head (sym ((eqb_ℤ_iff base b.base_offset).0 same)))
            | inr other ↦ elim k [
              | inl there ↦ inl (Mem-remove base (b.base_offset, b.records) w.sealed other there)
              | inr told ↦ inr (Memᴰ.tail told)
            ]
          ])
          g.kept;
  }
