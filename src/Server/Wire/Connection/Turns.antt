-- ===== src/Server/Wire/Connection/Turns.antt =====
-- The turns of a connection's dispatcher and of its tasks, in any order, and what they keep.
use kafkrs.Prelude.{
  ℕ, ◌≡◌, ◌⊎◌, refl, inl, inr, Bool, true, false, not, Option, none, some, List, [], ◌∷◌, ◌==◌,
  ==_iff, arith, sym, ap, ap₂, ◌∙◌, Bool-cases, Mem-filter, Mem-filter_intro, filter-passes, Memᴰ,
  subst,
}
use mathlib.Core.List.Memᴰ
use kafkrs.Server.Wire.Frame.{Frame}
use kafkrs.Server.Wire.Command.{Body, Command}
use kafkrs.Server.Wire.Connection.{
  Entry, Task, Connection, start, on_body, receive, track, respond, retire, remove_entry,
}

-- A turn that takes no frame.
pub data Move (c d : Connection) : Type 0 where
  tracked : (e : Entry) → c.spawned ≡ some e → d ≡ track e c → Move c d
  responded : (answer : Frame Command) → d ≡ respond answer c → Move c d
  retired : (t : Task) → Memᴰ t c.running → d ≡ retire t c → Move c d
  hung_up : d ≡ record c { looping = false } → Move c d

-- The connections that can be reached, with the correlation ids of the frames taken so far.
pub data Reach (welcome : ℕ → Frame Command) : List ℕ → Connection → Type 0 where
  begin : Reach welcome [] start
  taken :
      {cids : List ℕ} {c : Connection} (frame : Frame Command)
      → Reach welcome cids c
      → c.looping ≡ true
      → c.spawned ≡ none
      → Reach welcome (frame.command.correlation_id ∷ cids) (receive welcome frame c)
  moved :
      {cids : List ℕ} {c d : Connection} → Reach welcome cids c → Move c d → Reach welcome cids d

abbrev pub Distinct : List ℕ → Type 0
Distinct [] = Unit
Distinct (x ∷ xs) = (¬ Memᴰ x xs) × Distinct xs

pub record Inv (cids : List ℕ) (c : Connection) : Type 0 where
  pub tracks :
      (t : Task)
      → Memᴰ t c.running
      → (c.spawned ≡ some (t.cid, t.id)) ⊎ Memᴰ (t.cid, t.id) c.inflight
  pub apart : (t u : Task) → Memᴰ t c.running → Memᴰ u c.running → t.cid ≡ u.cid → t.id ≡ u.id
  pub seen : (t : Task) → Memᴰ t c.running → Memᴰ t.cid cids
  pub newest :
      (e : Entry) → c.spawned ≡ some e → (t : Task) → Memᴰ t c.running → t.cid ≡ e.0 → t.id ≡ e.1

start-Inv : Inv [] start
start-Inv = record {
  tracks = λ t m. absurd (Memᴰ.not-nil m);
  apart = λ t u m n e. absurd (Memᴰ.not-nil m);
  seen = λ t m. absurd (Memᴰ.not-nil m);
  newest = λ e k t m h. absurd (Memᴰ.not-nil m);
}

-- A frame leaves the tasks as they are, or adds one, which is the newest.
abbrev Added : ℕ → Connection → Connection → Type 0
Added cid c d =
    ((d.running ≡ c.running) × (d.spawned ≡ c.spawned) × (d.inflight ≡ c.inflight))
    ⊎ ((t : Task) × (d.running ≡ t ∷ c.running)
        × (d.spawned ≡ some (t.cid, t.id))
        × (d.inflight ≡ c.inflight)
        × (t.cid ≡ cid))

on_body-Added :
    (welcome : ℕ → Frame Command) (frame : Frame Command) (connected : Bool) (body : Option Body)
    (c : Connection)
    → Added frame.command.correlation_id c (on_body welcome frame connected body c)
unfolding on_body
on_body-Added welcome frame connected (some (Body.error code)) c = inl (refl, refl, refl)
on_body-Added welcome frame false (some (Body.connect version)) c = inl (ground arith)
on_body-Added welcome frame false body c = inl (refl, refl, refl)
on_body-Added welcome frame true (some (Body.connect version)) c = inl (refl, refl, refl)
on_body-Added welcome frame true none c = inl (refl, refl, refl)
on_body-Added welcome frame true (some body) c = inr (_, refl, refl, refl, refl)

taken-Inv :
    (cid : ℕ) (cids : List ℕ) (c d : Connection)
    → (Memᴰ cid cids → ⊥)
    → c.spawned ≡ none
    → Added cid c d
    → Inv cids c
    → Inv (cid ∷ cids) d
taken-Inv cid cids c d new idle (inl (r, s, i)) inv = record {
  tracks = λ t m. elim (inv.tracks t (subst (Memᴰ t) r m)) [
    | inl k ↦ inl (s ∙ k)
    | inr k ↦ inr (subst (Memᴰ (t.cid, t.id)) (sym i) k)
  ];
  apart = λ t u m n e. inv.apart t u (subst (Memᴰ t) r m) (subst (Memᴰ u) r n) e;
  seen = λ t m. Memᴰ.tail (inv.seen t (subst (Memᴰ t) r m));
  newest = λ e k t m h. absurd (grind (arith, idle, s, k));
}
taken-Inv cid cids c d new idle (inr (u, r, s, i, e)) inv = record {
  tracks = λ t m. elim (Memᴰ.cases_cons (subst (Memᴰ t) r m)) [
    | inl k ↦ inl (s ∙ ap (λ x. some (x.cid, x.id)) (sym k))
    | inr k ↦ elim (inv.tracks t k) [
      | inl z ↦ absurd (grind (arith, idle, z))
      | inr z ↦ inr (subst (Memᴰ (t.cid, t.id)) (sym i) z)
    ]
  ];
  apart = λ t v m n h. elim (Memᴰ.cases_cons (subst (Memᴰ t) r m)) [
    | inl j ↦ elim (Memᴰ.cases_cons (subst (Memᴰ v) r n)) [
      | inl k ↦ ap (λ x. x.id) (j ∙ sym k)
      | inr k ↦ absurd (new (Memᴰ.cast (sym e ∙ ap (λ x. x.cid) (sym j) ∙ h) (inv.seen v k)))
    ]
    | inr j ↦ elim (Memᴰ.cases_cons (subst (Memᴰ v) r n)) [
      | inl k ↦ absurd (new (Memᴰ.cast (sym e ∙ ap (λ x. x.cid) (sym k) ∙ sym h) (inv.seen t j)))
      | inr k ↦ inv.apart t v j k h
    ]
  ];
  seen = λ t m. elim (Memᴰ.cases_cons (subst (Memᴰ t) r m)) [
    | inl k ↦ Memᴰ.head (ap (λ x. x.cid) k ∙ e)
    | inr k ↦ Memᴰ.tail (inv.seen t k)
  ];
  newest = λ f k t m h.
      let same : (f.0 ≡ u.cid) × (f.1 ≡ u.id) = ground (arith, s, k) in
      elim (Memᴰ.cases_cons (subst (Memᴰ t) r m)) [
        | inl j ↦ ap (λ x. x.id) j ∙ sym same.1
        | inr j ↦ absurd (new (Memᴰ.cast (sym e ∙ sym same.0 ∙ sym h) (inv.seen t j)))
      ];
}

-- An entry of another correlation id outlives a removal.
remove_entry-keeps :
    (cid : ℕ) (e : Entry) (es : List Entry)
    → (e.0 == cid) ≡ false
    → Memᴰ e es
    → Memᴰ e (remove_entry cid es)
remove_entry-keeps cid e es h m = Mem-filter_intro _ es m (ap not h)

track-Inv :
    (cids : List ℕ) (e : Entry) (c : Connection)
    → c.spawned ≡ some e
    → Inv cids c
    → Inv cids (track e c)
unfolding track
track-Inv cids e c s inv = record {
  tracks = λ t m. elim (Bool-cases (t.cid == e.0)) [
    | inl same ↦
        let z = (==_iff t.cid e.0).0 same in
        inr (Memᴰ.head (ap₂ (λ x y. (x, y)) z (inv.newest e s t m z)))
    | inr other ↦ elim (inv.tracks t m) [
      | inl k ↦ absurd (ground (arith, k, s, other))
      | inr k ↦ inr (Memᴰ.tail (remove_entry-keeps e.0 (t.cid, t.id) c.inflight other k))
    ]
  ];
  apart = inv.apart;
  seen = inv.seen;
  newest = λ f k. absurd (ground (arith, k));
}

retire-Inv :
    (cids : List ℕ) (u : Task) (c : Connection)
    → Memᴰ u c.running
    → Inv cids c
    → Inv cids (retire u c)
unfolding retire
retire-Inv cids u c n inv = record {
  tracks = λ t m.
      let old = Mem-filter _ c.running m in
      let other = filter-passes _ c.running m in
      elim (inv.tracks t old) [
        | inl k ↦ inl k
        | inr k ↦ elim (Bool-cases (t.cid == u.cid)) [
          | inl same ↦
              let z = inv.apart t u old n ((==_iff t.cid u.cid).0 same) in
              absurd (ground (arith, z, other))
          | inr apart ↦ inr (remove_entry-keeps u.cid (t.cid, t.id) c.inflight apart k)
        ]
      ];
  apart = λ t v m k. inv.apart t v (Mem-filter _ c.running m) (Mem-filter _ c.running k);
  seen = λ t m. inv.seen t (Mem-filter _ c.running m);
  newest = λ e k t m. inv.newest e k t (Mem-filter _ c.running m);
}

Move-Inv : (cids : List ℕ) {c d : Connection} → Move c d → Inv cids c → Inv cids d
unfolding respond
Move-Inv cids {c} (tracked e s k) inv = subst (Inv cids) (sym k) (track-Inv cids e c s inv)
Move-Inv cids {c} (retired t m k) inv = subst (Inv cids) (sym k) (retire-Inv cids t c m inv)
Move-Inv cids {c} (responded answer k) inv =
    subst (Inv cids) (sym k)
      (record { tracks = inv.tracks; apart = inv.apart; seen = inv.seen; newest = inv.newest })
Move-Inv cids {c} (hung_up k) inv =
    subst (Inv cids) (sym k)
      (record { tracks = inv.tracks; apart = inv.apart; seen = inv.seen; newest = inv.newest })

pub Reach-Inv :
    {welcome : ℕ → Frame Command} {cids : List ℕ} {c : Connection}
    → Reach welcome cids c
    → Distinct cids
    → Inv cids c
unfolding receive
Reach-Inv begin h = start-Inv
Reach-Inv {welcome} (taken {cids} {c} frame r looping idle) h =
    taken-Inv frame.command.correlation_id cids c (receive welcome frame c) h.0 idle
      (on_body-Added welcome frame c.connected frame.command.body c) (Reach-Inv r h.1)
Reach-Inv {cids} (moved r move) h = Move-Inv cids move (Reach-Inv r h)
