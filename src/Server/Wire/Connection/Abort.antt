-- ===== src/Server/Wire/Connection/Abort.antt =====
-- What the drain of `inflight` leaves behind when a connection ends.
use kafkrs.Prelude.{
  ℕ, ◌≡◌, ◌≢◌, refl, inl, inr, true, false, not, none, List, [], ◌∷◌, ◌==◌, ==_iff, arith, ap, ◌∙◌,
  Bool-cases, Mem-filter, Mem-filter_intro, filter-passes, filter_none, Memᴰ,
}
use mathlib.Core.List.Memᴰ
use kafkrs.Server.Wire.Frame.{Frame}
use kafkrs.Server.Wire.Command.{Command}
use kafkrs.Server.Wire.Connection.Turns.{Reach, Distinct, Reach-Inv}
use kafkrs.Server.Wire.Connection.{
  Entry, Task, Connection, retire, remove_entry, remove_task, aborts, abort_all,
}

Mem-aborts : (t : Task) (es : List Entry) → Memᴰ (t.cid, t.id) es → aborts es t ≡ true
Mem-aborts t [] m = absurd (Memᴰ.not-nil m)
Mem-aborts t (e ∷ es) m = elim (Memᴰ.cases_cons m) [
  | inl k ↦ let z : t.id ≡ e.1 = ap (λ x. x.1) k in ground (arith, z)
  | inr k ↦ let rest = Mem-aborts t es k in ground (arith, rest)
]

-- When a client never uses a correlation id twice, the drain behind the loop stops every task that
-- still runs, whatever order the dispatcher and the tasks took their turns in.
pub abort_all-stops :
    {welcome : ℕ → Frame Command} {cids : List ℕ} {c : Connection}
    → Reach welcome cids c
    → Distinct cids
    → c.spawned ≡ none
    → (abort_all c).running ≡ []
unfolding abort_all
abort_all-stops {c} r h idle =
    let inv = Reach-Inv r h in
    filter_none _ c.running (λ t m. elim (inv.tracks t m) [
      | inl k ↦ absurd (ground (arith, k, idle))
      | inr k ↦ ap not (Mem-aborts t c.inflight k)
    ])

not-aborts :
    (t : Task) (es : List Entry)
    → ((e : Entry) → Memᴰ e es → (t.id == e.1) ≡ false)
    → aborts es t ≡ false
not-aborts t [] h = refl
not-aborts t (e ∷ es) h =
    let z = h e (Memᴰ.head refl) in
    let rest = not-aborts t es (λ f m. h f (Memᴰ.tail m)) in ground (arith, z, rest)

-- When a second task runs under the correlation id of a task that has answered, and the first one
-- removes its entry, the drain behind the loop leaves the second one running. The handle of the
-- second one is taken to stand under its own correlation id only.
pub retire-orphans :
    (t u : Task) (c : Connection)
    → u.cid ≡ t.cid
    → u.id ≢ t.id
    → Memᴰ u c.running
    → ((e : Entry) → Memᴰ e c.inflight → u.id ≡ e.1 → e.0 ≡ u.cid)
    → Memᴰ u (abort_all (retire t c)).running
unfolding abort_all retire
retire-orphans t u c same other m own =
    let stays : not (u.id == t.id) ≡ true = ground (arith, other) in
    let left = Mem-filter_intro (λ x. not (x.id == t.id)) c.running m stays in
    let gone = not-aborts u (remove_entry t.cid c.inflight) (λ e n.
      elim (Bool-cases (u.id == e.1)) [
        | inr k ↦ k
        | inl k ↦
            let z = own e (Mem-filter _ c.inflight n) ((==_iff u.id e.1).0 k) ∙ same in
            absurd (ground (arith, z, filter-passes _ c.inflight n))
      ]) in
    Mem-filter_intro _ (remove_task t.id c.running) left (ap not gone)
