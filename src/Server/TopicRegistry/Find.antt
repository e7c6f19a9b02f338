-- ===== src/Server/TopicRegistry/Find.antt =====
-- What a lookup finds behind each change of the map.
use kafkrs.Prelude.{
  ◌≡◌, refl, false, inl, inr, some, List, [], ◌∷◌, ◌++◌, arith, if◌then◌else◌, any, filter,
  Bool-cases, sym, ap, ◌∙◌,
}
use kafkrs.Models.Manifest.{Text}
use kafkrs.Models.Topic.{TopicConfigOverrides, TopicEntry}
use kafkrs.Server.ObjectStore.{eqb_text, eqb_text_sound}
use kafkrs.Server.TopicRegistry.{find, contains_key, remove_topic, insert_topic, set_config}

pub find-remove :
    (name other : Text) (ts : List TopicEntry)
    → eqb_text other name ≡ false
    → find name (remove_topic other ts) ≡ find name ts
unfolding find remove_topic filter
find-remove name other [] h = refl
find-remove name other (t ∷ ts) h =
    let rest = find-remove name other ts h in
    elim (Bool-cases (eqb_text t.name other)) [
      | inr k ↦ ground (arith, rest, k)
      | inl k ↦
          let z : eqb_text t.name name ≡ false =
            ap (λ n. eqb_text n name) (eqb_text_sound t.name other k) ∙ h in
          ground (arith, rest, k, z)
    ]

pub find-insert :
    (name : Text) (e : TopicEntry) (ts : List TopicEntry)
    → find name (insert_topic e ts) ≡ (if eqb_text e.name name then some e else find name ts)
unfolding find insert_topic
find-insert name e ts = elim (Bool-cases (eqb_text e.name name)) [
  | inl k ↦ simp k refl
  | inr k ↦ simp k (find-remove name e.name ts k)
]

pub find-append :
    (name : Text) (e : TopicEntry) (ts : List TopicEntry)
    → contains_key e.name ts ≡ false
    → find name (ts ++ e ∷ []) ≡ (if eqb_text e.name name then some e else find name ts)
unfolding find any
find-append name e [] new = refl
find-append name e (t ∷ ts) new = elim (Bool-cases (eqb_text t.name e.name)) [
  | inl same ↦ absurd (ground (arith, same, new))
  | inr other ↦
      let left : contains_key e.name ts ≡ false = ground (arith, other, new) in
      let rest = find-append name e ts left in
      elim (Bool-cases (eqb_text e.name name)) [
        | inr k ↦ ground (arith, rest, k)
        | inl k ↦
            let z : eqb_text t.name name ≡ false =
              ap (eqb_text t.name) (sym (eqb_text_sound e.name name k)) ∙ other in
            ground (arith, rest, k, z)
      ]
]

pub find-set_config :
    (name other : Text) (config : TopicConfigOverrides) (ts : List TopicEntry)
    → eqb_text other name ≡ false
    → find name (set_config other config ts) ≡ find name ts
unfolding find set_config
find-set_config name other config [] h = refl
find-set_config name other config (t ∷ ts) h =
    let rest = find-set_config name other config ts h in
    elim (Bool-cases (eqb_text t.name other)) [
      | inr k ↦ ground (arith, rest, k)
      | inl k ↦
          let z : eqb_text t.name name ≡ false =
            ap (λ n. eqb_text n name) (eqb_text_sound t.name other k) ∙ h in
          ground (arith, rest, k, z)
    ]

pub find_name :
    (name : Text) (ts : List TopicEntry) (e : TopicEntry) → find name ts ≡ some e → e.name ≡ name
unfolding find
find_name name [] e h = absurd (ground (arith, h))
find_name name (t ∷ ts) e h = elim (Bool-cases (eqb_text t.name name)) [
  | inl k ↦
      let z : t ≡ e = ground (arith, h, k) in
      sym (ap (λ x. x.name) z) ∙ eqb_text_sound t.name name k
  | inr k ↦ find_name name ts e (ground (arith, h, k))
]

-- An entry that was found and is put back changes no lookup.
pub find-put_back :
    (name : Text) (e : TopicEntry) (ts us : List TopicEntry)
    → find e.name ts ≡ some e
    → (eqb_text e.name name ≡ false → find name us ≡ find name ts)
    → (if eqb_text e.name name then some e else find name us) ≡ find name ts
find-put_back name e ts us h same = elim (Bool-cases (eqb_text e.name name)) [
  | inl k ↦ simp k (sym h ∙ ap (λ n. find n ts) (eqb_text_sound e.name name k))
  | inr k ↦ simp k (same k)
]
