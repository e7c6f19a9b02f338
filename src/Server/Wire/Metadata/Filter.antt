-- ===== src/Server/Wire/Metadata/Filter.antt =====
-- The topics of a metadata answer against its request.
use kafkrs.Prelude.{
  ◌≡◌, refl, inl, inr, Bool, true, false, not, ◌&&◌, List, [], ◌∷◌, ◌++◌, map, arith, any, filter,
  filter-filter, filter-cong, Bool-cases, sym, ap, ◌∙◌, append-nil, append_assoc,
}
use kafkrs.Models.Manifest.{Text}
use kafkrs.Models.Topic.{TopicEntry}
use kafkrs.Server.ObjectStore.{eqb_text, eqb_text_sound}
use kafkrs.Server.TopicRegistry.{find}
use kafkrs.Server.Wire.Command.{TopicMetadata}
use kafkrs.Server.Wire.Metadata.{meta_or_unknown, contains, filter_loop, topics_of}

-- The names of a list, each at its first place only.
unfoldable pub nub : List Text → List Text
nub [] = []
nub (name ∷ names) = name ∷ filter (λ n. not (eqb_text name n)) (nub names)

abbrev unseen : List Text → Text → Bool
unseen seen name = not (contains name seen)

cons_unseen :
    (name : Text) (seen : List Text) (x : Text)
    → unseen (name ∷ seen) x ≡ (not (eqb_text name x) && unseen seen x)
unfolding any
cons_unseen name seen x = ground arith

seen_other :
    (name : Text) (seen : List Text) (x : Text)
    → contains name seen ≡ true
    → unseen seen x ≡ (not (eqb_text name x) && unseen seen x)
seen_other name seen x h = elim (Bool-cases (eqb_text name x)) [
  | inr k ↦ ground (arith, k)
  | inl k ↦
      let z : contains x seen ≡ true =
        ap (λ n. contains n seen) (sym (eqb_text_sound name x k)) ∙ h in
      ground (arith, z)
]

-- The names that the loop still takes.
fresh : List Text → List Text → List Text
fresh seen names = filter (unseen seen) (nub names)

fresh-seen :
    (name : Text) (names seen : List Text)
    → contains name seen ≡ true
    → fresh seen (name ∷ names) ≡ fresh seen names
unfolding fresh nub filter
fresh-seen name names seen h =
    let rest =
      filter-filter (unseen seen) (λ n. not (eqb_text name n)) (nub names)
      ∙ sym (filter-cong (unseen seen) _ (nub names) (λ x. seen_other name seen x h)) in
    simp h rest

fresh-new :
    (name : Text) (names seen : List Text)
    → contains name seen ≡ false
    → fresh seen (name ∷ names) ≡ name ∷ fresh (name ∷ seen) names
unfolding fresh nub filter
fresh-new name names seen h =
    let rest =
      filter-filter (unseen seen) (λ n. not (eqb_text name n)) (nub names)
      ∙ sym (filter-cong (unseen (name ∷ seen)) _ (nub names) (cons_unseen name seen)) in
    simp h (ap (◌∷◌ name) rest)

abbrev answer : Text → List TopicEntry → Text → TopicMetadata
answer leader topics name = meta_or_unknown leader name (find name topics)

fresh-nil : (seen : List Text) → fresh seen [] ≡ []
unfolding fresh nub filter
fresh-nil seen = refl

filter_loop_lem :
    (leader : Text) (topics : List TopicEntry) (names seen : List Text) (out : List TopicMetadata)
    → filter_loop leader topics names seen out
      ≡ out ++ map (answer leader topics) (fresh seen names)
unfolding filter_loop
filter_loop_lem leader topics [] seen out = rw (fresh-nil seen) (sym (append-nil out))
filter_loop_lem leader topics (name ∷ names) seen out = elim (Bool-cases (contains name seen)) [
  | inl old ↦ simp old (
      filter_loop_lem leader topics names seen out
      ∙ ap (λ ns. out ++ map (answer leader topics) ns) (sym (fresh-seen name names seen old)))
  | inr new ↦ simp new (
      filter_loop_lem leader topics names (name ∷ seen) (out ++ answer leader topics name ∷ [])
      ∙ (append_assoc out (answer leader topics name ∷ [])
            (map (answer leader topics) (fresh (name ∷ seen) names))
          ∙ ap (λ ns. out ++ map (answer leader topics) ns) (sym (fresh-new name names seen new))))
]

filter_all : (p : Text → Bool) (xs : List Text) → ((x : Text) → p x ≡ true) → filter p xs ≡ xs
unfolding filter
filter_all p [] h = refl
filter_all p (x ∷ xs) h = rw (h x, filter_all p xs h) refl

fresh-all : (names : List Text) → fresh [] names ≡ nub names
unfolding fresh any
fresh-all names = filter_all (unseen []) (nub names) (λ x. refl)

-- A metadata request with names is answered with each of them once, in the order of their first
-- places: with its partitions when the registry has the topic, and else marked as unknown.
pub topics_of-nub :
    (leader : Text) (topics : List TopicEntry) (name : Text) (names : List Text)
    → topics_of leader topics (name ∷ names)
      ≡ map (λ n. meta_or_unknown leader n (find n topics)) (nub (name ∷ names))
unfolding topics_of
topics_of-nub leader topics name names =
    filter_loop_lem leader topics (name ∷ names) [] []
    ∙ ap (map (answer leader topics)) (fresh-all (name ∷ names))
