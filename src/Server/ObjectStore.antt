-- ===== src/Server/ObjectStore.antt =====
-- kafkrs-server/src/object_store.rs: the keys of a partition's objects, and its object store.
-- A key is the text that `ObjPath::from` reads. A store holds the objects of one partition's
-- directory by the last part of their key. Each call of it has its outcome as an argument.
use kafkrs.Prelude.{
  ℕ, zero, suc, ◌+◌, ◌/◌, ◌%◌, ◌≡◌, refl, Bool, true, false, ◌&&◌, Option, none, some, List, [],
  ◌∷◌, ◌++◌, ◌==◌, ==_refl, if◌then◌else◌, ap₂, arith,
}
use kafkrs.Prelude.Int.{ℤ, pos, negsuc}
use kafkrs.Models.Manifest.{Text}

abbrev pub eqb_text : Text → Text → Bool
eqb_text [] [] = true
eqb_text [] (d ∷ ds) = false
eqb_text (c ∷ cs) [] = false
eqb_text (c ∷ cs) (d ∷ ds) = (c == d) && eqb_text cs ds

pub eqb_text_refl : (t : Text) → eqb_text t t ≡ true
eqb_text_refl [] = refl
eqb_text_refl (c ∷ cs) = rw (==_refl c, eqb_text_refl cs)

pub eqb_text_sound : (s t : Text) → eqb_text s t ≡ true → s ≡ t
eqb_text_sound [] [] h = refl
eqb_text_sound [] (d ∷ ds) h = absurd (ground arith)
eqb_text_sound (c ∷ cs) [] h = absurd (ground arith)
eqb_text_sound (c ∷ cs) (d ∷ ds) h =
    let heads : c ≡ d = ground arith in
    let tails : eqb_text cs ds ≡ true = ground arith in ap₂ ◌∷◌ heads (eqb_text_sound cs ds tails)

-- The last `width` decimal digits of a number.
unfoldable pub digits : ℕ → ℕ → Text
digits zero n = []
digits (suc width) n = digits width (n / 10) ++ (48 + n % 10) ∷ []

-- `{:020}`: the sign counts, and an `i64` has 19 digits at most.
unfoldable pub padded : ℤ → Text
padded (pos n) = digits 20 n
padded (negsuc n) = 45 ∷ digits 19 (suc n)

unfoldable pub drop_zeros : Text → Text
drop_zeros [] = []
drop_zeros (c ∷ []) = c ∷ []
drop_zeros (c ∷ d ∷ ds) = let rest = drop_zeros (d ∷ ds) in if c == 48 then rest else c ∷ d ∷ ds

-- `{}` of a `u32`, which has 10 digits at most.
abbrev pub decimal : ℕ → Text
decimal n = drop_zeros (digits 10 n)

-- `segment-{:020}.parquet`
unfoldable pub segment_leaf : ℤ → Text
segment_leaf base =
    115 ∷ 101 ∷ 103 ∷ 109 ∷ 101 ∷ 110 ∷ 116 ∷ 45 ∷ padded base
    ++ 46 ∷ 112 ∷ 97 ∷ 114 ∷ 113 ∷ 117 ∷ 101 ∷ 116 ∷ []

-- `manifest.json`
unfoldable pub manifest_leaf : Text
manifest_leaf = 109 ∷ 97 ∷ 110 ∷ 105 ∷ 102 ∷ 101 ∷ 115 ∷ 116 ∷ 46 ∷ 106 ∷ 115 ∷ 111 ∷ 110 ∷ []

-- `trim_end_matches('/')`
unfoldable pub trim_end_slashes : Text → Text
trim_end_slashes [] = []
trim_end_slashes (c ∷ cs) = elim (trim_end_slashes cs) [
  | [] ↦ if c == 47 then [] else c ∷ []
  | d ∷ ds ↦ c ∷ d ∷ ds
]

-- `{topic}/v={topic_uuid}/partition={partition}/{leaf}`, behind the prefix when there is one.
unfoldable pub join : Text → Text → Text → ℕ → Text → Text
join prefix topic topic_uuid partition leaf =
    let directory : Text = elim prefix [
      | [] ↦ []
      | c ∷ cs ↦ trim_end_slashes (c ∷ cs) ++ 47 ∷ []
    ] in
    directory
    ++ (topic
        ++ (47 ∷ 118 ∷ 61 ∷ topic_uuid
            ++ (47 ∷ 112 ∷ 97 ∷ 114 ∷ 116 ∷ 105 ∷ 116 ∷ 105 ∷ 111 ∷ 110 ∷ 61 ∷ decimal partition
                ++ 47 ∷ leaf)))

unfoldable pub segment_key : Text → Text → Text → ℕ → ℤ → Text
segment_key prefix topic topic_uuid partition base_offset =
    join prefix topic topic_uuid partition (segment_leaf base_offset)

unfoldable pub manifest_key : Text → Text → Text → ℕ → Text
manifest_key prefix topic topic_uuid partition =
    join prefix topic topic_uuid partition manifest_leaf

abbrev pub Store : Type 0
Store = Text → Option (List ℕ)

-- A write is done, or refused, or done with an error for an answer.
pub data Write : Type 0 where
  done refused unconfirmed : Write

abbrev pub is_ok : Write → Bool
is_ok done = true
is_ok refused = false
is_ok unconfirmed = false

unfoldable pub set_object : Store → Text → Option (List ℕ) → Store
set_object store key object k = if eqb_text k key then object else store k

unfoldable pub put : Write → Store → Text → List ℕ → Store × Bool
put done store key bytes = (set_object store key (some bytes), true)
put refused store key bytes = (store, false)
put unconfirmed store key bytes = (set_object store key (some bytes), false)

unfoldable pub get : Bool → Store → Text → Option (List ℕ)
get answers store key = if answers then store key else none

unfoldable pub delete : Write → Store → Text → Store × Bool
delete done store key = (set_object store key none, true)
delete refused store key = (store, false)
delete unconfirmed store key = (set_object store key none, false)
