-- ===== src/Server/InFlight.antt =====
-- The writer's `BTreeMap<i64, Vec<Record>>`: an association list in the order of its keys.
use kafkrs.Prelude.{List, [], ◌∷◌, ◌++◌, if◌then◌else◌}
use kafkrs.Prelude.Int.{ℤ, ltb_ℤ, eqb_ℤ}
use kafkrs.Models.Record.{Record}

abbrev pub InFlight : Type 0
InFlight = List (ℤ × List Record)

unfoldable pub insert : ℤ → List Record → InFlight → InFlight
insert k v [] = (k, v) ∷ []
insert k v ((j, w) ∷ m) =
    let rest = insert k v m in
    if ltb_ℤ k j then (k, v) ∷ (j, w) ∷ m else if eqb_ℤ k j then (k, v) ∷ m else (j, w) ∷ rest

unfoldable pub remove : ℤ → InFlight → InFlight
remove k [] = []
remove k ((j, w) ∷ m) = let rest = remove k m in if eqb_ℤ k j then rest else (j, w) ∷ rest

-- `values().flat_map(|v| v.iter())`
unfoldable pub values : InFlight → List Record
values [] = []
values ((j, w) ∷ m) = w ++ values m
