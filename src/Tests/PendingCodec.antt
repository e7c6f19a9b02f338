-- ===== src/Tests/PendingCodec.antt =====
-- A reader and a writer of the pending deletions, to stand for the JSON ones.
use kafkrs.Prelude.{ℕ, zero, suc, ◌≡◌, refl, Option, some, List, [], ◌∷◌, length}
use kafkrs.Models.Manifest.{Manifest}
use kafkrs.Server.PendingDeletes.{PendingDelete}
use kafkrs.Tests.Codec.{
  put_int, get_int, put_text, get_text, get_nat, put_entries, get_entries, get-put_int,
  get-put_text, get-put_entries,
}

unfoldable put_manifest : Manifest → List ℕ → List ℕ
put_manifest m rest =
    put_text m.topic
      (m.partition ∷ m.format_version ∷ length m.segments ∷ put_entries m.segments rest)

unfoldable get_manifest : List ℕ → Manifest × List ℕ
get_manifest xs =
    let a = get_text xs in
    let b = get_nat a.1 in
    let c = get_nat b.1 in
    let d = get_nat c.1 in
    let e = get_entries d.0 d.1 in
    (record { topic = a.0; partition = b.0; format_version = c.0; segments = e.0 }, e.1)

get-put_manifest : (m : Manifest) (rest : List ℕ) → get_manifest (put_manifest m rest) ≡ (m, rest)
unfolding get_manifest put_manifest get_nat
get-put_manifest m rest = simp (get-put_text, get-put_entries m.segments) refl

unfoldable put_manifests : List (ℕ × Manifest) → List ℕ → List ℕ
put_manifests [] rest = rest
put_manifests (m ∷ ms) rest = m.0 ∷ put_manifest m.1 (put_manifests ms rest)

unfoldable get_manifests : ℕ → List ℕ → List (ℕ × Manifest) × List ℕ
get_manifests zero xs = ([], xs)
get_manifests (suc n) xs =
    let p = get_nat xs in
    let m = get_manifest p.1 in
    let others = get_manifests n m.1 in ((p.0, m.0) ∷ others.0, others.1)

get-put_manifests :
    (ms : List (ℕ × Manifest)) (rest : List ℕ)
    → get_manifests (length ms) (put_manifests ms rest) ≡ (ms, rest)
unfolding get_manifests put_manifests get_nat
get-put_manifests [] rest = refl
get-put_manifests (m ∷ ms) rest = simp (get-put_manifest, get-put_manifests ms) refl

unfoldable put_record : PendingDelete → List ℕ → List ℕ
put_record r rest = put_text r.topic (
    put_text r.uuid (
      length r.manifests_by_partition
      ∷ put_manifests r.manifests_by_partition (put_int r.created_ns rest)))

unfoldable get_record : List ℕ → PendingDelete × List ℕ
get_record xs =
    let a = get_text xs in
    let b = get_text a.1 in
    let c = get_nat b.1 in
    let d = get_manifests c.0 c.1 in
    let e = get_int d.1 in
    (record { topic = a.0; uuid = b.0; manifests_by_partition = d.0; created_ns = e.0 }, e.1)

get-put_record : (r : PendingDelete) (rest : List ℕ) → get_record (put_record r rest) ≡ (r, rest)
unfolding get_record put_record get_nat
get-put_record r rest =
    simp (get-put_text, get-put_manifests r.manifests_by_partition, get-put_int) refl

unfoldable put_records : List PendingDelete → List ℕ
put_records [] = []
put_records (r ∷ rs) = put_record r (put_records rs)

unfoldable get_records : ℕ → List ℕ → List PendingDelete
get_records zero xs = []
get_records (suc n) xs = let r = get_record xs in r.0 ∷ get_records n r.1

get-put_records : (rs : List PendingDelete) → get_records (length rs) (put_records rs) ≡ rs
unfolding get_records put_records
get-put_records [] = refl
get-put_records (r ∷ rs) = simp (get-put_record, get-put_records rs) refl

pub to_vec : List PendingDelete → List ℕ
to_vec rs = length rs ∷ put_records rs

pub from_str : List ℕ → Option (List PendingDelete)
from_str xs = let n = get_nat xs in some (get_records n.0 n.1)

pub from-to : (rs : List PendingDelete) → from_str (to_vec rs) ≡ some rs
unfolding from_str to_vec get_nat
from-to rs = simp (get-put_records rs) refl
