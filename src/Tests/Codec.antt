-- ===== src/Tests/Codec.antt =====
-- A reader and a writer of manifests, to stand for the JSON ones.
use kafkrs.Prelude.{
  ℕ, zero, suc, ◌≡◌, refl, Option, some, List, [], ◌∷◌, ◌++◌, length, take, drop, take-append,
  drop-append,
}
use kafkrs.Prelude.Int.{ℤ, pos, negsuc}
use kafkrs.Models.Manifest.{Text, SegmentEntry, Manifest}

pub put_int : ℤ → List ℕ → List ℕ
put_int (pos n) rest = 0 ∷ n ∷ rest
put_int (negsuc n) rest = 1 ∷ n ∷ rest

pub get_int : List ℕ → ℤ × List ℕ
get_int (zero ∷ n ∷ rest) = (pos n, rest)
get_int (suc tag ∷ n ∷ rest) = (negsuc n, rest)
get_int xs = (pos 0, xs)

pub get-put_int : (a : ℤ) (rest : List ℕ) → get_int (put_int a rest) ≡ (a, rest)
unfolding get_int put_int
get-put_int (pos n) rest = refl
get-put_int (negsuc n) rest = refl

pub put_text : Text → List ℕ → List ℕ
put_text t rest = length t ∷ t ++ rest

pub get_text : List ℕ → Text × List ℕ
get_text [] = ([], [])
get_text (n ∷ xs) = (take n xs, drop n xs)

pub get-put_text : (t : Text) (rest : List ℕ) → get_text (put_text t rest) ≡ (t, rest)
unfolding get_text put_text
get-put_text t rest = rw (take-append t rest, drop-append t rest) refl

unfoldable pub get_nat : List ℕ → ℕ × List ℕ
get_nat [] = (0, [])
get_nat (n ∷ xs) = (n, xs)

unfoldable put_entry : SegmentEntry → List ℕ → List ℕ
put_entry s rest = put_int s.base_offset (
    put_int s.last_offset (
      put_int s.base_timestamp_ns
        (put_int s.last_timestamp_ns (s.record_count ∷ s.byte_size ∷ put_text s.object_key rest))))

unfoldable get_entry : List ℕ → SegmentEntry × List ℕ
get_entry xs =
    let a = get_int xs in
    let b = get_int a.1 in
    let c = get_int b.1 in
    let d = get_int c.1 in
    let e = get_nat d.1 in
    let f = get_nat e.1 in
    let g = get_text f.1 in
    (
      record {
        base_offset = a.0;
        last_offset = b.0;
        base_timestamp_ns = c.0;
        last_timestamp_ns = d.0;
        record_count = e.0;
        byte_size = f.0;
        object_key = g.0;
      },
      g.1,
    )

get-put_entry : (s : SegmentEntry) (rest : List ℕ) → get_entry (put_entry s rest) ≡ (s, rest)
unfolding get_entry put_entry get_nat
get-put_entry s rest = simp (get-put_int, get-put_text) refl

pub put_entries : List SegmentEntry → List ℕ → List ℕ
put_entries [] rest = rest
put_entries (s ∷ ss) rest = put_entry s (put_entries ss rest)

pub get_entries : ℕ → List ℕ → List SegmentEntry × List ℕ
get_entries zero xs = ([], xs)
get_entries (suc n) xs =
    let first = get_entry xs in let others = get_entries n first.1 in (first.0 ∷ others.0, others.1)

pub get-put_entries :
    (ss : List SegmentEntry) (rest : List ℕ)
    → get_entries (length ss) (put_entries ss rest) ≡ (ss, rest)
unfolding get_entries put_entries
get-put_entries [] rest = refl
get-put_entries (s ∷ ss) rest = simp (get-put_entry, get-put_entries ss) refl

pub write_manifest : Manifest → List ℕ
write_manifest m =
    put_text m.topic
      (m.partition ∷ m.format_version ∷ length m.segments ∷ put_entries m.segments [])

pub read_back : List ℕ → Option Manifest
read_back xs =
    let a = get_text xs in
    let b = get_nat a.1 in
    let c = get_nat b.1 in
    let d = get_nat c.1 in
    some (record {
      topic = a.0;
      partition = b.0;
      format_version = c.0;
      segments = (get_entries d.0 d.1).0;
    })

pub read-write : (m : Manifest) → read_back (write_manifest m) ≡ some m
unfolding read_back write_manifest get_nat
read-write m = simp (get-put_text, get-put_entries m.segments) refl
