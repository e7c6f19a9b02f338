-- ===== src/Server/BrokerIdentity/Stable.antt =====
-- A broker keeps the identity that it drew.
use kafkrs.Prelude.{
  ℕ, ◌/◌, ◌%◌, ◌<◌, ◌≡◌, refl, inl, inr, true, false, Option, none, some, List, [], ◌∷◌, arith,
  Bool-cases, sym, ap, ◌∙◌, subst,
}
use kafkrs.Models.Manifest.{Text}
use kafkrs.Server.PendingDeletes.{Stage, at_create, at_write, at_fsync, at_rename, finished}
use kafkrs.Server.BrokerIdentity.{
  IdFiles, ok, is_whitespace, is_ascii_graphic, trim_start, trim_end, trim, all_graphic,
  validate_persisted_broker_id, atomic_write_broker_id, hex_digit, hex_byte, generate_broker_id,
  IdentityIo, persisted, drawn, written, from_file, resolve_broker_id,
}

graphic_solid : (c : ℕ) → is_ascii_graphic c ≡ true → is_whitespace c ≡ false
graphic_solid c h = ground arith

trim_start-graphic : (t : Text) → all_graphic t ≡ true → trim_start t ≡ t
unfolding trim_start all_graphic
trim_start-graphic [] h = refl
trim_start-graphic (c ∷ cs) h = let solid = graphic_solid c (ground (arith, h)) in rw solid refl

trim_end-graphic : (t : Text) → all_graphic t ≡ true → trim_end t ≡ t
unfolding trim_end all_graphic
trim_end-graphic [] h = refl
trim_end-graphic (c ∷ []) h = let solid = graphic_solid c (ground (arith, h)) in rw solid refl
trim_end-graphic (c ∷ d ∷ ds) h = rw (trim_end-graphic (d ∷ ds) (ground (arith, h))) refl

hex-graphic : (b : ℕ) → b < 16 → is_ascii_graphic (hex_digit b) ≡ true
hex-graphic b h = ground arith

abbrev pub IsTail : ℕ × ℕ × ℕ × ℕ → Type 0
IsTail (a, b, c, d) = (a < 256) × (b < 256) × (c < 256) × (d < 256)

hex_byte-graphic :
    (b : ℕ) (rest : Text) → b < 256 → all_graphic rest ≡ true → all_graphic (hex_byte b rest) ≡ true
unfolding all_graphic
hex_byte-graphic b rest h k =
    let high = hex-graphic (b / 16) (omega arith) in
    let low = hex-graphic (b % 16) (omega arith) in rw (high, low) k

generated-graphic :
    (a b c d : ℕ) → IsTail (a, b, c, d) → all_graphic (generate_broker_id a b c d) ≡ true
unfolding generate_broker_id all_graphic
generated-graphic a b c d (ha, hb, hc, hd) =
    hex_byte-graphic a (hex_byte b (hex_byte c (hex_byte d []))) ha (
      hex_byte-graphic b (hex_byte c (hex_byte d [])) hb
        (hex_byte-graphic c (hex_byte d []) hc (hex_byte-graphic d [] hd refl)))

-- A drawn id is read back as it was written.
drawn-persisted :
    (io : IdentityIo) → IsTail io.uuid_tail → persisted (trim (drawn io)) ≡ ok (drawn io)
unfolding validate_persisted_broker_id generate_broker_id
drawn-persisted io h =
    let (a, b, c, d) = io.uuid_tail in
    let graphic = generated-graphic a b c d h in
    rw (trim_start-graphic (drawn io) graphic, trim_end-graphic (drawn io) graphic, graphic) refl

-- What a start that answered an id has left, so that a later start which reads gives that id.
abbrev Settled : Text → IdFiles → Type 0
Settled id files = (raw : Text) × (files.target ≡ some raw) × (persisted (trim raw) ≡ ok id)

written-Settled :
    (io : IdentityIo) (stage : Stage) (files : IdFiles) (id : Text)
    → IsTail io.uuid_tail
    → (written (drawn io) (atomic_write_broker_id stage (drawn io) files)).1 ≡ ok id
    → Settled id (written (drawn io) (atomic_write_broker_id stage (drawn io) files)).0
unfolding atomic_write_broker_id
written-Settled io at_create files id h e = absurd (ground (arith, e))
written-Settled io (at_write n) files id h e = absurd (ground (arith, e))
written-Settled io at_fsync files id h e = absurd (ground (arith, e))
written-Settled io at_rename files id h e = absurd (ground (arith, e))
written-Settled io finished files id h e = (drawn io, refl, drawn-persisted io h ∙ e)

from_file-Settled :
    (io : IdentityIo) (target : Option Text) (files : IdFiles) (id : Text)
    → IsTail io.uuid_tail
    → files.target ≡ target
    → (from_file io target files).1 ≡ ok id
    → Settled id (from_file io target files).0
from_file-Settled io (some raw) files id h t e = elim (Bool-cases io.reads) [
  | inl reads ↦ (raw, t, ground (arith, reads, e))
  | inr fails ↦ absurd (ground (arith, fails, e))
]
from_file-Settled io none files id h t e = elim (Bool-cases io.makes_dir) [
  | inr fails ↦ absurd (ground (arith, fails, e))
  | inl makes ↦
      let z : from_file io none files
          ≡ written (drawn io) (atomic_write_broker_id io.writes (drawn io) files) =
        simp makes refl in
      subst (λ x. Settled id x.0) (sym z)
        (written-Settled io io.writes files id h (ap (λ x. x.1) (sym z) ∙ e))
]

-- The files behind further starts, whatever each of them answers.
abbrev pub starts : List IdentityIo → IdFiles → IdFiles
starts [] files = files
starts (io ∷ ios) files = starts ios (resolve_broker_id io none files).0

starts-Settled :
    (ios : List IdentityIo) (files : IdFiles) (id : Text)
    → Settled id files
    → Settled id (starts ios files)
unfolding resolve_broker_id
starts-Settled [] files id h = h
starts-Settled (io ∷ ios) files id h =
    let kept : (resolve_broker_id io none files).0 ≡ files = rw h.1 refl in
    starts-Settled ios (resolve_broker_id io none files).0 id (subst (Settled id) (sym kept) h)

-- Once a start without an id in its config has answered one, drawn or read, every later start that
-- can read the file answers the same, whatever the starts between them met: no start draws a second
-- id. The bytes of the UUID are bytes.
pub broker_id-stable :
    (first last : IdentityIo) (between : List IdentityIo) (files : IdFiles) (id : Text)
    → IsTail first.uuid_tail
    → (resolve_broker_id first none files).1 ≡ ok id
    → last.reads ≡ true
    → (resolve_broker_id last none (starts between (resolve_broker_id first none files).0)).1
      ≡ ok id
unfolding resolve_broker_id
broker_id-stable first last between files id h e reads =
    let after = (resolve_broker_id first none files).0 in
    let (raw, at, same) =
      starts-Settled between after id (from_file-Settled first files.target files id h refl e) in
    rw (at, reads) same
