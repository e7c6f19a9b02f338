-- ===== src/Server/WalFiles.antt =====
-- kafkrs-server/src/wal_writer.rs: the WAL files of one partition, by base offset.
-- A path that names no file is `none`. What is written to a file that was unlinked while it was
-- open goes nowhere, which is also what a crash leaves of it.
use kafkrs.Prelude.{
  arith, ℕ, ◌≡◌, Bool, true, false, Option, none, some, List, [], ◌++◌, take, length, ltb,
  if◌then◌else◌,
}
use kafkrs.Prelude.Int.{ℤ, eqb_ℤ, eqb_ℤ_refl}
use kafkrs.Models.Record.{Record}
use kafkrs.Models.Wal.{encode_batch, scan_wal}

abbrev pub Files : Type 0
Files = ℤ → Option (List ℕ)

unfoldable pub write_at : Files → ℤ → Option (List ℕ) → Files
write_at files base content b = if eqb_ℤ b base then content else files b

-- `WalFile::open`: create the file if it is missing, and append to it from then on.
unfoldable pub open_wal : Files → ℤ → Files
unfolding write_at
open_wal files base = elim (files base) [ none ↦ write_at files base (some []) | some old ↦ files ]

-- What the disk does with the bytes of a group commit: all of them reach it, or `write_all` or
-- `sync_all` fails when some of them did.
pub data Sync : Type 0 where
  synced : Sync
  torn : ℕ → Sync

unfoldable pub append_bytes : Files → ℤ → List ℕ → Files
append_bytes files base bytes =
    write_at files base (elim (files base) [ none ↦ none | some old ↦ some (old ++ bytes) ])

-- `std::fs::remove_file`
unfoldable pub remove_wal : Files → ℤ → Files
remove_wal files base = write_at files base none

-- What the operations leave of the file that they name, and of the others.
pub append_bytes_self :
    (files : Files) (base : ℤ) (old bytes : List ℕ)
    → files base ≡ some old
    → append_bytes files base bytes base ≡ some (old ++ bytes)
unfolding append_bytes write_at
append_bytes_self files base old bytes h = rw (eqb_ℤ_refl base, h)

pub append_bytes_ne :
    (files : Files) (base b : ℤ) (bytes : List ℕ)
    → eqb_ℤ b base ≡ false
    → append_bytes files base bytes b ≡ files b
unfolding append_bytes write_at
append_bytes_ne files base b bytes h = rw h

pub open_wal_fresh :
    (files : Files) (base : ℤ) → files base ≡ none → open_wal files base base ≡ some []
unfolding open_wal write_at
open_wal_fresh files base h = ground (arith, eqb_ℤ_refl base)

pub open_wal_ne :
    (files : Files) (base b : ℤ) → eqb_ℤ b base ≡ false → open_wal files base b ≡ files b
unfolding open_wal write_at
open_wal_ne files base b h = ground arith

pub remove_wal_ne :
    (files : Files) (base b : ℤ) → eqb_ℤ b base ≡ false → remove_wal files base b ≡ files b
unfolding remove_wal write_at
remove_wal_ne files base b h = rw h

module _ (crc32c : List ℕ → ℕ) where
  -- `append_and_sync`: the new files, and whether the call returned `Ok`.
  unfoldable pub append_and_sync : Sync → Files → ℤ → List Record → Files × Bool
  append_and_sync synced files base records =
      (append_bytes files base (encode_batch crc32c records), true)
  append_and_sync (torn k) files base records =
      (append_bytes files base (take k (encode_batch crc32c records)), false)

  -- `recover_wal_file`: the records of a file, and the file cut off behind the last of them.
  -- `none` stands for an unreadable path, and for a scan that runs out of fuel.
  unfoldable pub recover_wal_file : Files → ℤ → Option (List Record × Files)
  recover_wal_file files base = elim (files base) [
    | none ↦ none
    | some bytes ↦ elim (scan_wal crc32c bytes) [
      | none ↦ none
      | some (records, valid_len) ↦ some (
        records,
        if ltb valid_len (length bytes)
            then write_at files base (some (take valid_len bytes))
            else files,
      )
    ]
  ]
