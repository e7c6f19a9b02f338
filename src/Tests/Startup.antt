-- ===== src/Tests/Startup.antt =====
-- The theorem on the start of the broker, at a concrete value.
use kafkrs.Prelude.{◌≡◌, refl, true, none, some, [], ◌∷◌}
use kafkrs.Prelude.Int.{pos}
use kafkrs.Models.Config.{nvme}
use kafkrs.Models.Topic.{default_overrides, validate}
use kafkrs.Server.PendingDeletes.{load_all}
use kafkrs.Server.TopicRegistry.{find}
use kafkrs.Server.Partitions.{SpawnIo, orphan_uploads}
use kafkrs.Server.Startup.{BootIo, Disk, boot}
use kafkrs.Server.Startup.Up.{ComesUp}
use kafkrs.Server.Startup.Serves.{AllUp, IsKeyed, boot-Serves}
use kafkrs.Server.Wire.TopicAdmin.{SharedState}
use kafkrs.Server.Wire.TopicAdmin.Served.{IsServed}
use kafkrs.Tests.PendingCodec.{to_vec, from_str}
use kafkrs.Tests.Dispatch.{orders}

abbrev disk : Disk
disk = record {
  topics_file = orders ∷ record orders { name = 112 ∷ []; uuid = 3 ∷ [] } ∷ [];
  store = λ key. none;
  wal_dirs = [];
  pending = record { target = none; tmp = none };
}

abbrev spawn_io : SpawnIo
spawn_io = record {
  recovers = λ p. some (record { active_records = []; orphan_segments = []; next_offset = pos 0 });
  opens = λ p. true;
}

abbrev io : BootIo
io = record { spawn_io = λ topic. spawn_io; reads_pending = true }

spawn_io-ComesUp : ComesUp spawn_io
unfolding orphan_uploads
spawn_io-ComesUp p = refl

disk-IsKeyed : IsKeyed disk.topics_file
unfolding find
disk-IsKeyed = (refl, (refl, tt))

default-IsValid : validate default_overrides ≡ none
unfolding validate
default-IsValid = refl

no_pending : load_all to_vec from_str true disk.pending ≡ some []
unfolding load_all
no_pending = refl

boot-Serves_example :
    (s : SharedState) × (boot to_vec from_str io [] nvme disk ≡ some s)
    × IsServed s
    × (s.sweeps ≡ [])
    × AllUp disk.topics_file s.partitions
boot-Serves_example =
    boot-Serves to_vec from_str io [] nvme disk [] (default-IsValid, (default-IsValid, tt))
      disk-IsKeyed (λ topic. spawn_io-ComesUp) no_pending
