-- ===== src/Tests/Connection.antt =====
-- The theorems on connections, at concrete frames.
use kafkrs.Prelude.{ℕ, ◌≡◌, ◌⊎◌, refl, [], ◌∷◌, some, arith}
use mathlib.Core.List.{Memᴰ}
use mathlib.Core.List.Memᴰ
use kafkrs.Server.Wire.Frame.{Frame}
use kafkrs.Server.Wire.Command.{Body, Command, bare}
use kafkrs.Server.Wire.Connection.{Connection, start, on_body, receive, track, abort_all}
use kafkrs.Server.Wire.Connection.Handshake.{
  Taken, Refused, receive-Taken, receive_all, receive_all-handshake,
}
use kafkrs.Server.Wire.Connection.Turns.{Reach, begin, taken, moved, tracked}
use kafkrs.Server.Wire.Connection.Abort.{abort_all-stops}

abbrev welcome : ℕ → Frame Command
welcome cid =
    bare cid (Body.connected (record { protocol_version = 1; broker_id = []; cluster_id = [] }))

receive-Taken_example : Taken (bare 7 Body.ping) start (receive welcome (bare 7 Body.ping) start)
receive-Taken_example = receive-Taken welcome (bare 7 Body.ping) start (λ cid. refl)

receive_all-handshake_example :
    ((bare 7 Body.ping).command.body ≡ some (Body.connect 1))
    ⊎ Refused (receive_all welcome (bare 7 Body.ping ∷ bare 8 (Body.connect 1) ∷ []) start)
receive_all-handshake_example =
    receive_all-handshake welcome (bare 7 Body.ping) (bare 8 (Body.connect 1) ∷ [])

abbrev shaken : Connection
shaken = receive welcome (bare 1 (Body.connect 1)) start

abbrev pinged : Connection
pinged = receive welcome (bare 2 Body.ping) shaken

pinged-Reach : Reach welcome (2 ∷ 1 ∷ []) (track (2, 0) pinged)
unfolding receive on_body
pinged-Reach =
    moved (taken (bare 2 Body.ping) (taken (bare 1 (Body.connect 1)) begin refl refl) refl refl)
      (tracked (2, 0) refl refl)

two_apart : Memᴰ {A = ℕ} 2 (1 ∷ []) → ⊥
two_apart (Memᴰ.head e) = omega arith
two_apart (Memᴰ.tail m) = Memᴰ.not-nil m

abort_all-stops_example : (abort_all (track (2, 0) pinged)).running ≡ []
unfolding track
abort_all-stops_example = abort_all-stops pinged-Reach (two_apart, (Memᴰ.not-nil, tt)) refl
