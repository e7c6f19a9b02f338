-- ===== src/Server/Wire/Connection/Handshake.antt =====
-- What the dispatcher answers, before the handshake and behind it.
use kafkrs.Prelude.{
  ℕ, ◌≡◌, ◌⊎◌, refl, inl, inr, Bool, true, false, Option, none, some, List, [], ◌∷◌, ◌++◌, arith,
  sym, ◌==◌, Bool-cases, if◌then◌else◌, ap, ==_iff,
}
use kafkrs.Server.Wire.Frame.{Frame}
use kafkrs.Server.Wire.Command.{
  Body, Command, err_unsupported_protocol_version, err_handshake_required, err_already_connected,
  err_invalid_command, error_frame,
}
use kafkrs.Server.Wire.Connection.{Task, Connection, start, protocol_version, on_body, receive}

abbrev task_of : Frame Command → Body → Connection → Task
task_of frame body c = record {
  id = c.next_id;
  cid = frame.command.correlation_id;
  body = body;
  payload = frame.payload;
}

-- A frame is answered, with its correlation id, or its task is spawned, with its command.
abbrev pub Taken : Frame Command → Connection → Connection → Type 0
Taken frame c d =
    ((answer : Frame Command) × (d.sent ≡ c.sent ++ answer ∷ [])
      × (answer.command.correlation_id ≡ frame.command.correlation_id)
      × (d.running ≡ c.running))
    ⊎ ((task : Task) × (d.sent ≡ c.sent)
        × (task.cid ≡ frame.command.correlation_id)
        × (some task.body ≡ frame.command.body)
        × (task.payload ≡ frame.payload)
        × (d.running ≡ task ∷ c.running)
        × (c.connected ≡ true))

on_body-Taken :
    (welcome : ℕ → Frame Command) (frame : Frame Command) (connected : Bool) (body : Option Body)
    (c : Connection)
    → ((cid : ℕ) → (welcome cid).command.correlation_id ≡ cid)
    → frame.command.body ≡ body
    → c.connected ≡ connected
    → Taken frame c (on_body welcome frame connected body c)
unfolding on_body
on_body-Taken welcome frame connected (some (Body.error code)) c echo e k =
    inl (frame, refl, refl, refl)
on_body-Taken welcome frame false (some (Body.connect version)) c echo e k =
    elim (Bool-cases (version == protocol_version)) [
      | inl same ↦
          let z = echo frame.command.correlation_id in
          inl (welcome frame.command.correlation_id, ground (arith, same), z, ground (arith, same))
      | inr other ↦ inl (
        error_frame frame.command.correlation_id err_unsupported_protocol_version,
        ground (arith, other),
        refl,
        ground (arith, other),
      )
    ]
on_body-Taken welcome frame false body c echo e k =
    inl (error_frame frame.command.correlation_id err_handshake_required, refl, refl, refl)
on_body-Taken welcome frame true (some (Body.connect version)) c echo e k =
    inl (error_frame frame.command.correlation_id err_already_connected, refl, refl, refl)
on_body-Taken welcome frame true none c echo e k =
    inl (error_frame frame.command.correlation_id err_invalid_command, refl, refl, refl)
on_body-Taken welcome frame true (some body) c echo e k =
    inr (task_of frame body c, refl, refl, sym e, refl, refl, k)

-- Every frame is answered at once, under its own correlation id, or its command is given to one new
-- task; a task is given out only behind the handshake. The answer to a handshake is taken to have
-- the correlation id that it is made for.
pub receive-Taken :
    (welcome : ℕ → Frame Command) (frame : Frame Command) (c : Connection)
    → ((cid : ℕ) → (welcome cid).command.correlation_id ≡ cid)
    → Taken frame c (receive welcome frame c)
unfolding receive on_body
receive-Taken welcome frame c echo =
    on_body-Taken welcome frame c.connected frame.command.body c echo refl refl

-- Frames taken in turn, until the loop is left.
abbrev pub receive_all : (ℕ → Frame Command) → List (Frame Command) → Connection → Connection
receive_all welcome [] c = c
receive_all welcome (frame ∷ frames) c =
    receive_all welcome frames (if c.looping then receive welcome frame c else c)

receive_all-closed :
    (welcome : ℕ → Frame Command) (frames : List (Frame Command)) (c : Connection)
    → c.looping ≡ false
    → receive_all welcome frames c ≡ c
receive_all-closed welcome [] c h = refl
receive_all-closed welcome (frame ∷ frames) c h = simp h (receive_all-closed welcome frames c h)

-- A connection that was left with one answer, before anything was run.
abbrev pub Refused : Connection → Type 0
Refused c =
    (c.looping ≡ false) × (c.running ≡ []) × (answer : Frame Command) × (c.sent ≡ answer ∷ [])

first-Refused :
    (welcome : ℕ → Frame Command) (frame : Frame Command) (body : Option Body)
    → (body ≡ some (Body.connect protocol_version))
      ⊎ Refused (on_body welcome frame false body start)
unfolding on_body
first-Refused welcome frame (some (Body.connect version)) =
    elim (Bool-cases (version == protocol_version)) [
      | inl same ↦ inl (ap (λ v. some (Body.connect v)) ((==_iff version protocol_version).0 same))
      | inr other ↦ inr (
        ground (arith, other),
        ground (arith, other),
        error_frame frame.command.correlation_id err_unsupported_protocol_version,
        ground (arith, other),
      )
    ]
first-Refused welcome frame body = inr (refl, refl, _, refl)

-- A client whose first frame is not a `connect` of this protocol version gets one answer, whatever
-- it sends behind it: nothing is run for it, and the connection is closed.
pub receive_all-handshake :
    (welcome : ℕ → Frame Command) (frame : Frame Command) (frames : List (Frame Command))
    → (frame.command.body ≡ some (Body.connect protocol_version))
      ⊎ Refused (receive_all welcome (frame ∷ frames) start)
unfolding receive
receive_all-handshake welcome frame frames = elim (first-Refused welcome frame frame.command.body) [
  | inl connects ↦ inl connects
  | inr refused ↦
      let closed =
        receive_all-closed welcome frames (on_body welcome frame false frame.command.body start)
          refused.0 in
      inr (rw closed refused)
]
