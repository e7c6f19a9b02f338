-- ===== src/Server/Wire/Connection.antt =====
-- kafkrs-server/src/wire/connection.rs: one connection, from the frames that its reader hands over
-- to the frames that its writer is given.
-- The tasks that the dispatcher spawns are a list with the turns that each takes in any order.
pub mod Handshake
pub mod Turns
pub mod Abort
use kafkrs.Prelude.{
  ℕ, Bool, true, false, not, Option, none, some, List, [], ◌∷◌, ◌++◌, ◌==◌, if◌then◌else◌, filter,
}
use kafkrs.Server.Wire.Frame.{Frame}
use kafkrs.Server.Wire.Command.{
  Body, Command, err_unsupported_protocol_version, err_handshake_required, err_already_connected,
  err_invalid_command, error_frame,
}

abbrev pub protocol_version : ℕ
protocol_version = 1

-- A spawned task: the number of its spawn, and its command.
pub record Task : Type 0 where
  pub id : ℕ
  pub cid : ℕ
  pub body : Body
  pub payload : List ℕ

-- An entry of `inflight`: the correlation id, and the spawn that its handle aborts.
abbrev pub Entry : Type 0
Entry = ℕ × ℕ

-- `looping` is false once the loop of the dispatcher has been left, and `spawned` is the task whose
-- handle the dispatcher has not put into `inflight` yet.
pub record Connection : Type 0 where
  pub looping : Bool
  pub connected : Bool
  pub next_id : ℕ
  pub spawned : Option Entry
  pub running : List Task
  pub inflight : List Entry
  pub sent : List (Frame Command)

abbrev pub start : Connection
start = record {
  looping = true;
  connected = false;
  next_id = 0;
  spawned = none;
  running = [];
  inflight = [];
  sent = [];
}

abbrev pub reply : Frame Command → Connection → Connection
reply frame c = record c { sent = c.sent ++ frame ∷ [] }

abbrev pub reply_and_break : Frame Command → Connection → Connection
reply_and_break frame c = record c { sent = c.sent ++ frame ∷ []; looping = false }

abbrev pub spawn : ℕ → Body → List ℕ → Connection → Connection
spawn cid body payload c = record c {
  next_id = ℕ.suc c.next_id;
  spawned = some (cid, c.next_id);
  running = record { id = c.next_id; cid = cid; body = body; payload = payload } ∷ c.running;
}

-- `HashMap::insert` and `HashMap::remove` on `inflight`.
abbrev pub remove_entry : ℕ → List Entry → List Entry
remove_entry cid entries = filter (λ e. not (e.0 == cid)) entries

abbrev pub remove_task : ℕ → List Task → List Task
remove_task id tasks = filter (λ t. not (t.id == id)) tasks

-- One turn of the dispatcher's loop by what it has to do with: the sentinel of the reader, then the
-- arms of its `match`. `welcome` makes the answer to a `connect`.
unfoldable pub on_body :
    (ℕ → Frame Command) → Frame Command → Bool → Option Body → Connection → Connection
on_body welcome frame connected (some (Body.error code)) c = reply_and_break frame c
on_body welcome frame false (some (Body.connect version)) c =
    let cid = frame.command.correlation_id in
    if not (version == protocol_version)
    then reply_and_break (error_frame cid err_unsupported_protocol_version) c
    else record (reply (welcome cid) c) { connected = true }
on_body welcome frame false body c =
    reply_and_break (error_frame frame.command.correlation_id err_handshake_required) c
on_body welcome frame true (some (Body.connect version)) c =
    reply_and_break (error_frame frame.command.correlation_id err_already_connected) c
on_body welcome frame true (some body) c = spawn frame.command.correlation_id body frame.payload c
on_body welcome frame true none c =
    reply (error_frame frame.command.correlation_id err_invalid_command) c

unfoldable pub receive : (ℕ → Frame Command) → Frame Command → Connection → Connection
receive welcome frame c = on_body welcome frame c.connected frame.command.body c

-- The end of the turn that spawned: the handle is put into `inflight`.
unfoldable pub track : Entry → Connection → Connection
track e c = record c { spawned = none; inflight = e ∷ remove_entry e.0 c.inflight }

-- A task sends its response, and stays until it has removed its own entry.
unfoldable pub respond : Frame Command → Connection → Connection
respond response c = record c { sent = c.sent ++ response ∷ [] }

unfoldable pub retire : Task → Connection → Connection
retire t c = record c {
  running = remove_task t.id c.running;
  inflight = remove_entry t.cid c.inflight;
}

abbrev pub aborts : List Entry → Task → Bool
aborts [] t = false
aborts (e ∷ es) t = if t.id == e.1 then true else aborts es t

-- The drain of `inflight` behind the loop.
unfoldable pub abort_all : Connection → Connection
abort_all c = record c {
  running = filter (λ t. not (aborts c.inflight t)) c.running;
  inflight = [];
}
