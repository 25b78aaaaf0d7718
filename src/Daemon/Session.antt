-- ===== src/Daemon/Session.antt =====
-- crates/modelrelay-worker/src/lib.rs: `run_session`, one connection to the proxy server. The loop's
-- `select!` takes one ready event at a time, so a session is a list of events with their times. A
-- task that forwards a request is the request under its id; what it sends comes as events, too.
pub mod Drain
pub mod Reads
pub mod Race
use llm_worker_proxy.Shared.{
  ℕ, ◌-◌, min, Bool, true, false, String, List, [], ◌∷◌, ◌++◌, map, Option, none, some, string_eq,
  if◌then◌else◌, length, Result, ok, err, leb,
}
use llm_worker_proxy.Shared.HashMap
use llm_worker_proxy.Shared.HashMap.{HashMap}
use llm_worker_proxy.Protocol.{
  RequestMessage, ResponseCompleteMessage, WorkerToServerMessage, ServerToWorkerMessage,
}
use llm_worker_proxy.Core.State.{Instant, Duration, from_secs}

abbrev pub idle_timeout : Duration
idle_timeout = from_secs 60

abbrev pub u32_max : ℕ
u32_max = 0xFFFF_FFFF

pub data DaemonEvent : Type 0 where
  outbound : WorkerToServerMessage → DaemonEvent
  request_finished : String → DaemonEvent
  request_failed : String → String → DaemonEvent

-- What is written to the socket.
pub data Frame : Type 0 where
  text_frame : WorkerToServerMessage → Frame
  pong_frame : String → Frame
  ping_frame : Frame

-- The variables of `run_session`; `channel` holds the events not yet received. The last two fields
-- record what was written and which tasks were aborted.
pub record Session : Type 0 where
  pub active_requests : HashMap String RequestMessage
  pub shutting_down : Bool
  pub last_server_activity : Instant
  pub channel : List DaemonEvent
  pub written : List Frame
  pub aborted : List String

-- `u32::try_from(active_requests.len()).unwrap_or(u32::MAX)`.
abbrev pub current_load : Session → ℕ
current_load s = min (length s.active_requests) u32_max

abbrev pub send_event : Session → DaemonEvent → Session
send_event s event = record s { channel = s.channel ++ event ∷ [] }

abbrev pub abort_one : Session → String → Option RequestMessage → Session
abort_one s request_id none = s
abort_one s request_id (some request) = record s {
  active_requests = HashMap.remove request_id s.active_requests;
  aborted = s.aborted ++ request_id ∷ [];
}

-- `discovered` is the result of `discover_backend_models`. The result `Ok(true)` is `ok`.
unfoldable pub handle_server_message :
    Session → Result (List String) String → ServerToWorkerMessage → Result Session String
handle_server_message s discovered (ServerToWorkerMessage.request request) =
    if s.shutting_down
    then err "received new request while draining worker daemon"
    else ok
        (record s { active_requests = HashMap.insert request.request_id request s.active_requests })
handle_server_message s discovered (ServerToWorkerMessage.ping ping) = ok (
    send_event s (
      DaemonEvent.outbound (
        WorkerToServerMessage.pong
          (record { current_load = current_load s; timestamp_unix_ms = ping.timestamp_unix_ms }))))
handle_server_message s discovered (ServerToWorkerMessage.graceful_shutdown shutdown) =
    ok (record s { shutting_down = true })
handle_server_message s (err error) (ServerToWorkerMessage.models_refresh refresh) = err error
handle_server_message s (ok models) (ServerToWorkerMessage.models_refresh refresh) = ok (
    send_event s (
      DaemonEvent.outbound (
        WorkerToServerMessage.models_update
          (record { models = models; current_load = current_load s }))))
handle_server_message s discovered (ServerToWorkerMessage.cancel cancel) =
    ok (abort_one s cancel.request_id (HashMap.get cancel.request_id s.active_requests))
handle_server_message s discovered (ServerToWorkerMessage.register_ack ack) = ok s

-- An event of the `select!`, or of a task. `read_end` is the end of the stream; `text` carries what
-- the backend lists meanwhile and what the text parses to; `ping`, `recv` and `ping_tick` say whether
-- the write to the socket succeeds.
pub data SessionEvent : Type 0 where
  read_end close other_frame idle : SessionEvent
  read_error : String → SessionEvent
  text : Result (List String) String → Result ServerToWorkerMessage String → SessionEvent
  ping : String → Option String → SessionEvent
  recv : Option String → SessionEvent
  ping_tick : Bool → SessionEvent
  task_sent : String → WorkerToServerMessage → SessionEvent
  task_ended : String → Result ResponseCompleteMessage String → SessionEvent

pub data Progress : Type 0 where
  running : Session → Progress
  ended : Session → Result Bool String → Progress

-- `abort` on every task that is left.
abbrev pub abort_all : Session → Session
abort_all s = record s {
  active_requests = [];
  aborted = s.aborted ++ map (λ e. e.0) s.active_requests;
}

-- The end of the session behind a `break`. An error that leaves by `?` aborts no task.
abbrev pub break_loop : Session → Progress
break_loop s = ended (abort_all s) (ok s.shutting_down)

abbrev pub heard : Session → Instant → Session
heard s now = record s { last_server_activity = now }

abbrev pub after_message : Session → Result Session String → Progress
after_message s (ok s') = running s'
after_message s (err error) = ended s (err error)

abbrev pub after_write : Session → Frame → Option String → Progress
after_write s frame (some error) = ended s (err error)
after_write s frame none = running (record s { written = s.written ++ frame ∷ [] })

abbrev pub without_task : Session → String → Session
without_task s request_id = record s {
  active_requests = HashMap.remove request_id s.active_requests;
}

unfoldable pub receive : Session → Option String → List DaemonEvent → Progress
receive s failed [] = running s
receive s failed (DaemonEvent.outbound message ∷ events) =
    after_write (record s { channel = events }) (Frame.text_frame message) failed
receive s failed (DaemonEvent.request_finished request_id ∷ events) =
    running (without_task (record s { channel = events }) request_id)
receive s failed (DaemonEvent.request_failed request_id error ∷ events) =
    ended (abort_all (without_task (record s { channel = events }) request_id)) (err error)

abbrev pub task_events : String → Result ResponseCompleteMessage String → List DaemonEvent
task_events request_id (ok response) =
    DaemonEvent.outbound (WorkerToServerMessage.response_complete response)
    ∷ DaemonEvent.request_finished request_id
    ∷ []
task_events request_id (err error) = DaemonEvent.request_failed request_id error ∷ []

-- The idle deadline is reached only `idle_timeout` behind the server's last message.
unfoldable pub session_step : Session → Instant → SessionEvent → Progress
session_step s now read_end = break_loop s
session_step s now close = break_loop s
session_step s now (read_error error) = ended s (err error)
session_step s now (text discovered (err error)) = ended (heard s now) (err error)
session_step s now (text discovered (ok message)) =
    after_message (heard s now) (handle_server_message (heard s now) discovered message)
session_step s now (ping payload failed) =
    after_write (heard s now) (Frame.pong_frame payload) failed
session_step s now other_frame = running (heard s now)
session_step s now (recv failed) = receive s failed s.channel
session_step s now idle =
    if leb idle_timeout (now - s.last_server_activity) then break_loop s else running s
session_step s now (ping_tick true) =
    running (record s { written = s.written ++ Frame.ping_frame ∷ [] })
session_step s now (ping_tick false) = break_loop s
session_step s now (task_sent request_id message) =
    if HashMap.contains_key request_id s.active_requests
    then running (send_event s (DaemonEvent.outbound message))
    else running s
session_step s now (task_ended request_id result) =
    if HashMap.contains_key request_id s.active_requests
    then running (record s { channel = s.channel ++ task_events request_id result })
    else running s

unfoldable pub session_run : Progress → List (Instant × SessionEvent) → Progress
session_run p [] = p
session_run (ended s result) (e ∷ es) = ended s result
session_run (running s) ((now, e) ∷ es) = session_run (session_step s now e) es

-- The session behind the registration, which is written first.
abbrev pub new_session : Instant → WorkerToServerMessage → Session
new_session now registration = record {
  active_requests = [];
  shutting_down = false;
  last_server_activity = now;
  channel = [];
  written = Frame.text_frame registration ∷ [];
  aborted = [];
}
