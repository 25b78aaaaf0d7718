-- ===== src/Socket/Loop.antt =====
-- crates/modelrelay-server/src/worker_socket.rs: the loop of a registered worker's connection. Each
-- call under the core's lock is one step, and between two steps other connections act on the core.
-- The socket takes `room` more frames, then every send fails.
pub mod Flush
pub mod Heartbeat
pub mod Silence
pub mod History
mod Tests
use llm_worker_proxy.Shared.{
  ℕ, zero, suc, ◌-◌, Bool, true, false, not, ◌&&◌, String, List, [], ◌∷◌, ◌++◌, map, Option, none,
  some, if◌then◌else◌, is_none, is_some_and, leb,
}
use llm_worker_proxy.Protocol.{WorkerToServerMessage, ServerToWorkerMessage}
use llm_worker_proxy.Core.State.{ProxyServerCore, Instant, Duration, RegisteredWorker}
use llm_worker_proxy.Core.Workers.{
  take_pending_worker_requests, take_pending_worker_cancel_signals,
  take_pending_worker_graceful_shutdown_signals, take_pending_worker_models_refresh_signals,
}
use llm_worker_proxy.Core.Lifecycle
use llm_worker_proxy.Core.Step.{Event, step}
use llm_worker_proxy.Socket.Messages.{
  register_authenticated_worker, handle_worker_message, cancel_message, graceful_shutdown_message,
  models_refresh_message, graceful_shutdown_close_action, close_code_normal,
}

abbrev pub close_code_protocol_error : ℕ
close_code_protocol_error = 1002

abbrev pub close_reason_protocol_error : String
close_reason_protocol_error = "worker registration protocol error"

abbrev pub close_reason_stale_heartbeat : String
close_reason_stale_heartbeat = "worker heartbeat timed out"

pub data SentFrame : Type 0 where
  message : ServerToWorkerMessage → SentFrame
  close : ℕ → String → SentFrame

pub record Wire : Type 0 where
  pub room : ℕ
  pub sent : List SentFrame

-- The call of the loop that comes next. `requests` stands behind the cancels, as the code has it.
pub data Phase : Type 0 where
  cancels requests shutdowns refreshes close_action receiving closed : Phase

pub record Connection : Type 0 where
  pub worker_id : String
  pub heartbeat_interval : Duration
  pub heartbeat_pong_timeout : Duration
  pub last_heartbeat_activity_at : Instant
  pub awaiting_pong_since : Option Instant
  pub phase : Phase
  pub wire : Wire

-- What `recv` gives within its 25 milliseconds; `elapsed` if they pass.
pub data Received : Type 0 where
  text : Option WorkerToServerMessage → Received
  close_or_error ping_or_pong binary elapsed : Received

abbrev pub send : Wire → SentFrame → Wire × Bool
send wire frame = elim wire.room [
  | zero ↦ (wire, false)
  | suc n ↦ (record { room = n; sent = wire.sent ++ frame ∷ [] }, true)
]

-- The loop of a flush, up to the first send that fails.
unfoldable pub send_all : Wire → List ServerToWorkerMessage → Wire × Bool
send_all wire [] = (wire, true)
send_all wire (m ∷ messages) =
    let (wire', ok) = send wire (SentFrame.message m) in
    let rest = send_all wire' messages in if ok then rest else (wire', false)

abbrev pub close_socket : Wire → ℕ → String → Wire
close_socket wire code reason = (send wire (SentFrame.close code reason)).0

abbrev pub disconnect_worker : ProxyServerCore → String → ProxyServerCore
disconnect_worker c worker_id = (Lifecycle.disconnect_worker c worker_id).0

abbrev pub closed_by : ProxyServerCore → Connection → Wire → ProxyServerCore × Connection
closed_by c k wire =
    (disconnect_worker c k.worker_id, record k { phase = Phase.closed; wire = wire })

-- The end of a flush: the next phase, or the worker's disconnect.
abbrev pub flushed :
    ProxyServerCore → Connection → Phase → Wire × Bool → ProxyServerCore × Connection
flushed c k next (wire, true) = (c, record k { phase = next; wire = wire })
flushed c k next (wire, false) = closed_by c k wire

unfoldable pub flush_pending_cancels : ProxyServerCore → Connection → ProxyServerCore × Connection
flush_pending_cancels c k =
    let (c', pending) = take_pending_worker_cancel_signals c k.worker_id in
    flushed c' k Phase.requests (send_all k.wire (map cancel_message pending))

-- The part of `flush_pending_requests` behind the cancels.
unfoldable pub flush_pending_requests : ProxyServerCore → Connection → ProxyServerCore × Connection
flush_pending_requests c k =
    let (c', pending) = take_pending_worker_requests c k.worker_id in
    flushed c' k Phase.shutdowns (send_all k.wire (map ServerToWorkerMessage.request pending))

unfoldable pub flush_pending_graceful_shutdowns :
    ProxyServerCore → Connection → ProxyServerCore × Connection
flush_pending_graceful_shutdowns c k =
    let (c', pending) = take_pending_worker_graceful_shutdown_signals c k.worker_id in
    flushed c' k Phase.refreshes (send_all k.wire (map graceful_shutdown_message pending))

unfoldable pub flush_pending_models_refreshes :
    ProxyServerCore → Connection → ProxyServerCore × Connection
flush_pending_models_refreshes c k =
    let (c', pending) = take_pending_worker_models_refresh_signals c k.worker_id in
    flushed c' k Phase.close_action (send_all k.wire (map models_refresh_message pending))

abbrev pub after_close_action :
    Connection → ProxyServerCore × Option (ℕ × String) → ProxyServerCore × Connection
after_close_action k (c, none) = (c, record k { phase = Phase.receiving })
after_close_action k (c, some (code, reason)) =
    (c, record k { phase = Phase.closed; wire = close_socket k.wire code reason })

-- The next round, behind a sign of life.
abbrev pub alive : Connection → Instant → Connection
alive k now = record k {
  phase = Phase.cancels;
  last_heartbeat_activity_at = now;
  awaiting_pong_since = none;
}

abbrev pub after_text : Connection → ProxyServerCore × Bool → ProxyServerCore × Connection
after_text k (c, true) = (c, k)
after_text k (c, false) =
    closed_by c k (close_socket k.wire close_code_protocol_error close_reason_protocol_error)

abbrev pub heartbeat_ping : SentFrame
heartbeat_ping =
    SentFrame.message (ServerToWorkerMessage.ping (record { timestamp_unix_ms = none }))

abbrev pub after_ping :
    ProxyServerCore → Connection → Instant → Wire × Bool → ProxyServerCore × Connection
after_ping c k now (wire, true) =
    (c, record k { phase = Phase.cancels; wire = wire; awaiting_pong_since = some now })
after_ping c k now (wire, false) = closed_by c k wire

abbrev pub pong_overdue : Connection → Instant → Bool
pong_overdue k now =
    is_some_and k.awaiting_pong_since (λ sent_at. leb k.heartbeat_pong_timeout (now - sent_at))

abbrev pub ping_due : Connection → Instant → Bool
ping_due k now =
    is_none k.awaiting_pong_since && leb k.heartbeat_interval (now - k.last_heartbeat_activity_at)

unfoldable pub heartbeat : ProxyServerCore → Connection → Instant → ProxyServerCore × Connection
heartbeat c k now =
    if pong_overdue k now
    then closed_by c k (close_socket k.wire close_code_normal close_reason_stale_heartbeat)
    else if ping_due k now
    then after_ping c k now (send k.wire heartbeat_ping)
    else (c, record k { phase = Phase.cancels })

unfoldable pub receive :
    ProxyServerCore → Connection → Instant → Received → ProxyServerCore × Connection
receive c k now (text payload) =
    after_text (alive k now) (handle_worker_message c k.worker_id payload)
receive c k now close_or_error = closed_by c k k.wire
receive c k now ping_or_pong = (c, alive k now)
receive c k now elapsed = heartbeat c k now
receive c k now binary =
    closed_by c k (close_socket k.wire close_code_protocol_error close_reason_protocol_error)

-- One call of the loop at the time `now`; what is received counts in the last phase only.
unfoldable pub connection_step :
    ProxyServerCore → Connection → Instant → Received → Phase → ProxyServerCore × Connection
connection_step c k now received cancels = flush_pending_cancels c k
connection_step c k now received requests = flush_pending_requests c k
connection_step c k now received shutdowns = flush_pending_graceful_shutdowns c k
connection_step c k now received refreshes = flush_pending_models_refreshes c k
connection_step c k now received close_action =
    after_close_action k (graceful_shutdown_close_action c now k.worker_id)
connection_step c k now received receiving = receive c k now received
connection_step c k now received closed = (c, k)

-- A call of this connection's loop, or an operation of the core that another task calls.
pub data LoopEvent : Type 0 where
  own : Instant → Received → LoopEvent
  other : Event → LoopEvent

unfoldable pub loop_run :
    ProxyServerCore × Connection → List LoopEvent → ProxyServerCore × Connection
loop_run ck [] = ck
loop_run (c, k) (own now received ∷ es) = loop_run (connection_step c k now received k.phase) es
loop_run (c, k) (other e ∷ es) = loop_run (step c e, k) es

-- The state of the loop behind a registration; `now` is when the connection began.
abbrev pub registered_connection : String → Duration → Duration → Instant → Wire → Connection
registered_connection worker_id interval pong_timeout now wire = record {
  worker_id = worker_id;
  heartbeat_interval = interval;
  heartbeat_pong_timeout = pong_timeout;
  last_heartbeat_activity_at = now;
  awaiting_pong_since = none;
  phase = Phase.cancels;
  wire = wire;
}

abbrev pub after_register :
    Duration
    → Duration
    → Instant
    → Wire
    → ProxyServerCore
    → Option (ProxyServerCore × RegisteredWorker)
    → ProxyServerCore × Wire × Option Connection
after_register interval pong_timeout now wire c none =
    (c, close_socket wire close_code_protocol_error close_reason_protocol_error, none)
after_register interval pong_timeout now wire c (some (c', registered)) =
    let (wire', ok) =
      send wire (SentFrame.message (ServerToWorkerMessage.register_ack registered.ack)) in
    if ok
    then (
      c',
      wire',
      some (registered_connection registered.worker_id interval pong_timeout now wire'),
    )
    else (disconnect_worker c' registered.worker_id, wire', none)

-- The part of `handle_authenticated_socket` before its loop; no connection means that it returns.
unfoldable pub start_connection :
    ProxyServerCore
    → Duration
    → Duration
    → Instant
    → Wire
    → String
    → Option WorkerToServerMessage
    → ProxyServerCore × Wire × Option Connection
start_connection c interval pong_timeout now wire provider payload =
    after_register interval pong_timeout now wire c
      (register_authenticated_worker c provider payload)
