-- ===== src/Daemon/Session/Drain.antt =====
-- A session that drains, and one that a failed request ends.
use llm_worker_proxy.Shared.{
  ◌≡◌, refl, arith, true, false, String, List, [], ◌∷◌, ◌++◌, map, Option, none, some, string_eq,
  Result, ok, err,
}
use llm_worker_proxy.Shared.HashMap
use llm_worker_proxy.Protocol.{RequestMessage, ServerToWorkerMessage}
use llm_worker_proxy.Core.State.{Instant}
use llm_worker_proxy.Daemon.Session.{
  Session, SessionEvent, DaemonEvent, Progress, running, ended, session_step, session_run,
  handle_server_message, receive, after_message, abort_one, heard,
}

-- The session as it stands, also when it has ended.
abbrev pub session_of : Progress → Session
session_of (running s) = s
session_of (ended s result) = s

-- The session drains, and the request is not active.
abbrev Drained : String → Session → Type 0
Drained r s = (s.shutting_down ≡ true) × (HashMap.get r s.active_requests ≡ none)

remove-none :
    (r j : String) (active : HashMap.HashMap String RequestMessage)
    → HashMap.get r active ≡ none
    → HashMap.get r (HashMap.remove j active) ≡ none
remove-none r j active h = ground (arith, HashMap.get-remove j r active)

abort_one-Drained :
    (s : Session) (r j : String) (o : Option RequestMessage)
    → Drained r s
    → Drained r (abort_one s j o)
abort_one-Drained s r j none d = d
abort_one-Drained s r j (some request) (draining, away) =
    (draining, remove-none r j s.active_requests away)

pub message-drains :
    (s : Session) (discovered : Result (List String) String) (message : ServerToWorkerMessage)
    → s.shutting_down ≡ true
    → (session_of (after_message s (handle_server_message s discovered message))).shutting_down
      ≡ true
unfolding handle_server_message
message-drains s discovered (ServerToWorkerMessage.request request) draining = ground arith
message-drains s discovered (ServerToWorkerMessage.ping ping) draining = draining
message-drains s discovered (ServerToWorkerMessage.graceful_shutdown shutdown) draining = refl
message-drains s (err error) (ServerToWorkerMessage.models_refresh refresh) draining = draining
message-drains s (ok models) (ServerToWorkerMessage.models_refresh refresh) draining = draining
message-drains s discovered (ServerToWorkerMessage.cancel cancel) draining = ground arith
message-drains s discovered (ServerToWorkerMessage.register_ack ack) draining = draining

message-Drained :
    (s : Session) (r : String) (discovered : Result (List String) String)
    (message : ServerToWorkerMessage)
    → Drained r s
    → Drained r (session_of (after_message s (handle_server_message s discovered message)))
unfolding handle_server_message
message-Drained s r discovered (ServerToWorkerMessage.request request) (draining, away) =
    ground arith
message-Drained s r discovered (ServerToWorkerMessage.ping ping) d = d
message-Drained s r discovered (ServerToWorkerMessage.graceful_shutdown shutdown) d = (refl, d.1)
message-Drained s r (err error) (ServerToWorkerMessage.models_refresh refresh) d = d
message-Drained s r (ok models) (ServerToWorkerMessage.models_refresh refresh) d = d
message-Drained s r discovered (ServerToWorkerMessage.cancel cancel) d =
    abort_one-Drained s r cancel.request_id (HashMap.get cancel.request_id s.active_requests) d
message-Drained s r discovered (ServerToWorkerMessage.register_ack ack) d = d

receive-Drained :
    (s : Session) (r : String) (failed : Option String) (events : List DaemonEvent)
    → Drained r s
    → Drained r (session_of (receive s failed events))
unfolding receive HashMap.get
receive-Drained s r failed [] d = d
receive-Drained s r none (DaemonEvent.outbound sent ∷ events) d = d
receive-Drained s r (some error) (DaemonEvent.outbound sent ∷ events) d = d
receive-Drained s r failed (DaemonEvent.request_finished j ∷ events) (draining, away) =
    (draining, remove-none r j s.active_requests away)
receive-Drained s r failed (DaemonEvent.request_failed j error ∷ events) (draining, away) =
    (draining, refl)

step-Drained :
    (s : Session) (r : String) (now : Instant) (e : SessionEvent)
    → Drained r s
    → Drained r (session_of (session_step s now e))
unfolding session_step HashMap.get
step-Drained s r now SessionEvent.read_end d = (d.0, refl)
step-Drained s r now SessionEvent.close d = (d.0, refl)
step-Drained s r now (SessionEvent.read_error error) d = d
step-Drained s r now (SessionEvent.text discovered (err error)) d = d
step-Drained s r now (SessionEvent.text discovered (ok message)) d =
    message-Drained (heard s now) r discovered message d
step-Drained s r now (SessionEvent.ping payload none) d = d
step-Drained s r now (SessionEvent.ping payload (some error)) d = d
step-Drained s r now SessionEvent.other_frame d = d
step-Drained s r now (SessionEvent.recv failed) d = receive-Drained s r failed s.channel d
step-Drained s r now SessionEvent.idle d = ground arith
step-Drained s r now (SessionEvent.ping_tick true) d = d
step-Drained s r now (SessionEvent.ping_tick false) d = (d.0, refl)
step-Drained s r now (SessionEvent.task_sent j sent) d = ground arith
step-Drained s r now (SessionEvent.task_ended j result) d = ground arith

run-Drained :
    (p : Progress) (r : String) (es : List (Instant × SessionEvent))
    → Drained r (session_of p)
    → Drained r (session_of (session_run p es))
unfolding session_run
run-Drained p r [] d = d
run-Drained (ended s result) r (e ∷ es) d = d
run-Drained (running s) r ((now, e) ∷ es) d =
    run-Drained (session_step s now e) r es (step-Drained s r now e d)

-- Once the session is shutting down it starts no request: a request that is not active then is never
-- active again, whatever happens, and the session stays in shutdown.
pub draining_starts_nothing :
    (s : Session) (request_id : String) (es : List (Instant × SessionEvent))
    → s.shutting_down ≡ true
    → HashMap.get request_id s.active_requests ≡ none
    → ((session_of (session_run (running s) es)).shutting_down ≡ true)
      × (HashMap.get request_id (session_of (session_run (running s) es)).active_requests ≡ none)
draining_starts_nothing s request_id es draining away =
    run-Drained (running s) request_id es (draining, away)

-- One request that fails at the backend ends the session with its error, as soon as its event is
-- received: every other active request is aborted, and no event behind it is sent.
pub failed_request_ends_session :
    (s : Session) (now : Instant) (request_id error : String) (failed : Option String)
    (events : List DaemonEvent) (es : List (Instant × SessionEvent))
    → s.channel ≡ DaemonEvent.request_failed request_id error ∷ events
    → session_run (running s) ((now, SessionEvent.recv failed) ∷ es)
      ≡ ended
          (record s {
            channel = events;
            active_requests = [];
            aborted = s.aborted ++ map (λ e. e.0) (HashMap.remove request_id s.active_requests);
          })
          (err error)
unfolding session_run session_step receive
failed_request_ends_session s now request_id error failed events [] head = rw head refl
failed_request_ends_session s now request_id error failed events (e ∷ es) head = rw head refl
