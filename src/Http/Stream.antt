-- ===== src/Http/Stream.antt =====
-- crates/modelrelay-server/src/http.rs: the response of a streamed request. The event channel is the
-- list of what it still gives before it closes; each poll of the body takes one turn of `unfold`.
-- A client that leaves before the first event is left out.
pub mod Late
pub mod Limit
pub mod Whole
use llm_worker_proxy.Shared.{
  ℕ, zero, suc, ◌+◌, min, Bool, true, false, String, List, [], ◌∷◌, Option, none, some, ltb,
  if◌then◌else◌, map,
}
use llm_worker_proxy.Shared.Text.{len}
use llm_worker_proxy.Protocol.{ResponseCompleteMessage}
use llm_worker_proxy.Core.State.{ProxyServerCore, HttpResponseEvent, usize_max}
use llm_worker_proxy.Daemon.Forward.{HttpLibrary}
use llm_worker_proxy.Http.{Response, Body, respond}
use llm_worker_proxy.Http.Proxy.{
  CancellationGuard, drop_guard, drop_receiver, response_complete_to_http_response,
  availability_failure_response,
}

abbrev pub max_stream_response_bytes : ℕ
max_stream_response_bytes = 10_737_418_240

abbrev pub oversized_stream_error_sse : String
oversized_stream_error_sse =
    "event: error\ndata: {\"error\":{\"type\":\"stream_error\",\"message\":\"stream exceeded size limit\"}}\n\n"

-- The state of the `unfold`.
pub record StreamState : Type 0 where
  pub next_chunk : Option String
  pub event_rx : List HttpResponseEvent
  pub guard : CancellationGuard
  pub streamed_bytes : ℕ
  pub terminated : Bool

abbrev pub disarm : CancellationGuard → CancellationGuard
disarm guard = record guard { armed = false }

-- `streamed_bytes.saturating_add(chunk.len())`.
abbrev pub next_total : StreamState → String → ℕ
next_total s chunk = min (s.streamed_bytes + len chunk) usize_max

unfoldable pub pass_chunk : StreamState → String → String × StreamState
pass_chunk s chunk =
    if ltb max_stream_response_bytes (next_total s chunk)
    then (
      oversized_stream_error_sse,
      record s { next_chunk = none; guard = disarm s.guard; terminated = true },
    )
    else (chunk, record s { next_chunk = none; streamed_bytes = next_total s chunk })

-- The event that a poll takes.
unfoldable pub take_event : StreamState → List HttpResponseEvent → Option String × StreamState
take_event s [] = (none, s)
take_event s (HttpResponseEvent.chunk chunk ∷ events) =
    let (out, s') = pass_chunk (record s { event_rx = events }) chunk in (some out, s')
take_event s (HttpResponseEvent.complete response ∷ events) =
    (none, record s { event_rx = events; guard = disarm s.guard })
take_event s (HttpResponseEvent.failure reason ∷ events) =
    (none, record s { event_rx = events; guard = disarm s.guard })

-- One poll. With `none` the body ends, and the state is dropped.
unfoldable pub poll_stream : StreamState → Option String × StreamState
poll_stream s = if s.terminated then (none, s) else elim s.next_chunk [
  | some chunk ↦ let (out, s') = pass_chunk s chunk in (some out, s')
  | none ↦ take_event s s.event_rx
]

-- The drop of the state: the receiver goes, and the guard.
unfoldable pub drop_stream : ProxyServerCore → StreamState → ProxyServerCore
drop_stream c s = drop_guard (drop_receiver c s.guard.request_id) s.guard

-- At most so many polls, and the chunks sent to the client. A body that has ended is not polled.
unfoldable pub polls : ℕ → StreamState → List String × StreamState
polls zero s = ([], s)
polls (suc n) s =
    let (out, s') = poll_stream s in
    let (outs, s'') = polls n s' in elim out [ none ↦ ([], s') | some chunk ↦ (chunk ∷ outs, s'') ]

-- `streaming_http_response`.
abbrev pub stream_of : CancellationGuard → String → List HttpResponseEvent → StreamState
stream_of guard first_chunk events = record {
  next_chunk = some first_chunk;
  event_rx = events;
  guard = guard;
  streamed_bytes = 0;
  terminated = false;
}

-- Its body is the stream, which stands beside it.
abbrev pub streaming_response : Response
streaming_response = record {
  status = 200;
  headers = ("content-type", "text/event-stream") ∷ ("cache-control", "no-cache") ∷ [];
  body = Body.nothing;
}

-- What the wait for the first event gives: a stream's state, or the whole response. A guard that is
-- not disarmed is dropped on return.
pub data FirstEvent : Type 0 where
  streams : Response → StreamState → FirstEvent
  whole : Response → FirstEvent

unfoldable pub first_event :
    HttpLibrary
    → ProxyServerCore
    → CancellationGuard
    → List HttpResponseEvent
    → ProxyServerCore × FirstEvent
first_event http c guard [] = (drop_guard c guard, whole (respond 502 Body.nothing))
first_event http c guard (HttpResponseEvent.chunk first_chunk ∷ events) =
    (c, streams streaming_response (stream_of guard first_chunk events))
first_event http c guard (HttpResponseEvent.complete response ∷ events) =
    (c, whole (response_complete_to_http_response http response))
first_event http c guard (HttpResponseEvent.failure reason ∷ events) =
    (drop_guard c guard, whole (availability_failure_response reason))
