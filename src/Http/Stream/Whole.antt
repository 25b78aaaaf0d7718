-- ===== src/Http/Stream/Whole.antt =====
-- The chunks of a streamed response on their way to the client, and what the end of the response does
-- to the request.
use mathlib.Core.List.{append-nil}
use llm_worker_proxy.Shared.{
  ℕ, suc, ◌+◌, ◌≤◌, ◌<◌, ◌≡◌, refl, ap, ◌∙◌, arith, true, false, String, List, [], ◌∷◌, ◌++◌, map,
  none, some, string_eq,
}
use llm_worker_proxy.Shared.Text.{len}
use llm_worker_proxy.Shared.HashMap
use llm_worker_proxy.Protocol.{ResponseCompleteMessage}
use llm_worker_proxy.Core.State.{
  ProxyServerCore, HttpResponseEvent, ActiveRequestState, RequestRecord, client_disconnected,
}
use llm_worker_proxy.Core.Lifecycle.Cancel.{cancel_first_wins}
use llm_worker_proxy.Http.Proxy.{CancellationGuard, drop_guard}
use llm_worker_proxy.Http.Stream.{
  StreamState, max_stream_response_bytes, oversized_stream_error_sse, pass_chunk, take_event,
  poll_stream, polls, stream_of, disarm,
}
use llm_worker_proxy.Http.Stream.Limit.{total_len}

-- A poll for each chunk, and `n` more.
abbrev pub turns : List String → ℕ → ℕ
turns [] n = n
turns (chunk ∷ chunks) n = suc (turns chunks n)

abbrev chunk_events : List String → List HttpResponseEvent
chunk_events chunks = map HttpResponseEvent.chunk chunks

-- The stream between two chunks.
abbrev between : CancellationGuard → ℕ → List HttpResponseEvent → StreamState
between guard streamed events = record {
  next_chunk = none;
  event_rx = events;
  guard = guard;
  streamed_bytes = streamed;
  terminated = false;
}

pass_chunk-fits :
    (s : StreamState) (chunk : String)
    → s.streamed_bytes + len chunk ≤ max_stream_response_bytes
    → pass_chunk s chunk
      ≡ (chunk, record s { next_chunk = none; streamed_bytes = s.streamed_bytes + len chunk })
unfolding pass_chunk
pass_chunk-fits s chunk fits = ground (arith, fits)

polls-chunk :
    (guard : CancellationGuard) (streamed n : ℕ) (chunk : String) (events : List HttpResponseEvent)
    → streamed + len chunk ≤ max_stream_response_bytes
    → polls (suc n) (between guard streamed (HttpResponseEvent.chunk chunk ∷ events)) ≡ (
      chunk ∷ (polls n (between guard (streamed + len chunk) events)).0,
      (polls n (between guard (streamed + len chunk) events)).1,
    )
unfolding polls poll_stream take_event
polls-chunk guard streamed n chunk events fits =
    ap {B = List String × StreamState} (λ r. (r.0 ∷ (polls n r.1).0, (polls n r.1).1))
      (pass_chunk-fits (between guard streamed events) chunk fits)

polls-chunks :
    (guard : CancellationGuard) (streamed n : ℕ) (chunks : List String)
    (events : List HttpResponseEvent)
    → streamed + total_len chunks ≤ max_stream_response_bytes
    → polls (turns chunks n) (between guard streamed (chunk_events chunks ++ events)) ≡ (
      chunks ++ (polls n (between guard (streamed + total_len chunks) events)).0,
      (polls n (between guard (streamed + total_len chunks) events)).1,
    )
unfolding total_len
polls-chunks guard streamed n [] events fits =
    ap (λ k. polls n (between guard k events)) (omega arith)
polls-chunks guard streamed n (chunk ∷ chunks) events fits =
    polls-chunk guard streamed (turns chunks n) chunk (chunk_events chunks ++ events)
      (omega (arith, fits))
    ∙ ap {B = List String × StreamState} (λ r. (chunk ∷ r.0, r.1))
        (polls-chunks guard (streamed + len chunk) n chunks events (omega (arith, fits))
          ∙ ap
              (λ k. (
                chunks ++ (polls n (between guard k events)).0,
                (polls n (between guard k events)).1,
              ))
              (omega arith))

-- The first chunk is as one that comes from the channel.
polls-first :
    (guard : CancellationGuard) (n : ℕ) (first_chunk : String) (events : List HttpResponseEvent)
    → polls (suc n) (stream_of guard first_chunk events)
      ≡ polls (suc n) (between guard 0 (HttpResponseEvent.chunk first_chunk ∷ events))
unfolding polls poll_stream take_event pass_chunk
polls-first guard n first_chunk events = refl

polls-stream :
    (guard : CancellationGuard) (n : ℕ) (first_chunk : String) (chunks : List String)
    (events : List HttpResponseEvent)
    → total_len (first_chunk ∷ chunks) ≤ max_stream_response_bytes
    → polls
        (turns (first_chunk ∷ chunks) n)
        (stream_of guard first_chunk (chunk_events chunks ++ events))
      ≡ (
        (first_chunk ∷ chunks)
            ++ (polls n (between guard (total_len (first_chunk ∷ chunks)) events)).0,
        (polls n (between guard (total_len (first_chunk ∷ chunks)) events)).1,
      )
polls-stream guard n first_chunk chunks events fits =
    polls-first guard (turns chunks n) first_chunk (chunk_events chunks ++ events)
    ∙ polls-chunks guard 0 n (first_chunk ∷ chunks) events (omega (arith, fits))
    ∙ ap {B = List String × StreamState}
        (λ k. (
          (first_chunk ∷ chunks) ++ (polls n (between guard k events)).0,
          (polls n (between guard k events)).1,
        ))
        (omega arith)

pass_chunk-over :
    (s : StreamState) (chunk : String)
    → max_stream_response_bytes < s.streamed_bytes + len chunk
    → pass_chunk s chunk ≡ (
      oversized_stream_error_sse,
      record s { next_chunk = none; guard = disarm s.guard; terminated = true },
    )
unfolding pass_chunk
pass_chunk-over s chunk over = ground (arith, over)

polls-over :
    (guard : CancellationGuard) (streamed : ℕ) (chunk : String) (events : List HttpResponseEvent)
    → max_stream_response_bytes < streamed + len chunk
    → polls 2 (between guard streamed (HttpResponseEvent.chunk chunk ∷ events)) ≡ (
      oversized_stream_error_sse ∷ [],
      record (between (disarm guard) streamed events) { terminated = true },
    )
unfolding polls poll_stream take_event
polls-over guard streamed chunk events over =
    ap {B = List String × StreamState} (λ r. (r.0 ∷ (polls 1 r.1).0, (polls 1 r.1).1))
      (pass_chunk-over (between guard streamed events) chunk over)

-- A streamed response of no more than ten gibibytes arrives whole: the client gets the chunks, each
-- once and in order, then the body ends, and the end cancels nothing.
pub stream_arrives_whole :
    (c : ProxyServerCore) (guard : CancellationGuard) (first_chunk : String) (chunks : List String)
    (response : ResponseCompleteMessage)
    → total_len (first_chunk ∷ chunks) ≤ max_stream_response_bytes
    → let end = polls (turns (first_chunk ∷ chunks) 1) (
        stream_of guard first_chunk
          (map HttpResponseEvent.chunk chunks ++ HttpResponseEvent.complete response ∷ [])) in
      (end.0 ≡ first_chunk ∷ chunks) × (drop_guard c end.1.guard ≡ c)
unfolding polls poll_stream take_event drop_guard
stream_arrives_whole c guard first_chunk chunks response fits =
    let e =
      polls-stream guard 1 first_chunk chunks (HttpResponseEvent.complete response ∷ []) fits in
    (ap (λ r. r.0) e ∙ append-nil (first_chunk ∷ chunks), ap (λ r. drop_guard c r.1.guard) e)

-- A client that leaves a stream of no more than ten gibibytes before its end cancels the request: if
-- it is in flight and not cancelled yet, its worker gets a cancel signal, for a client that
-- disconnected.
pub left_stream_cancels :
    (c : ProxyServerCore) (request_id worker_id : String) (q : RequestRecord) (first_chunk : String)
    (chunks : List String) (events : List HttpResponseEvent)
    → total_len (first_chunk ∷ chunks) ≤ max_stream_response_bytes
    → HashMap.get request_id c.active_requests
      ≡ some (ActiveRequestState.in_flight q worker_id none)
    → (drop_guard c
        (polls (turns (first_chunk ∷ chunks) 0) (
          stream_of
            (record { request_id = request_id; armed = true })
            first_chunk
            (map HttpResponseEvent.chunk chunks ++ events))).1.guard).worker_cancel_signals
      ≡ c.worker_cancel_signals
        ++ record { worker_id = worker_id; request_id = request_id; reason = client_disconnected }
          ∷ []
unfolding polls drop_guard
left_stream_cancels c request_id worker_id q first_chunk chunks events fits active =
    ap (λ r. (drop_guard c r.1.guard).worker_cancel_signals)
      (polls-stream (record { request_id = request_id; armed = true }) 0 first_chunk chunks events
        fits)
    ∙ (cancel_first_wins c request_id worker_id q client_disconnected client_disconnected active).0

-- The chunk that passes the limit is not sent: the error takes its place and the body ends. The end
-- of such a body does not cancel the request, whose worker goes on.
pub oversized_stream_keeps_worker :
    (c : ProxyServerCore) (guard : CancellationGuard) (first_chunk chunk : String)
    (chunks : List String) (events : List HttpResponseEvent)
    → total_len (first_chunk ∷ chunks) ≤ max_stream_response_bytes
    → max_stream_response_bytes < total_len (first_chunk ∷ chunks) + len chunk
    → let end = polls (turns (first_chunk ∷ chunks) 2) (
        stream_of guard first_chunk
          (map HttpResponseEvent.chunk chunks ++ HttpResponseEvent.chunk chunk ∷ events)) in
      (end.0 ≡ (first_chunk ∷ chunks) ++ oversized_stream_error_sse ∷ [])
      × (drop_guard c end.1.guard ≡ c)
unfolding polls poll_stream take_event drop_guard
oversized_stream_keeps_worker c guard first_chunk chunk chunks events fits over =
    let e = polls-stream guard 2 first_chunk chunks (HttpResponseEvent.chunk chunk ∷ events) fits in
    let too_long = polls-over guard (total_len (first_chunk ∷ chunks)) chunk events over in
    (
      ap (λ r. r.0) e ∙ ap (λ r. (first_chunk ∷ chunks) ++ r.0) too_long,
      ap (λ r. drop_guard c r.1.guard) e ∙ ap (λ r. drop_guard c r.1.guard) too_long,
    )
