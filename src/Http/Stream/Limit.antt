-- ===== src/Http/Stream/Limit.antt =====
-- The size limit of a streamed response.
use llm_worker_proxy.Shared.{
  ℕ, zero, suc, ◌+◌, ◌-◌, ◌≤◌, ◌≡◌, refl, subst, sym, inl, inr, arith, false, String, List, [], ◌∷◌,
  Option, none, some, if◌then◌else◌, Bool-cases, Option-cases,
}
use llm_worker_proxy.Shared.Text.{len}
use llm_worker_proxy.Core.State.{HttpResponseEvent}
use llm_worker_proxy.Http.Proxy.{CancellationGuard}
use llm_worker_proxy.Http.Stream.{
  StreamState, max_stream_response_bytes, oversized_stream_error_sse, pass_chunk, take_event,
  poll_stream, polls, stream_of,
}

-- The bytes of some chunks.
unfoldable pub total_len : List String → ℕ
total_len [] = 0
total_len (chunk ∷ chunks) = len chunk + total_len chunks

-- What may still be sent: what the limit leaves and the error, or nothing.
abbrev rest_of : StreamState → ℕ
rest_of s =
    if s.terminated
    then 0
    else (max_stream_response_bytes - s.streamed_bytes) + len oversized_stream_error_sse

abbrev Within : StreamState → Type 0
Within s = s.streamed_bytes ≤ max_stream_response_bytes

pass_chunk_lem :
    (s : StreamState) (chunk : String)
    → s.terminated ≡ false
    → Within s
    → Within (pass_chunk s chunk).1
      × (len (pass_chunk s chunk).0 + rest_of (pass_chunk s chunk).1 ≤ rest_of s)
unfolding pass_chunk
pass_chunk_lem s chunk live within = ground arith

-- What a poll sends.
sent_len : Option String → ℕ
sent_len none = 0
sent_len (some chunk) = len chunk

take_event_lem :
    (s : StreamState) (events : List HttpResponseEvent)
    → s.terminated ≡ false
    → Within s
    → Within (take_event s events).1
      × (sent_len (take_event s events).0 + rest_of (take_event s events).1 ≤ rest_of s)
unfolding take_event sent_len
take_event_lem s [] live within = (within, omega arith)
take_event_lem s (HttpResponseEvent.chunk chunk ∷ events) live within =
    pass_chunk_lem (record s { event_rx = events }) chunk live within
take_event_lem s (HttpResponseEvent.complete response ∷ events) live within = (within, omega arith)
take_event_lem s (HttpResponseEvent.failure reason ∷ events) live within = (within, omega arith)

abbrev Bounded : StreamState → Option String × StreamState → Type 0
Bounded s r = Within r.1 × (sent_len r.0 + rest_of r.1 ≤ rest_of s)

poll_lem : (s : StreamState) → Within s → Bounded s (poll_stream s)
unfolding poll_stream sent_len
poll_lem s within = elim (Bool-cases s.terminated) [
  | inl ended ↦
      let e : poll_stream s ≡ (none, s) = ground arith in
      subst (Bounded s) (sym e) (within, omega arith)
  | inr live ↦ elim (Option-cases s.next_chunk) [
    | inl nothing ↦
        let e : poll_stream s ≡ take_event s s.event_rx = ground arith in
        subst (Bounded s) (sym e) (take_event_lem s s.event_rx live within)
    | inr (chunk, next) ↦
        let e : poll_stream s ≡ (some (pass_chunk s chunk).0, (pass_chunk s chunk).1) =
          ground arith in
        subst (Bounded s) (sym e) (pass_chunk_lem s chunk live within)
  ]
]

pub polls-none :
    (n : ℕ) (s : StreamState) → (poll_stream s).0 ≡ none → polls (suc n) s ≡ ([], (poll_stream s).1)
unfolding polls
polls-none n s ended = rw (ended, polls) refl

pub polls-some :
    (n : ℕ) (s : StreamState) (chunk : String)
    → (poll_stream s).0 ≡ some chunk
    → polls (suc n) s ≡ (chunk ∷ (polls n (poll_stream s).1).0, (polls n (poll_stream s).1).1)
unfolding polls
polls-some n s chunk sent = rw (sent, polls) refl

polls_lem : (n : ℕ) (s : StreamState) → Within s → total_len (polls n s).0 ≤ rest_of s
unfolding polls total_len sent_len
polls_lem zero s within = omega arith
polls_lem (suc n) s within =
    let (within', bound) = poll_lem s within in
    elim (Option-cases (poll_stream s).0) [
      | inl ended ↦
          subst (λ r. total_len r.0 ≤ rest_of s) (sym (polls-none n s ended)) (omega arith)
      | inr (chunk, sent) ↦
          subst (λ r. total_len r.0 ≤ rest_of s) (sym (polls-some n s chunk sent))
            (ground (arith, polls_lem n (poll_stream s).1 within', bound, sent))
    ]

-- However many chunks the worker sends and however often the client polls, a streamed response sends
-- at most ten gibibytes and the one error message of the limit.
pub stream_within_limit :
    (guard : CancellationGuard) (first_chunk : String) (events : List HttpResponseEvent) (n : ℕ)
    → total_len (polls n (stream_of guard first_chunk events)).0
      ≤ max_stream_response_bytes + len oversized_stream_error_sse
stream_within_limit guard first_chunk events n =
    omega (arith, polls_lem n (stream_of guard first_chunk events) (omega arith))
