-- ===== src/Http/Stream/Late.antt =====
-- What a worker sends for a stream that its client has left.
use llm_worker_proxy.Shared.{String, List, map, string_eq}
use llm_worker_proxy.Shared.HashMap
use llm_worker_proxy.Core.Responses.{stream_http_response_chunk}
use llm_worker_proxy.Core.Step.{Event}

-- Chunks of one request, each from a worker.
abbrev pub chunks_of : String → List (String × String) → List Event
chunks_of request_id sent = map (λ s. Event.stream_http_response_chunk s.0 request_id s.1) sent
