-- ===== src/Core/Tests.antt =====
-- Small states of the core, on which the theorems are applied.
mod Search
mod Requests
mod Shutdown
mod Models
use llm_worker_proxy.Shared.{
  ℕ, suc, ◌≤◌, ◌<◌, ◌≡◌, ◌≢◌, refl, Bool, true, false, String, List, [], ◌∷◌, ◌++◌, Option, none,
  some, ◌⊎◌, inl, inr, arith, Member, string_eq, ◌==◌, any, unwrap_or, contains, max, length,
}
use llm_worker_proxy.Shared.HashMap
use llm_worker_proxy.Protocol.{
  ProviderRouting, RegisterMessage, PongMessage, ModelsUpdateMessage, ResponseCompleteMessage,
}
use llm_worker_proxy.Core.State.{
  ProxyServerCore, WorkerState, RequestRecord, RequestTransport, ActiveRequestState, new,
  CancelReason, key_beq, supports_model, prefixes_support, ProviderQueuePolicy,
  PendingHttpResponseSender, HttpResponseEvent, CancellationOutcome, RequestFailureReason,
  selection_load,
}
use llm_worker_proxy.Core.Workers.{register_worker, sanitize_models, sanitize_from}
use llm_worker_proxy.Core.Selection.{
  Candidate, choose, lowest_load, next_in_rotation, first, accepts, has_capacity,
  find_eligible_worker_id_with_routing, find_eligible_worker_id_unrouted,
  find_eligible_worker_id_for_provider, select_by_load, eligible_from, accepts_routed, preferred,
  first_lowest, find_eligible_worker_id,
}
use llm_worker_proxy.Core.Selection.Eligible.{CanServe, IsAvailable}
use llm_worker_proxy.Core.Selection.Candidates.{Rising}
use llm_worker_proxy.Core.Selection.Choice.{choose_order}
use llm_worker_proxy.Core.Selection.Sound.{find_eligible-IsAvailable}
use llm_worker_proxy.Core.Selection.Placement.{
  GoesBefore, find_eligible-GoesBefore, find_eligible-none,
}
use llm_worker_proxy.Core.Selection.Routing.{
  Respects, find_eligible-Respects, find_eligible_order, routed_none,
}
use llm_worker_proxy.Core.Dispatch.{
  dispatch_while, dispatch_all, dispatch_next_compatible, record_worker_pong, update_worker_models,
  new_request, submit_transport_request,
}
use llm_worker_proxy.Core.Dispatch.Submission.{Explains, submit-Explains}
use llm_worker_proxy.Core.Dispatch.Loop.{dispatch_all_total}
use llm_worker_proxy.Core.Dispatch.Filled.{Filled, reports_fill_worker}
use llm_worker_proxy.Core.Responses.{
  deliver, remove_sender, stream_http_response_chunk, complete_http_response,
}
use llm_worker_proxy.Core.Responses.Owner.{complete_by_foreign_worker}
use llm_worker_proxy.Core.Lifecycle.{
  begin_graceful_shutdown, expire_graceful_shutdown, past_deadline, cancel_request,
  expire_queue_timeouts,
}
use llm_worker_proxy.Core.Lifecycle.Shutdown.{
  begin_shutdown_stops_dispatch, expire_shutdown_removes,
}
use llm_worker_proxy.Core.Lifecycle.Timeouts.{expire_queues_exact}
use llm_worker_proxy.Core.Lifecycle.Cancel.{cancel_first_wins, cancel_queued_removes}
use llm_worker_proxy.Core.Step.{Event, step, run}
use llm_worker_proxy.Core.Bounds.{IsSound}
use llm_worker_proxy.Core.Bounds.Run.{run-IsSound}
use llm_worker_proxy.Shared.Text.{format_id, decimal, trim}

abbrev pub chat : RequestTransport
chat = record {
  endpoint_path = "/v1/chat";
  method = "POST";
  is_streaming = false;
  body = "{}";
  headers = [];
}

-- Two workers of different providers; `busy` reports a load and holds a request.
abbrev pub idle : WorkerState
idle = record {
  provider = "p";
  worker_name = "one";
  models = "m" ∷ [];
  endpoint_prefixes = [];
  max_concurrent = 2;
  reported_load = 0;
  in_flight_requests = [];
  is_draining = false;
  graceful_shutdown_deadline = none;
}

abbrev pub busy : WorkerState
busy = record idle {
  provider = "o";
  max_concurrent = 3;
  reported_load = 1;
  in_flight_requests = "r" ∷ [];
}

abbrev pub held : RequestRecord
held = record {
  request_id = "r";
  provider = "p";
  model = "m";
  queued_at = 1;
  transport = chat;
  provider_routing = none;
  requeue_count = 0;
}

abbrev pub waiting : RequestRecord
waiting = record held { request_id = "s" }

-- `busy` answers the request `held`, `waiting` stands in its provider's queue.
abbrev pub two_workers : ProxyServerCore
two_workers = record new {
  worker_order = "a" ∷ "b" ∷ [];
  workers = ("a", idle) ∷ ("b", busy) ∷ [];
  provider_queues = ("p", waiting ∷ []) ∷ [];
  provider_queue_policies = ("p", record { max_queue_len = 1; queue_timeout_ticks = some 5 }) ∷ [];
  active_requests =
      ("r", ActiveRequestState.in_flight held "b" none)
      ∷ ("s", ActiveRequestState.queued waiting)
      ∷ [];
  pending_http_response_senders = ("r", PendingHttpResponseSender.streaming) ∷ [];
}

pub idle-IsAvailable : IsAvailable two_workers "m" "/v1/chat" "a" idle
unfolding HashMap.get supports_model prefixes_support
idle-IsAvailable = record {
  listed = inl refl;
  registered = refl;
  serves = record {
    has_model = refl;
    has_endpoint = refl;
    has_room = omega arith;
    is_active = refl;
  };
}

pub busy-IsAvailable : IsAvailable two_workers "m" "/v1/chat" "b" busy
unfolding HashMap.get supports_model prefixes_support
busy-IsAvailable = record {
  listed = inr (inl refl);
  registered = refl;
  serves = record {
    has_model = refl;
    has_endpoint = refl;
    has_room = omega arith;
    is_active = refl;
  };
}
