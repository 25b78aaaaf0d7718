-- ===== src/Daemon/Forward.antt =====
-- crates/modelrelay-worker/src/lib.rs: `forward_request`, which sends a request to the backend and
-- turns its answer into messages. What the daemon takes from `http` and `reqwest` is a parameter:
-- the names and values that are accepted as headers, and the backend's answer. `str::to_uppercase`
-- is one too, as its table is not in the source.
use llm_worker_proxy.Shared.{
  ℕ, Bool, ◌||◌, String, List, [], ◌∷◌, Option, none, some, ◌==◌, string_eq, if◌then◌else◌, Result,
  ok, err,
}
use llm_worker_proxy.Shared.HashMap
use llm_worker_proxy.Protocol.{
  HeaderMap, RequestMessage, ResponseCompleteMessage, WorkerToServerMessage,
}
use llm_worker_proxy.Daemon.Config.{WorkerDaemonConfig, backend_url}

pub data Method : Type 0 where
  get put delete patch head options post : Method

-- The `match` on the method in upper case.
unfoldable pub reqwest_method : String → Method
reqwest_method upper =
    if upper == "GET"
    then Method.get
    else if upper == "PUT"
    then Method.put
    else if upper == "DELETE"
    then Method.delete
    else if upper == "PATCH"
    then Method.patch
    else if upper == "HEAD"
    then Method.head
    else if upper == "OPTIONS"
    then Method.options
    else Method.post

-- `CONTENT_LENGTH`, `CONNECTION` and `HOST`; header names are in lower case.
unfoldable pub is_hop_header : String → Bool
is_hop_header name = name == "content-length" || name == "connection" || name == "host"

pub record BackendRequest : Type 0 where
  pub method : Method
  pub url : String
  pub headers : HeaderMap
  pub body : String

-- An answer's header values are `none` where `to_str` fails. Its body comes in chunks, or as a text;
-- an error, of the transport or of the encoding, ends either.
pub record BackendResponse : Type 0 where
  pub status : ℕ
  pub headers : List (String × Option String)
  pub chunks : List (Result String String)
  pub text : Result String String

pub record HttpLibrary : Type 0 where
  pub header_name : String → Option String
  pub header_value : String → Option String
  pub to_uppercase : String → String
  pub to_ascii_lowercase : String → String

module _ (http : HttpLibrary) where
  -- One round of the loop over the request's headers.
  abbrev pub add_header : HeaderMap → String → String → HeaderMap
  add_header known name value = elim (http.header_name name) [
    | none ↦ known
    | some header_name ↦
        if is_hop_header header_name then known else elim (http.header_value value) [
          | none ↦ known
          | some header_value ↦ HashMap.insert header_name header_value known
        ]
  ]

  unfoldable pub backend_headers_from : HeaderMap → HeaderMap → HeaderMap
  backend_headers_from known [] = known
  backend_headers_from known ((name, value) ∷ headers) =
      backend_headers_from (add_header known name value) headers

  abbrev pub backend_headers : HeaderMap → HeaderMap
  backend_headers headers = backend_headers_from [] headers

  abbrev pub backend_request : WorkerDaemonConfig → RequestMessage → BackendRequest
  backend_request config request = record {
    method = reqwest_method (http.to_uppercase request.method);
    url = backend_url config request.endpoint_path;
    headers = backend_headers request.headers;
    body = request.body;
  }

  -- `collect` into a map: a later value of a name replaces an earlier one.
  unfoldable pub response_headers_from : HeaderMap → List (String × Option String) → HeaderMap
  response_headers_from known [] = known
  response_headers_from known ((name, none) ∷ headers) = response_headers_from known headers
  response_headers_from known ((name, some value) ∷ headers) =
      response_headers_from
        (if is_hop_header name
          then known
          else HashMap.insert (http.to_ascii_lowercase name) value known)
        headers

abbrev pub chunk_message : String → String → WorkerToServerMessage
chunk_message request_id chunk =
    WorkerToServerMessage.response_chunk (record { request_id = request_id; chunk = chunk })

-- The loop over a stream: the messages sent, and the error that ended it, if any.
unfoldable pub stream_chunks :
    String → List (Result String String) → List WorkerToServerMessage × Option String
stream_chunks request_id [] = ([], none)
stream_chunks request_id (err error ∷ chunks) = ([], some error)
stream_chunks request_id (ok chunk ∷ chunks) =
    let (sent, failed) = stream_chunks request_id chunks in
    (chunk_message request_id chunk ∷ sent, failed)

abbrev pub completed : String → ℕ → HeaderMap → String → ResponseCompleteMessage
completed request_id status headers body = record {
  request_id = request_id;
  status_code = status;
  headers = headers;
  body = some body;
  token_counts = none;
}

abbrev pub end_of_stream :
    String
    → ℕ
    → HeaderMap
    → List WorkerToServerMessage × Option String
    → List WorkerToServerMessage × Result ResponseCompleteMessage String
end_of_stream request_id status headers (sent, some error) = (sent, err error)
end_of_stream request_id status headers (sent, none) =
    (sent, ok (completed request_id status headers ""))

abbrev pub end_of_text :
    String → ℕ → HeaderMap → Result String String → Result ResponseCompleteMessage String
end_of_text request_id status headers (err error) = err error
end_of_text request_id status headers (ok body) = ok (completed request_id status headers body)

-- The messages sent on the way, and the result. `backend` is the client's `send`.
unfoldable pub forward_request :
    HttpLibrary
    → (BackendRequest → Result BackendResponse String)
    → WorkerDaemonConfig
    → RequestMessage
    → List WorkerToServerMessage × Result ResponseCompleteMessage String
forward_request http backend config request = elim (backend (backend_request http config request)) [
  | err error ↦ ([], err error)
  | ok response ↦
      let headers : HeaderMap = response_headers_from http [] response.headers in
      if request.is_streaming
      then end_of_stream request.request_id response.status headers
          (stream_chunks request.request_id response.chunks)
      else ([], end_of_text request.request_id response.status headers response.text)
]
