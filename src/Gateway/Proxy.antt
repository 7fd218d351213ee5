-- ===== src/Gateway/Proxy.antt =====
-- services/api-gateway/app/services/proxy.py, and the forwarding in controller.py. The HTTP client is
-- a function of the attempt's number: what it answers to a request that is sent.
pub mod Retries
use back_end.Prelude.{
  ℕ, zero, suc, ◌+◌, String, Bool, true, false, Option, none, some, List, [], ◌∷◌, ◌==◌, string_eq,
  nat_eq, if◌then◌else◌, ◌||◌, ◌&&◌, not, join,
}
use back_end.Prelude.Dict
use back_end.Prelude.Dict.{Dict}
use back_end.Prelude.Exec.{Exn, app_error, raised, Result, ok, err}
use back_end.Shared.Middleware.{is_in}
use back_end.Gateway.Routes.{
  Settings, resolve_upstream, upstream_path, service_routes, rewrite_routes,
}

pub record Request : Type 0 where
  pub method : String
  pub path : String
  pub query : String
  pub headers : Dict String String
  pub body : String

-- What is sent to a service.
pub record Sent : Type 0 where
  pub method : String
  pub url : String
  pub headers : Dict String String
  pub body : String

pub record Response : Type 0 where
  pub status_code : ℕ
  pub headers : Dict String String
  pub body : String

-- A response, `ConnectError` or `ConnectTimeout`, or another exception.
pub data Answer : Type 0 where
  responded : Response → Answer
  not_connected : Answer
  failed : Exn → Answer

unfoldable pub hop_by_hop : List String
hop_by_hop =
    "connection" ∷ "keep-alive" ∷ "proxy-authenticate" ∷ "proxy-authorization" ∷ "te" ∷ "trailers"
    ∷ "transfer-encoding" ∷ "upgrade" ∷ "host" ∷ "content-length" ∷ []

-- `{k: v for k, v in headers.items() if k.lower() not in names}`
unfoldable pub without : (String → String) → List String → Dict String String → Dict String String
without lower names [] = []
without lower names ((k, v) ∷ headers) =
    let rest = without lower names headers in if is_in (lower k) names then rest else (k, v) ∷ rest

abbrev pub or_path : String → String → String
or_path strip_path path = if strip_path == "" then path else strip_path

-- `forward_request`: what it sends
unfoldable pub forward_request : (String → String) → Request → String → String → Sent
unfolding hop_by_hop without
forward_request lower request upstream_base strip_path =
    let url = join (upstream_base ∷ or_path strip_path request.path ∷ []) in
    record {
      method = request.method;
      url = if request.query == "" then url else join (url ∷ "?" ∷ request.query ∷ []);
      headers = without lower hop_by_hop request.headers;
      body = request.body;
    }

-- `resp.status_code in _RETRYABLE_STATUS`
abbrev pub is_retryable : ℕ → Bool
is_retryable status = status == 502 || status == 503 || status == 504

abbrev pub is_idempotent : String → Bool
is_idempotent method = method == "GET" || method == "HEAD"

-- What the body of the loop makes of an answer: whether another attempt follows.
abbrev pub tries_again : Answer → Bool
tries_again (responded resp) = is_retryable resp.status_code
tries_again not_connected = true
tries_again (failed _) = false

-- The loop from attempt `i` on, with `left` attempts more after it: its answer, and the attempt that
-- it came from.
unfoldable pub attempt_from : (ℕ → Answer) → ℕ → ℕ → ℕ × Answer
attempt_from send i zero = (i, send i)
attempt_from send i (suc left) =
    let rest = attempt_from send (i + 1) left in if tries_again (send i) then rest else (i, send i)

-- `forward_with_retry`, `attempts` being at least 1 (at 0 the loop has no round, and it raises): the
-- last attempt and its answer.
unfoldable pub forward_with_retry : (ℕ → Answer) → String → ℕ → Option (ℕ × Answer)
unfolding attempt_from
forward_with_retry send method zero =
    if is_idempotent method then none else some (attempt_from send 0 0)
forward_with_retry send method (suc left) =
    some (attempt_from send 0 (if is_idempotent method then left else 0))

unfoldable pub hop_by_hop_resp : List String
hop_by_hop_resp = "content-encoding" ∷ "transfer-encoding" ∷ "connection" ∷ []

-- What the client gets.
abbrev pub respond : (String → String) → Option (ℕ × Answer) → Result Response
respond lower none = err (raised "RuntimeError")
respond lower (some (i, responded resp)) =
    ok (record resp { headers = without lower hop_by_hop_resp resp.headers })
respond lower (some (i, not_connected)) = err (app_error 502 "upstream unavailable")
respond lower (some (i, failed e)) = err e

-- The service that a request goes to, and its path there.
abbrev pub proxy_to :
    (String → String) → (Sent → ℕ → Answer) → Request → Option String × String → Result Response
proxy_to lower send request (none, prefix) =
    err (app_error 502 (join ("no upstream configured for " ∷ request.path ∷ [])))
proxy_to lower send request (some upstream, prefix) =
    let path = upstream_path rewrite_routes request.path prefix in
    let sent = forward_request lower request upstream path in
    respond lower (forward_with_retry (send sent) request.method 3)

-- `proxy_request`, with `str.lower` and the HTTP client
unfoldable pub proxy_request :
    (String → String) → (Sent → ℕ → Answer) → Settings → Request → Result Response
unfolding resolve_upstream upstream_path service_routes rewrite_routes forward_request
    forward_with_retry hop_by_hop_resp without
proxy_request lower send settings request =
    proxy_to lower send request (resolve_upstream (service_routes settings) request.path)
