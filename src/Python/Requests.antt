-- ===== src/Python/Requests.antt =====
-- The exceptions of `requests`: an `SSLError` is a `ConnectionError`, and these and a `Timeout` are
-- `RequestException`s. The `HTTPError` of a status is raised where the response is at hand.
use taboot.Prelude.{Bool, true, false}
use taboot.Python.{Kind}

abbrev pub is_ssl_error : Kind → Bool
is_ssl_error Kind.ssl_error = true
is_ssl_error _ = false

abbrev pub is_requests_connection_error : Kind → Bool
is_requests_connection_error Kind.ssl_error = true
is_requests_connection_error Kind.requests_connection_error = true
is_requests_connection_error _ = false

abbrev pub is_requests_timeout : Kind → Bool
is_requests_timeout Kind.requests_timeout_error = true
is_requests_timeout _ = false

abbrev pub is_request_exception : Kind → Bool
is_request_exception Kind.ssl_error = true
is_request_exception Kind.requests_connection_error = true
is_request_exception Kind.requests_timeout_error = true
is_request_exception Kind.request_error = true
is_request_exception _ = false
