-- ===== src/Observability/Context.antt =====
-- src/app/observability/middleware.py, around the code that answers a request. A reply carries
-- the headers that it was given; times and fresh ids are parameters.
use deal_screening_agent.Prelude.{or_default, ℕ, String, ◌≡◌, refl, Option, some}
use deal_screening_agent.Prelude.Exec.{Result, ok, err, Exec}
use deal_screening_agent.Prelude.Json.{number, string, Fields, end, field}
use deal_screening_agent.Prelude.Dict.{Dict, find_item, put_item, find_item-put_item}
use deal_screening_agent.Observability.Scrubber.{Rules}
use deal_screening_agent.Observability.Logger.{Context, info, error, Entry, log}

pub record Request : Type 0 where
  pub method : String
  pub path : String
  pub x_request_id : Option String
  pub x_tenant_id : Option String
  pub traceparent : Option String

pub record Response : Type 0 where
  pub status_code : ℕ
  pub headers : Dict String

-- What is fresh at a request: two ids, and the milliseconds that it takes.
pub record Fresh : Type 0 where
  pub request_id : String
  pub trace_id : String
  pub duration_ms : ℕ

abbrev pub request_context : Request → Fresh → Context → Context
request_context request fresh context = record context {
  request_id = or_default request.x_request_id fresh.request_id;
  tenant_id = or_default request.x_tenant_id "none";
  user_id = "none";
  trace_id = or_default request.traceparent fresh.trace_id;
}

-- `reset` of the four tokens: the values from before, beside what else the code inside has set
abbrev pub reset_context : Context → Context → Context
reset_context before inside = record inside {
  request_id = before.request_id;
  tenant_id = before.tenant_id;
  user_id = before.user_id;
  trace_id = before.trace_id;
}

pub record Dispatched : Type 0 where
  -- the response, or the text of the exception that is raised again
  pub reply : Result String Response
  pub context : Context
  pub line : Entry

abbrev pub response_fields : Request → ℕ → ℕ → Fields
response_fields request status_code duration_ms = field "method" (string request.method) (
    field "path" (string request.path)
      (field "status" (number status_code) (field "duration_ms" (number duration_ms) end)))

abbrev pub error_fields : Request → String → ℕ → Fields
error_fields request exc duration_ms = field "method" (string request.method) (
    field "path" (string request.path)
      (field "error" (string exc) (field "duration_ms" (number duration_ms) end)))

module _ (rules : Rules) where
  -- what is made of a call's outcome; the response's headers get the id
  abbrev pub finish :
      Request → Fresh → Context → String → Result String Response × Context → Dispatched
  finish request fresh before req_id (ok response, inside) = record {
    reply = ok (record response { headers = put_item "X-Request-ID" req_id response.headers });
    context = reset_context before inside;
    line =
        log rules inside "http" info "http.response"
          (response_fields request response.status_code fresh.duration_ms);
  }
  finish request fresh before req_id (err exc, inside) = record {
    reply = err exc;
    context = reset_context before inside;
    line = log rules inside "http" error "http.error" (error_fields request exc fresh.duration_ms);
  }

  -- `call_next` gives the response, or the exception's text, and the context that it leaves.
  unfoldable pub dispatch : Request → Fresh → Exec Context String Response → Context → Dispatched
  unfolding log put_item
  dispatch request fresh call_next context =
      finish request fresh context (or_default request.x_request_id fresh.request_id)
        (call_next (request_context request fresh context))

  -- what a caller relies on, for the outcome of the code inside
  abbrev pub Restores : Context → String → Result String Response × Context → Dispatched → Type 0
  Restores before req_id (ok response, inside) d =
      (d.context ≡ record before { span_id = inside.span_id })
      × ((r : Response) × (d.reply ≡ ok r)
          × (r.status_code ≡ response.status_code)
          × (find_item "X-Request-ID" r.headers ≡ some req_id))
  Restores before req_id (err exc, inside) d =
      (d.context ≡ record before { span_id = inside.span_id }) × (d.reply ≡ err exc)

  -- After a request the context is again what it was before, whatever the code inside has set but
  -- for the span, if that code returns and if it raises; a response keeps its status and gets the
  -- request's id, and an exception is raised again.
  pub dispatch-Restores :
      (request : Request) (fresh : Fresh) (call_next : Exec Context String Response)
      (context : Context)
      → Restores context
          (or_default request.x_request_id fresh.request_id)
          (call_next (request_context request fresh context))
          (dispatch request fresh call_next context)
  unfolding dispatch
  dispatch-Restores request fresh call_next context =
      by_outcome (call_next (request_context request fresh context))
    where
      req_id : String
      req_id = or_default request.x_request_id fresh.request_id

      by_outcome :
          (o : Result String Response × Context)
          → Restores context req_id o (finish request fresh context req_id o)
      by_outcome (ok response, inside) = (
        refl,
        (
          record response { headers = put_item "X-Request-ID" req_id response.headers },
          refl,
          refl,
          find_item-put_item "X-Request-ID" req_id response.headers,
        ),
      )
      by_outcome (err exc, inside) = (refl, refl)
