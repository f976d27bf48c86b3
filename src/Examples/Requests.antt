-- ===== src/Examples/Requests.antt =====
-- Around the requests: log lines, contexts and addresses.
use deal_screening_agent.Prelude.{
  leb, ◌==◌, if◌then◌else◌, ℕ, String, ◌≡◌, refl, true, none, some, [], ◌∷◌, str_eq,
}
use deal_screening_agent.Prelude.Exec.{err, Exec}
use deal_screening_agent.Prelude.Json.{string, object, Fields, end, field}
use deal_screening_agent.Observability.Scrubber.{Rules}
use deal_screening_agent.Observability.Logger.{Context, no_context, info, is_protected, log}
use deal_screening_agent.Observability.Lines.{is_clean, lacks, OfFields, log-IsClean}
use deal_screening_agent.Observability.Context.{
  Request, Response, Fresh, request_context, dispatch, Restores, dispatch-Restores,
}
use deal_screening_agent.RateLimiter.Clients.{
  Addresses, is_trusted, get_client_ip, is_client, get_client_ip-forged,
}

abbrev rules : Rules
rules = record {
  patterns = (λ s. if str_eq s "a@b.io" then "[REDACTED]" else s) ∷ [];
  lower = λ s. s;
}

abbrev login_fields : Fields
login_fields = field "request_id" (string "forged") (
    field "email" (string "a@b.io") (field "body" (object (field "password" (string "x") end)) end))

log-IsClean_example :
    let line = log rules no_context "auth" info "login" login_fields in
    (line.context ≡ no_context)
    × OfFields rules
        (λ fs. (is_clean rules fs ≡ true) × (lacks rules is_protected fs ≡ true))
        line.fields
log-IsClean_example = log-IsClean rules no_context "auth" "login" info login_fields

abbrev request : Request
request = record {
  method = "GET";
  path = "/api/v1/deals/";
  x_request_id = some "r1";
  x_tenant_id = none;
  traceparent = none;
}

abbrev fresh_ids : Fresh
fresh_ids = record { request_id = "r2"; trace_id = "t2"; duration_ms = 3 }

-- code that changes the context and raises
abbrev raising : Exec Context String Response
raising c = (err "boom", record c { tenant_id = "t9" })

dispatch-Restores_example :
    Restores rules no_context "r1"
      (raising (request_context request fresh_ids no_context))
      (dispatch rules request fresh_ids raising no_context)
dispatch-Restores_example = dispatch-Restores rules request fresh_ids raising no_context

-- addresses are numbers below ten, and the proxies' are above four
abbrev addresses : Addresses
addresses = record {
  Address = ℕ;
  Network = ℕ;
  ip_address = λ s. if str_eq s "2" then some 2 else if str_eq s "7" then some 7 else none;
  contains = λ network address. leb network address;
  str_of = λ address. if address == 2 then "2" else "7";
  split_commas = λ s. if str_eq s "1,2,7" then "1" ∷ "2" ∷ "7" ∷ [] else "2" ∷ "7" ∷ [];
  strip = λ s. s;
}

get_client_ip-forged_example :
    get_client_ip addresses (record { forwarded_for = "1,2,7"; client_host = some "7" }) (5 ∷ [])
    ≡ get_client_ip addresses (record { forwarded_for = "2,7"; client_host = some "7" }) (5 ∷ [])
unfolding is_client is_trusted
get_client_ip-forged_example =
    get_client_ip-forged addresses (record { forwarded_for = "2,7"; client_host = some "7" })
      (record { forwarded_for = "1,2,7"; client_host = some "7" }) (5 ∷ []) ("1" ∷ []) refl refl
      refl refl
