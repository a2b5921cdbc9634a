-- ===== src/Handler/Other.antt =====
-- internal/infra/handler/favicon_handler.go, metrics_handler.go and health_handler.go: the icons, the
-- clicks and the health.
pub mod Statuses
use hateblog_backend.Common.{
  ℕ, suc, ◌+◌, ◌-◌, ◌/◌, Bool, true, not, Option, none, some, List, [], ◌∷◌, ◌++◌, ◌==◌,
  if◌then◌else◌, all, Result, ok, err, Bytes, codes, is_empty,
}
use hateblog_backend.Domain.Tag.{Uuid}
use hateblog_backend.Domain.Entry.{Time, Entry}
use hateblog_backend.Pkg.Apptime.{Calendar}
use hateblog_backend.Pkg.Hostname.{HostnameError, normalize}
use hateblog_backend.Usecase.Ports.{Fault}
use hateblog_backend.Usecase.Favicon.{
  Icon, RedisClient, IconCodec, FaviconError, rate_limited, Answer, fetch,
}
use hateblog_backend.Usecase.Clicks.{ClickRow, ClickError, record_click}
use hateblog_backend.Handler.Params.{Query}
use hateblog_backend.Handler.Responses.{
  Response, Headers, payload, no_headers, set_cache_status_header, write_json, write_error,
}

pub data HandlerError : Type 0 where
  missing_domain : HandlerError
  host : HostnameError → HandlerError
  favicon : FaviconError → HandlerError
  service_unavailable : HandlerError
  bad_body : Fault → HandlerError
  entry_id_required : HandlerError
  click : ClickError → HandlerError

abbrev pub IconResponse : Type 0
IconResponse = Response HandlerError Bytes

-- The icon itself is the body, under its own content type.
unfoldable pub write_icon : Answer → IconResponse
unfolding write_error set_cache_status_header
write_icon (err rate_limited) = write_error no_headers 425 (favicon rate_limited)
write_icon (err e) = write_error no_headers 500 (favicon e)
write_icon (ok (icon, hit)) =
    let h : Headers = set_cache_status_header no_headers hit in
    record {
      status = 200;
      headers = record h { content_type = icon.content_type };
      body = payload icon.bytes;
    }

module _ (url_host : Bytes → Option Bytes) (to_lower : Bytes → Bytes) (redis : RedisClient)
    (codec : IconCodec) (fallback_icon : Icon) (fetcher : Bytes → Option Icon) where
  unfoldable pub serve_icon : Result HostnameError Bytes → redis.State → redis.State × IconResponse
  unfolding write_icon
  serve_icon (err e) st = (st, write_error no_headers 400 (host e))
  serve_icon (ok name) st =
      let (st', answer) = fetch url_host to_lower redis codec fallback_icon fetcher st name in
      (st', write_icon answer)

  unfoldable pub handle_get_favicon : Query → redis.State → redis.State × IconResponse
  unfolding serve_icon
  handle_get_favicon r st =
      let domain = r (codes "domain") in
      if is_empty domain
      then (st, write_error no_headers 400 missing_domain)
      else serve_icon (normalize url_host to_lower domain) st

pub record MetricsResponse : Type 0 where
  pub success : Bool
  pub message : Bytes

abbrev pub ClickResponse : Type 0
ClickResponse = Response HandlerError MetricsResponse

unfoldable pub write_click : Result ClickError (Unit {0}) → ClickResponse
unfolding write_error write_json
write_click (err e) = write_error no_headers 400 (click e)
write_click (ok u) =
    write_json no_headers 201
      (payload (record { success = true; message = codes "click recorded" }))

module _ (get_entry : Uuid → Result Fault Entry) (calendar : Calendar) (fails : Option Fault) where
  -- The decoded body is the identifier of the entry.
  unfoldable pub serve_click :
      Result Fault Uuid → Time → List ClickRow → ClickResponse × List ClickRow
  unfolding write_click
  serve_click (err f) now rows = (write_error no_headers 400 (bad_body f), rows)
  serve_click (ok id) now rows =
      if id == 0
      then (write_error no_headers 400 entry_id_required, rows)
      else (let (result, rows') = record_click true get_entry calendar fails id now rows in
          (write_click result, rows'))

  unfoldable pub handle_record_click :
      Bool → Result Fault Uuid → Time → List ClickRow → ClickResponse × List ClickRow
  unfolding serve_click
  handle_record_click has_service decoded now rows =
      if not has_service
      then (write_error no_headers 500 service_unavailable, rows)
      else serve_click decoded now rows

pub record Component : Type 0 where
  pub name : Bytes
  pub status : Bytes
  pub error : Option Fault

pub record HealthResponse : Type 0 where
  pub status : Bytes
  pub components : List Component
  pub checked_at : Time

-- One dependency: none is configured, or its check gives no error or one.
unfoldable pub component_of : Bytes → Option (Option Fault) → List Component
component_of name none = []
component_of name (some none) = record { name = name; status = codes "healthy"; error = none } ∷ []
component_of name (some (some f)) =
    record { name = name; status = codes "unhealthy"; error = some f } ∷ []

unfoldable pub status_after : Option (Option Fault) → ℕ → ℕ
status_after (some (some f)) status = 503
status_after _ status = status

unfoldable pub status_label : ℕ → Bytes
status_label code = if code == 200 then codes "healthy" else codes "unhealthy"

unfoldable pub serve_health :
    Option (Option Fault) → Option (Option Fault) → Time → Response HandlerError HealthResponse
unfolding component_of status_after status_label write_json
serve_health db cache now =
    let status = status_after cache (status_after db 200) in
    write_json no_headers status (
      payload (record {
        status = status_label status;
        components = component_of (codes "database") db ++ component_of (codes "redis") cache;
        checked_at = now;
      }))
