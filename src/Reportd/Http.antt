-- ===== src/Reportd/Http.antt =====
-- Requests and responses of src/internal/reportd/handlers.go, and the wrappers of
-- src/internal/reportd/http_util.go.
pub mod Strconv
pub mod Requests
pub mod Files
pub mod Routes
pub mod Paths
pub mod Guarded
pub mod Created
use timesync_analyzer.Common.{ℕ, List, [], ◌∷◌, Bool, Option, if◌then◌else◌, ◌==◌, drop, not}
use timesync_analyzer.Common.Int.{ℤ}
use timesync_analyzer.Common.Text.{Text, text, text_eq, is_empty, trim_space, to_lower, has_prefix}
use timesync_analyzer.Reportd.Types.{Service, ReportJob}
use timesync_analyzer.Reportd.Groups.{Parsed}
use timesync_analyzer.Reportd.Alerts

-- `createReportRequest`
pub record CreateReportRequest : Type 0 where
  pub from : Text
  pub to : Text
  pub period : Text
  pub period_seconds : ℤ
  pub node : Text
  pub groups : List Text
  pub skip_charts : Option Bool
  pub charts_per_page : ℤ
  pub source : Text
  pub reason : Text
  pub grafana_url : Text
  pub grafana_token : Text
  pub grafana_user : Text
  pub grafana_password : Text

-- What the handlers read of an `http.Request`: `body` and `payload` are the decoded JSON, a zero value
-- where there is no body; a header or a query value that is not there is empty.
pub record Request : Type 0 where
  pub method : Text
  pub path : Text
  pub authorization : Text
  pub report_token : Text
  pub query : Text → Text
  pub body : Parsed CreateReportRequest
  pub payload : Option Alerts.Payload

pub data HttpResponse : Type 0 where
  -- `writeError`
  failure : (status : ℕ) (message : Text) → HttpResponse
  health : HttpResponse
  listing : List ReportJob → HttpResponse
  created : ReportJob → HttpResponse
  shown : ReportJob → HttpResponse
  -- `serveReportFile`: the header fields and the file.
  file : (content_type disposition name path : Text) → HttpResponse
  alerts : Alerts.Response → HttpResponse
  -- The answer to OPTIONS, and that of the multiplexer for another path.
  no_content : HttpResponse
  no_route : HttpResponse

unfoldable pub bearer_token : Request → Text
bearer_token r =
    let auth = trim_space r.authorization in
    if has_prefix (to_lower auth) (text "bearer ")
    then trim_space (drop 7 auth)
    else trim_space r.report_token

abbrev pub Handler : Type 0
Handler = Request → Service → Service × HttpResponse

-- `withAuth`; the comparison takes constant time.
unfoldable pub with_auth : Handler → Handler
unfolding bearer_token
with_auth next r s =
    if is_empty s.opts.token
    then next r s
    else if not (bearer_token r == s.opts.token)
    then (s, failure 401 (text "unauthorized"))
    else next r s

-- `withCORS`
unfoldable pub with_cors : Handler → Handler
with_cors next r s = if r.method == text "OPTIONS" then (s, no_content) else next r s
