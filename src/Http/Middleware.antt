-- ===== src/Http/Middleware.antt =====
-- internal/middleware, in the chain of internal/app/app.go. Logging and Metrics only observe a
-- response, and are left out. A handler may panic; what it wrote by then stays written.
pub mod Envelope
use go_identity_service.Base.{
  ℕ, Text, codes, text_eq, is_empty, String, str_eq, Bool, true, false, any, Option, none, some,
  List, [], ◌∷◌, ◌++◌, if◌then◌else◌,
}
use go_identity_service.Http.Response.{Response, Body, json, send_error}

-- The headers of a request by name, and the request id in its context.
pub record Request : Type 0 where
  pub method : Text
  pub header : String → Text
  pub request_id : Text

-- http.ResponseWriter: the headers by name, the status once it is written, and the bodies.
pub record Writer : Type 0 where
  pub header : String → Option Text
  pub status : Option ℕ
  pub bodies : List Body

pub data Flow : Type 0 where
  returned : Writer → Flow
  panicked : Writer → Flow

-- w.Header().Set
abbrev pub set_header : String → Text → Writer → Writer
set_header name value w = record w {
  header = λ n. if str_eq n name then some value else w.header n;
}

abbrev pub first_status : ℕ → Option ℕ → Option ℕ
first_status code none = some code
first_status code (some earlier) = some earlier

-- WriteHeader: only the first call counts.
abbrev pub write_header : ℕ → Writer → Writer
write_header code w = record w { status = first_status code w.status }

-- JSON of internal/response/json.go
abbrev pub write : Response → Writer → Writer
write r w =
    let w' = write_header r.status (set_header "Content-Type" (codes "application/json") w) in
    record w' { bodies = w'.bodies ++ r.body ∷ [] }

-- strings.Join
unfoldable pub join : Text → List Text → Text
join sep [] = []
join sep (item ∷ []) = item
join sep (item ∷ next ∷ items) = let rest = join sep (next ∷ items) in item ++ (sep ++ rest)

pub record CorsConfig : Type 0 where
  pub allowed_origins : List Text
  pub allowed_methods : List Text
  pub allowed_headers : List Text

abbrev pub allow_origin : CorsConfig → Text → Writer → Writer
allow_origin cfg origin w =
    set_header "Access-Control-Allow-Headers" (join (codes ", ") cfg.allowed_headers) (
      set_header "Access-Control-Allow-Methods" (join (codes ", ") cfg.allowed_methods)
        (set_header "Vary" (codes "Origin") (set_header "Access-Control-Allow-Origin" origin w)))

abbrev pub is_allowed : CorsConfig → Text → Bool
is_allowed cfg origin = if is_empty origin then false else any (text_eq origin) cfg.allowed_origins

-- A handler over the state of the service.
abbrev pub Handler : Type 0 → Type 0
Handler S = Request → Writer → S → Flow × S

module _ {S : Type 0} where
  -- RequestId, with the id that generateRequestId gives, `none` when the random generator fails
  unfoldable pub request_id : Option Text → Handler S → Handler S
  request_id generated next r w =
      let given = r.header "X-Request-ID" in
      let id =
        if is_empty given
        then elim generated [ none ↦ codes "unknown" | some text ↦ text ]
        else given in
      next (record r { request_id = id }) (set_header "X-Request-ID" id w)

  unfoldable pub security_headers : Handler S → Handler S
  security_headers next r w = next r (
      set_header "Permissions-Policy" (codes "geolocation=(), microphone=(), camera=()") (
        set_header "Referrer-Policy" (codes "no-referrer") (
          set_header "X-Frame-Options" (codes "DENY")
            (set_header "X-Content-Type-Options" (codes "nosniff") w))))

  unfoldable pub cors : CorsConfig → Handler S → Handler S
  unfolding join
  cors cfg next r w s =
      let origin = r.header "Origin" in
      let w' = if is_allowed cfg origin then allow_origin cfg origin w else w in
      if text_eq r.method (codes "OPTIONS")
      then (returned (write_header 204 w'), s)
      else next r w' s

  abbrev pub recovered : Flow × S → Flow × S
  recovered (returned w, s) = (returned w, s)
  recovered (panicked w, s) =
      (returned (write (send_error 500 "internal_error" (codes "Internal server error")) w), s)

  unfoldable pub recovery : Handler S → Handler S
  recovery next r w s = recovered (next r w s)

  -- Chain: the first middleware is the outermost.
  unfoldable pub chain : Handler S → List (Handler S → Handler S) → Handler S
  chain handler [] = handler
  chain handler (middleware ∷ rest) = let inner = chain handler rest in middleware inner

  -- The handler of app.go around the routes.
  unfoldable pub serve : Option Text → CorsConfig → Handler S → Handler S
  unfolding chain request_id security_headers cors recovery
  serve generated cfg mux =
      chain mux (request_id generated ∷ security_headers ∷ cors cfg ∷ recovery ∷ [])

abbrev pub fresh : Writer
fresh = record { header = λ name. none; status = none; bodies = [] }
