-- ===== src/Http/Middleware/Envelope.antt =====
-- What every response has, whatever the handler behind the chain does.
use go_identity_service.Base.{
  Text, codes, text_eq, is_empty, String, str_eq, str_eq_iff, ◌≡◌, refl, sym, ap, ◌∙◌, subst, inl,
  inr, Bool, true, false, Bool-cases, any, Option, none, some, [], ◌∷◌, if◌then◌else◌,
}
use go_identity_service.Http.Response.{send_error}
use go_identity_service.Http.Middleware.{
  Request, Writer, Flow, returned, panicked, set_header, write_header, write, first_status,
  CorsConfig, is_allowed, allow_origin, Handler, recovered, request_id, security_headers, cors,
  recovery, chain, serve, fresh,
}

-- The headers that the chain sets.
abbrev pub is_set_by_chain : String → Bool
is_set_by_chain name = any (str_eq name) (
    "X-Request-ID" ∷ "X-Content-Type-Options" ∷ "X-Frame-Options" ∷ "Referrer-Policy"
    ∷ "Permissions-Policy" ∷ "Access-Control-Allow-Origin" ∷ [])

abbrev pub writer_of : Flow → Writer
writer_of (returned w) = w
writer_of (panicked w) = w

abbrev pub id_of : Option Text → Request → Text
id_of generated r =
    if is_empty (r.header "X-Request-ID")
    then elim generated [ none ↦ codes "unknown" | some text ↦ text ]
    else r.header "X-Request-ID"

abbrev pub origin_header : CorsConfig → Text → Option Text
origin_header cfg origin = if is_allowed cfg origin then some origin else none

not_content_type :
    (name : String) → is_set_by_chain name ≡ true → str_eq name "Content-Type" ≡ false
unfolding any
not_content_type name h = elim (Bool-cases (str_eq name "Content-Type")) [
  | inr other ↦ other
  | inl same ↦
      absurd
        (not_set (subst (λ (n : String). is_set_by_chain n ≡ true) ((str_eq_iff _ _).0 same) h))
]
  where
    not_set : is_set_by_chain "Content-Type" ≡ true → ⊥
    not_set h = cc

module _ (generated : Option Text) (cfg : CorsConfig) (r : Request) where
  -- The headers of a response.
  pub record Enveloped (w : Writer) : Type 0 where
    pub request_id_is : w.header "X-Request-ID" ≡ some (id_of generated r)
    pub content_type_options : w.header "X-Content-Type-Options" ≡ some (codes "nosniff")
    pub frame_options : w.header "X-Frame-Options" ≡ some (codes "DENY")
    pub referrer_policy : w.header "Referrer-Policy" ≡ some (codes "no-referrer")
    pub permissions_policy :
        w.header "Permissions-Policy" ≡ some (codes "geolocation=(), microphone=(), camera=()")
    pub allow_origin_is :
        w.header "Access-Control-Allow-Origin" ≡ origin_header cfg (r.header "Origin")

  -- What reaches the routes.
  abbrev pub inner_request : Request
  inner_request = record r { request_id = id_of generated r }

  abbrev pub guarded_writer : Writer
  guarded_writer =
      set_header "Permissions-Policy" (codes "geolocation=(), microphone=(), camera=()") (
        set_header "Referrer-Policy" (codes "no-referrer") (
          set_header "X-Frame-Options" (codes "DENY") (
            set_header "X-Content-Type-Options" (codes "nosniff")
              (set_header "X-Request-ID" (id_of generated r) fresh))))

  abbrev pub inner_writer : Writer
  inner_writer =
      if is_allowed cfg (r.header "Origin")
      then allow_origin cfg (r.header "Origin") guarded_writer
      else guarded_writer

  inner-Enveloped : Enveloped inner_writer
  inner-Enveloped = elim (Bool-cases (is_allowed cfg (r.header "Origin"))) [
    | inl ok ↦ rw ok (record {
      request_id_is = refl;
      content_type_options = refl;
      frame_options = refl;
      referrer_policy = refl;
      permissions_policy = refl;
      allow_origin_is = rw ok refl;
    })
    | inr no_origin ↦ rw no_origin (record {
      request_id_is = refl;
      content_type_options = refl;
      frame_options = refl;
      referrer_policy = refl;
      permissions_policy = refl;
      allow_origin_is = rw no_origin refl;
    })
  ]

  nothing_written : inner_writer.status ≡ none
  nothing_written = elim (Bool-cases (is_allowed cfg (r.header "Origin"))) [
    | inl ok ↦ rw ok refl
    | inr no_origin ↦ rw no_origin refl
  ]

  -- A writer with the same headers of the chain.
  same-Enveloped :
      {v w : Writer}
      → ((name : String) → is_set_by_chain name ≡ true → w.header name ≡ v.header name)
      → Enveloped v
      → Enveloped w
  unfolding any
  same-Enveloped same e = record {
    request_id_is = same "X-Request-ID" refl ∙ e.request_id_is;
    content_type_options = same "X-Content-Type-Options" refl ∙ e.content_type_options;
    frame_options = same "X-Frame-Options" refl ∙ e.frame_options;
    referrer_policy = same "Referrer-Policy" refl ∙ e.referrer_policy;
    permissions_policy = same "Permissions-Policy" refl ∙ e.permissions_policy;
    allow_origin_is = same "Access-Control-Allow-Origin" refl ∙ e.allow_origin_is;
  }

  -- What the chain makes of a request: it answers OPTIONS itself, it passes on what the routes answered,
  -- or it answers 500 for a panic, unless a status is written already.
  pub data Served {S : Type 0} (mux : Handler S) (s : S) (w : Writer) (s' : S) : Type 0 where
    preflight :
        text_eq r.method (codes "OPTIONS") ≡ true → w.status ≡ some 204 → s' ≡ s → Served mux s w s'
    answered : mux inner_request inner_writer s ≡ (returned w, s') → Served mux s w s'
    repaired :
        (v : Writer)
        → mux inner_request inner_writer s ≡ (panicked v, s')
        → w.status ≡ first_status 500 v.status
        → Served mux s w s'

  module _ {S : Type 0} (mux : Handler S)
      (leaves : (q : Request) (w : Writer) (s : S) (name : String)
        → is_set_by_chain name ≡ true
        → (writer_of (mux q w s).0).header name ≡ w.header name) where
    ResultOf : S → Flow × S → Type 0
    ResultOf s o =
        (w : Writer) × (s' : S) × (o ≡ (returned w, s')) × Enveloped w × Served mux s w s'

    recovered-Enveloped :
        (s : S) (o : Flow) (s' : S)
        → mux inner_request inner_writer s ≡ (o, s')
        → ResultOf s (recovered (o, s'))
    unfolding ResultOf send_error
    recovered-Enveloped s (returned w) s' p = (
      w,
      s',
      refl,
      same-Enveloped
          (λ name h.
            ap (λ (o : Flow × S). (writer_of o.0).header name) (sym p)
            ∙ leaves inner_request inner_writer s name h)
          inner-Enveloped,
      answered p,
    )
    recovered-Enveloped s (panicked v) s' p =
        let sent = write (send_error 500 "internal_error" (codes "Internal server error")) v in
        (
          sent,
          s',
          refl,
          same-Enveloped
              (λ name h.
                (let other = not_content_type name h in rw other refl)
                ∙ ap (λ (o : Flow × S). (writer_of o.0).header name) (sym p)
                ∙ leaves inner_request inner_writer s name h)
              inner-Enveloped,
          repaired v p refl,
        )

    -- For routes that leave the headers of the chain alone: every request is answered, a panic is not
    -- passed on; the response has the request id that came with the request, or else a new one, the four
    -- security headers, and the origin exactly when it is one of those allowed; and the chain answers
    -- OPTIONS itself with 204, passes on what the routes answered, or answers 500 for a panic, unless a
    -- status is written already.
    pub serve-Enveloped :
        (s : S)
        → (w : Writer) × (s' : S) × (serve generated cfg mux r fresh s ≡ (returned w, s'))
          × Enveloped w
          × Served mux s w s'
    unfolding serve chain request_id security_headers cors recovery ResultOf
    serve-Enveloped s = elim (Bool-cases (text_eq r.method (codes "OPTIONS"))) [
      | inl preflight_request ↦ rw preflight_request (
        write_header 204 inner_writer,
        s,
        refl,
        same-Enveloped (λ name h. refl) inner-Enveloped,
        preflight preflight_request (ap (first_status 204) nothing_written) refl,
      )
      | inr other ↦ rw other (
          recovered-Enveloped s (mux inner_request inner_writer s).0
            (mux inner_request inner_writer s).1 refl)
    ]
