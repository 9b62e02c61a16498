-- ===== src/Client/Failures.antt =====
-- What a caller of the client (client.py) gets back, on every way that a request can end.
use fiu_data_governance.Prelude.{
  ℕ, ◌≡◌, ◌∙◌, ap, sym, refl, ◌⊎◌, String, Bool, true, arith, inl, inr, if◌then◌else◌,
}
use fiu_data_governance.Host.{
  Host, HttpRequest, Outcome, response, unreachable, post, get, Sys, pure, raise, ◌>>=◌,
}
use fiu_data_governance.Host.Effects.Keeps.{Keeps}
use fiu_data_governance.Python.Errors.{Exn, Result, ok, err, Result-cases}
use fiu_data_governance.Python.Json.{Json, null, str, truthy}
use fiu_data_governance.Python.Subscript.{index}
use fiu_data_governance.Client.{
  make_url, request_headers, request_error, accept, post_json_request, get_json_request,
}

-- The requests that the client sends.
abbrev pub post_request : Bool → String → Json → HttpRequest
post_request verify url body = record {
  verb = post;
  url = url;
  headers = request_headers;
  body = body;
  query = null;
  verify = verify;
}

abbrev pub get_request : Bool → String → Json → HttpRequest
get_request verify url query = record {
  verb = get;
  url = url;
  headers = request_headers;
  body = null;
  query = if truthy query then query else null;
  verify = verify;
}

module _ {W : Type 0} (host : Host W) where
  -- What the caller of `post_json_request` or `get_json_request` gets for an outcome.
  abbrev pub reply : Outcome → Result (ℕ × String)
  reply unreachable = err Exn.connection_error
  reply (response status text) =
      if host.is_error status then err (request_error host status text) else ok (status, text)

  -- The error code and the error message that the body of an answer gives.
  abbrev pub Describes : String → Json → Json → Type 0
  Describes text code message =
      ((host.loads text ≡ err Exn.decode_error) × (code ≡ str "N/A") × (message ≡ str text))
      ⊎ ((answer : Json) × (host.loads text ≡ ok answer)
          × (index answer "error_code" ≡ ok code)
          × (index answer "error_message" ≡ ok message))

  reply-returns :
      {status : ℕ} {text : String} (o : Outcome)
      → reply o ≡ ok (status, text)
      → o ≡ response status text
  reply-returns (response c t) h = ground (arith, h)
  reply-returns unreachable h = absurd (cc h)

  module _ {S : Type 0} where
    accept-eq-reply : (o : Outcome) (s : Sys S W) → accept host o s ≡ (reply o, s)
    unfolding accept pure raise
    accept-eq-reply (response status text) s = ground arith
    accept-eq-reply unreachable s = refl

  module _ {S : Type 0} (verify : Bool) where
    -- A POST to a URL that can be built sends one request, with the body, the two standard headers and
    -- the choice of the copy on certificates, and returns or raises what the outcome says; the caller's
    -- globals stay as they were.
    pub post_json_request_lem :
        (endpoint path url : String) (body : Json) (s : Sys S W)
        → make_url endpoint path ≡ ok url
        → let (outcome, w) = host.send (post_request verify url body) s.world in
          post_json_request host verify endpoint path body s
          ≡ (reply outcome, record s { world = w })
    unfolding post_json_request ◌>>=◌
    post_json_request_lem endpoint path url body s h =
        let (outcome, w) = host.send (post_request verify url body) s.world in
        rw h (accept-eq-reply outcome (record s { world = w }))

    -- A POST that returns was sent to a URL that could be built, and returns the status and the text of
    -- its answer.
    pub post_json_request-returns :
        (endpoint path : String) (body : Json) (s : Sys S W) {status : ℕ} {text : String}
        → (post_json_request host verify endpoint path body s).0 ≡ ok (status, text)
        → (url : String) × (make_url endpoint path ≡ ok url)
          × ((host.send (post_request verify url body) s.world).0 ≡ response status text)
    unfolding post_json_request ◌>>=◌
    post_json_request-returns endpoint path body s {status} {text} h =
        elim (Result-cases (make_url endpoint path)) [
          | inl (url, e) ↦
              let same = post_json_request_lem endpoint path url body s e in
              let (outcome, w) = host.send (post_request verify url body) s.world in
              (url, e, reply-returns outcome (sym (ap (λ p. p.0) same) ∙ h))
          | inr (x, e) ↦ absurd (cc (rw e at h))
        ]

    -- The same of a GET; its query is sent if it is not empty.
    pub get_json_request_lem :
        (endpoint path url : String) (query : Json) (s : Sys S W)
        → make_url endpoint path ≡ ok url
        → let (outcome, w) = host.send (get_request verify url query) s.world in
          get_json_request host verify endpoint path query s
          ≡ (reply outcome, record s { world = w })
    unfolding get_json_request ◌>>=◌
    get_json_request_lem endpoint path url query s h =
        let (outcome, w) = host.send (get_request verify url query) s.world in
        rw h (accept-eq-reply outcome (record s { world = w }))

    -- The client never touches the globals of the service that calls it.
    pub self-post_json_request :
        (endpoint path : String) (body : Json) (s : Sys S W)
        → (post_json_request host verify endpoint path body s).1.self ≡ s.self
    unfolding post_json_request ◌>>=◌
    self-post_json_request endpoint path body s = elim (Result-cases (make_url endpoint path)) [
      | inl (url, e) ↦
          let (outcome, w) = host.send (post_request verify url body) s.world in
          rw (e, accept-eq-reply)
      | inr (x, e) ↦ rw e
    ]

    pub self-get_json_request :
        (endpoint path : String) (query : Json) (s : Sys S W)
        → (get_json_request host verify endpoint path query s).1.self ≡ s.self
    unfolding get_json_request ◌>>=◌
    self-get_json_request endpoint path query s = elim (Result-cases (make_url endpoint path)) [
      | inl (url, e) ↦ rw (e, accept-eq-reply)
      | inr (x, e) ↦ rw e
    ]

    module _ (endpoint path url text : String) (status : ℕ) (body : Json) (s : Sys S W)
        (built : make_url endpoint path ≡ ok url)
        (sent : (host.send (post_request verify url body) s.world).0 ≡ response status text)
        (bad : host.is_error status ≡ true) where
      -- A POST that is answered with an error status raises a RequestError with that status, if the
      -- body of the answer describes the error: it is no JSON and is the message itself, or it has
      -- an error code and an error message.
      pub post-RequestError :
          (code message : Json)
          → Describes text code message
          → (post_json_request host verify endpoint path body s).0
            ≡ err (Exn.request_error status code message)
      unfolding request_error
      post-RequestError code message (inl (broken, c, m)) = rw (
        post_json_request_lem endpoint path url body s built,
        sent,
        bad,
        request_error,
        broken,
        c,
        m,
      )
      post-RequestError code message (inr (answer, parsed, c, m)) = rw (
        post_json_request_lem endpoint path url body s built,
        sent,
        bad,
        request_error,
        parsed,
        c,
        m,
      )

      -- A POST that is answered with an error status and a JSON body without an error code raises the
      -- exception of the lookup of the code, whatever the status is: the status is lost.
      pub post-hides_status :
          (answer : Json) (e : Exn)
          → host.loads text ≡ ok answer
          → index answer "error_code" ≡ err e
          → (post_json_request host verify endpoint path body s).0 ≡ err e
      unfolding request_error
      post-hides_status answer e parsed missing = rw (
        post_json_request_lem endpoint path url body s built,
        sent,
        bad,
        request_error,
        parsed,
        missing,
      )

    -- So the calls keep whatever holds of the globals.
    pub post_json_request-Keeps :
        {P : S → Type 0} (endpoint path : String) (body : Json)
        → Keeps P (post_json_request host verify endpoint path body)
    post_json_request-Keeps endpoint path body = record {
      at = λ s h. rw (self-post_json_request endpoint path body s) h;
    }

    pub get_json_request-Keeps :
        {P : S → Type 0} (endpoint path : String) (query : Json)
        → Keeps P (get_json_request host verify endpoint path query)
    get_json_request-Keeps endpoint path query = record {
      at = λ s h. rw (self-get_json_request endpoint path query s) h;
    }
