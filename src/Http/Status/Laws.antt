-- ===== src/Http/Status/Laws.antt =====
-- Laws of the classification of an answer, and of the write.
use redfish_ctl.Common.{
  ℕ, ◌<◌, ◌≤◌, String, ◌<>◌, ◌≡◌, ◌≢◌, ◌⊎◌, refl, ap, Bool, true, false, ◌&&◌, Option, none, some,
  arith, leb, ltb,
}
use redfish_ctl.Common.Effect.{Result, raised, Exec, ◌>>=◌, bind-eq-ok, bind-state}
use redfish_ctl.Common.Effect
use redfish_ctl.Json.{Json}
use redfish_ctl.Http.{
  Response, Exn, RedfishApiRespond, error, HttpMethod, get, post, push, patch, delete, redfish,
  CommandResult, Transport,
}
use redfish_ctl.Http.Error.{parse_error}
use redfish_ctl.Http.Status.{
  default_error_handler, default_post_success, conclude, answer, issue, base_request_respond,
  base_post, base_patch,
}

abbrev pub returns {ℓ} : {E A : Type ℓ} → Result E A → Bool
returns (Effect.ok a) = true
returns (raised e) = false

-- An answer is a success.
abbrev pub Accepts : Response → ℕ → Type 0
Accepts response ignore =
    ((200 ≤ response.status_code) × (response.status_code < 300))
    ⊎ ((response.status_code ≡ ignore) × (0 < ignore))

-- An answer that the command reports as an error.
abbrev pub Rejects : Response → Type 0
Rejects response = (response.status_code ≡ 405) ⊎ (response.status_code ≡ 409)

-- The payload that each write verb sends.
abbrev pub sent : HttpMethod → Json → Option Json
sent delete payload = none
sent method payload = some payload

module _ (repr : String → String) where
  -- The shared error handler returns exactly on the statuses 200 to 299, and raises on every other one.
  pub returns-default_error_handler :
      (r : Response)
      → returns (default_error_handler repr r) ≡ (leb 200 r.status_code && ltb r.status_code 300)
  unfolding default_error_handler
  returns-default_error_handler r = ground arith

  handler-Accepts :
      (r : Response) (x : RedfishApiRespond)
      → default_error_handler repr r ≡ Effect.ok x
      → (x ≢ error) × (200 ≤ r.status_code) × (r.status_code < 300)
  unfolding default_error_handler
  handler-Accepts r x h = ground arith

  write-Accepts :
      (r : Response) (ignore : ℕ) (x : RedfishApiRespond)
      → default_post_success repr r ignore ≡ Effect.ok x
      → ((x ≢ error) × Accepts r ignore) ⊎ ((x ≡ error) × Rejects r)
  unfolding default_post_success
  write-Accepts r ignore x h = ground (arith, handler-Accepts r x)

  conclude_outcome :
      (r : Response) (x : RedfishApiRespond) {result : CommandResult} {resp : RedfishApiRespond}
      → conclude repr r x ≡ Effect.ok (result, resp)
      → ((x ≢ error) × (result.error ≡ none))
        ⊎ ((x ≡ error) × (result.error ≡ some (redfish (parse_error repr r))))
  unfolding conclude
  conclude_outcome r error h = ground arith
  conclude_outcome r _ h = ground arith

  answer_outcome :
      (r : Response) (ignore : ℕ) (result : CommandResult) (resp : RedfishApiRespond)
      → answer repr r ignore ≡ Effect.ok (result, resp)
      → (result.error ≡ none) × Accepts r ignore
        ⊎ (result.error ≡ some (redfish (parse_error repr r))) × Rejects r
  unfolding answer
  answer_outcome r ignore result resp h = after (default_post_success repr r ignore) refl h
    where
      after :
          (m : Result Exn RedfishApiRespond)
          → default_post_success repr r ignore ≡ m
          → ((elim m [ Effect.ok x ↦ conclude repr r x | raised e ↦ raised e ])
              ≡ Effect.ok (result, resp))
          → (result.error ≡ none) × Accepts r ignore
            ⊎ (result.error ≡ some (redfish (parse_error repr r))) × Rejects r
      after (Effect.ok x) e k = grind (arith, write-Accepts r ignore x e, conclude_outcome r x k)
      after (raised x) e k = cc

  conclude_status :
      (r : Response) (x : RedfishApiRespond) {result : CommandResult} {resp : RedfishApiRespond}
      → conclude repr r x ≡ Effect.ok (result, resp)
      → x ≡ resp
  unfolding conclude
  conclude_status r error h = ground arith
  conclude_status r _ h = ground arith

  answer_status :
      (r : Response) (ignore : ℕ) (result : CommandResult) (resp : RedfishApiRespond)
      → answer repr r ignore ≡ Effect.ok (result, resp)
      → default_post_success repr r ignore ≡ Effect.ok resp
  unfolding answer
  answer_status r ignore result resp h = after (default_post_success repr r ignore) h
    where
      after :
          (m : Result Exn RedfishApiRespond)
          → ((elim m [ Effect.ok x ↦ conclude repr r x | raised e ↦ raised e ])
              ≡ Effect.ok (result, resp))
          → m ≡ Effect.ok resp
      after (Effect.ok x) k = ap Effect.ok (conclude_status r x k)
      after (raised x) k = cc

  module _ (T : Transport) (origin resource : String) where
    -- A PATCH that returns: its one call, and what is reported of the answer.
    pub base_patch_outcome :
        (payload : Json) (s s' : T.State) (result : CommandResult) (resp : RedfishApiRespond)
        → base_patch repr T origin resource payload s ≡ (Effect.ok (result, resp), s')
        → (r : Response) × (T.send patch (origin <> resource) (some payload) s ≡ (Effect.ok r, s'))
          × (default_post_success repr r 0 ≡ Effect.ok resp)
          × ((result.error ≡ none) × Accepts r 0
              ⊎ (result.error ≡ some (redfish (parse_error repr r))) × Rejects r)
    unfolding base_patch issue
    base_patch_outcome payload s s' result resp h =
        let (r, t, called, done) =
          bind-eq-ok (T.send patch (origin <> resource) (some payload))
            (λ r. Effect.lift (answer repr r 0)) s h in
        let answered = ap (λ p. p.0) done in
        (r, cc, answer_status r 0 result resp answered, answer_outcome r 0 result resp answered)

    issue_outcome :
        (method : HttpMethod) (payload : Option Json) (ignore : ℕ) (s s' : T.State)
        (result : CommandResult) (resp : RedfishApiRespond)
        → issue repr T origin method resource payload ignore s ≡ (Effect.ok (result, resp), s')
        → (r : Response) × (T.send method (origin <> resource) payload s ≡ (Effect.ok r, s'))
          × ((result.error ≡ none) × Accepts r ignore
              ⊎ (result.error ≡ some (redfish (parse_error repr r))) × Rejects r)
    unfolding issue
    issue_outcome method payload ignore s s' result resp h =
        let (r, t, called, done) =
          bind-eq-ok (T.send method (origin <> resource) payload)
            (λ r. Effect.lift (answer repr r ignore)) s h in
        (r, cc, answer_outcome r ignore result resp (ap (λ p. p.0) done))

    -- A write by POST, PATCH or DELETE that returns has made one call, and reports no error exactly when
    -- the answer's status is 200 to 299 or the one to ignore; else it was 405 or 409 and the error is the parsed one.
    pub base_request_respond_outcome :
        (method : HttpMethod) (payload : Json) (ignore : ℕ) (s : T.State) {s' : T.State}
        {result : CommandResult} {resp : RedfishApiRespond}
        → base_request_respond repr T origin resource method payload ignore s
          ≡ (Effect.ok (result, resp), s')
        → (r : Response) × (T.send method (origin <> resource) (sent method payload) s
            ≡ (Effect.ok r, s'))
          × ((result.error ≡ none) × Accepts r ignore
              ⊎ (result.error ≡ some (redfish (parse_error repr r))) × Rejects r)
    unfolding base_request_respond
    base_request_respond_outcome post payload ignore s {s'} {result} {resp} h =
        issue_outcome post (sent post payload) ignore s s' result resp h
    base_request_respond_outcome get payload ignore s h = cc
    base_request_respond_outcome push payload ignore s h = cc
    base_request_respond_outcome patch payload ignore s {s'} {result} {resp} h =
        issue_outcome patch (sent patch payload) ignore s s' result resp h
    base_request_respond_outcome delete payload ignore s {s'} {result} {resp} h =
        issue_outcome delete (sent delete payload) ignore s s' result resp h

    -- A POST changes the state as its one call does, whatever the answer.
    pub base_post-state :
        (payload : Json) (s : T.State)
        → (base_post repr T origin resource payload s).1
          ≡ (T.send post (origin <> resource) (some payload) s).1
    unfolding base_post
    base_post-state payload s =
        bind-state (T.send post (origin <> resource) (some payload))
          (λ r. Effect.lift (answer repr r 0)) s (λ r t. refl)
