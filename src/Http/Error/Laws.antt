-- ===== src/Http/Error/Laws.antt =====
-- Laws of parse_error and of the text of a RedfishError.
use text.Mathlib.TextLemmas.{cons-append}
use redfish_ctl.Common.{ℕ, String, ◌<>◌, ◌≡◌, refl, false, inl, inr, arith, ◌=?◌, Bool-cases}
use redfish_ctl.Common.Text.{is_empty}
use redfish_ctl.Json.{Json}
use redfish_ctl.Http.{Response, RedfishError}
use redfish_ctl.Http.Error.{
  redfish_error_from_payload, error_of_document, error_of_body, or_default_text, with_status,
  parse_error, error_text,
}

is_empty-append : (s t : String) → is_empty s ≡ false → is_empty (s <> t) ≡ false
is_empty-append String.[] t h = cc
is_empty-append (String.◌∷◌ c s) t h = rw cons-append refl

or_default_text_ne : (t : String) → is_empty (or_default_text t) ≡ false
unfolding or_default_text
or_default_text_ne String.[] = refl
or_default_text_ne (String.◌∷◌ c s) = refl

with_status_ne :
    (status : ℕ) (t : String) → is_empty t ≡ false → is_empty (with_status status t) ≡ false
unfolding with_status
with_status_ne status t h = elim (Bool-cases (status =? 0)) [
  | inl none_given ↦ rw none_given h
  | inr given ↦ rw given (is_empty-append t _ h)
]

module _ (repr : String → String) where
  body_status : (status : ℕ) (v : Json) → (error_of_body repr status v).status_code ≡ status
  unfolding error_of_body redfish_error_from_payload error_of_document
  body_status status v = ground arith

  -- Whatever the body of a response, the parsed error carries the response's status.
  pub parse_error_status : (r : Response) → (parse_error repr r).status_code ≡ r.status_code
  unfolding parse_error
  parse_error_status r = ground (arith, body_status r.status_code)

  -- The text of a Redfish error is never empty.
  pub error_text_ne : (e : RedfishError) → is_empty (error_text repr e) ≡ false
  unfolding error_text
  error_text_ne e = with_status_ne e.status_code _ (or_default_text_ne _)
