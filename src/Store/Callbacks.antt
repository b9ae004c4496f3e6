-- ===== src/Store/Callbacks.antt =====
-- store/http_callback.go, store/airbus_callback.go and store/old_http_callback.go: `Validate`.
-- `url.ParseRequestURI` is a parameter: whether it accepts a text.
use goscheduler.Shared.{List, [], ◌∷◌, Option, none, some, Bool, false, ◌||◌, if◌then◌else◌}
use goscheduler.Shared.Text.{Text, codes, text_eq}

-- The texts of `validMethods`.
abbrev valid_methods : List Text
valid_methods =
    codes "GET"
    ∷ codes "HEAD"
    ∷ codes "POST"
    ∷ codes "PUT"
    ∷ codes "PATCH"
    ∷ codes "DELETE"
    ∷ codes "CONNECT"
    ∷ codes "OPTIONS"
    ∷ codes "TRACE"
    ∷ []

unfoldable pub among : Text → List Text → Bool
among s [] = false
among s (t ∷ ts) = text_eq s t || among s ts

-- `isValidRequestMethod`.
unfoldable pub is_valid_request_method : Text → Bool
is_valid_request_method method = among method valid_methods

pub data CallbackProblem : Type 0 where
  empty_url invalid_url empty_method invalid_method empty_event_name : CallbackProblem

-- `Validate` of an `HttpCallback`, on its URL and its method.
unfoldable pub validate_http : (Text → Bool) → Text → Text → Option CallbackProblem
validate_http parses url method =
    if text_eq url []
    then some empty_url
    else if parses url
    then (if text_eq method []
        then some empty_method
        else if is_valid_request_method method
        then none
        else some invalid_method)
    else some invalid_url

-- `Validate` of the old `HTTPCallback`.
unfoldable pub validate_old_http : (Text → Bool) → Text → Option CallbackProblem
validate_old_http parses url =
    if text_eq url [] then some empty_url else if parses url then none else some invalid_url

-- `Validate` of an `AirbusCallback`.
unfoldable pub validate_airbus : Text → Option CallbackProblem
validate_airbus event_name = if text_eq event_name [] then some empty_event_name else none
