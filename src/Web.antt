-- ===== src/Web.antt =====
-- The three request helpers of src/MomentFerry.Web/wwwroot (request in app.js, settingsRequest in
-- settings.js, authRequest in login.js), and the way to the login page and back (returnUrl in
-- login.js). A location is ASCII, as the browser's serialised URLs are.
pub mod Login
pub mod Phase
pub mod Query
pub mod Return
mod Tests
use moment_ferry.Common.{
  ℕ, ◌+◌, ◌-◌, ◌*◌, ◌/◌, ◌%◌, List, [], ◌∷◌, ◌++◌, Option, none, some, Bool, true, false, ◌&&◌,
  ◌||◌, not, if◌then◌else◌, ◌==◌, leb, ltb, Text, codes, text_eq, starts_with, is_empty, decimal,
  flat_map, or_text,
}

-- What an error body can name; `none` is a member that is missing or null.
pub record ErrorBody : Type 0 where
  pub error : Option Text
  pub title : Option Text
  pub detail : Option Text

-- A response: its JSON is an error body, a payload, or no JSON.
pub record Response (A : Type 0) : Type 0 where
  pub status : ℕ
  pub status_text : Text
  pub error_body : Option ErrorBody
  pub payload : Option A

pub data Outcome (A : Type 0) : Type 0 where
  -- The promise resolves, with null for 204.
  resolved : Option A → Outcome A
  -- It rejects with a message, and the status where the helper keeps it.
  rejected : Text → Option ℕ → Outcome A

abbrev pub is_ok : ℕ → Bool
is_ok status = leb 200 status && leb status 299

-- `${response.status} ${response.statusText}`
pub status_line : {A : Type 0} → Response A → Text
status_line r = decimal r.status ++ (32 ∷ r.status_text)

-- `body.error || body.title || body.detail || message`
pub error_message : Option ErrorBody → Text → Text
error_message none message = message
error_message (some b) message = or_text b.error (or_text b.title (or_text b.detail message))

-- `body.error || body.title || detail`, of the login page.
pub login_error_message : Option ErrorBody → Text → Text
login_error_message none message = message
login_error_message (some b) message = or_text b.error (or_text b.title message)

-- What is not JSON rejects with the parser's message.
pub success : {A : Type 0} → Text → Response A → Outcome A
success parse_error r =
    if r.status == 204
    then resolved none
    else elim r.payload [ none ↦ rejected parse_error none | some a ↦ resolved (some a) ]

-- Characters that encodeURIComponent leaves alone.
abbrev pub is_unreserved : ℕ → Bool
is_unreserved c =
    leb b'a' c && leb c b'z'
    || (leb b'A' c && leb c b'Z'
        || (leb b'0' c && leb c b'9'
            || (c == b'-'
                || (c == b'_'
                    || (c == b'.'
                        || (c == b'!'
                            || (c == b'~'
                                || (c == b'*' || (c == 39 || (c == b'(' || c == b')'))))))))))

abbrev pub hex_digit : ℕ → ℕ
hex_digit n = if ltb n 10 then b'0' + n else b'A' + (n - 10)

pub encode_char : ℕ → Text
encode_char c =
    if is_unreserved c then c ∷ [] else b'%' ∷ hex_digit (c / 16) ∷ hex_digit (c % 16) ∷ []

-- encodeURIComponent
unfoldable pub encode_uri_component : Text → Text
unfolding encode_char
encode_uri_component = flat_map encode_char

-- Where a request that is answered with 401 sends the browser.
unfoldable pub login_redirect : Text → Text
unfolding encode_uri_component
login_redirect location = codes "/login.html?returnUrl=" ++ encode_uri_component location

-- request and, with `keeps_status`, settingsRequest: the page that the browser is sent to, and the
-- outcome of the promise. `none` is a fetch that fails, with its message.
pub request :
    {A : Type 0} → Bool → Text → Text → Text → Option (Response A) → Option Text × Outcome A
unfolding login_redirect status_line error_message success
request keeps_status location fetch_error parse_error none = (none, rejected fetch_error none)
request keeps_status location fetch_error parse_error (some r) = (
  if r.status == 401 then some (login_redirect location) else none,
  if is_ok r.status
      then success parse_error r
      else rejected (error_message r.error_body (status_line r))
          (if keeps_status then some r.status else none),
)

-- authRequest; `too_many` is the translated text for 429.
pub auth_request : {A : Type 0} → Text → Text → Text → Option (Response A) → Outcome A
unfolding status_line login_error_message success
auth_request too_many fetch_error parse_error none = rejected fetch_error none
auth_request too_many fetch_error parse_error (some r) =
    if is_ok r.status
    then success parse_error r
    else rejected
        (login_error_message r.error_body (if r.status == 429 then too_many else status_line r))
        none

-- returnUrl, from the value of the query's parameter.
unfoldable pub return_url : Option Text → Text
return_url none = codes "/"
return_url (some value) =
    if starts_with value (codes "/") && not (starts_with value (codes "//"))
    then value
    else codes "/"
