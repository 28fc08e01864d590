-- ===== src/Web/Login.antt =====
-- src/MomentFerry.Web/wwwroot/login.js, the page that signs in: the question whether a sign-in is needed
-- and the submit handler of its form.
use moment_ferry.Common.{
  ℕ, ◌+◌, ◌-◌, List, [], ◌∷◌, Option, none, some, Bool, true, false, ◌||◌, not, if◌then◌else◌, ◌==◌,
  Text, codes,
}
use moment_ferry.I18n.{Messages, t}
use moment_ferry.Web.{Outcome, resolved, rejected, return_url}

-- The answer of /api/v1/auth/status.
pub record AuthStatus : Type 0 where
  pub protection_enabled : Bool
  pub authenticated : Bool
  pub credentials_configured : Bool

-- The body of the POST to /api/v1/auth/login.
pub record SignIn : Type 0 where
  pub username : Text
  pub password : Text

pub record LoginPage : Type 0 where
  pub disabled : Bool
  pub message_class : Text
  pub message : Text
  -- The first request of the page, for the status, is not answered yet.
  pub waiting : Bool
  -- What was posted, the last first, and how many of these are not answered yet.
  pub posted : List SignIn
  pub in_flight : ℕ
  -- Where location.replace sends the browser.
  pub left : Option Text

pub data Event : Type 0 where
  status_answered : Outcome AuthStatus → Event
  submitted : SignIn → Event
  login_answered : Outcome Unit → Event

unfoldable pub fresh_page : LoginPage
fresh_page = record {
  disabled = false;
  message_class = codes "message";
  message = [];
  waiting = true;
  posted = [];
  in_flight = 0;
  left = none;
}

abbrev pub not_configured : Messages → Text
not_configured messages = t messages (codes "Access protection is not configured.") none

abbrev pub say_error : Text → LoginPage → LoginPage
say_error text p = record p {
  message_class = codes "message error";
  message = text;
  waiting = false;
}

-- The parameters: the dictionary, the value of the query's returnUrl, and what the engine says of a
-- member of null.
module _ (messages : Messages) (query : Option Text) (type_error : Text) where
  -- The continuation of the request for the status.
  abbrev pub show_status : Outcome AuthStatus → LoginPage → LoginPage
  show_status (rejected text status) p = say_error text p
  show_status (resolved none) p = say_error type_error p
  show_status (resolved (some s)) p = record p {
    disabled = p.disabled || not s.credentials_configured;
    message_class = if s.credentials_configured then p.message_class else codes "message error";
    message = if s.credentials_configured then p.message else not_configured messages;
    waiting = false;
    left = if not s.protection_enabled || s.authenticated then some (return_url query) else p.left;
  }

  -- The submit handler, to its await.
  abbrev pub post : SignIn → LoginPage → LoginPage
  post body p = record p {
    disabled = true;
    message_class = codes "message";
    message = t messages (codes "Signing in…") none;
    posted = body ∷ p.posted;
    in_flight = p.in_flight + 1;
  }

  -- The submit handler after its await.
  abbrev pub settle_sign_in : Outcome Unit → LoginPage → LoginPage
  settle_sign_in (resolved answer) p = record p {
    in_flight = p.in_flight - 1;
    left = some (return_url query);
  }
  settle_sign_in (rejected text status) p = record p {
    disabled = false;
    message_class = codes "message error";
    message = text;
    in_flight = p.in_flight - 1;
  }

  -- One event. The browser submits no form whose submit button is disabled, and answers only what was
  -- asked.
  unfoldable pub step : Event → LoginPage → LoginPage
  step (status_answered outcome) p = if p.waiting then show_status outcome p else p
  step (submitted body) p = if p.disabled then p else post body p
  step (login_answered outcome) p = if p.in_flight == 0 then p else settle_sign_in outcome p

  unfoldable pub run : List Event → LoginPage → LoginPage
  run [] p = p
  run (e ∷ es) p = run es (step e p)
