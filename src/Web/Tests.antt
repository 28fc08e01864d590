-- ===== src/Web/Tests.antt =====
-- login.js and the redirect to it: runs at concrete inputs.
use moment_ferry.Common.{
  ◌<◌, List, [], ◌∷◌, none, some, true, false, Text, codes, arith, drop, length, All, ◌≡◌, refl,
}
use moment_ferry.Web.{login_redirect, return_url, resolved, rejected}
use moment_ferry.Web.Login.{
  SignIn, Event, submitted, status_answered, login_answered, run, step, fresh_page,
}
use moment_ferry.Web.Phase.{Phase, run-Phase}
use moment_ferry.Web.Return.{
  get_param, return_url-login_redirect, is_path_of_site, IsOrdinary, return_url-is_path_of_site,
}

abbrev location : Text
location = codes "/?q=a b#x&y"

location-ascii : All (λ c. c < 128) location
location-ascii = ground arith

return_url-login_redirect_example :
    return_url (
      get_param
        (codes "returnUrl")
        (drop (length (codes "/login.html?")) (login_redirect location)))
    ≡ location
return_url-login_redirect_example = return_url-login_redirect location location-ascii refl refl

location-IsOrdinary : IsOrdinary location
location-IsOrdinary = ground arith

return_url-is_path_of_site_example : is_path_of_site (return_url (some location)) ≡ true
return_url-is_path_of_site_example = return_url-is_path_of_site location location-IsOrdinary

abbrev harbour : SignIn
harbour = record { username = codes "skipper"; password = codes "anchor" }

-- A wrong password, then the right one.
abbrev second_try : List Event
second_try =
    submitted harbour
    ∷ status_answered (
        resolved (
          some record {
            protection_enabled = true;
            authenticated = false;
            credentials_configured = true;
          }))
    ∷ login_answered (rejected (codes "401 Unauthorized") none)
    ∷ submitted harbour
    ∷ login_answered (resolved none)
    ∷ []

goes_back :
    (run [] (some (codes "/#events")) [] second_try fresh_page).left ≡ some (codes "/#events")
unfolding fresh_page run step return_url
goes_back = refl

run-Phase_example :
    Phase []
      (some (codes "/#events"))
      []
      (run [] (some (codes "/#events")) [] second_try fresh_page)
run-Phase_example = run-Phase [] (some (codes "/#events")) [] second_try
