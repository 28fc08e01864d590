-- ===== src/Actions/Confirmed.antt =====
-- Each button's handler, against the requests that need the user's consent.
use moment_ferry.Common.{Bool, true, false}
use moment_ferry.Actions.Handlers.{Button}

abbrev is_scan_now : Button → Bool
is_scan_now Button.scan_now = true
is_scan_now _ = false
