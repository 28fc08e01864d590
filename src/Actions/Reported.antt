-- ===== src/Actions/Reported.antt =====
-- Each button's handler, against what its failures must show.
use moment_ferry.Common.{Bool, true, false, Text, text_eq_refl}
use moment_ferry.Actions.{Program, Spot, say}
use moment_ferry.Actions.Honest.{Telling, tells_it, stops, Honest}
use moment_ferry.Actions.Handlers.{Button}

abbrev IsHonest : Program (Unit {0}) → Type 0
IsHonest = Honest (Unit {0})

-- `catch (error) { … = error.message; }`
shown : (spot : Spot) (m : Text) → Telling (Unit {0}) m (say spot m)
shown spot m = tells_it _ _ _ (text_eq_refl m) (stops tt)

-- The buttons whose handlers catch nothing: three of the refreshes, and the sign-out.
abbrev catches_nothing : Button → Bool
catches_nothing Button.operations_refresh = true
catches_nothing (Button.logs_refresh level) = true
catches_nothing Button.quarantine_refresh = true
catches_nothing Button.sign_out = true
catches_nothing _ = false
