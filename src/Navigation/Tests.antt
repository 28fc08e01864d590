-- ===== src/Navigation/Tests.antt =====
-- app.js, the views and the preferences: runs at concrete inputs.
use moment_ferry.Common.{[], some, true, false, codes, ◌≡◌, refl}
use moment_ferry.Navigation.{Navigation, set_view, hash_change, hour12}
use moment_ferry.Navigation.Shown.{Landing, set_view_lem}

abbrev loaded : Navigation
loaded = record {
  current_view = codes "overview";
  visible = [];
  hash = codes "constructor";
  threw = false;
}

blank_page : (hash_change loaded).visible ≡ []
unfolding hash_change set_view
blank_page = refl

twelve_hours : hour12 (some (codes "12")) ≡ some true
unfolding hour12
twelve_hours = refl

set_view_lem_example : Landing (codes "constructor") (set_view (codes "constructor") loaded)
set_view_lem_example = set_view_lem (codes "constructor") loaded
