-- ===== src/Updates/Tests.antt =====
-- settings.js, image updates: runs at concrete inputs.
use moment_ferry.Common.{
  ℕ, zero, suc, ◌+◌, List, [], ◌∷◌, none, some, true, false, codes, length, arith, ◌≡◌, refl,
}
use moment_ferry.Updates.{
  UpdateStatus, Round, lost, render_image_update, install_image_update, updated,
}
use moment_ferry.Updates.Wait.{IsSpaced, IsDone, install_image_update-IsDone}

abbrev fresh : UpdateStatus
fresh = record {
  running_version = codes "1.4.0";
  latest_version = some (codes "1.4.0");
  update_available = false;
  updater_configured = true;
  last_update_completed_at = none;
  last_error = none;
  changelog = none;
  release_url = none;
  running_version_url = none;
}

hidden : (render_image_update [] (λ n. []) fresh).install_hidden ≡ true
unfolding render_image_update
hidden = refl

restarted :
    install_image_update [] (codes "1.4.0") lost 0 ((2000, none) ∷ (4000, some fresh) ∷ [])
    ≡ updated fresh
unfolding install_image_update
restarted = refl

-- A service that never comes back.
silent : ℕ → ℕ → List Round
silent from zero = []
silent from (suc n) = (from, none) ∷ silent (from + 2000) n

silent-IsSpaced : (from n : ℕ) → IsSpaced from (silent from n)
unfolding silent
silent-IsSpaced from zero = tt
silent-IsSpaced from (suc n) = (omega arith, silent-IsSpaced (from + 2000) n)

length-silent : (from n : ℕ) → length (silent from n) ≡ n
unfolding silent
length-silent from zero = refl
length-silent from (suc n) = omega (arith, length-silent (from + 2000) n)

install_image_update-IsDone_example :
    IsDone (codes "1.4.0") (install_image_update [] (codes "1.4.0") lost 7 (silent 7 91))
install_image_update-IsDone_example =
    install_image_update-IsDone [] (codes "1.4.0") lost 7 (silent 7 91) (silent-IsSpaced 7 91)
      (omega (arith, length-silent 7 91))
