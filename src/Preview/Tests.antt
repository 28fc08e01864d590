-- ===== src/Preview/Tests.antt =====
-- app.js, waitForRoutingPreview: runs at concrete inputs.
use moment_ferry.Common.{[], ◌∷◌, ◌++◌, none, some, false, codes, decimal, map, ◌≡◌, refl, inl, inr}
use moment_ferry.I18n.{t}
use moment_ferry.Format.{Locale, format_number}
use moment_ferry.Preview.{Job, threw, asking, start_path, wait_for_preview}
use moment_ferry.Preview.Wait.{details_of, path_after, failed, wait_for_preview-Ends}

abbrev english : Locale
english = record { messages = []; date_string = decimal; number_string = decimal }

abbrev running_job : Job
running_job = record {
  id = codes "j";
  is_completed = false;
  error = none;
  progress = some (record { phase = codes "Hashing"; processed = 3; total = 8 });
  result = record { total = 0; matched = 0; unmatched = 0; ambiguous = 0; items = [] };
}

hashing : wait_for_preview english (start_path (codes "s")) (inl running_job ∷ []) ≡ record {
  details = codes "Hashing · 3 / 8" ∷ [];
  outcome = asking (codes "/routing-preview-jobs/j");
}
unfolding wait_for_preview decimal t format_number
hashing = refl

wait_for_preview-Ends_example :
    (wait_for_preview english
        (start_path (codes "s"))
        (map (λ j. inl j) (running_job ∷ []) ++ inr (codes "503") ∷ [])
      ≡ record { details = details_of english (running_job ∷ []); outcome = threw (codes "503") })
    × (wait_for_preview english (start_path (codes "s")) (map (λ j. inl j) (running_job ∷ []))
        ≡ record {
          details = details_of english (running_job ∷ []);
          outcome = asking (path_after (start_path (codes "s")) (running_job ∷ []));
        })
wait_for_preview-Ends_example =
    wait_for_preview-Ends english (start_path (codes "s")) (running_job ∷ []) (inr (codes "503")) []
      (threw (codes "503")) (refl, tt) (failed (codes "503"))
