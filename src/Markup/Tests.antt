-- ===== src/Markup/Tests.antt =====
-- app.js, the renderers: runs at concrete inputs.
use moment_ferry.Common.{none, true, false, [], ◌∷◌, some, codes, decimal, ◌≡◌, refl}
use moment_ferry.Model.{LogEntry}
use moment_ferry.Format.{Locale}
use moment_ferry.Html.{escape_html}
use moment_ferry.Markup.{print, tags, reach, after, skeleton, outside}
use moment_ferry.Markup.Safety.{render}
use moment_ferry.Markup.Reports.{storage_report, view_of, render-Reads}
use moment_ferry.Markup.Storage.{StorageInfo}

abbrev english : Locale
english = record { messages = []; date_string = decimal; number_string = decimal }

abbrev hostile : LogEntry
hostile = record {
  at = 7;
  level = codes "Error";
  category = codes "Copy";
  message = codes "<script>alert('1')</script>";
  detail = some (codes "\"quoted\"");
}

hostile_tags : tags outside (escape_html hostile.message) ≡ []
unfolding tags escape_html after
hostile_tags = refl

-- A storage whose name is markup, on a page with a translation.
abbrev hostile_storage : StorageInfo
hostile_storage = record {
  items =
      record {
        share_id = codes "s1";
        name = codes "<b title=\"x\">";
        path = codes "/mnt/<i>";
        exists = true;
        available_free_space_bytes = some 7;
        below_reserve = false;
        error = none;
      }
      ∷ [];
  minimum_free_space_reserve_bytes = 3;
}

abbrev french : Locale
french = record english {
  messages = (codes "free on {{name}}", codes "libres sur l'espace {{name}}") ∷ [];
}

render-Reads_example :
    (reach outside (print (render french (view_of (storage_report (some hostile_storage)))))
      ≡ outside)
    × (tags outside (print (render french (view_of (storage_report (some hostile_storage)))))
        ≡ tags outside
            (print (skeleton (render french (view_of (storage_report (some hostile_storage)))))))
render-Reads_example = render-Reads french (storage_report (some hostile_storage)) (refl, tt) tt
