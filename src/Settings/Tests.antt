-- ===== src/Settings/Tests.antt =====
-- settings.js: runs at concrete inputs.
use moment_ferry.Common.{
  [], ◌∷◌, true, codes, decimal, if◌then◌else◌, leb, none, ◌+◌, ◌*◌, ◌/◌, some, false, arith, ◌≡◌,
  refl,
}
use moment_ferry.Settings.{apply_settings_to_form, settings_from_form, retention_body, server_put}
use moment_ferry.Settings.Form.{IsStored, server_put-retention_body, server_put-settings_from_form}
use moment_ferry.Settings.Samples.{fresh}
use moment_ferry.I18n.{t}
use moment_ferry.Format.{Locale, format_bytes}
use moment_ferry.Markup.Storage.{StorageItem}
use moment_ferry.Settings.Status.{format_storage_status}

fresh-IsStored : IsStored false fresh
fresh-IsStored = record {
  interval = (omega arith, omega arith);
  files = (omega arith, omega arith);
  parallel = (omega arith, omega arith);
  reserve = omega arith;
  retention = omega arith;
  protection = λ e. cc e;
}

accepted :
    server_put false fresh (retention_body fresh 60)
    ≡ some (record fresh { operation_retention_days = 60 })
unfolding server_put retention_body
accepted = refl

server_put-retention_body_example :
    server_put false fresh (retention_body fresh 60)
    ≡ (if leb 60 3650 then some (record fresh { operation_retention_days = 60 }) else none)
server_put-retention_body_example = server_put-retention_body false fresh 60 fresh-IsStored

server_put-settings_from_form_example :
    server_put false fresh (settings_from_form (apply_settings_to_form fresh))
    ≡ some
        (record fresh { minimum_free_space_reserve_bytes = (1500000 + 524288) / 1048576 * 1048576 })
server_put-settings_from_form_example = server_put-settings_from_form false fresh fresh-IsStored

abbrev archive_disk : StorageItem
archive_disk = record {
  share_id = codes "a";
  name = codes "Archive";
  path = codes "/mnt/archive";
  exists = true;
  available_free_space_bytes = some 512;
  below_reserve = true;
  error = none;
}

abbrev plain : Locale
plain = record { messages = []; date_string = decimal; number_string = decimal }

low_archive :
    format_storage_status plain
      (some (record { items = archive_disk ∷ []; minimum_free_space_reserve_bytes = 900 }))
    ≡ codes "Archive: 512 B free LOW · reserve 900 B"
unfolding format_storage_status format_bytes t decimal
low_archive = refl
