-- ===== src/Settings/Reloaded.antt =====
-- What is loaded after a save of the settings (internal/app/settings.go).
use telegram_uploader.Prelude.{Option, none, some, ok, ◌≡◌}
use telegram_uploader.Prelude.Int.{pos}
use telegram_uploader.Fsutil.{Files, sync_directory}
use telegram_uploader.Settings.{
  Settings, SettingsDocument, SettingsError, write_failed, SettingsJson, normalize_settings,
  load_settings,
}

module _ (json : SettingsJson) (s : Settings) (old : Files json.Bytes) where
  -- The settings that the file gives: the saved ones, in their normal form, or what it gave before.
  abbrev pub Reloads : Files json.Bytes × Option SettingsError → Type 0
  Reloads (f, none) = load_settings json none f ≡ ok (normalize_settings s)
  Reloads (f, some (write_failed (sync_directory e))) =
      load_settings json none f ≡ ok (normalize_settings s)
  Reloads (f, some e) = load_settings json none f ≡ load_settings json none old

  document : SettingsDocument
  document = record { schema_version = pos 1; settings = normalize_settings s }
