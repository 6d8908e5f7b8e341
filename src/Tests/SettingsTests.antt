-- ===== src/Tests/SettingsTests.antt =====
-- The settings file at concrete settings.
use telegram_uploader.Prelude.{none, ok, ok_inj, ◌≡◌, refl, ap, sym}
use telegram_uploader.Prelude.Int.{pos}
use telegram_uploader.Settings.{
  Settings, SettingsDocument, SettingsJson, no_settings, load_settings, save_settings,
  normalize_settings,
}
use telegram_uploader.Fsutil.{atomic_write_file, sync_dir, dir_sync_unsupported}
use telegram_uploader.Tests.Samples.{unsynced_calls, no_file}

-- The document is its own encoding.
abbrev plain_json : SettingsJson
plain_json = record {
  Bytes = SettingsDocument;
  marshal = λ d. ok d;
  unmarshal = λ b. ok b;
  unmarshal_marshal = λ d b e. ap ok (sym (ok_inj e));
}

abbrev changed_settings : Settings
changed_settings = record no_settings { api_id = pos 5; upload_concurrency = pos 7 }

loads_saved :
    load_settings plain_json none
      (save_settings plain_json none unsynced_calls changed_settings no_file).0
    ≡ ok (record changed_settings { upload_concurrency = pos 8 })
unfolding load_settings save_settings normalize_settings atomic_write_file sync_dir
    dir_sync_unsupported
loads_saved = refl
