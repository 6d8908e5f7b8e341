-- ===== src/Settings.antt =====
-- The settings file (internal/app/settings.go). encoding/json and the making of the folder are
-- arguments.
pub mod Reloaded
use telegram_uploader.Prelude.{
  ℕ, Bool, false, ◌&&◌, Option, none, some, String, if◌then◌else◌, Result, ok, err, ◌≡◌,
}
use telegram_uploader.Prelude.Int.{ℤ, pos, ne_ℤ}
use telegram_uploader.Fsutil.{Files, Calls, WriteError, atomic_write_file}

pub record Settings : Type 0 where
  pub api_id : ℤ
  pub proxy_enabled : Bool
  pub proxy_address : String
  pub proxy_username : String
  pub last_folder : String
  pub scheduled_start_unix : ℤ
  pub upload_concurrency : ℤ

pub record SettingsDocument : Type 0 where
  pub schema_version : ℤ
  pub settings : Settings

abbrev pub no_settings : Settings
no_settings = record {
  api_id = pos 0;
  proxy_enabled = false;
  proxy_address = "";
  proxy_username = "";
  last_folder = "";
  scheduled_start_unix = pos 0;
  upload_concurrency = pos 0;
}

pub data SettingsError : Type 0 where
  read_failed decode_failed encode_failed folder_failed : String → SettingsError
  unsupported_schema_version : ℤ → SettingsError
  write_failed : WriteError → SettingsError

-- json.MarshalIndent and json.Unmarshal of the document: what is encoded is decoded.
pub record SettingsJson : Type 1 where
  pub Bytes : Type 0
  pub marshal : SettingsDocument → Result String Bytes
  pub unmarshal : Bytes → Result String SettingsDocument
  pub unmarshal_marshal : (d : SettingsDocument) (b : Bytes) → marshal d ≡ ok b → unmarshal b ≡ ok d

unfoldable pub normalize_settings : Settings → Settings
normalize_settings s =
    if ne_ℤ s.upload_concurrency (pos 4)
      && (ne_ℤ s.upload_concurrency (pos 8) && ne_ℤ s.upload_concurrency (pos 12))
    then record s { upload_concurrency = pos 8 }
    else s

abbrev pub accept_document : SettingsDocument → Result SettingsError Settings
accept_document d =
    if ne_ℤ d.schema_version (pos 1)
    then err (unsupported_schema_version d.schema_version)
    else ok (normalize_settings d.settings)

module _ (json : SettingsJson) where
  abbrev pub decoded : Result String SettingsDocument → Result SettingsError Settings
  decoded (err e) = err (decode_failed e)
  decoded (ok d) = accept_document d

  abbrev pub load_bytes : Option json.Bytes → Result SettingsError Settings
  load_bytes none = ok (normalize_settings no_settings)
  load_bytes (some b) = decoded (json.unmarshal b)

  -- `failure` is the error of os.ReadFile, where it is not that there is no file.
  unfoldable pub load_settings : Option String → Files json.Bytes → Result SettingsError Settings
  load_settings (some e) f = err (read_failed e)
  load_settings none f = load_bytes f.target

  abbrev pub write_failure : Option WriteError → Option SettingsError
  write_failure none = none
  write_failure (some e) = some (write_failed e)

  abbrev pub write_settings :
      Option String
      → Calls
      → json.Bytes
      → Files json.Bytes
      → Files json.Bytes × Option SettingsError
  write_settings (some e) calls b f = (f, some (folder_failed e))
  write_settings none calls b f = let r = atomic_write_file calls b f in (r.0, write_failure r.1)

  abbrev pub save_encoded :
      Option String
      → Calls
      → Result String json.Bytes
      → Files json.Bytes
      → Files json.Bytes × Option SettingsError
  save_encoded folder calls (err e) f = (f, some (encode_failed e))
  save_encoded folder calls (ok b) f = write_settings folder calls b f

  -- `folder` is the error of os.MkdirAll.
  unfoldable pub save_settings :
      Option String → Calls → Settings → Files json.Bytes → Files json.Bytes × Option SettingsError
  save_settings folder calls s f =
      save_encoded folder calls
        (json.marshal (record { schema_version = pos 1; settings = normalize_settings s })) f
