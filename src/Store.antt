-- ===== src/Store.antt =====
-- internal/queue/store.go: the queue file. encoding/json is the parameter `Json`: what it does with
-- the document is named by `decode_encode`, which drops the one field tagged `json:"-"`.
pub mod Recovery
use telegram_uploader.Prelude.{
  ℕ, Bool, true, false, List, [], ◌∷◌, map, Option, none, some, String, ◌≡◌, str_eq, not, ◌&&◌,
  if◌then◌else◌, Result, ok, err,
}
use telegram_uploader.Prelude.Int.{ℤ, pos, ne_ℤ}
use telegram_uploader.Model.{Job, JobState, Channel, uploading, sending, confirming, interrupted}
use telegram_uploader.Fsutil.{Files, Calls, WriteError, atomic_write_file}

abbrev pub current_schema_version : ℤ
current_schema_version = pos 1

pub record Document : Type 0 where
  pub schema_version : ℤ
  pub jobs : List Job
  pub channel : Channel
  pub paused : Bool

pub record LoadDocument : Type 0 where
  pub schema_version : Option ℤ
  pub version : Option ℤ
  pub jobs : List Job
  pub channel : Channel
  pub paused : Bool

pub data StoreError : Type 0 where
  empty_path missing_schema_version : StoreError
  encode_failed read_failed decode_failed : String → StoreError
  write_failed : WriteError → StoreError
  unsupported_schema_version : ℤ → StoreError

-- `json:"-"` on BytesPerSecond.
abbrev pub without_speed : Job → Job
without_speed j = record j { bytes_per_second = 0 }

-- The document as it comes back: new files have no `version` key.
abbrev pub as_loaded : Document → LoadDocument
as_loaded d = record {
  schema_version = some d.schema_version;
  version = none;
  jobs = map without_speed d.jobs;
  channel = d.channel;
  paused = d.paused;
}

-- json.Marshal and json.Unmarshal of the document, over payloads that the store only passes on.
pub record Json : Type 1 where
  pub Bytes : Type 0
  pub marshal : Document → Result String Bytes
  pub unmarshal : Bytes → Result String LoadDocument
  pub unmarshal_marshal :
      (d : Document) (b : Bytes) → marshal d ≡ ok b → unmarshal b ≡ ok (as_loaded d)

-- schemaVersion: `none` stands for the result `false`.
unfoldable pub schema_version : Option ℤ → Option ℤ → Option ℤ
schema_version (some a) (some b) = if ne_ℤ a b then none else some a
schema_version (some a) none = some a
schema_version none v = v

-- The text that `Load` puts on a job whose message may have been sent.
abbrev pub interrupted_while_sending : String
interrupted_while_sending = "程序在消息提交阶段中断；请先检查频道，避免重复发送"

-- The switch of the loop in `Load`, on the state of one job.
abbrev recover_as : JobState → Job → Job
recover_as uploading j = record j { state = interrupted; uploaded = pos 0 }
recover_as sending j = record j { state = confirming; error = interrupted_while_sending }
recover_as confirming j = record j { state = confirming; error = interrupted_while_sending }
recover_as s j = j

unfoldable pub recover : Job → Job
recover j = recover_as j.state j

pub record Contents : Type 0 where
  pub jobs : List Job
  pub channel : Channel
  pub paused : Bool

abbrev pub empty_channel : Channel
empty_channel = record { id = pos 0; access_hash = pos 0; title = "" }

-- fmt.Errorf("queue: write store: %w", err)
abbrev pub wrapped : Option WriteError → Option StoreError
wrapped none = none
wrapped (some e) = some (write_failed e)

module _ (json : Json) where
  unfoldable pub save :
      String
      → Calls
      → List Job
      → Channel
      → Bool
      → Files json.Bytes
      → Files json.Bytes × Option StoreError
  save path calls jobs channel paused files =
      if str_eq path ""
      then (files, some empty_path)
      else elim (json.marshal (record {
        schema_version = current_schema_version;
        jobs = jobs;
        channel = channel;
        paused = paused;
      })) [
        | err e ↦ (files, some (encode_failed e))
        | ok payload ↦
            let (after, failure) = atomic_write_file calls payload files in (after, wrapped failure)
      ]

  -- From the decoded document on.
  accept : LoadDocument → Result StoreError Contents
  unfolding schema_version recover
  accept raw = elim (schema_version raw.schema_version raw.version) [
    | none ↦ err missing_schema_version
    | some v ↦
        if ne_ℤ v current_schema_version
        then err (unsupported_schema_version v)
        else ok (record { jobs = map recover raw.jobs; channel = raw.channel; paused = raw.paused })
  ]

  -- `failure` is the error of os.ReadFile other than os.ErrNotExist.
  unfoldable pub load : String → Option String → Files json.Bytes → Result StoreError Contents
  unfolding accept
  load path failure files = if str_eq path "" then err empty_path else elim failure [
    | some e ↦ err (read_failed e)
    | none ↦ elim files.target [
      | none ↦ ok (record { jobs = []; channel = empty_channel; paused = false })
      | some bytes ↦ elim (json.unmarshal bytes) [
        | err e ↦ err (decode_failed e)
        | ok raw ↦ accept raw
      ]
    ]
  ]
