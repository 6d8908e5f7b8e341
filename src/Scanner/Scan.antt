-- ===== src/Scanner/Scan.antt =====
-- Scan and newIDs (internal/scanner/scanner.go). What the file system, the random source and the
-- standard library answer are arguments: Lstat of each name, the bytes drawn for each job, the
-- decoding of names, the sort and the hexadecimal digits.
use telegram_uploader.Prelude.{
  ℕ, suc, ◌+◌, ◌*◌, ◌%◌, ◌^◌, ◌==◌, Bool, true, false, not, ◌&&◌, ◌||◌, List, [], ◌∷◌, Option, none,
  some, String, str_append, if◌then◌else◌, Result, ok, err, take, drop,
}
use telegram_uploader.Prelude.Int.{ℤ, pos, ltb_ℤ}
use telegram_uploader.Model.{Job, queued, oversize, VideoMetadata}
use telegram_uploader.Scanner.Natural.{Name, Compared, less, same, greater, compare_natural}

pub record Info : Type 0 where
  pub is_symlink : Bool
  pub is_regular : Bool
  pub size : ℤ
  pub mod_time : ℕ

-- Lstat: the file may have vanished since the folder was read.
pub data Inspected : Type 0 where
  found : Info → Inspected
  vanished : Inspected
  unreadable : String → Inspected

pub record FileEntry : Type 0 where
  pub name : String
  pub path : String
  pub size : ℤ
  pub mod_time : ℕ

-- The bytes that the two reads of crypto/rand give, if they do.
pub record Draw : Type 0 where
  pub id_bytes : Option (List ℕ)
  pub random_bytes : Option (List ℕ)

-- idBytes[6] and idBytes[8] get the version and the variant.
unfoldable pub mark_uuid : ℕ → List ℕ → List ℕ
mark_uuid i [] = []
mark_uuid i (b ∷ bs) =
    let rest = mark_uuid (suc i) bs in
    if i == 6 then (b % 16 + 64) ∷ rest else if i == 8 then (b % 64 + 128) ∷ rest else b ∷ rest

-- binary.BigEndian.Uint64
unfoldable pub big_endian : ℕ → List ℕ → ℕ
big_endian n [] = n
big_endian n (b ∷ bs) = big_endian (n * 256 + b) bs

abbrev pub positive_id : ℕ → ℕ
positive_id n = if n == 0 then 1 else n

unfoldable pub random_id_of : List ℕ → ℤ
random_id_of bytes = pos (positive_id (big_endian 0 bytes % 2 ^ 63))

module _ (hex : List ℕ → String) where
  abbrev pub uuid_text : List ℕ → String
  uuid_text b = str_append (hex (take 4 b)) (
      str_append "-" (
        str_append (hex (take 2 (drop 4 b))) (
          str_append "-" (
            str_append (hex (take 2 (drop 6 b))) (
              str_append "-"
                (str_append (hex (take 2 (drop 8 b))) (str_append "-" (hex (drop 10 b)))))))))

  abbrev pub ids_from : Option (List ℕ) → Option (List ℕ) → Option (String × ℤ)
  ids_from none r = none
  ids_from (some b) none = none
  ids_from (some b) (some r) = some (uuid_text (mark_uuid 0 b), random_id_of r)

  unfoldable pub new_ids : Draw → Option (String × ℤ)
  new_ids d = ids_from d.id_bytes d.random_bytes

abbrev pub zero_metadata : VideoMetadata
zero_metadata = record {
  duration_seconds = pos 0;
  width = pos 0;
  height = pos 0;
  supports_streaming = false;
  truncated_media_data = false;
}

abbrev pub scanned_job : ℤ → ℕ → FileEntry → String × ℤ → Job
scanned_job max_bytes position f (id, random_id) = record {
  id = id;
  position = pos position;
  path = f.path;
  name = f.name;
  size = f.size;
  mod_time = f.mod_time;
  state = if ltb_ℤ (pos 0) max_bytes && ltb_ℤ max_bytes f.size then oversize else queued;
  uploaded = pos 0;
  bytes_per_second = 0;
  random_id = random_id;
  message_id = pos 0;
  channel_id = pos 0;
  metadata = zero_metadata;
  error = "";
  started_at = none;
  completed_at = none;
  move_destination = "";
}

-- What Scan asks of its surroundings.
pub record Surroundings : Type 0 where
  pub entries : Result String (List String)  -- os.ReadDir
  pub path_of : String → String  -- filepath.Join
  pub lstat : String → Inspected
  pub ext : String → String  -- filepath.Ext
  pub equal_fold : String → String → Bool  -- strings.EqualFold
  pub name_of : String → Name
  pub lower : ℕ → ℕ
  pub sort_slice : (FileEntry → FileEntry → Bool) → List FileEntry → List FileEntry
  pub draw : ℕ → Draw
  pub hex : List ℕ → String

abbrev pub is_less : Compared → Bool
is_less less = true
is_less same = false
is_less greater = false

module _ (s : Surroundings) where
  abbrev pub is_mp4 : String → Bool
  is_mp4 name = s.equal_fold (s.ext name) ".mp4"

  abbrev pub keep_file :
      String → Inspected → Result String (List FileEntry) → Result String (List FileEntry)
  keep_file name vanished rest = rest
  keep_file name (unreadable t) rest = err t
  keep_file name (found info) (err t) = err t
  keep_file name (found info) (ok files) =
      if info.is_symlink || not info.is_regular
      then ok files
      else if not (is_mp4 name)
      then ok files
      else ok (
          record { name = name; path = s.path_of name; size = info.size; mod_time = info.mod_time }
          ∷ files)

  -- The first loop.
  unfoldable pub list_files : List String → Result String (List FileEntry)
  list_files [] = ok []
  list_files (name ∷ names) =
      let rest = list_files names in keep_file name (s.lstat (s.path_of name)) rest

  abbrev pub sorts_before : FileEntry → FileEntry → Bool
  sorts_before a b = is_less (compare_natural s.lower (s.name_of a.name) (s.name_of b.name))

  abbrev pub cons_job :
      ℤ → ℕ → FileEntry → Option (String × ℤ) → Result String (List Job) → Result String (List Job)
  cons_job max_bytes i f none rest = err "generate job identity"
  cons_job max_bytes i f (some ids) (err t) = err t
  cons_job max_bytes i f (some ids) (ok jobs) = ok (scanned_job max_bytes i f ids ∷ jobs)

  -- The second loop.
  unfoldable pub make_jobs : ℤ → ℕ → List FileEntry → Result String (List Job)
  make_jobs max_bytes i [] = ok []
  make_jobs max_bytes i (f ∷ fs) =
      let rest = make_jobs max_bytes (suc i) fs in
      cons_job max_bytes i f (new_ids s.hex (s.draw i)) rest

  abbrev pub jobs_of : ℤ → Result String (List FileEntry) → Result String (List Job)
  jobs_of max_bytes (err t) = err t
  jobs_of max_bytes (ok files) = make_jobs max_bytes 0 (s.sort_slice sorts_before files)

  abbrev pub scan_entries : ℤ → Result String (List String) → Result String (List Job)
  scan_entries max_bytes (err t) = err t
  scan_entries max_bytes (ok names) = jobs_of max_bytes (list_files names)

  unfoldable pub scan : ℤ → Result String (List Job)
  scan max_bytes = scan_entries max_bytes s.entries
