-- ===== src/Mover/Copy.antt =====
-- copyWithContext (internal/mover/mover.go): a copy in pieces, with a check for cancellation before
-- each read and each write. A reader is the list of what its reads return, and a writer what its
-- writes do; a writer takes no more than it is given.
use telegram_uploader.Prelude.{
  ℕ, ◌+◌, ◌==◌, min, Bool, List, [], ◌∷◌, ◌++◌, Option, none, some, String, if◌then◌else◌, length,
  take, drop,
}

pub data OsError : Type 0 where
  not_exist exists cross_device end_of_file short_write canceled : OsError
  other : String → OsError

-- One read: the context was done before it, or it returned some bytes and perhaps an error. After
-- the last one comes the end of the file.
pub record Read : Type 0 where
  pub done : Bool
  pub chunk : List ℕ
  pub error : Option OsError

pub record Write : Type 0 where
  pub done : Bool
  pub count : ℕ
  pub error : Option OsError

-- What has arrived, and what `report` was told. Without further writes, a writer takes everything.
pub record Copied : Type 0 where
  pub out : List ℕ
  pub reports : List ℕ

abbrev pub advance : List ℕ → Copied → Copied
advance bytes c = if length bytes == 0 then c else record c {
  out = c.out ++ bytes;
  reports = c.reports ++ (length c.out + length bytes) ∷ [];
}

abbrev pub wrote :
    Option OsError
    → ℕ
    → Copied
    → List Write
    → List Write × Copied × Option OsError
    → List Write × Copied × Option OsError
wrote (some e) k c ws again = (ws, c, some e)
wrote none k c ws again = if k == 0 then (ws, c, some short_write) else again

-- The inner loop: one chunk is written.
unfoldable pub write_chunk : List Write → List ℕ → Copied → List Write × Copied × Option OsError
write_chunk ws [] c = (ws, c, none)
write_chunk [] (b ∷ bs) c = ([], advance (b ∷ bs) c, none)
write_chunk (w ∷ ws) (b ∷ bs) c =
    let k = min w.count (length (b ∷ bs)) in
    let c' = advance (take k (b ∷ bs)) c in
    let rest = write_chunk ws (drop k (b ∷ bs)) c' in
    if w.done then (ws, c, some canceled) else wrote w.error k c' ws rest

abbrev pub ended : Option OsError → Copied → Copied × Option OsError → Copied × Option OsError
ended none c again = again
ended (some end_of_file) c again = (c, none)
ended (some e) c again = (c, some e)

abbrev pub after_chunk :
    Option OsError → Option OsError → Copied → Copied × Option OsError → Copied × Option OsError
after_chunk (some e) error c again = (c, some e)
after_chunk none error c again = ended error c again

unfoldable pub copy_with_context : List Read → List Write → Copied → Copied × Option OsError
copy_with_context [] ws c = (c, none)
copy_with_context (r ∷ rs) ws c =
    let w = write_chunk ws r.chunk c in
    let again = copy_with_context rs w.0 w.1 in
    if r.done then (c, some canceled) else after_chunk w.2 r.error w.1 again

-- What a reader has to give, up to its first error.
abbrev pub more : Option OsError → List ℕ → List ℕ
more none rest = rest
more (some e) rest = []

abbrev pub readable : List Read → List ℕ
readable [] = []
readable (r ∷ rs) = let rest = readable rs in r.chunk ++ more r.error rest
