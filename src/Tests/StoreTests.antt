-- ===== src/Tests/StoreTests.antt =====
-- The queue file at concrete inputs.
use telegram_uploader.Prelude.{false, List, [], ◌∷◌, none, String, ◌≡◌, refl, Result, ok, ℕ}
use telegram_uploader.Model.{Job, uploading, sending}
use telegram_uploader.Fsutil.{atomic_write_file}
use telegram_uploader.Fsutil.Replace.{Outcome, atomic_write_file-Outcome, no_temporary_left}
use telegram_uploader.Store.{Json, Document, LoadDocument, as_loaded, save, load, recover}
use telegram_uploader.Store.Recovery.{IsRecovered, load-save, reloaded, recover-IsRecovered}
use telegram_uploader.Tests.Samples.{sample, videos, unsynced_calls, no_file}

same_document :
    (d b : Document)
    → ◌≡◌ {A = Result String Document} (ok d) (ok b)
    → ◌≡◌ {A = Result String LoadDocument} (ok (as_loaded b)) (ok (as_loaded d))
same_document d b e = cc

-- Payloads that are the documents themselves.
abbrev plain : Json
plain = record {
  Bytes = Document;
  marshal = λ d. ok d;
  unmarshal = λ d. ok (as_loaded d);
  unmarshal_marshal = same_document;
}

abbrev active_queue : List Job
active_queue = sample "a" 0 uploading ∷ sample "b" 1 sending ∷ []

-- The directory sync fails, and the queue is on disk.
load-save_example :
    load plain "queue.json" none
      (save plain "queue.json" unsynced_calls active_queue videos false no_file).0
    ≡ ok (reloaded plain active_queue videos false)
unfolding save atomic_write_file
load-save_example =
    load-save plain "queue.json" refl unsynced_calls active_queue videos false no_file

recover-IsRecovered_example :
    IsRecovered (sample "a" 0 uploading) (recover (sample "a" 0 uploading))
recover-IsRecovered_example = recover-IsRecovered (sample "a" 0 uploading)

atomic_write_file-Outcome_example :
    Outcome {A = ℕ} 5 no_file (atomic_write_file unsynced_calls 5 no_file)
atomic_write_file-Outcome_example = atomic_write_file-Outcome unsynced_calls 5 no_file

no_temporary_left_example : (atomic_write_file {A = ℕ} unsynced_calls 5 no_file).0.temporary ≡ false
no_temporary_left_example = no_temporary_left unsynced_calls 5 no_file refl refl
