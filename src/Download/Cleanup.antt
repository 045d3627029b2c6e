-- ===== src/Download/Cleanup.antt =====
-- A download that fails leaves no file, except where the stream or the file system failed.
use poqi.Prelude.{◌≡◌, ◌⊎◌, none}
use poqi.Download.Policy.{
  DownloadError, ok, err, body_failed, write_failed, flush_failed, open_failed,
}
use poqi.Download.Transfer.{Written}

-- Failures of the stream and of the file system, behind which a download can be resumed.
abbrev pub IsInterruption : DownloadError → Type 0
IsInterruption body_failed = Unit {0}
IsInterruption write_failed = Unit {0}
IsInterruption flush_failed = Unit {0}
IsInterruption open_failed = Unit {0}
IsInterruption _ = ⊥

abbrev Cleans : Written → Type 0
Cleans (file, ok n) = Unit {0}
Cleans (file, err e) = IsInterruption e ⊎ (file ≡ none)
