-- ===== src/Collector/Arrival.antt =====
-- How the readings of collectors/filterlog.py come to the end of a log that does not change.
use pondsecndr.Prelude.{ℕ, zero, suc, ◌≡◌, String, true, List, Option, none, some, take, drop}
use pondsecndr.Collector.{Line, found, opened, FileSystem, SavedOffset, Parsed, size_of}
use pondsecndr.Collector.FilterLog

-- A log of these lines: from the beginning of a line, the rest of them is read.
pub record Holds (fs : FileSystem) (inode : ℕ) (lines : List Line) : Type 0 where
  pub stat : fs.stat ≡ found inode (size_of lines)
  pub reads : (k : ℕ) → fs.read_from (size_of (take k lines)) ≡ opened (drop k lines)
  pub saves : fs.save_error ≡ none

-- The offset at the beginning of a line.
abbrev pub at_line : (inode : ℕ) → List Line → ℕ → Option SavedOffset
at_line inode lines k = some (record { inode = some inode; offset = size_of (take k lines) })

module _ (parse : String → Parsed) (queue_limit : ℕ) where
  -- Calls of `read_once`, each with the offset that the one before has saved.
  unfoldable pub readings :
      FileSystem → (path : String) (max_lines count : ℕ) → Option SavedOffset → Option SavedOffset
  unfolding FilterLog.read_once
  readings fs path max_lines zero saved = saved
  readings fs path max_lines (suc count) saved =
      readings fs path max_lines count
        (FilterLog.read_once parse queue_limit fs path true max_lines saved).saved
