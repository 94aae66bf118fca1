-- ===== src/Collector/FilterLog.antt =====
-- `FilterLogCollector.read_once` of collectors/filterlog.py. `parse` stands for
-- `normalize_filterlog_line`, of lines that the csv reader splits: `ValueError` is the one exception
-- that it has a handler for. The offset file is given, or none.
use Prim.Native.String.{◌++◌ as concat}
use pondsecndr.Prelude.{
  ℕ, ◌+◌, String, Bool, true, false, List, [], ◌∷◌, Option, none, some, ltb, is_empty, strip,
  if◌then◌else◌,
}
use pondsecndr.Collector.{
  Line, Stat, missing, denied, failed, found, Opened, os_error, opened, FileSystem, SavedOffset,
  Progress, Parsed, is_rotated, start_with, Reading, with_error, save,
}
use pondsecndr.Collector.Eve.{count_line, take_parsed}

-- `_load_offset`: without an offset file, the end of the log or its start.
unfoldable pub load_offset :
    (start_at_end : Bool) (inode size : ℕ) → Option SavedOffset → SavedOffset
load_offset start_at_end inode size none = record {
  inode = some inode;
  offset = if start_at_end then size else 0;
}
load_offset start_at_end inode size (some state) = state

module _ (parse : String → Parsed) (queue_limit : ℕ) where
  unfoldable pub take_line : Line → Progress → Progress
  unfolding take_parsed
  take_line line s =
      if is_empty (strip line.text) then s else take_parsed queue_limit (parse line.text) s

  -- The loop, and how many bytes its calls of `readline` have passed: the line at which it stops has
  -- been read too.
  unfoldable pub read_lines : (max_lines : ℕ) → List Line → Progress → Progress × ℕ
  unfolding take_line
  read_lines max_lines [] s = (s, 0)
  read_lines max_lines (line ∷ lines) s = elim (ltb max_lines (s.stats.read_lines + 1)) [
    | true ↦ (count_line s, line.size)
    | false ↦
        (let (last, passed) = read_lines max_lines lines (take_line line (count_line s)) in
          (last, line.size + passed))
  ]

  unfoldable pub read_opened :
      FileSystem
      → (max_lines inode offset : ℕ) (rotated : Bool) (before : Option SavedOffset) → Opened
      → Reading
  unfolding read_lines save
  read_opened fs max_lines inode offset rotated before (os_error message) = record {
    progress = with_error message (start_with rotated);
    saved = before;
  }
  read_opened fs max_lines inode offset rotated before (opened lines) =
      let (last, passed) = read_lines max_lines lines (start_with rotated) in
      save fs.save_error (concat "filter log collector offset cannot be saved: ") inode
        (offset + passed) last before

  unfoldable pub read_stat :
      FileSystem
      → (path : String) (start_at_end : Bool) (max_lines : ℕ) → (before : Option SavedOffset) → Stat
      → Reading
  unfolding read_opened is_rotated load_offset
  read_stat fs path start_at_end max_lines before missing = record {
    progress = start_with false;
    saved = before;
  }
  read_stat fs path start_at_end max_lines before denied = record {
    progress =
        with_error (concat "filter log is not readable by pondsec-ndr: " path) (start_with false);
    saved = before;
  }
  read_stat fs path start_at_end max_lines before (failed message) = record {
    progress = with_error (concat "filter log cannot be inspected: " message) (start_with false);
    saved = before;
  }
  read_stat fs path start_at_end max_lines before (found inode size) =
      let state = load_offset start_at_end inode size before in
      let rotated = is_rotated state inode size in
      let offset = if rotated then 0 else state.offset in
      read_opened fs max_lines inode offset rotated before (fs.read_from offset)

  -- `read_once`
  unfoldable pub read_once :
      FileSystem
      → (path : String) (start_at_end : Bool) (max_lines : ℕ) → (before : Option SavedOffset)
      → Reading
  unfolding read_stat
  read_once fs path start_at_end max_lines before =
      read_stat fs path start_at_end max_lines before fs.stat
