-- ===== src/Collector/Eve.antt =====
-- `EveCollector.read_once` of collectors/eve.py. `parse` is what a line becomes by
-- `json.loads` and `normalize_eve` (`parse_line` of Collector/Parse): a text, or an exception that
-- read_once has no handler for.
use Prim.Native.String.{◌++◌ as concat}
use pondsecndr.Prelude.{
  ℕ, ◌+◌, String, Bool, true, false, List, [], ◌∷◌, Option, none, some, length, ltb, is_empty,
  strip, if◌then◌else◌,
}
use pondsecndr.Collector.{
  Line, Stat, missing, denied, failed, found, Opened, os_error, opened, FileSystem, SavedOffset,
  Progress, Parsed, unparsed, unnormalised, ignored, event, accept, is_rotated, size_of, start_with,
  Outcome, returned, with_error, save,
}
use pondsecndr.Python.Result.{Result, ok, raise, ◌>>=◌}

-- `_load_offset`
unfoldable pub load_offset : Option SavedOffset → SavedOffset
load_offset none = record { inode = none; offset = 0 }
load_offset (some state) = state

-- What each line adds to the counter of lines.
abbrev pub count_line : Progress → Progress
count_line s = record s { stats = record s.stats { read_lines = s.stats.read_lines + 1 } }

unfoldable pub take_parsed : (queue_limit : ℕ) → Parsed → Progress → Progress
unfolding accept
take_parsed queue_limit (unparsed message) s = record s {
  stats = record s.stats {
    parser_errors = s.stats.parser_errors + 1;
    last_error = some (message s.stats.read_lines);
  };
}
take_parsed queue_limit (unnormalised message) s = record s {
  stats = record s.stats {
    normalization_errors = s.stats.normalization_errors + 1;
    last_error = some message;
  };
}
take_parsed queue_limit ignored s = s
take_parsed queue_limit (event event_id) s = accept queue_limit (length s.events) event_id s

module _ (parse : String → Result Parsed) (queue_limit : ℕ) where
  unfoldable pub take_line : Line → Progress → Result Progress
  unfolding take_parsed
  take_line line s =
      if is_empty (strip line.text)
      then ok s
      else parse (strip line.text) >>= λ r. ok (take_parsed queue_limit r s)

  -- The loop: the variables at its end, and whether it was left by `break`, or the exception of a
  -- line, which no handler of the loop takes.
  unfoldable pub read_lines : (max_lines : ℕ) → List Line → Progress → Progress × Result Bool
  unfolding take_line
  read_lines max_lines [] s = (s, ok false)
  read_lines max_lines (line ∷ lines) s = elim (ltb max_lines (s.stats.read_lines + 1)) [
    | true ↦ (count_line s, ok true)
    | false ↦ elim (take_line line (count_line s)) [
      | ok next ↦ read_lines max_lines lines next
      | raise e ↦ (count_line s, raise e)
    ]
  ]

  -- After a `break` out of the iteration over the file, `tell` raises `OSError`; at the end of the
  -- file it is behind the last line. Another exception ends the call before the offset is saved.
  unfoldable pub finish :
      FileSystem
      → (inode offset : ℕ) → List Line
      → (before : Option SavedOffset) → Progress × Result Bool
      → Outcome
  unfolding save
  finish fs inode offset lines before (s, raise e) = (raise e, before)
  finish fs inode offset lines before (s, ok true) =
      (ok (with_error "telling position disabled by next() call" s), before)
  finish fs inode offset lines before (s, ok false) = returned (
      save fs.save_error (concat "EVE collector offset cannot be saved: ") inode
        (offset + size_of lines) s before)

  unfoldable pub read_opened :
      FileSystem
      → (max_lines inode offset : ℕ) (rotated : Bool) (before : Option SavedOffset) → Opened
      → Outcome
  unfolding read_lines finish
  read_opened fs max_lines inode offset rotated before (os_error message) =
      (ok (with_error message (start_with rotated)), before)
  read_opened fs max_lines inode offset rotated before (opened lines) =
      finish fs inode offset lines before (read_lines max_lines lines (start_with rotated))

  -- `path` is how the messages name the file.
  unfoldable pub read_stat :
      FileSystem → (path : String) (max_lines : ℕ) (before : Option SavedOffset) → Stat → Outcome
  unfolding read_opened is_rotated load_offset
  read_stat fs path max_lines before missing =
      (ok (with_error (concat "EVE file does not exist: " path) (start_with false)), before)
  read_stat fs path max_lines before denied = (
    ok (with_error (concat "EVE file is not readable by pondsec-ndr: " path) (start_with false)),
    before,
  )
  read_stat fs path max_lines before (failed message) =
      (ok (with_error (concat "EVE file cannot be inspected: " message) (start_with false)), before)
  read_stat fs path max_lines before (found inode size) =
      let state = load_offset before in
      let rotated = is_rotated state inode size in
      let offset = if rotated then 0 else state.offset in
      read_opened fs max_lines inode offset rotated before (fs.read_from offset)

  -- `read_once`
  unfoldable pub read_once :
      FileSystem → (path : String) (max_lines : ℕ) (before : Option SavedOffset) → Outcome
  unfolding read_stat
  read_once fs path max_lines before = read_stat fs path max_lines before fs.stat
