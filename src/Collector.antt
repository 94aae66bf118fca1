-- ===== src/Collector.antt =====
-- What the two collectors of collectors/eve.py and collectors/filterlog.py share: files that are read
-- from an offset, the counters, and the treatment of one event. The file system, and what a line
-- parses to, are given; a line has the number of bytes that reading it advances.
pub mod Eve
pub mod FilterLog
pub mod Parse
pub mod Accounting
pub mod Offsets
pub mod Arrival
use pondsecndr.Prelude.{
  ℕ, ◌+◌, String, Bool, true, false, not, ◌||◌, List, [], ◌∷◌, ◌++◌, Option, none, some, leb, ltb,
  ◌==◌, is_in, if◌then◌else◌,
}
use pondsecndr.Python.Result.{Result, ok}

pub record Line : Type 0 where
  pub text : String
  pub size : ℕ

-- `stat` of the file.
pub data Stat : Type 0 where
  missing denied : Stat
  failed : String → Stat
  found : (inode size : ℕ) → Stat

pub data Opened : Type 0 where
  os_error : String → Opened
  opened : List Line → Opened

-- The file, and whether the offset can be saved.
pub record FileSystem : Type 0 where
  pub stat : Stat
  -- Opening the file, and the lines from a byte on.
  pub read_from : ℕ → Opened
  pub save_error : Option String

-- What the offset file holds; where it cannot be read, no inode and the offset 0.
pub record SavedOffset : Type 0 where
  pub inode : Option ℕ
  pub offset : ℕ

pub record Stats : Type 0 where
  pub read_lines : ℕ
  pub accepted_events : ℕ
  pub parser_errors : ℕ
  pub normalization_errors : ℕ
  pub duplicates : ℕ
  pub queue_drops : ℕ
  pub rotation_detected : Bool
  pub last_error : Option String

abbrev pub no_stats : Stats
no_stats = record {
  read_lines = 0;
  accepted_events = 0;
  parser_errors = 0;
  normalization_errors = 0;
  duplicates = 0;
  queue_drops = 0;
  rotation_detected = false;
  last_error = none;
}

-- The variables of the loop: events by their ids, the ids that were seen, and the counters.
pub record Progress : Type 0 where
  pub events : List String
  pub seen_ids : List String
  pub stats : Stats

-- What becomes of a line that is not blank. The message on a line that is no JSON names its number.
pub data Parsed : Type 0 where
  unparsed : (message : (line : ℕ) → String) → Parsed
  unnormalised : (message : String) → Parsed
  ignored : Parsed
  event : (event_id : String) → Parsed

-- The end of the loop's body: duplicates, the queue limit, and the append.
unfoldable pub accept : (queue_limit : ℕ) (length : ℕ) (event_id : String) → Progress → Progress
accept queue_limit length event_id s =
    if is_in event_id s.seen_ids
    then record s { stats = record s.stats { duplicates = s.stats.duplicates + 1 } }
    else if leb queue_limit length
    then record s {
      seen_ids = event_id ∷ s.seen_ids;
      stats = record s.stats { queue_drops = s.stats.queue_drops + 1 };
    }
    else record s {
      events = s.events ++ event_id ∷ [];
      seen_ids = event_id ∷ s.seen_ids;
      stats = record s.stats { accepted_events = s.stats.accepted_events + 1 };
    }

-- `state.get("inode") != inode or file_stat.st_size < offset`
unfoldable pub is_rotated : SavedOffset → (inode size : ℕ) → Bool
is_rotated state inode size =
    elim state.inode [ none ↦ true | some i ↦ not (i == inode) ] || ltb size state.offset

abbrev pub size_of : List Line → ℕ
size_of [] = 0
size_of (l ∷ ls) = l.size + size_of ls

abbrev pub start_with : Bool → Progress
start_with rotated = record {
  events = [];
  seen_ids = [];
  stats = record no_stats { rotation_detected = rotated };
}

-- What `read_once` gives: the events, the counters, and the offset file afterwards, if there is one.
pub record Reading : Type 0 where
  pub progress : Progress
  pub saved : Option SavedOffset

-- What a call leaves: its result, or the exception that ended it, and the offset file.
abbrev pub Outcome : Type 0
Outcome = Result Progress × Option SavedOffset

abbrev pub returned : Reading → Outcome
returned r = (ok r.progress, r.saved)

abbrev pub with_error : String → Progress → Progress
with_error message s = record s { stats = record s.stats { last_error = some message } }

-- `_save_offset`, and the message if it fails.
unfoldable pub save :
    (save_error : Option String) (prefix : String → String)
    → (inode offset : ℕ) → Progress
    → (before : Option SavedOffset) → Reading
save (some message) prefix inode offset s before = record {
  progress = with_error (prefix message) s;
  saved = before;
}
save none prefix inode offset s before = record {
  progress = s;
  saved = some (record { inode = some inode; offset = offset });
}
