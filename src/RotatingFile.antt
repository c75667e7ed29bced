-- ===== src/RotatingFile.antt =====
-- observability/rotating_file.go: the log file that rotates by size. The file system is a function
-- from the number of a backup to its content: `file 0` is the log file itself and `file i` the file
-- with the suffix `.i`. Which system calls fail, and how much a write writes, are inputs.
pub mod Backups
pub mod Size
mod Tests
use orkai_observability.Prelude.{
  ◌%◌, ◌+◌, ◌++◌, ◌==◌, Bool, Option, [], if◌then◌else◌, false, length, none, not, some, suc, take,
  true, zero, ◌||◌, ℕ,
}
use orkai_observability.Prelude.Int64.{Int64, add, is_negative, slt, word}
use orkai_observability.Text.{Text}

abbrev pub Files : Type 0
Files = ℕ → Option Text

abbrev pub update : Files → ℕ → Option Text → Files
update fs i c j = if i == j then c else fs j

pub data Error : Type 0 where
  close_failed rename_failed open_failed write_failed : Error

-- `w.file`: nil, a closed file, or a file that is open for appending.
pub data Handle : Type 0 where
  unset shut opened : Handle

pub record RotatingFileWriter : Type 0 where
  pub files : Files
  pub max_size : Int64
  pub max_backups : Int64
  pub size : Int64
  pub file : Handle

pub record SystemCalls : Type 0 where
  pub close_fails : Bool
  -- of `os.Rename(path, path.1)`, for another reason than a missing file
  pub rename_fails : Bool
  -- of `os.Remove` of the oldest backup, and of `os.Stat` and `os.Rename` of the backup with a number,
  -- which the program ignores
  pub remove_fails : Bool
  pub stat_fails : ℕ → Bool
  pub backup_rename_fails : ℕ → Bool
  pub open_fails : Bool
  pub write_fails : Bool
  -- the bytes that a failing write has written
  pub written : ℕ

-- os.Rename, which does nothing if there is no such file.
abbrev pub moved : ℕ → ℕ → Files → Option Text → Files
moved i j fs none = fs
moved i j fs (some c) = update (update fs j (some c)) i none

unfoldable pub rename : ℕ → ℕ → Files → Files
rename i j fs = moved i j fs (fs i)

-- One round of the loop, at index `i`.
abbrev pub rename_backup : SystemCalls → ℕ → ℕ → Files → Files
rename_backup c max i fs =
    if i == max
    then if c.remove_fails then fs else update fs i none
    else if c.stat_fails i || c.backup_rename_fails i
    then fs
    else rename i (i + 1) fs

-- for i := w.maxBackups; i >= 1; i--
pub rename_from : SystemCalls → ℕ → ℕ → Files → Files
unfolding rename
rename_from c max zero fs = fs
rename_from c max (suc i) fs = rename_from c max i (rename_backup c max (suc i) fs)

unfoldable pub rename_backups : SystemCalls → Int64 → Files → Files
unfolding rename_from
rename_backups c max fs =
    let rounds = (if is_negative max then 0 else max) in rename_from c max rounds fs

abbrev pub size_of : Option Text → Int64 → Int64
size_of none size = size
size_of (some c) size = length c % word

abbrev pub created : Option Text → Option Text
created none = some []
created (some c) = some c

unfoldable pub open_file : SystemCalls → RotatingFileWriter → Option Error × RotatingFileWriter
open_file c w =
    let w' = record w { size = size_of (w.files 0) w.size } in
    if c.open_fails
    then (some open_failed, w')
    else (none, record w' { files = update w.files 0 (created (w.files 0)); file = opened })

abbrev pub new_result : Option Error × RotatingFileWriter → Option RotatingFileWriter × Option Error
new_result (none, w) = (some w, none)
new_result (some e, w) = (none, some e)

-- The path is that of `file 0` in `files`.
unfoldable pub new_rotating_file_writer :
    SystemCalls → Files → Int64 → Int64 → Option RotatingFileWriter × Option Error
unfolding open_file
new_rotating_file_writer c files max_size max_backups = new_result (
    open_file c (record {
      files = files;
      max_size = max_size;
      max_backups = max_backups;
      size = 0;
      file = unset;
    }))

abbrev pub is_opened : Handle → Bool
is_opened opened = true
is_opened _ = false

-- The handle after `Close`: closing again, or closing nil, is an error that changes nothing.
abbrev pub closed : Handle → Handle
closed opened = shut
closed h = h

unfoldable pub rotate : SystemCalls → RotatingFileWriter → Option Error × RotatingFileWriter
unfolding rename_backups rename open_file
rotate c w =
    let w1 = record w { file = closed w.file } in
    let w2 = record w1 { files = rename_backups c w.max_backups w.files } in
    if not (is_opened w.file) || c.close_fails
    then (some close_failed, w1)
    else if c.rename_fails
    then (some rename_failed, w2)
    else open_file c (record w2 { files = rename 0 1 w2.files; size = 0 })

-- What `Write` returns, and how often it increments `observability_internal_errors_total`.
pub record WriteResult : Type 0 where
  pub n : ℕ
  pub error : Option Error
  pub errors_counted : ℕ

abbrev pub append_to : Option Text → Text → Option Text
append_to none p = none
append_to (some c) p = some (c ++ p)

-- `w.file.Write(p)`, the size, and the counter.
unfoldable pub write_file :
    SystemCalls → Text → RotatingFileWriter → WriteResult × RotatingFileWriter
write_file c p w =
    if not (is_opened w.file)
    then (record { n = 0; error = some write_failed; errors_counted = 1 }, w)
    else if c.write_fails
    then (
      record { n = length (take c.written p); error = some write_failed; errors_counted = 1 },
      record w {
        files = update w.files 0 (append_to (w.files 0) (take c.written p));
        size = add w.size (length (take c.written p));
      },
    )
    else (
      record { n = length p; error = none; errors_counted = 0 },
      record w { files = update w.files 0 (append_to (w.files 0) p); size = add w.size (length p) },
    )

abbrev pub write_rotated :
    SystemCalls → Text → Option Error × RotatingFileWriter → WriteResult × RotatingFileWriter
write_rotated c p (some e, w) = (record { n = 0; error = some e; errors_counted = 1 }, w)
write_rotated c p (none, w) = write_file c p w

unfoldable pub write : SystemCalls → Text → RotatingFileWriter → WriteResult × RotatingFileWriter
unfolding write_file
write c p w =
    if slt w.max_size (add w.size (length p))
    then write_rotated c p (rotate c w)
    else write_file c p w

unfoldable pub close : SystemCalls → RotatingFileWriter → Option Error × RotatingFileWriter
close c w = elim w.file [
  | unset ↦ (none, w)
  | shut ↦ (some close_failed, record w { file = unset })
  | opened ↦ ((if c.close_fails then some close_failed else none), record w { file = unset })
]
