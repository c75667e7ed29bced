-- ===== src/RotatingFile/Size.antt =====
-- observability/rotating_file.go: the recorded size of the log file, and failed writes.
use orkai_observability.Prelude.{
  ◌+◌, ◌++◌, ◌<◌, Bool-cases, [], arith, inl, inr, length, length-append, length-take, refl, some,
  take, ◌≡◌, Option-cases, ap, none, ◌≤◌, ◌⊎◌, Option, false, suc, ℕ, ◌∙◌,
}
use orkai_observability.Prelude.Int64.{half_word, is_negative, add, slt}
use orkai_observability.RotatingFile.Backups.{AllRename, rotation_shifts, shifted}
use orkai_observability.RotatingFile.{
  RotatingFileWriter, SystemCalls, opened, write_file, Files, WriteResult, open_file, rename,
  rename_backups, rotate, write, Error, shut, write_rotated,
}
use orkai_observability.Table.{or_zero}
use orkai_observability.Text.{Text}

-- The log file is open, exists, and has the recorded size.
pub data IsOpen (w : RotatingFileWriter) : Type 0 where
  holding :
      (c : Text)
      → w.files 0 ≡ some c
      → w.file ≡ opened
      → w.size ≡ length c
      → length c < half_word
      → IsOpen w

abbrev pub content : RotatingFileWriter → Text
content w = or_zero [] (w.files 0)

write_file-IsOpen :
    (c : SystemCalls) (p old : Text) (w : RotatingFileWriter)
    → w.files 0 ≡ some old
    → w.file ≡ opened
    → w.size ≡ length old
    → length old + length p < half_word
    → IsOpen (write_file c p w).1
unfolding write_file
write_file-IsOpen c p old w here op exact room = elim (Bool-cases c.write_fails) [
  | inl e ↦
      rw (op, e)
        (holding (old ++ take c.written p) (rw here refl) refl
          (omega (arith, exact, length-append old (take c.written p), length-take c.written p))
          (omega (arith, length-append old (take c.written p), length-take c.written p)))
  | inr e ↦
      rw (op, e)
        (holding (old ++ p) (rw here refl) refl (omega (arith, exact, length-append old p))
          (omega (arith, length-append old p)))
]

renamed_away : (fs : Files) → rename 0 1 fs 0 ≡ none
unfolding rename
renamed_away fs = elim (Option-cases (fs 0)) [ inl e ↦ rw e e | inr (c, e) ↦ rw e refl ]

-- After a rotation that succeeds the log file is open and empty.
pub rotate-empty :
    (c : SystemCalls) (w w' : RotatingFileWriter)
    → rotate c w ≡ (none, w')
    → (w'.files 0 ≡ some []) × (w'.file ≡ opened) × (w'.size ≡ 0) × (w'.max_size ≡ w.max_size)
unfolding rotate open_file
rotate-empty c w w' h = ground (arith, renamed_away (rename_backups c w.max_backups w.files))

-- and its backups are those that the renaming leaves.
rotate-backups :
    (c : SystemCalls) (w w' : RotatingFileWriter) (j : ℕ)
    → rotate c w ≡ (none, w')
    → w'.files (suc j) ≡ rename 0 1 (rename_backups c w.max_backups w.files) (suc j)
unfolding rotate open_file
rotate-backups c w w' j h = ground (arith, h)

write_file-backups :
    (c : SystemCalls) (p : Text) (w : RotatingFileWriter) (j : ℕ)
    → (write_file c p w).1.files (suc j) ≡ w.files (suc j)
unfolding write_file
write_file-backups c p w j = ground arith

write_file_exact :
    (c : SystemCalls) (p old : Text) (w : RotatingFileWriter)
    → w.files 0 ≡ some old
    → w.file ≡ opened
    → (write_file c p w).0.error ≡ none
    → ((write_file c p w).0.n ≡ length p) × (content (write_file c p w).1 ≡ old ++ p)
unfolding write_file
write_file_exact c p old w here op good = elim (Bool-cases c.write_fails) [
  | inl e ↦ ground (arith, e)
  | inr e ↦ rw (op, e) (refl, rw here refl)
]

-- The data is behind the old content, within the limit, and the backups are as they were.
pub record Appended (old p : Text) (w w' : RotatingFileWriter) : Type 0 where
  pub longer : content w' ≡ old ++ p
  pub within : length (content w') ≤ w.max_size
  pub same : (j : ℕ) → w'.files (suc j) ≡ w.files (suc j)

-- The data, for which there was no room, is alone in the log file; the old log file is the first
-- backup, and each backup has become the next older one.
pub record Rotated (old p : Text) (w w' : RotatingFileWriter) : Type 0 where
  pub no_room : w.max_size < length old + length p
  pub alone : content w' ≡ p
  pub shift : (j : ℕ) → w'.files (suc j) ≡ shifted w.max_backups w.files (suc j)

-- What a successful write leaves: the writer is still open with the right size, everything was
-- written, and the data is appended or the files are rotated before.
pub record Written (old p : Text) (w : RotatingFileWriter) (r : WriteResult)
    (w' : RotatingFileWriter) : Type 0 where
  pub still_open : IsOpen w'
  pub everything : r.n ≡ length p
  pub holds : Appended old p w w' ⊎ Rotated old p w w'

fitting :
    (c : SystemCalls) (p old : Text) (w : RotatingFileWriter)
    → w.files 0 ≡ some old
    → w.file ≡ opened
    → w.size ≡ length old
    → length old + length p < half_word
    → w.max_size < half_word
    → slt w.max_size (add w.size (length p)) ≡ false
    → (write_file c p w).0.error ≡ none
    → Written old p w (write_file c p w).0 (write_file c p w).1
fitting c p old w here op exact room limit fits good =
    let (n, kept) = write_file_exact c p old w here op good in
    record {
      still_open = write_file-IsOpen c p old w here op exact room;
      everything = n;
      holds = inl (record {
        longer = kept;
        within = ground (arith, exact, fits, ap length kept, length-append old p);
        same = write_file-backups c p w;
      });
    }

rotated :
    (c : SystemCalls) (p old : Text) (w : RotatingFileWriter)
    → AllRename c
    → 0 < w.max_backups
    → is_negative w.max_backups ≡ false
    → w.max_size < length old + length p
    → length p < half_word
    → (r : Option Error × RotatingFileWriter) → rotate c w ≡ r
    → (write_rotated c p r).0.error ≡ none
    → Written old p w (write_rotated c p r).0 (write_rotated c p r).1
rotated c p old w fine pos signed full room (some e, w') h good = cc
rotated c p old w fine pos signed full room (none, w') h good =
    let (empty, op, zero_size, same) = rotate-empty c w w' h in
    let (n, kept) = write_file_exact c p [] w' empty op good in
    record {
      still_open = write_file-IsOpen c p [] w' empty op zero_size (omega arith);
      everything = n;
      holds = inr (record {
        no_room = full;
        alone = kept;
        shift = λ j.
            write_file-backups c p w' j
            ∙ rotate-backups c w w' j h
            ∙ ap (λ fs. fs (suc j)) (rotation_shifts c w.max_backups w.files fine pos signed);
      });
    }

-- A write that reports no error writes all its data, and the writer stays open with the right size. It
-- appends the data, keeps the log file within the limit and leaves the backups alone; or, where that
-- exceeds the limit, the data is alone in the log file, the old log file is the first backup and each
-- backup the next older one. The limit of backups is positive, no system call on a backup fails, and
-- sizes are below 2 ^ 63.
pub write-Written :
    (c : SystemCalls) (p old : Text) (w : RotatingFileWriter)
    → w.files 0 ≡ some old
    → w.file ≡ opened
    → w.size ≡ length old
    → length old + length p < half_word
    → w.max_size < half_word
    → AllRename c
    → 0 < w.max_backups
    → is_negative w.max_backups ≡ false
    → (write c p w).0.error ≡ none
    → Written old p w (write c p w).0 (write c p w).1
unfolding write
write-Written c p old w here op exact room limit fine pos signed good =
    elim (Bool-cases (slt w.max_size (add w.size (length p)))) [
      | inr fits ↦ rw fits (fitting c p old w here op exact room limit fits (rw fits at good))
      | inl full ↦ rw full (
          rotated c p old w fine pos signed (ground (arith, exact, full)) (omega arith) (rotate c w)
            refl (rw full at good))
    ]

-- A write on a writer whose rotation has failed after the old file was closed fails too, counts an
-- error and writes nothing, whatever the system calls do: no later call opens the file again.
pub shut_writer_fails :
    (c : SystemCalls) (p : Text) (w : RotatingFileWriter)
    → w.file ≡ shut
    → let (r, w') = write c p w in
      (w'.file ≡ shut) × (w'.files 0 ≡ w.files 0) × (r.n ≡ 0) × (r.errors_counted ≡ 1)
unfolding write write_file rotate
shut_writer_fails c p w h = ground arith
