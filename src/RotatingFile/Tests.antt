-- ===== src/RotatingFile/Tests.antt =====
-- The laws of the rotating file at concrete inputs.
use orkai_observability.Prelude.{arith, false, true, none, refl, some, suc, zero, ◌≡◌}
use orkai_observability.RotatingFile.{
  Files, RotatingFileWriter, SystemCalls, opened, rename, rename_backups, shut, write, rotate,
}
use orkai_observability.RotatingFile.Backups.{AllRename, rotation_shifts, shifted}
use orkai_observability.RotatingFile.Size.{Written, shut_writer_fails, write-Written}
use orkai_observability.Text.{codes}

abbrev fine : SystemCalls
fine = record {
  close_fails = false;
  rename_fails = false;
  remove_fails = false;
  stat_fails = λ i. false;
  backup_rename_fails = λ i. false;
  open_fails = false;
  write_fails = false;
  written = 0;
}

abbrev three : Files
three zero = some (codes "abc")
three (suc zero) = some (codes "old")
three (suc (suc n)) = none

abbrev full : RotatingFileWriter
full = record { files = three; max_size = 4; max_backups = 2; size = 3; file = opened }

fine-AllRename : AllRename fine
fine-AllRename = record { removes = refl; finds = λ i. refl; renames = λ i. refl }

rotation_shifts_example : rename 0 1 (rename_backups fine 2 three) ≡ shifted 2 three
rotation_shifts_example = rotation_shifts fine 2 three fine-AllRename (omega arith) refl

-- The first backup stays in its place, and the old log file replaces it.
abbrev unlucky : SystemCalls
unlucky = record fine { backup_rename_fails = λ i. true }

failed_rename_loses :
    let fs = rename 0 1 (rename_backups unlucky 2 three) in
    (fs 1 ≡ some (codes "abc")) × (fs 2 ≡ none)
unfolding rename rename_backups
failed_rename_loses = (refl, refl)

write-Written_example :
    Written
      (codes "abc")
      (codes "de")
      full
      (write fine (codes "de") full).0
      (write fine (codes "de") full).1
unfolding write rotate
write-Written_example =
    write-Written fine (codes "de") (codes "abc") full refl refl refl (omega arith) (omega arith)
      fine-AllRename (omega arith) refl refl

abbrev stuck : RotatingFileWriter
stuck = record full { file = shut }

shut_write_again :
    let (r, w) = write fine (codes "de") stuck in
    (w.file ≡ shut) × (w.files 0 ≡ some (codes "abc")) × (r.n ≡ 0) × (r.errors_counted ≡ 1)
shut_write_again = shut_writer_fails fine (codes "de") stuck refl
