-- ===== src/RotatingFile/Backups.antt =====
-- observability/rotating_file.go: the backups in a rotation.
use orkai_observability.Prelude.{
  ◌+◌, ◌-◌, ◌<◌, ◌==◌, Bool-cases, Option, ap, arith, if◌then◌else◌, false, fun_ext, inl, inr, leb,
  none, refl, some, suc, sym, zero, ℕ, ◌∙◌, ◌≡◌, ◌≤◌,
}
use orkai_observability.Prelude.Int64.{Int64, is_negative}
use orkai_observability.RotatingFile.{
  Files, SystemCalls, moved, rename, rename_backup, rename_backups, rename_from,
}
use orkai_observability.Text.{Text}

-- The files when the loop has done the indices above `k`.
abbrev shape : ℕ → ℕ → Files → Files
shape n k fs j =
    if leb j k then fs j else if leb j n then (if j == suc k then none else fs (j - 1)) else fs j

rename_eq : (i j : ℕ) (fs : Files) (c : Option Text) → fs i ≡ c → rename i j fs ≡ moved i j fs c
unfolding rename
rename_eq i j fs c e = ap (moved i j fs) e

shape_self : (n k : ℕ) (fs : Files) → shape n k fs k ≡ fs k
shape_self n k fs = ground arith

moved-shape :
    (n k : ℕ) (fs : Files) (j : ℕ) (c : Option Text)
    → suc k < n
    → fs (suc k) ≡ c
    → moved (suc k) (suc k + 1) (shape n (suc k) fs) c j ≡ shape n k fs j
moved-shape n k fs j none h e = elim (Bool-cases (j == suc (suc k))) [
  | inl at_next ↦ let e' : j ≡ suc (suc k) = ground arith in rw e' (ground arith)
  | inr other ↦ elim (Bool-cases (j == suc k)) [
    | inl here ↦ let e' : j ≡ suc k = ground arith in rw e' (ground arith)
    | inr rest ↦ ground arith
  ]
]
moved-shape n k fs j (some c) h e = elim (Bool-cases (j == suc (suc k))) [
  | inl at_next ↦
      let e' : j ≡ suc (suc k) = ground arith in
      let e2 : suc (suc k) - 1 ≡ suc k = omega arith in rw (e', e2) (ground arith)
  | inr other ↦ elim (Bool-cases (j == suc k)) [
    | inl here ↦ let e' : j ≡ suc k = ground arith in rw e' (ground arith)
    | inr rest ↦ ground arith
  ]
]

-- No system call on a backup fails.
pub record AllRename (c : SystemCalls) : Type 0 where
  pub removes : c.remove_fails ≡ false
  pub finds : (i : ℕ) → c.stat_fails i ≡ false
  pub renames : (i : ℕ) → c.backup_rename_fails i ≡ false

shape_step :
    (c : SystemCalls) (n k : ℕ) (fs : Files) (j : ℕ)
    → AllRename c
    → suc k ≤ n
    → rename_backup c n (suc k) (shape n (suc k) fs) j ≡ shape n k fs j
shape_step c n k fs j fine h = elim (Bool-cases (suc k == n)) [
  | inl e ↦ rw (e, fine.removes) (ground arith)
  | inr e ↦
      rw (e, fine.finds (suc k), fine.renames (suc k))
        (rw
          (rename_eq (suc k) (suc k + 1) (shape n (suc k) fs) (fs (suc k))
            (shape_self n (suc k) fs))
          (moved-shape n k fs j (fs (suc k)) (ground arith) refl))
]

rename_from-shape :
    (c : SystemCalls) (n k : ℕ) (fs : Files)
    → AllRename c
    → k ≤ n
    → rename_from c n k (shape n k fs) ≡ shape n 0 fs
unfolding rename_from
rename_from-shape c n zero fs fine h = refl
rename_from-shape c n (suc k) fs fine h =
    ap (rename_from c n k) (fun_ext (λ j. shape_step c n k fs j fine h))
    ∙ rename_from-shape c n k fs fine (omega arith)

shape_all : (n : ℕ) (fs : Files) (j : ℕ) → shape n n fs j ≡ fs j
shape_all n fs j = ground arith

-- The files after a rotation that keeps `n` backups: the log file is gone, each file has taken the
-- place of the next older one, the oldest is dropped, and files beyond are as they were.
abbrev pub shifted : ℕ → Files → Files
shifted n fs j = if j == 0 then none else if leb j n then fs (j - 1) else fs j

renamed_first :
    (n : ℕ) (fs : Files) (j : ℕ) (c : Option Text)
    → 0 < n
    → fs 0 ≡ c
    → moved 0 1 (shape n 0 fs) c j ≡ shifted n fs j
renamed_first n fs zero none h e = ground arith
renamed_first n fs (suc zero) none h e = ground arith
renamed_first n fs (suc (suc j)) none h e = ground arith
renamed_first n fs zero (some c) h e = ground arith
renamed_first n fs (suc zero) (some c) h e = ground arith
renamed_first n fs (suc (suc j)) (some c) h e = ground arith

-- With a positive limit of backups, the two renaming steps of a rotation shift every file by one, if
-- no system call on a file fails: no content is lost but that of the oldest backup, whichever of the
-- files exist.
pub rotation_shifts :
    (c : SystemCalls) (n : Int64) (fs : Files)
    → AllRename c
    → 0 < n
    → is_negative n ≡ false
    → rename 0 1 (rename_backups c n fs) ≡ shifted n fs
unfolding rename_backups
rotation_shifts c n fs fine pos signed = rw signed (
    rw loop (
      rename_eq 0 1 (shape n 0 fs) (fs 0) refl
      ∙ fun_ext (λ j. renamed_first n fs j (fs 0) pos refl)))
  where
    loop : rename_from c n n fs ≡ shape n 0 fs
    loop =
        ap (rename_from c n n) (sym (fun_ext (shape_all n fs)))
        ∙ rename_from-shape c n n fs fine (omega arith)

-- With a limit of 0 backups, a rotation still keeps the old log file as a backup.
pub zero_backups_keep_one :
    (calls : SystemCalls) (fs : Files) (c : Text)
    → fs 0 ≡ some c
    → rename 0 1 (rename_backups calls 0 fs) 1 ≡ some c
unfolding rename_backups rename_from
zero_backups_keep_one calls fs c e = rw (rename_eq 0 1 fs (some c) e) refl
