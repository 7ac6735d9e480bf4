-- ===== src/Reporting/Saved.antt =====
-- What is read after a report was saved: agent/reporting.py and
-- agent/persistence/file_repository.py.
use cfr_compliance_mcp.Prelude.{
  ℕ, ◌+◌, String, ◌≡◌, refl, ap, ◌∙◌, inl, inr, Bool, true, false, Option, none, some, [], ◌∷◌,
  arith, text_le, sort_by, insert_sorted, length, length-take, min, ◌==◌, if◌then◌else◌, Bool-cases,
}
use cfr_compliance_mcp.Prelude.Dict.{lookup, insert, string_eq, lookup-insert}
use cfr_compliance_mcp.Reporting.{ReportRecord}
use cfr_compliance_mcp.Review.Queries.{summary, analysis_matches, page}
use cfr_compliance_mcp.Reporting.Directory.{
  Files, Directory, report_path, files_of, save_file, loaded, read_file, load_file, matching_files,
  list_files, count_files,
}

read_choice :
    (b : Bool) (r : ReportRecord) (o : Option (Option ReportRecord))
    → read_file (if b then some (some r) else o) ≡ (if b then loaded r else read_file o)
unfolding read_file
read_choice true r o = refl
read_choice false r o = refl

-- A directory that can be written takes any report. Behind it, an identifier with the same file
-- name as the report's reads that report, and any other reads what it read before.
pub load_file-save_file :
    (r : ReportRecord) (dir : Directory) (analysis_id : String)
    → dir.writable ≡ true
    → (dir' : Directory) × (save_file r dir ≡ some dir')
      × (load_file analysis_id dir' ≡ (
          if report_path r.analysis_id == report_path analysis_id
          then loaded r
          else load_file analysis_id dir))
unfolding load_file save_file read_file
load_file-save_file r dir analysis_id writable =
    let name = report_path analysis_id in
    let old = files_of dir.files in
    (
      record dir { files = some (insert (report_path r.analysis_id) (some r) old) },
      rw writable refl,
      ap read_file (lookup-insert (report_path r.analysis_id) name (some r) old)
          ∙ read_choice (report_path r.analysis_id == name) r (lookup name old),
    )

-- How many summaries a file gives.
weight : Option String → String × Option ReportRecord → ℕ
weight status (name, none) = 0
weight status (name, some r) = if analysis_matches status (summary r) then 1 else 0

length-matching_cons :
    (status : Option String) (f : String × Option ReportRecord) (fs : Files)
    → length (matching_files status (f ∷ fs)) ≡ weight status f + length (matching_files status fs)
unfolding matching_files weight
length-matching_cons status (name, none) fs = omega arith
length-matching_cons status (name, some r) fs =
    elim (Bool-cases (analysis_matches status (summary r))) [
      | inl kept ↦ rw kept (omega arith)
      | inr out ↦ rw out (omega arith)
    ]

module _ (status : Option String)
    (le : String × Option ReportRecord → String × Option ReportRecord → Bool) where
  length-matching_insert :
      (f : String × Option ReportRecord) (fs : Files)
      → length (matching_files status (insert_sorted le f fs))
        ≡ weight status f + length (matching_files status fs)
  unfolding insert_sorted
  length-matching_insert f [] = length-matching_cons status f []
  length-matching_insert f (g ∷ fs) = elim (Bool-cases (le f g)) [
    | inl first ↦ rw first (length-matching_cons status f (g ∷ fs))
    | inr later ↦ rw later (
        omega (
          arith,
          length-matching_cons status g (insert_sorted le f fs),
          length-matching_cons status g fs,
          length-matching_insert f fs,
        ))
  ]

  length-matching_sorted :
      (fs : Files)
      → length (matching_files status (sort_by le fs)) ≡ length (matching_files status fs)
  unfolding sort_by
  length-matching_sorted [] = refl
  length-matching_sorted (f ∷ fs) = omega (
    arith,
    length-matching_insert f (sort_by le fs),
    length-matching_cons status f fs,
    length-matching_sorted fs,
  )

-- A page from the start that is long enough lists as many analyses as are counted, and a shorter
-- one as many as it has room for: the total of the file backend is exact.
pub list_files-count :
    (status : Option String) (limit : ℕ) (dir : Directory)
    → length (list_files status limit 0 dir) ≡ min limit (count_files status dir)
unfolding list_files count_files page
list_files-count status limit dir =
    let le : String × Option ReportRecord → String × Option ReportRecord → Bool =
      λ a b. text_le b.0 a.0 in
    let sorted = sort_by le (files_of dir.files) in
    length-take limit (matching_files status sorted)
    ∙ ap (min limit) (length-matching_sorted status le (files_of dir.files))
