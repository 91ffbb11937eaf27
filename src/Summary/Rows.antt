-- ===== src/Summary/Rows.antt =====
-- The rows of the CSV file that `toCSV` writes, and the file read back.
use task_man.Prelude.{
  ◌≡◌, arith, refl, sym, ap, ◌∙◌, List, [], ◌∷◌, ◌++◌, map, append_assoc, append-nil, some, get_or,
  length, drop, All, All-append,
}
use task_man.Text.{Text}
use task_man.Api.Types.{ActivityEntry, SummaryTask, SummaryResponse}
use task_man.Summary.{
  Section, completed, updated, added, kind_text, csv_header, csv_row, note_text, task_csv_base,
  notes_csv, task_csv, tasks_csv, bom, to_csv,
}
use task_man.Summary.Reader.{read, between_rows, read_csv}
use task_man.Summary.Csv.{read-csv_row}

-- The row of a note, and the rows of a task: one for each note, or one with no note.
abbrev note_row : List Text → ActivityEntry → List Text
note_row base n = base ++ n.date ∷ get_or n.by_name [] ∷ kind_text n.kind ∷ note_text n ∷ []

abbrev rows_from : List Text → List ActivityEntry → List (List Text)
rows_from base [] = (base ++ [] ∷ [] ∷ [] ∷ [] ∷ []) ∷ []
rows_from base (n ∷ ns) = map (note_row base) (n ∷ ns)

unfoldable pub section_rows : Section → List SummaryTask → List (List Text)
section_rows section [] = []
section_rows section (t ∷ ts) =
    rows_from (task_csv_base section t) t.notes ++ section_rows section ts

-- The rows of a summary: its three sections in order.
unfoldable pub summary_rows : SummaryResponse → List (List Text)
summary_rows s =
    section_rows completed s.completed
    ++ (section_rows updated s.updated ++ section_rows added s.added)

unfoldable csv_text : List (List Text) → Text
csv_text [] = []
csv_text (r ∷ rs) = csv_row r ++ csv_text rs

csv_text-append : (rs ss : List (List Text)) → csv_text (rs ++ ss) ≡ csv_text rs ++ csv_text ss
unfolding csv_text
csv_text-append [] ss = refl
csv_text-append (r ∷ rs) ss =
    rw (csv_text-append rs ss) (sym (append_assoc (csv_row r) (csv_text rs) (csv_text ss)))

notes_csv-eq :
    (base : List Text) (ns : List ActivityEntry) (out : Text)
    → notes_csv base ns out ≡ out ++ csv_text (map (note_row base) ns)
unfolding notes_csv csv_text
notes_csv-eq base [] out = sym (append-nil out)
notes_csv-eq base (n ∷ ns) out =
    notes_csv-eq base ns (out ++ csv_row (note_row base n))
    ∙ append_assoc out (csv_row (note_row base n)) (csv_text (map (note_row base) ns))

task_csv-eq :
    (base : List Text) (ns : List ActivityEntry) (out : Text)
    → task_csv base ns out ≡ out ++ csv_text (rows_from base ns)
unfolding task_csv csv_text
task_csv-eq base [] out = rw (append-nil (csv_row (base ++ [] ∷ [] ∷ [] ∷ [] ∷ [])))
task_csv-eq base (n ∷ ns) out = notes_csv-eq base (n ∷ ns) out

tasks_csv-eq :
    (section : Section) (ts : List SummaryTask) (out : Text)
    → tasks_csv section ts out ≡ out ++ csv_text (section_rows section ts)
unfolding tasks_csv section_rows csv_text
tasks_csv-eq section [] out = sym (append-nil out)
tasks_csv-eq section (t ∷ ts) out =
    rw (csv_text-append (rows_from (task_csv_base section t) t.notes) (section_rows section ts)) (
      tasks_csv-eq section ts (task_csv (task_csv_base section t) t.notes out)
      ∙ (ap (λ o. o ++ csv_text (section_rows section ts))
            (task_csv-eq (task_csv_base section t) t.notes out)
          ∙ append_assoc out (csv_text (rows_from (task_csv_base section t) t.notes))
              (csv_text (section_rows section ts))))

-- A row as wide as the header.
unfoldable pub IsFull : List Text → Type 0
IsFull r = length r ≡ 14

note_row-IsFull :
    (section : Section) (t : SummaryTask) (ns : List ActivityEntry)
    → All IsFull (map (note_row (task_csv_base section t)) ns)
unfolding IsFull task_csv_base
note_row-IsFull section t [] = tt
note_row-IsFull section t (n ∷ ns) = (refl, note_row-IsFull section t ns)

rows_from-IsFull :
    (section : Section) (t : SummaryTask) (ns : List ActivityEntry)
    → All IsFull (rows_from (task_csv_base section t) ns)
unfolding IsFull task_csv_base
rows_from-IsFull section t [] = (refl, tt)
rows_from-IsFull section t (n ∷ ns) = note_row-IsFull section t (n ∷ ns)

section_rows-IsFull :
    (section : Section) (ts : List SummaryTask) → All IsFull (section_rows section ts)
unfolding section_rows
section_rows-IsFull section [] = tt
section_rows-IsFull section (t ∷ ts) =
    All-append IsFull (rows_from (task_csv_base section t) t.notes) (section_rows section ts)
      (rows_from-IsFull section t t.notes) (section_rows-IsFull section ts)

-- Every row of the file, the header's included, has a field for each column of the header.
pub summary_rows-IsFull : (s : SummaryResponse) → All IsFull (csv_header ∷ summary_rows s)
unfolding IsFull csv_header summary_rows
summary_rows-IsFull s = (
  refl,
  All-append IsFull (section_rows completed s.completed)
      (section_rows updated s.updated ++ section_rows added s.added)
      (section_rows-IsFull completed s.completed)
      (All-append IsFull (section_rows updated s.updated) (section_rows added s.added)
        (section_rows-IsFull updated s.updated) (section_rows-IsFull added s.added)),
)

read-csv_text :
    (rs rows : List (List Text))
    → All IsFull rs
    → read (csv_text rs) (between_rows rows) ≡ some (between_rows (rows ++ rs))
unfolding csv_text IsFull
read-csv_text [] rows h = unfold read in rw (append-nil rows)
read-csv_text ([] ∷ rs) rows (e, h) = ground arith
read-csv_text ((v ∷ vs) ∷ rs) rows (e, h) =
    read-csv_row v vs rows (csv_text rs)
    ∙ (read-csv_text rs (rows ++ (v ∷ vs) ∷ []) h
        ∙ ap (λ r. some (between_rows r)) (append_assoc rows ((v ∷ vs) ∷ []) rs))

to_csv-eq : (s : SummaryResponse) → to_csv s ≡ bom ∷ csv_text (csv_header ∷ summary_rows s)
unfolding to_csv csv_text summary_rows
to_csv-eq s =
    rw
      (
        tasks_csv-eq completed s.completed (bom ∷ csv_row csv_header),
        tasks_csv-eq updated s.updated
            (bom ∷ (csv_row csv_header ++ csv_text (section_rows completed s.completed))),
        tasks_csv-eq added s.added (
            (bom ∷ (csv_row csv_header ++ csv_text (section_rows completed s.completed)))
            ++ csv_text (section_rows updated s.updated)),
        csv_text-append (section_rows completed s.completed)
            (section_rows updated s.updated ++ section_rows added s.added),
        csv_text-append (section_rows updated s.updated) (section_rows added s.added),
      )
      (simp append_assoc)

-- The file behind its byte order mark, read by a reader of quoted CSV, has the header
-- and then exactly the rows of the summary, every field as it was.
pub read_csv-to_csv :
    (s : SummaryResponse) → read_csv (drop 1 (to_csv s)) ≡ some (csv_header ∷ summary_rows s)
unfolding read_csv
read_csv-to_csv s =
    rw (to_csv-eq s, read-csv_text (csv_header ∷ summary_rows s) [] (summary_rows-IsFull s)) refl
