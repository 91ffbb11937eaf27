-- ===== src/Summary/Csv.antt =====
-- The CSV file, read back by `Summary.Reader`.
use task_man.Prelude.{
  ℕ, ◌≡◌, refl, ap, ◌∙◌, false, List, [], ◌∷◌, ◌++◌, map, append_assoc, append-nil, ◌==◌, ==_iff,
  Bool-cases, inl, inr,
}
use task_man.Text.{Text, lit, join}
use task_man.Summary.{quote, double_quotes, csv_field, crlf, csv_row}
use task_man.Summary.Reader.{Mode, Read, field_start, in_field, quote_seen, read, between_rows}

abbrev at : Mode → Text → List Text → List (List Text) → Read
at m f row rows = record { mode = m; field = f; row = row; rows = rows }

-- A unit in a field that is no quote is read as it is.
read-plain :
    (c : ℕ) (s f : Text) (row : List Text) (rows : List (List Text))
    → c == quote ≡ false
    → read (c ∷ s) (at in_field f row rows) ≡ read s (at in_field (f ++ c ∷ []) row rows)
unfolding read
read-plain c s f row rows h = rw (h, read)

read-doubled :
    (s f : Text) (row : List Text) (rows : List (List Text))
    → read (quote ∷ quote ∷ s) (at in_field f row rows)
      ≡ read s (at in_field (f ++ quote ∷ []) row rows)
unfolding read
read-doubled s f row rows = refl

read_body :
    (v f : Text) (row : List Text) (rows : List (List Text)) (rest : Text)
    → read (double_quotes v ++ quote ∷ rest) (at in_field f row rows)
      ≡ read rest (at quote_seen (f ++ v) row rows)
unfolding double_quotes
read_body [] f row rows rest = unfold read in rw (append-nil f)
read_body (c ∷ v) f row rows rest = elim (Bool-cases (c == quote)) [
  | inl same ↦ rw ((==_iff c quote).0 same) (
      (read-doubled (double_quotes v ++ quote ∷ rest) f row rows
        ∙ read_body v (f ++ quote ∷ []) row rows rest)
      ∙ joined quote)
  | inr other ↦ rw other (
      read-plain c (double_quotes v ++ quote ∷ rest) f row rows other
      ∙ (read_body v (f ++ c ∷ []) row rows rest ∙ joined c))
]
  where
    joined :
        (d : ℕ)
        → read rest (at quote_seen ((f ++ d ∷ []) ++ v) row rows)
          ≡ read rest (at quote_seen (f ++ d ∷ v) row rows)
    joined d = ap (λ g. read rest (at quote_seen g row rows)) (append_assoc f (d ∷ []) v)

read_field :
    (v : Text) (row : List Text) (rows : List (List Text)) (rest : Text)
    → read (csv_field v ++ rest) (at field_start [] row rows) ≡ read rest (at quote_seen v row rows)
unfolding read csv_field
read_field v row rows rest =
    rw (append_assoc (double_quotes v) (quote ∷ []) rest) (read_body v [] row rows rest)

after_comma :
    (v s : Text) (row : List Text) (rows : List (List Text))
    → read (b',' ∷ s) (at quote_seen v row rows) ≡ read s (at field_start [] (row ++ v ∷ []) rows)
unfolding read
after_comma v s row rows = refl

-- The fields of a row, as they follow one another.
read_fields :
    (v : Text) (vs row : List Text) (rows : List (List Text)) (rest : Text)
    → read (join (lit ",") (map csv_field (v ∷ vs)) ++ (crlf ++ rest)) (at field_start [] row rows)
      ≡ read rest (between_rows (rows ++ (row ++ v ∷ vs) ∷ []))
unfolding join
read_fields v [] row rows rest = read_field v row rows (crlf ++ rest) ∙ unfold read in refl
read_fields v (w ∷ vs) row rows rest =
    rw (append_assoc (csv_field v) (b',' ∷ join (lit ",") (map csv_field (w ∷ vs))) (crlf ++ rest))
      (read_field v row rows (b',' ∷ (join (lit ",") (map csv_field (w ∷ vs)) ++ (crlf ++ rest)))
        ∙ (after_comma v (join (lit ",") (map csv_field (w ∷ vs)) ++ (crlf ++ rest)) row rows
            ∙ (read_fields w vs (row ++ v ∷ []) rows rest
                ∙ ap (λ r. read rest (between_rows (rows ++ r ∷ [])))
                    (append_assoc row (v ∷ []) (w ∷ vs)))))

-- A row is read back, whatever stands before and behind it.
pub read-csv_row :
    (v : Text) (vs : List Text) (rows : List (List Text)) (rest : Text)
    → read (csv_row (v ∷ vs) ++ rest) (between_rows rows)
      ≡ read rest (between_rows (rows ++ (v ∷ vs) ∷ []))
unfolding csv_row
read-csv_row v vs rows rest =
    rw (append_assoc (join (lit ",") (map csv_field (v ∷ vs))) crlf rest)
      (started vs ∙ read_fields v vs [] rows rest)
  where
    started :
        (us : List Text)
        → read (join (lit ",") (map csv_field (v ∷ us)) ++ (crlf ++ rest)) (between_rows rows)
          ≡ read
              (join (lit ",") (map csv_field (v ∷ us)) ++ (crlf ++ rest))
              (at field_start [] [] rows)
    started [] = unfold read join csv_field in refl
    started (u ∷ us) = unfold read join csv_field in refl
