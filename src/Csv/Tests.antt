-- ===== src/Csv/Tests.antt =====
-- The reader at the output for two rows, with a comma, a quote and a space at an end.
use critical_path_api.Prelude.{ℕ, ◌≡◌, refl, List, [], ◌∷◌, ◌++◌, some, any, contains}
use critical_path_api.Csv.{
  Field, comma, quote, to_csv, join_fields, quote_field, needs_quotes, double_quotes, is_special,
  starts_with_space, ends_with_space,
}
use critical_path_api.Csv.Reader.{row_start, read, read-to_csv}

abbrev rows : List (List Field)
rows = ((97 ∷ comma ∷ []) ∷ [] ∷ []) ∷ ((quote ∷ []) ∷ (98 ∷ 32 ∷ []) ∷ []) ∷ []

abbrev first_line : List ℕ
first_line = 34 ∷ 97 ∷ 44 ∷ 34 ∷ 44 ∷ 13 ∷ 10 ∷ []

abbrev second_line : List ℕ
second_line = 34 ∷ 34 ∷ 34 ∷ 34 ∷ 44 ∷ 34 ∷ 98 ∷ 32 ∷ 34 ∷ 13 ∷ 10 ∷ []

written : to_csv rows ≡ first_line ++ second_line
unfolding to_csv join_fields quote_field needs_quotes double_quotes is_special starts_with_space
    ends_with_space any contains
written = refl

read-to_csv_example : read row_start (to_csv rows) ≡ some rows
read-to_csv_example = read-to_csv rows tt
