-- ===== src/Csv.antt =====
-- api/src/services/export/csv.ts: fields as text for a spreadsheet. A text is the list of its code
-- units.
use critical_path_api.Prelude.{
  ℕ, Bool, true, false, ◌||◌, List, [], ◌∷◌, ◌++◌, if◌then◌else◌, ◌==◌, any, contains, nat_eq,
}
pub mod Reader
mod Tests

abbrev pub Field : Type 0
Field = List ℕ

abbrev pub quote : ℕ
quote = 34

abbrev pub comma : ℕ
comma = 44

abbrev pub carriage_return : ℕ
carriage_return = 13

abbrev pub line_feed : ℕ
line_feed = 10

-- What `trim` takes off.
abbrev spaces : List ℕ
spaces =
    9 ∷ 10 ∷ 11 ∷ 12 ∷ 13 ∷ 32 ∷ 160 ∷ 5760 ∷ 8192 ∷ 8193 ∷ 8194 ∷ 8195 ∷ 8196 ∷ 8197 ∷ 8198 ∷ 8199
    ∷ 8200 ∷ 8201 ∷ 8202 ∷ 8232 ∷ 8233 ∷ 8239 ∷ 8287 ∷ 12288 ∷ 65279 ∷ []

unfoldable pub starts_with_space : Field → Bool
starts_with_space [] = false
starts_with_space (c ∷ field) = contains spaces c

unfoldable pub ends_with_space : Field → Bool
ends_with_space [] = false
ends_with_space (c ∷ []) = contains spaces c
ends_with_space (c ∷ d ∷ field) = ends_with_space (d ∷ field)

-- `/["\r\n,]/`
unfoldable pub is_special : ℕ → Bool
is_special c = c == quote || c == carriage_return || c == line_feed || c == comma

-- `field !== field.trim()` where there is a space at an end.
unfoldable pub needs_quotes : Field → Bool
needs_quotes field = any is_special field || starts_with_space field || ends_with_space field

-- `field.replace(/"/g, '""')`
unfoldable pub double_quotes : Field → Field
double_quotes [] = []
double_quotes (c ∷ field) =
    let rest = double_quotes field in if c == quote then quote ∷ quote ∷ rest else c ∷ rest

unfoldable pub quote_field : Field → Field
quote_field field =
    if needs_quotes field then quote ∷ (double_quotes field ++ quote ∷ []) else field

-- `row.map(quoteField).join(',')`
unfoldable pub join_fields : List Field → Field
join_fields [] = []
join_fields (field ∷ []) = quote_field field
join_fields (field ∷ next ∷ row) = quote_field field ++ comma ∷ join_fields (next ∷ row)

unfoldable pub to_csv : List (List Field) → Field
to_csv [] = []
to_csv (row ∷ rows) = join_fields row ++ carriage_return ∷ line_feed ∷ to_csv rows
