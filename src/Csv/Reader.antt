-- ===== src/Csv/Reader.antt =====
-- A reader of the format that RFC 4180 describes, and what it reads from the output of toCsv.
use critical_path_api.Prelude.{
  ℕ, ◌≡◌, refl, ap, ◌∙◌, inl, inr, Bool, true, false, ◌||◌, List, [], ◌∷◌, ◌++◌, Option, none, some,
  arith, if◌then◌else◌, ◌==◌, ==_iff, any, Bool-cases, if_case,
}
use critical_path_api.Csv.{
  Field, quote, comma, carriage_return, line_feed, is_special, needs_quotes, double_quotes,
  quote_field, join_fields, to_csv,
}

-- Where the reader stands: before a row, before a field, in a bare field, in a quoted one, behind a
-- quote in a quoted field, and behind a carriage return.
pub data Mode : Type 0 where
  row_start : Mode
  field_start : Mode
  bare : Mode
  quoted : Mode
  closing : Mode
  returned : Mode

pub data Effect : Type 0 where
  put : Effect
  skip : Effect
  end_field : Effect
  end_row : Effect
  fail : Effect

unfoldable pub in_bare : ℕ → Mode × Effect
in_bare c =
    if c == comma
    then (field_start, end_field)
    else (if c == carriage_return
        then (returned, skip)
        else (if c == quote || c == line_feed then (bare, fail) else (bare, put)))

unfoldable pub at_start : ℕ → Mode × Effect
at_start c = if c == quote then (quoted, skip) else in_bare c

unfoldable pub step : Mode → ℕ → Mode × Effect
step row_start c = at_start c
step field_start c = at_start c
step bare c = in_bare c
step quoted c = if c == quote then (closing, skip) else (quoted, put)
step closing c =
    if c == quote
    then (quoted, put)
    else (if c == comma
        then (field_start, end_field)
        else (if c == carriage_return then (returned, skip) else (closing, fail)))
step returned c = if c == line_feed then (row_start, end_row) else (returned, fail)

-- What a code unit adds in front of what is read behind it.
unfoldable pub emit : Effect → ℕ → Option (List (List Field)) → Option (List (List Field))
emit fail c rows = none
emit skip c rows = rows
emit end_row c none = none
emit end_row c (some rows) = some (([] ∷ []) ∷ rows)
emit end_field c none = none
emit end_field c (some []) = none
emit end_field c (some (row ∷ rows)) = some (([] ∷ row) ∷ rows)
emit put c none = none
emit put c (some []) = none
emit put c (some ([] ∷ rows)) = none
emit put c (some ((field ∷ row) ∷ rows)) = some (((c ∷ field) ∷ row) ∷ rows)

unfoldable pub ends : Mode → Option (List (List Field))
ends row_start = some []
ends field_start = none
ends bare = none
ends quoted = none
ends closing = none
ends returned = none

unfoldable pub read : Mode → List ℕ → Option (List (List Field))
read mode [] = ends mode
read mode (c ∷ text) = emit (step mode c).1 c (read (step mode c).0 text)

put_all : Field → Option (List (List Field)) → Option (List (List Field))
put_all [] rows = rows
put_all (c ∷ field) rows = emit put c (put_all field rows)

put_all-some :
    (field done : Field) (row : List Field) (rows : List (List Field))
    → put_all field (some ((done ∷ row) ∷ rows)) ≡ some (((field ++ done) ∷ row) ∷ rows)
unfolding put_all emit
put_all-some [] done row rows = refl
put_all-some (c ∷ field) done row rows = ap (emit put c) (put_all-some field done row rows)

step_bare : (c : ℕ) → is_special c ≡ false → in_bare c ≡ (bare, put)
unfolding is_special in_bare
step_bare c h =
    let not_comma : (c == comma) ≡ false = ground (arith, h) in
    let not_return : (c == carriage_return) ≡ false = ground (arith, h) in
    let plain : (c == quote || c == line_feed) ≡ false = ground (arith, h) in
    rw (in_bare, not_comma, not_return, plain) refl

read-bare :
    (field rest : List ℕ)
    → any is_special field ≡ false
    → read bare (field ++ rest) ≡ put_all field (read bare rest)
unfolding read put_all any step
read-bare [] rest h = refl
read-bare (c ∷ field) rest h =
    rw (step_bare c (ground (arith, h)))
      (ap (emit put c) (read-bare field rest (ground (arith, h))))

read-quoted :
    (field rest : List ℕ)
    → read quoted (double_quotes field ++ quote ∷ rest) ≡ put_all field (read closing rest)
unfolding read put_all step double_quotes emit
read-quoted [] rest = refl
read-quoted (c ∷ field) rest = elim (Bool-cases (c == quote)) [
  | inl b ↦
      let same : c ≡ quote = (==_iff c quote).0 b in
      rw (same) (ap (emit put quote) (read-quoted field rest))
  | inr b ↦ rw (double_quotes, b, step, b) (ap (emit put c) (read-quoted field rest))
]

plain_field : (field : Field) → needs_quotes field ≡ false → any is_special field ≡ false
unfolding needs_quotes
plain_field field h = ground (arith, h)

-- What stands behind a field.
is_end : ℕ → Bool
is_end d = d == comma || d == carriage_return

closing_as_bare :
    (d : ℕ) (rest : List ℕ) → is_end d ≡ true → read closing (d ∷ rest) ≡ read bare (d ∷ rest)
unfolding is_end read step in_bare
closing_as_bare d rest h = elim (Bool-cases (d == comma)) [
  | inl b ↦ rw ((==_iff d comma).0 b) refl
  | inr b ↦ let same : d ≡ carriage_return = ground (arith, h, b) in rw (same) refl
]

start_as_bare :
    (c : ℕ) (rest : List ℕ)
    → (c == quote) ≡ false
    → read field_start (c ∷ rest) ≡ read bare (c ∷ rest)
unfolding read step at_start
start_as_bare c rest h = rw (at_start, h) refl

read-bare_field :
    (field : Field) (d : ℕ) (rest : List ℕ)
    → any is_special field ≡ false
    → is_end d ≡ true
    → read field_start (field ++ d ∷ rest) ≡ put_all field (read bare (d ∷ rest))
unfolding any is_special is_end put_all
read-bare_field [] d rest h k = start_as_bare d rest (ground (arith, k))
read-bare_field (c ∷ field) d rest h k =
    start_as_bare c (field ++ d ∷ rest) (ground (arith, h)) ∙ read-bare (c ∷ field) (d ∷ rest) h

append_assoc : (xs : List ℕ) (ys zs : List ℕ) → (xs ++ ys) ++ zs ≡ xs ++ (ys ++ zs)
append_assoc [] ys zs = refl
append_assoc (x ∷ xs) ys zs = ap (λ l. x ∷ l) (append_assoc xs ys zs)

read-quoted_field :
    (field : Field) (d : ℕ) (rest : List ℕ)
    → is_end d ≡ true
    → read field_start (quote ∷ ((double_quotes field ++ quote ∷ []) ++ d ∷ rest))
      ≡ put_all field (read bare (d ∷ rest))
unfolding read step at_start emit
read-quoted_field field d rest k =
    ap (read quoted) (append_assoc (double_quotes field) (quote ∷ []) (d ∷ rest))
    ∙ read-quoted field (d ∷ rest)
    ∙ ap (put_all field) (closing_as_bare d rest k)

read-quote_field :
    (field : Field) (d : ℕ) (rest : List ℕ)
    → is_end d ≡ true
    → read field_start (quote_field field ++ d ∷ rest) ≡ put_all field (read bare (d ∷ rest))
unfolding quote_field
read-quote_field field d rest k =
    if_case (λ text. read field_start (text ++ d ∷ rest) ≡ put_all field (read bare (d ∷ rest)))
      (needs_quotes field) _ _ (λ b. read-quoted_field field d rest k)
      (λ b. read-bare_field field d rest (plain_field field b) k)

append_nil : (field : Field) → field ++ [] ≡ field
append_nil [] = refl
append_nil (c ∷ field) = ap (λ l. c ∷ l) (append_nil field)

row_start_as_field :
    (before : List ℕ) (c : ℕ) (rest : List ℕ)
    → read row_start (before ++ c ∷ rest) ≡ read field_start (before ++ c ∷ rest)
unfolding read step
row_start_as_field [] c rest = refl
row_start_as_field (b ∷ before) c rest = refl

put_all-field :
    (field : Field) (row : List Field) (rows : List (List Field))
    → put_all field (some (([] ∷ row) ∷ rows)) ≡ some ((field ∷ row) ∷ rows)
put_all-field field row rows =
    put_all-some field [] row rows ∙ ap (λ f. some ((f ∷ row) ∷ rows)) (append_nil field)

read-join_fields :
    (field : Field) (row : List Field) (rest : List ℕ) (rows : List (List Field))
    → read row_start rest ≡ some rows
    → read field_start (join_fields (field ∷ row) ++ carriage_return ∷ line_feed ∷ rest)
      ≡ some ((field ∷ row) ∷ rows)
unfolding join_fields read step in_bare emit is_end
read-join_fields field [] rest rows h =
    read-quote_field field carriage_return (line_feed ∷ rest) refl
    ∙ ap (λ r. put_all field (emit end_row line_feed r)) h
    ∙ put_all-field field [] rows
read-join_fields field (next ∷ row) rest rows h =
    let tail : List ℕ = join_fields (next ∷ row) in
    let behind : List ℕ = carriage_return ∷ line_feed ∷ rest in
    ap (read field_start) (append_assoc (quote_field field) (comma ∷ tail) behind)
    ∙ read-quote_field field comma (tail ++ behind) refl
    ∙ ap (λ r. put_all field (emit end_field comma r)) (read-join_fields next row rest rows h)
    ∙ put_all-field field (next ∷ row) rows

-- Every row has a field.
abbrev pub Filled : List (List Field) → Type 0
Filled [] = Unit {0}
Filled ([] ∷ rows) = ⊥
Filled ((field ∷ row) ∷ rows) = Filled rows

-- A reader of the format of RFC 4180 reads the rows back from what toCsv writes, whatever stands in
-- the fields, where every row has a field.
pub read-to_csv :
    (rows : List (List Field)) → Filled rows → read row_start (to_csv rows) ≡ some rows
unfolding to_csv read ends
read-to_csv [] h = refl
read-to_csv ([] ∷ rows) h = absurd h
read-to_csv ((field ∷ row) ∷ rows) h =
    row_start_as_field (join_fields (field ∷ row)) carriage_return (line_feed ∷ to_csv rows)
    ∙ read-join_fields field row (to_csv rows) rows (read-to_csv rows h)
