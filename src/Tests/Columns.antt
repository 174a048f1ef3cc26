-- ===== src/Tests/Columns.antt =====
-- The theorems about a job's columns at one row, with encoding/json as a small pair of functions.
use tasker.Base.{◌≡◌, refl, Option, none, some, List, [], ◌∷◌, String, inr}
use tasker.Job.{JobRow, valid, AttemptError, failure}
use tasker.Sql.Store.{postgres, sqlite}
use tasker.Sql.Statement.{Result, ok, err}
use tasker.Sql.Enqueue.{stored_row}
use tasker.Sql.Arrays.{Text, encode_text_array, decode_text_array}
use tasker.Sql.Columns.{Bytes, Json, columns, on_ok, insert_columns, scan_job}
use tasker.Sql.Columns.Texts.{runes, string_of}
use tasker.Sql.Columns.Stored.{RowSurvives, null_text, insert_columns-scan_job, nil_tags}
use tasker.Tests.Data.{fresh_row}

abbrev as_array : Text → List Text
as_array = decode_text_array (λ t. t) (λ t. none)

abbrev marshal_some : Option (List Text) → Result Text
marshal_some none = ok null_text
marshal_some (some items) = ok (b'[' ∷ encode_text_array items)

abbrev unmarshal_some : Text → Option (List Text)
unmarshal_some [] = none
unmarshal_some (c ∷ t) = some (as_array t)

abbrev marshal_empty : List AttemptError → Result Bytes
marshal_empty [] = ok (b'[' ∷ b']' ∷ [])
marshal_empty (e ∷ es) = err (failure "not shown")

abbrev flat : List (String × String) → List Text
flat [] = []
flat ((k, v) ∷ l) = runes k ∷ runes v ∷ flat l

abbrev paired : List Text → List (String × String)
paired [] = []
paired (k ∷ []) = []
paired (k ∷ v ∷ l) = (string_of k, string_of v) ∷ paired l

abbrev some_json : Json
some_json = record {
  marshal_texts = marshal_some;
  unmarshal_texts = unmarshal_some;
  marshal_errors = marshal_empty;
  unmarshal_errors = λ bytes. ok [];
  marshal_metadata = λ l. ok (encode_text_array (flat l));
  unmarshal_metadata = λ bytes. ok (paired (as_array bytes));
  trim_space = λ t. t;
}

abbrev tagged_row : JobRow
tagged_row = record fresh_row {
  tags = "one" ∷ "with,comma" ∷ "with\"quote" ∷ [];
  metadata = ("tenant", "a") ∷ [];
  unique_key = "k";
}

tagged_row-survives : RowSurvives some_json tagged_row
unfolding encode_text_array decode_text_array string_of
tagged_row-survives = record {
  brace = λ t. refl;
  attempted = record { text = _; written = refl; bracket = refl; read_back = refl };
  tagged = record { text = _; written = refl; bracket = refl; read_back = refl };
  errors = record { first = _; others = _; written = refl; read_back = refl };
  metadata = record { first = _; others = _; written = refl; read_back = refl };
}

insert_columns-scan_job_example :
    on_ok
      (insert_columns some_json postgres (some tagged_row.tags) 7 tagged_row)
      (λ c. scan_job some_json (columns c))
    ≡ ok (stored_row 7 tagged_row)
unfolding valid
insert_columns-scan_job_example =
    insert_columns-scan_job some_json postgres 7 tagged_row refl tagged_row-survives

abbrev plain_row : JobRow
plain_row = record tagged_row { tags = [] }

plain_row-survives : RowSurvives some_json plain_row
unfolding encode_text_array decode_text_array string_of
plain_row-survives = record {
  brace = λ t. refl;
  attempted = tagged_row-survives.attempted;
  errors = tagged_row-survives.errors;
  metadata = tagged_row-survives.metadata;
  tagged = record { text = _; written = refl; bracket = refl; read_back = refl };
}

nil_tags_example :
    on_ok (insert_columns some_json sqlite none 7 plain_row) (λ c. scan_job some_json (columns c))
    ≡ ok (record (stored_row 7 plain_row) { tags = "null" ∷ [] })
unfolding valid
nil_tags_example =
    nil_tags some_json sqlite 7 plain_row refl plain_row-survives
      (record { not_postgres = inr refl; written = refl; trimmed = refl })
