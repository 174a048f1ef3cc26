-- ===== src/Sql/Columns.antt =====
-- A job as the columns of the jobs table, in driver/sqldriver/driver.go: encodeStrings, emptyArray,
-- encodeJobFields and nullableString write it, scanJob and scanJobs read it. `Json` is what is used
-- of encoding/json and strings.TrimSpace. What was
-- written to a column comes back from it: a time at its full precision, an array as its text.
pub mod Texts
pub mod Stored
use tasker.Base.{
  ℕ, Bool, true, false, Option, none, some, List, [], ◌∷◌, String, str_eq, if◌then◌else◌, map, ℤ,
  text_append,
}
use tasker.Job.{
  Time, Duration, AttemptError, JobRow, Error, failure, error_text, job_not_found, state_of,
  state_text,
}
use tasker.Sql.Store.{Dialect, postgres, mysql, sqlite}
use tasker.Sql.Statement.{Result, ok, err}
use tasker.Sql.Arrays.{Text, encode_text_array, decode_text_array}
use tasker.Sql.Columns.Texts.{runes, string_of}

abbrev pub Bytes : Type 0
Bytes = List ℕ

-- A nil slice of texts is `none`.
pub record Json : Type 0 where
  pub marshal_texts : Option (List Text) → Result Text
  pub unmarshal_texts : Text → Option (List Text)
  pub marshal_errors : List AttemptError → Result Bytes
  pub unmarshal_errors : Bytes → Result (List AttemptError)
  pub marshal_metadata : List (String × String) → Result Bytes
  pub unmarshal_metadata : Bytes → Result (List (String × String))
  pub trim_space : Text → Text

-- `none` is NULL.
pub record Columns : Type 0 where
  pub id : ℕ
  pub uuid : String
  pub queue : String
  pub kind : String
  pub payload : Bytes
  pub state : String
  pub priority : ℤ
  pub attempt : ℕ
  pub max_attempts : ℤ
  pub attempted_by : Text
  pub attempted_at : Option Time
  pub errors : Bytes
  pub output : Bytes
  pub tags : Text
  pub scheduled_at : Time
  pub created_at : Time
  pub started_at : Option Time
  pub completed_at : Option Time
  pub finalized_at : Option Time
  pub node_id : Option String
  pub batch_id : Option String
  pub timeout : Duration
  pub metadata : Bytes
  pub unique_key : Option String

-- What row.Scan leaves.
pub data Scanned : Type 0 where
  columns : Columns → Scanned
  no_rows : Scanned
  scan_failed : Error → Scanned

abbrev pub on_ok : {A B : Type 0} → Result A → (A → Result B) → Result B
on_ok (ok a) f = f a
on_ok (err e) f = err e

-- fmt.Errorf(text+"%w", err).
abbrev pub wrapped : {A : Type 0} → String → Result A → Result A
wrapped text (ok a) = ok a
wrapped text (err e) = err (failure (text_append text (error_text e)))

abbrev pub items_of {ℓ} : {A : Type ℓ} → Option (List A) → List A
items_of none = []
items_of (some items) = items

abbrev pub empty_array : Dialect → String
empty_array postgres = "{}"
empty_array mysql = "[]"
empty_array sqlite = "[]"

abbrev pub nullable_string : String → Option String
nullable_string value = if str_eq value "" then none else some value

-- sql.NullString into a field that is empty before.
abbrev pub text_or_empty : Option String → String
text_or_empty none = ""
text_or_empty (some value) = value

-- What encodeJobFields returns.
pub record Fields : Type 0 where
  pub attempted_by : Text
  pub tags : Text
  pub errors : Bytes
  pub metadata : Bytes

abbrev pub runes_of : Option (List String) → Option (List Text)
runes_of none = none
runes_of (some items) = some (map runes items)

-- json.Unmarshal into an empty field, of a column that holds something.
abbrev pub decoded : {A : Type 0} → String → (Bytes → Result (List A)) → Bytes → Result (List A)
decoded text decode [] = ok []
decoded text decode (b ∷ bs) = wrapped text (decode (b ∷ bs))

module _ (json : Json) where
  unfoldable pub encode_strings : Dialect → Option (List Text) → Result Text
  encode_strings postgres items = ok (encode_text_array (items_of items))
  encode_strings mysql items = wrapped "encode string list: " (json.marshal_texts items)
  encode_strings sqlite items = wrapped "encode string list: " (json.marshal_texts items)

  -- `tags` is the row's own slice, which is `none` where it is nil. A nil list of errors and a nil
  -- map are written as empty ones, and the row's lists do not tell them apart.
  unfoldable pub encode_job_fields : Dialect → Option (List String) → JobRow → Result Fields
  unfolding encode_strings
  encode_job_fields dialect tags job =
      on_ok (encode_strings dialect (some (map runes job.attempted_by))) λ attempted_by.
        on_ok (encode_strings dialect (runes_of tags)) λ tags_value.
          on_ok (wrapped "encode job errors: " (json.marshal_errors job.errors)) λ errors.
            on_ok (wrapped "encode job metadata: " (json.marshal_metadata job.metadata)) λ metadata.
              ok (record {
                attempted_by = attempted_by;
                tags = tags_value;
                errors = errors;
                metadata = metadata;
              })

  -- The row that jobInsertQuery adds with the arguments of Enqueue: what it leaves out is NULL, or
  -- the new id.
  unfoldable pub insert_columns : Dialect → Option (List String) → ℕ → JobRow → Result Columns
  unfolding encode_job_fields
  insert_columns dialect tags id job = on_ok (encode_job_fields dialect tags job) λ fields.
      ok (record {
        id = id;
        uuid = job.uuid;
        queue = job.queue;
        kind = job.kind;
        payload = job.payload;
        state = state_text job.state;
        priority = job.priority;
        attempt = job.attempt;
        max_attempts = job.max_attempts;
        attempted_by = fields.attempted_by;
        attempted_at = none;
        errors = fields.errors;
        output = [];
        tags = fields.tags;
        scheduled_at = job.scheduled_at;
        created_at = job.created_at;
        started_at = none;
        completed_at = none;
        finalized_at = none;
        node_id = none;
        batch_id = some job.batch_id;
        timeout = job.timeout;
        metadata = fields.metadata;
        unique_key = nullable_string job.unique_key;
      })

  abbrev pub strings_in : Text → List String
  strings_in s = map string_of (decode_text_array json.trim_space json.unmarshal_texts s)

  -- The row, with the two columns that are JSON.
  unfoldable pub row_of : Columns → List AttemptError → List (String × String) → JobRow
  row_of c errors metadata = record {
    id = c.id;
    uuid = c.uuid;
    queue = c.queue;
    kind = c.kind;
    payload = c.payload;
    state = state_of c.state;
    priority = c.priority;
    attempt = c.attempt;
    max_attempts = c.max_attempts;
    attempted_by = strings_in c.attempted_by;
    attempted_at = c.attempted_at;
    errors = errors;
    output = c.output;
    tags = strings_in c.tags;
    scheduled_at = c.scheduled_at;
    created_at = c.created_at;
    started_at = c.started_at;
    completed_at = c.completed_at;
    finalized_at = c.finalized_at;
    node_id = text_or_empty c.node_id;
    batch_id = text_or_empty c.batch_id;
    timeout = c.timeout;
    metadata = metadata;
    unique_key = text_or_empty c.unique_key;
  }

  unfoldable pub scan_job : Scanned → Result JobRow
  unfolding row_of
  scan_job no_rows = err job_not_found
  scan_job (scan_failed e) = err e
  scan_job (columns c) =
      on_ok (decoded "decode job errors: " json.unmarshal_errors c.errors) λ errors.
        on_ok (decoded "decode job metadata: " json.unmarshal_metadata c.metadata)
          λ metadata. ok (row_of c errors metadata)

  -- `last` is rows.Err() after the loop.
  unfoldable pub scan_jobs : List Scanned → Option Error → Result (List JobRow)
  unfolding scan_job
  scan_jobs [] none = ok []
  scan_jobs [] (some e) = err e
  scan_jobs (row ∷ rows) last =
      let rest = scan_jobs rows last in
      on_ok (scan_job row) λ job. on_ok rest λ jobs. ok (job ∷ jobs)
