-- ===== src/Sql/Columns/Stored.antt =====
-- What insert_columns writes, scan_job reads, as the row that the store holds.
use tasker.Base.{
  ℕ, ◌⊎◌, inl, inr, true, false, Option, none, some, List, [], ◌∷◌, String, str_eq, map, ◌≡◌, refl,
  sym, ◌∙◌, ap, eq_iff, if-rule,
}
use tasker.Job.{State, JobRow, valid, state_of, state_text}
use tasker.Sql.Store.{Dialect, postgres, mysql, sqlite}
use tasker.Sql.Statement.{Result, ok}
use tasker.Sql.Enqueue.{stored_row}
use tasker.Sql.Arrays.{Text, starts_bracket, encode_text_array, decode_text_array}
use tasker.Sql.Arrays.RoundTrip.{decode_text_array-encode_text_array}
use tasker.Sql.Columns.{
  Bytes, Json, columns, on_ok, wrapped, nullable_string, text_or_empty, encode_strings,
  insert_columns, strings_in, scan_job, runes_of, empty_array,
}
use tasker.Sql.Columns.Texts.{runes, string_of, strings-runes}

-- The value is written as a document that holds something, and read from it.
pub record Survives {A : Type 0} (write : A → Result Bytes) (read : Bytes → Result A) (v : A)
    : Type 0 where
  pub first : ℕ
  pub others : Bytes
  pub written : write v ≡ ok (first ∷ others)
  pub read_back : read (first ∷ others) ≡ ok v

-- A list of texts is written as a JSON array, and read from it.
pub record TextsSurvive (json : Json) (items : List Text) : Type 0 where
  pub text : Text
  pub written : json.marshal_texts (some items) ≡ ok text
  pub bracket : starts_bracket (json.trim_space text) ≡ true
  pub read_back : json.unmarshal_texts text ≡ some items

-- What encoding/json and strings.TrimSpace do with the values of one row.
pub record RowSurvives (json : Json) (job : JobRow) : Type 0 where
  pub brace : (t : Text) → starts_bracket (json.trim_space (b'{' ∷ t)) ≡ false
  pub attempted : TextsSurvive json (map runes job.attempted_by)
  pub tagged : TextsSurvive json (map runes job.tags)
  pub errors : Survives json.marshal_errors json.unmarshal_errors job.errors
  pub metadata : Survives json.marshal_metadata json.unmarshal_metadata job.metadata

state_of-state_text : (s : State) → valid s ≡ true → state_of (state_text s) ≡ s
unfolding valid
state_of-state_text State.pending h = refl
state_of-state_text State.scheduled h = refl
state_of-state_text State.available h = refl
state_of-state_text State.running h = refl
state_of-state_text State.completed h = refl
state_of-state_text State.retryable h = refl
state_of-state_text State.failed h = refl
state_of-state_text State.cancelled h = refl
state_of-state_text (State.other t) h = cc

text_or_empty-nullable_string : (s : String) → text_or_empty (nullable_string s) ≡ s
text_or_empty-nullable_string s =
    if-rule (λ v. text_or_empty v ≡ s) (str_eq s "") none (some s) (λ e. sym ((eq_iff s "").0 e))
      (λ e. refl)

-- The column that a slice of texts is written to, and the texts read from it.
record Column (json : Json) (dialect : Dialect) (slice : Option (List String)) (items : List String)
    : Type 0 where
  text : Text
  written : encode_strings json dialect (runes_of slice) ≡ ok text
  read_back : strings_in json text ≡ items

module _ (json : Json) (brace : (t : Text) → starts_bracket (json.trim_space (b'{' ∷ t)) ≡ false)
    (items : List String) (survives : TextsSurvive json (map runes items)) where
  json_read : strings_in json survives.text ≡ items
  unfolding decode_text_array
  json_read = rw (survives.bracket, survives.read_back) (strings-runes items)

  column : (dialect : Dialect) → Column json dialect (some items) items
  unfolding encode_strings
  column postgres = record {
    text = encode_text_array (map runes items);
    written = refl;
    read_back =
        ap (map string_of) (
          decode_text_array-encode_text_array json.trim_space json.unmarshal_texts (map runes items)
            brace)
        ∙ strings-runes items;
  }
  column mysql = record {
    text = survives.text;
    written = ap (wrapped "encode string list: ") survives.written;
    read_back = json_read;
  }
  column sqlite = record {
    text = survives.text;
    written = ap (wrapped "encode string list: ") survives.written;
    read_back = json_read;
  }

-- Any dialect but PostgreSQL, where a nil slice is marshalled as null.
abbrev pub null_text : Text
null_text = b'n' ∷ b'u' ∷ b'l' ∷ b'l' ∷ []

pub record NullTags (json : Json) (dialect : Dialect) : Type 0 where
  pub not_postgres : (dialect ≡ mysql) ⊎ (dialect ≡ sqlite)
  pub written : json.marshal_texts none ≡ ok null_text
  pub trimmed : json.trim_space null_text ≡ null_text

nil_column :
    (json : Json) (dialect : Dialect)
    → NullTags json dialect
    → Column json dialect none ("null" ∷ [])
unfolding encode_strings decode_text_array string_of
nil_column json dialect nulls = record {
  text = null_text;
  written = elim nulls.not_postgres [
    | inl e ↦ rw e (ap (wrapped "encode string list: ") nulls.written)
    | inr e ↦ rw e (ap (wrapped "encode string list: ") nulls.written)
  ];
  read_back = rw nulls.trimmed refl;
}

-- What Retry writes into attempted_by is read as no names, where json reads [] as no texts.
empty_array-read :
    (json : Json) (dialect : Dialect)
    → ((t : Text) → json.trim_space (b'{' ∷ t) ≡ b'{' ∷ t)
    → json.trim_space (b'[' ∷ b']' ∷ []) ≡ b'[' ∷ b']' ∷ []
    → json.unmarshal_texts (b'[' ∷ b']' ∷ []) ≡ some []
    → strings_in json (runes (empty_array dialect)) ≡ []
unfolding decode_text_array
empty_array-read json postgres brace trimmed empty = rw (brace (b'}' ∷ [])) refl
empty_array-read json mysql brace trimmed empty = rw (trimmed, empty) refl
empty_array-read json sqlite brace trimmed empty = rw (trimmed, empty) refl

module _ (json : Json) (dialect : Dialect) (id : ℕ) (job : JobRow) (real : valid job.state ≡ true)
    (survives : RowSurvives json job) where
  scanned_with :
      (tags : Option (List String)) (items : List String)
      → Column json dialect tags items
      → on_ok (insert_columns json dialect tags id job) (λ c. scan_job json (columns c))
        ≡ ok (record (stored_row id job) { tags = items })
  unfolding insert_columns scan_job
  scanned_with tags items tagged =
      let attempted = column json survives.brace job.attempted_by survives.attempted dialect in
      rw
        (
          attempted.written,
          tagged.written,
          survives.errors.written,
          survives.metadata.written,
          survives.errors.read_back,
          survives.metadata.read_back,
          attempted.read_back,
          tagged.read_back,
          state_of-state_text job.state real,
          text_or_empty-nullable_string job.unique_key,
        )
        refl

  -- A row that was inserted is read back as the store's row, in every dialect: with the same list
  -- of node names and the same tags, errors, metadata and unique key, the new id, and the columns
  -- that the insert leaves out empty. Its state is one of the eight, its tags are not nil, and
  -- encoding/json writes and reads its lists and its map.
  pub insert_columns-scan_job :
      on_ok (insert_columns json dialect (some job.tags) id job) (λ c. scan_job json (columns c))
      ≡ ok (stored_row id job)
  insert_columns-scan_job =
      scanned_with (some job.tags) job.tags
        (column json survives.brace job.tags survives.tagged dialect)

  -- A row whose tags are nil is read back with the one tag "null" in MySQL and SQLite, where
  -- encoding/json writes a nil slice as null.
  pub nil_tags :
      NullTags json dialect
      → on_ok (insert_columns json dialect none id job) (λ c. scan_job json (columns c))
        ≡ ok (record (stored_row id job) { tags = "null" ∷ [] })
  nil_tags nulls = scanned_with none ("null" ∷ []) (nil_column json dialect nulls)
