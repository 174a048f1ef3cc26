-- ===== src/Sql/Migrate/Left.antt =====
-- What a Migrate leaves, whichever of its statements fail.
use tasker.Base.{
  ℕ, zero, suc, false, Option, none, some, List, [], ◌∷◌, String, str_eq, count, ◌≡◌, refl, sym,
  ◌∙◌, ap, subst,
}
use tasker.Job.{Error}
use tasker.Sql.Store.{Dialect, postgres, mysql, sqlite}
use tasker.Sql.Statement.{ok, err}
use tasker.Sql.Migrate.{
  Schema, Session, Answer, has, exec, and_then, ensure, table_names, index_names, make_tables,
  make_index, make_indexes, set_busy_timeout, migrate, creating, unless_counted, create_index,
  create_missing_index,
}
use tasker.Sql.Migrate.Ensured.{Ensured, ensure-has, count-has, has-count}

abbrev pub left : Answer (Unit {0}) → Schema
left (r, s) = s.schema

-- Some tables more, and the same indexes; and the other way round.
record MoreTables (names : List String) (sch sch' : Schema) : Type 0 where
  tables : Ensured names sch.tables sch'.tables
  indexes : sch'.indexes ≡ sch.indexes

record MoreIndexes (names : List String) (sch sch' : Schema) : Type 0 where
  indexes : Ensured names sch.indexes sch'.indexes
  tables : sch'.tables ≡ sch.tables

make_tables-MoreTables :
    (names : List String) (sch : Schema) (faults : List (Option Error))
    → MoreTables names sch (left (make_tables names (record { schema = sch; faults = faults })))
unfolding make_tables
make_tables-MoreTables [] sch faults = record { tables = Ensured.stopped; indexes = refl }
make_tables-MoreTables (name ∷ names) sch [] =
    let rest = make_tables-MoreTables names (record sch { tables = ensure name sch.tables }) [] in
    record { tables = Ensured.made rest.tables; indexes = rest.indexes }
make_tables-MoreTables (name ∷ names) sch (none ∷ faults) =
    let rest =
      make_tables-MoreTables names (record sch { tables = ensure name sch.tables }) faults in
    record { tables = Ensured.made rest.tables; indexes = rest.indexes }
make_tables-MoreTables (name ∷ names) sch (some e ∷ faults) = record {
  tables = Ensured.stopped;
  indexes = refl;
}

-- One index: made or there, or an error and nothing changed.
OneIndex : String → Schema → Answer (Unit {0}) → Type 0
OneIndex name sch (ok u, s) = s.schema ≡ record sch { indexes = ensure name sch.indexes }
OneIndex name sch (err e, s) = s.schema ≡ sch

creating-OneIndex :
    (name : String) (sch : Schema) (answer : Answer (Unit {0}))
    → OneIndex name sch answer
    → OneIndex name sch (creating name answer)
unfolding OneIndex
creating-OneIndex name sch (ok u, s) h = h
creating-OneIndex name sch (err e, s) h = h

create_missing-OneIndex :
    (name : String) (sch : Schema) (faults : List (Option Error))
    → OneIndex name sch
        (exec (create_missing_index name) (record { schema = sch; faults = faults }))
unfolding OneIndex
create_missing-OneIndex name sch [] = refl
create_missing-OneIndex name sch (none ∷ faults) = refl
create_missing-OneIndex name sch (some e ∷ faults) = refl

create_index-OneIndex :
    (name : String) (sch : Schema) (faults : List (Option Error))
    → has name sch.indexes ≡ false
    → OneIndex name sch (exec (create_index name) (record { schema = sch; faults = faults }))
unfolding OneIndex
create_index-OneIndex name sch [] new = rw (new, new) refl
create_index-OneIndex name sch (none ∷ faults) new = rw (new, new) refl
create_index-OneIndex name sch (some e ∷ faults) new = refl

unless_counted-OneIndex :
    (name : String) (sch : Schema) (faults : List (Option Error)) (n : ℕ)
    → count (str_eq name) sch.indexes ≡ n
    → OneIndex name sch (unless_counted name n (record { schema = sch; faults = faults }))
unfolding OneIndex
unless_counted-OneIndex name sch faults zero h =
    creating-OneIndex name sch _
      (create_index-OneIndex name sch faults (count-has name sch.indexes h))
unless_counted-OneIndex name sch faults (suc n) h =
    ap (λ (l : List String). record sch { indexes = l })
      (sym (ensure-has name sch.indexes (has-count name sch.indexes n h)))

make_index-OneIndex :
    (dialect : Dialect) (name : String) (sch : Schema) (faults : List (Option Error))
    → OneIndex name sch (make_index dialect name (record { schema = sch; faults = faults }))
unfolding OneIndex
make_index-OneIndex postgres name sch faults =
    creating-OneIndex name sch _ (create_missing-OneIndex name sch faults)
make_index-OneIndex sqlite name sch faults =
    creating-OneIndex name sch _ (create_missing-OneIndex name sch faults)
make_index-OneIndex mysql name sch [] = unless_counted-OneIndex name sch [] _ refl
make_index-OneIndex mysql name sch (none ∷ faults) = unless_counted-OneIndex name sch faults _ refl
make_index-OneIndex mysql name sch (some e ∷ faults) = refl

next-MoreIndexes :
    (name : String) (names : List String) (sch : Schema) (answer : Answer (Unit {0}))
    → OneIndex name sch answer
    → (next : Session → Answer (Unit {0}))
    → ((s : Session) → MoreIndexes names s.schema (left (next s)))
    → MoreIndexes (name ∷ names) sch (left (and_then answer (λ _. next)))
unfolding OneIndex
next-MoreIndexes name names sch (ok u, s) one next rest =
    let more : MoreIndexes names (record sch { indexes = ensure name sch.indexes })
        (left (next s)) =
      subst (λ x. MoreIndexes names x (left (next s))) one (rest s) in
    record { indexes = Ensured.made more.indexes; tables = more.tables }
next-MoreIndexes name names sch (err e, s) one next rest =
    subst (λ x. MoreIndexes (name ∷ names) sch x) (sym one)
      (record { indexes = Ensured.stopped; tables = refl })

make_indexes-MoreIndexes :
    (dialect : Dialect) (names : List String) (s : Session)
    → MoreIndexes names s.schema (left (make_indexes dialect names s))
unfolding make_indexes
make_indexes-MoreIndexes dialect [] s = record { indexes = Ensured.stopped; tables = refl }
make_indexes-MoreIndexes dialect (name ∷ names) s =
    next-MoreIndexes name names s.schema _ (make_index-OneIndex dialect name s.schema s.faults)
      (make_indexes dialect names) (make_indexes-MoreIndexes dialect names)

-- Some of the tables and some of the indexes more.
pub record More (prefix : String) (sch sch' : Schema) : Type 0 where
  pub tables : Ensured (table_names prefix) sch.tables sch'.tables
  pub indexes : Ensured (index_names prefix) sch.indexes sch'.indexes

left-pragma :
    (dialect : Dialect) (answer : Answer (Unit {0}))
    → left (and_then answer (λ _. set_busy_timeout dialect)) ≡ left answer
left-pragma dialect (err e, s) = refl
left-pragma postgres (ok u, s) = refl
left-pragma mysql (ok u, s) = refl
left-pragma sqlite (ok u, s) = on_faults s.schema s.faults
  where
    on_faults :
        (sch : Schema) (faults : List (Option Error))
        → left (set_busy_timeout sqlite (record { schema = sch; faults = faults })) ≡ sch
    on_faults sch [] = refl
    on_faults sch (none ∷ faults) = refl
    on_faults sch (some e ∷ faults) = refl

module _ (dialect : Dialect) (prefix : String) where
  abbrev pub after_tables : Session → Answer (Unit {0})
  after_tables s =
      and_then (make_indexes dialect (index_names prefix) s) (λ _. set_busy_timeout dialect)

  after_tables-More :
      (sch : Schema) (answer : Answer (Unit {0}))
      → MoreTables (table_names prefix) sch (left answer)
      → More prefix sch (left (and_then answer (λ _. after_tables)))
  after_tables-More sch (err e, s) h = record {
    tables = h.tables;
    indexes = rw h.indexes Ensured.stopped;
  }
  after_tables-More sch (ok u, s) h =
      let more = make_indexes-MoreIndexes dialect (index_names prefix) s in
      let same = left-pragma dialect (make_indexes dialect (index_names prefix) s) in
      record {
        tables =
            subst (λ l. Ensured (table_names prefix) sch.tables l)
              (sym (ap (λ (x : Schema). x.tables) same ∙ more.tables)) h.tables;
        indexes =
            subst (λ l. Ensured (index_names prefix) l (left (after_tables s)).indexes) h.indexes
              (subst (λ x. Ensured (index_names prefix) s.schema.indexes x.indexes) (sym same)
                more.indexes);
      }

  pub migrate-More : (s : Session) → More prefix s.schema (left (migrate dialect prefix s))
  unfolding migrate
  migrate-More s =
      after_tables-More s.schema (make_tables (table_names prefix) s)
        (make_tables-MoreTables (table_names prefix) s.schema s.faults)
