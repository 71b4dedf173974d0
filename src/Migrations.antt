-- ===== src/Migrations.antt =====
-- The operations of alembic that services/*/migrations/versions use, and the database that they change
-- as an interface with what alembic and PostgreSQL document of them.
pub mod AuthSchema
pub mod UserSchema
pub mod Undone
use backend_platform.Prelude.{ℕ, ◌≡◌, Bool, true, false, Option, none, some, List, [], ◌∷◌, ◌++◌}
use backend_platform.Prelude.Text.{Text, text_eq}

pub data Kind : Type 0 where
  uuid : Kind
  string : ℕ → Kind
  text : Kind
  boolean : Kind
  integer : Kind
  timestamp : Kind
  jsonb : Kind

-- A default of the server: a value, or an expression.
pub data ServerDefault : Type 0 where
  literal : Text → ServerDefault
  sql : Text → ServerDefault

pub record Column : Type 0 where
  pub name : Text
  pub kind : Kind
  pub nullable : Bool
  pub server_default : Option ServerDefault

abbrev pub required : Text → Kind → Column
required name kind = record { name = name; kind = kind; nullable = false; server_default = none }

abbrev pub optional : Text → Kind → Column
optional name kind = record { name = name; kind = kind; nullable = true; server_default = none }

abbrev pub defaulted : Text → Kind → ServerDefault → Column
defaulted name kind d = record {
  name = name;
  kind = kind;
  nullable = false;
  server_default = some d;
}

-- A foreign key has one column here, and rows go with the row that they point to.
pub data Constraint : Type 0 where
  primary_key : Text → List Text → Constraint
  unique : Text → List Text → Constraint
  foreign_key : Text → Text → Text → Constraint

pub record Table : Type 0 where
  pub name : Text
  pub columns : List Column
  pub constraints : List Constraint

-- An index has a name, a table, columns, and is unique or not. `drop_default` is `alter_column` with
-- `server_default=None`.
pub data Op : Type 0 where
  create_table : Table → Op
  drop_table : Text → Op
  create_index : Text → Text → List Text → Bool → Op
  drop_index : Text → Text → Op
  add_column : Text → Column → Op
  drop_column : Text → Text → Op
  drop_default : Text → Text → Op

pub record Migration : Type 0 where
  pub revision : Text
  pub down_revision : Option Text
  pub upgrade : List Op
  pub downgrade : List Op

-- The operation that takes another back.
abbrev pub inverse : Op → Option Op
inverse (create_table t) = some (drop_table t.name)
inverse (create_index name table columns is_unique) = some (drop_index name table)
inverse (add_column table column) = some (drop_column table column.name)
inverse (drop_table _) = none
inverse (drop_index _ _) = none
inverse (drop_column _ _) = none
inverse (drop_default _ _) = none

-- A database, its tables and its rows. `none` where an operation is refused.
pub record Ddl (S : Type 0) : Type 0 where
  pub apply : Op → S → Option S
  -- What was just made is dropped without a trace.
  pub undone :
      (op back : Op) (s t : S)
      → inverse op ≡ some back
      → apply op s ≡ some t
      → apply back t ≡ some s
  -- A column goes with its default, whichever that is.
  pub default_goes :
      (table column : Text) (s t : S)
      → apply (drop_default table column) s ≡ some t
      → apply (drop_column table column) t ≡ apply (drop_column table column) s
  -- The default of one column and another column have nothing to do with each other.
  pub default_apart :
      (table column other : Text) (s t u : S)
      → text_eq column other ≡ false
      → apply (drop_default table column) s ≡ some t
      → apply (drop_column table other) s ≡ some u
      → (v : S) × (apply (drop_column table other) t ≡ some v)
        × (apply (drop_default table column) u ≡ some v)

module _ {S : Type 0} (ddl : Ddl S) where
  unfoldable pub run : List Op → S → Option S
  run [] s = some s
  run (op ∷ ops) s = elim (ddl.apply op s) [ none ↦ none | some t ↦ run ops t ]

-- The operations of an upgrade from nothing, and of a downgrade to nothing.
abbrev pub upgrades : List Migration → List Op
upgrades [] = []
upgrades (m ∷ ms) = m.upgrade ++ upgrades ms

abbrev pub downgrades : List Migration → List Op
downgrades [] = []
downgrades (m ∷ ms) = downgrades ms ++ m.downgrade
