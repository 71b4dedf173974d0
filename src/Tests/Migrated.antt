-- ===== src/Tests/Migrated.antt =====
-- The migrations on a database that remembers how to take back what was done to it.
use backend_platform.Prelude.{
  ◌≡◌, refl, ◌&&◌, subst, Bool, false, Option, none, some, List, [], ◌∷◌, if◌then◌else◌,
}
use backend_platform.Prelude.Text.{text_eq, text_eq_refl}
use backend_platform.Migrations.{
  Op, create_table, drop_table, create_index, drop_index, add_column, drop_column, drop_default,
  inverse, Ddl, run, upgrades, downgrades,
}
use backend_platform.Migrations.Undone.{same_value, auth_service, migrations, downgrade_restores}

abbrev same_op : Op → Op → Bool
same_op (drop_table a) (drop_table b) = text_eq a b
same_op (drop_index a c) (drop_index b d) = text_eq a b && text_eq c d
same_op (drop_column a c) (drop_column b d) = text_eq a b && text_eq c d
same_op _ _ = false

abbrev pop : Op → List Op → Option (List Op)
pop op [] = none
pop op (top ∷ rest) = if same_op op top then some rest else none

abbrev step : Op → List Op → Option (List Op)
step (create_table t) s = some (drop_table t.name ∷ s)
step (create_index name table columns is_unique) s = some (drop_index name table ∷ s)
step (add_column table column) s = some (drop_column table column.name ∷ s)
step (drop_table name) s = pop (drop_table name) s
step (drop_index name table) s = pop (drop_index name table) s
step (drop_column table column) s = pop (drop_column table column) s
step (drop_default table column) s = some s

step-undone :
    (op back : Op) (s t : List Op)
    → inverse op ≡ some back
    → step op s ≡ some t
    → step back t ≡ some s
step-undone (create_table x) back s t h r =
    subst (λ b. step b t ≡ some s) (same_value h)
      (subst (λ u. step (drop_table x.name) u ≡ some s) (same_value r)
        (rw (text_eq_refl x.name) refl))
step-undone (create_index name table columns is_unique) back s t h r =
    subst (λ b. step b t ≡ some s) (same_value h)
      (subst (λ u. step (drop_index name table) u ≡ some s) (same_value r)
        (rw (text_eq_refl name, text_eq_refl table) refl))
step-undone (add_column table column) back s t h r =
    subst (λ b. step b t ≡ some s) (same_value h)
      (subst (λ u. step (drop_column table column.name) u ≡ some s) (same_value r)
        (rw (text_eq_refl table, text_eq_refl column.name) refl))
step-undone (drop_table _) back s t h r = cc
step-undone (drop_index _ _) back s t h r = cc
step-undone (drop_column _ _) back s t h r = cc
step-undone (drop_default _ _) back s t h r = cc

abbrev stack : Ddl (List Op)
stack = record {
  apply = step;
  undone = step-undone;
  default_goes = λ table column s t h.
      subst (λ u. pop (drop_column table column) u ≡ pop (drop_column table column) s)
        (same_value h) refl;
  default_apart = λ table column other s t u apart h dropped.
      (u, subst (λ x. pop (drop_column table other) x ≡ some u) (same_value h) dropped, refl);
}

upgraded :
    run stack (upgrades (migrations auth_service)) [] ≡ some (downgrades (migrations auth_service))
unfolding run
upgraded = refl

downgrade_restores_example :
    run stack (downgrades (migrations auth_service)) (downgrades (migrations auth_service))
    ≡ some []
downgrade_restores_example =
    downgrade_restores stack auth_service [] (downgrades (migrations auth_service)) upgraded
