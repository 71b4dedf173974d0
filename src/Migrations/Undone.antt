-- ===== src/Migrations/Undone.antt =====
-- A downgrade takes back what an upgrade did (services/*/migrations/versions).
use backend_platform.Prelude.{
  ◌≡◌, refl, ◌∙◌, ap, sym, subst, Option, none, some, List, [], ◌∷◌, ◌++◌, arith, Option-cases, inl,
  inr,
}
use backend_platform.Prelude.Text.{codes}
use backend_platform.Migrations.{
  Op, Ddl, Migration, inverse, run, upgrades, downgrades, add_column, drop_column, drop_default,
  defaulted, boolean, sql,
}
use backend_platform.Migrations.AuthSchema.{
  initial_auth_schema, add_password_reset_tokens, user_security_lock_flags, auth_migrations,
}
use backend_platform.Migrations.UserSchema.{user_migrations}

pub same_value : {A : Type 0} {a b : A} → some a ≡ some b → a ≡ b
same_value h = ground (arith, h)

-- The operations that take others back, the last first.
abbrev undo : List Op → Option (List Op)
undo [] = some []
undo (op ∷ ops) = elim (inverse op) [
  | none ↦ none
  | some back ↦ elim (undo ops) [ none ↦ none | some backs ↦ some (backs ++ (back ∷ [])) ]
]

undo_cons :
    (op : Op) (ops backs : List Op)
    → undo (op ∷ ops) ≡ some backs
    → (back : Op) × (inverse op ≡ some back)
      × (bs : List Op) × (undo ops ≡ some bs)
      × (bs ++ (back ∷ []) ≡ backs)
undo_cons op ops backs h = elim (Option-cases (inverse op)) [
  | inl e ↦ absurd (ground (arith, h, e))
  | inr (back, e) ↦ elim (Option-cases (undo ops)) [
    | inl f ↦ absurd (ground (arith, h, e, f))
    | inr (bs, f) ↦ (back, e, bs, f, ground (arith, h, e, f))
  ]
]

pub data Service : Type 0 where
  auth_service : Service
  user_service : Service

abbrev pub migrations : Service → List Migration
migrations auth_service = auth_migrations
migrations user_service = user_migrations

module _ {S : Type 0} (ddl : Ddl S) where
  run_step :
      (op : Op) (ops : List Op) (s u : S)
      → ddl.apply op s ≡ some u
      → run ddl (op ∷ ops) s ≡ run ddl ops u
  unfolding run
  run_step op ops s u h = rw (h, run) refl

  refused : (op : Op) (ops : List Op) (s : S) → ddl.apply op s ≡ none → run ddl (op ∷ ops) s ≡ none
  unfolding run
  refused op ops s h = rw (h, run) refl

  run_cons :
      (op : Op) (ops : List Op) (s t : S)
      → run ddl (op ∷ ops) s ≡ some t
      → (u : S) × (ddl.apply op s ≡ some u) × (run ddl ops u ≡ some t)
  unfolding run
  run_cons op ops s t h = elim (Option-cases (ddl.apply op s)) [
    | inl e ↦ absurd (ground (arith, refused op ops s e, h))
    | inr (u, e) ↦ (u, e, sym (run_step op ops s u e) ∙ h)
  ]

  -- A run of two lists goes on from where the first ended.
  run_after :
      (ops more : List Op) (s t : S)
      → run ddl ops s ≡ some t
      → run ddl (ops ++ more) s ≡ run ddl more t
  unfolding run
  run_after [] more s t h = ap (run ddl more) (same_value h)
  run_after (op ∷ ops) more s t h =
      let (u, e, r) = run_cons op ops s t h in
      run_step op (ops ++ more) s u e ∙ run_after ops more u t r

  run_split :
      (ops more : List Op) (s t : S)
      → run ddl (ops ++ more) s ≡ some t
      → (mid : S) × (run ddl ops s ≡ some mid) × (run ddl more mid ≡ some t)
  unfolding run
  run_split [] more s t h = (s, refl, h)
  run_split (op ∷ ops) more s t h =
      let (u, e, r) = run_cons op (ops ++ more) s t h in
      let (mid, first, second) = run_split ops more u t r in
      (mid, run_step op ops s u e ∙ first, second)

  -- Whether a list of operations takes back another.
  Restores : List Op → List Op → Type 0
  Restores back ops = (s t : S) → run ddl ops s ≡ some t → run ddl back t ≡ some s

  both-Restores :
      (ops back more later : List Op)
      → Restores back ops
      → Restores later more
      → Restores (later ++ back) (ops ++ more)
  unfolding Restores
  both-Restores ops back more later first second s t h =
      let (mid, left, right) = run_split ops more s t h in
      run_after later back t mid (second mid t right) ∙ first s mid left

  -- What `undo` says takes a list of operations back.
  undo-Restores : (ops backs : List Op) → undo ops ≡ some backs → Restores backs ops
  unfolding Restores run
  undo-Restores [] backs h s t r = subst (λ b. run ddl b t ≡ some s) (same_value h) (sym r)
  undo-Restores (op ∷ ops) backs h s t r =
      let (back, e, bs, f, same) = undo_cons op ops backs h in
      let (u, applied, rest) = run_cons op ops s t r in
      subst (λ b. run ddl b t ≡ some s) same
        (run_after bs (back ∷ []) t u (undo-Restores ops bs f u t rest)
          ∙ (run_step back [] u s (ddl.undone op back s u e applied)))

  -- Two new columns that lose their defaults are dropped like any others.
  flags-Restores : Restores user_security_lock_flags.downgrade user_security_lock_flags.upgrade
  unfolding Restores run
  flags-Restores s t r =
      let users = codes "users" in
      let login = codes "login_blocked" in
      let reset = codes "password_reset_blocked" in
      let false_ = sql (codes "false") in
      let last = drop_default users reset ∷ [] in
      let third = drop_default users login ∷ last in
      let add_reset = add_column users (defaulted reset boolean false_) in
      let add_login = add_column users (defaulted login boolean false_) in
      let (s1, added_login, r1) = run_cons add_login (add_reset ∷ third) s t r in
      let (s2, added_reset, r2) = run_cons add_reset third s1 t r1 in
      let (s3, bare_login, r3) = run_cons (drop_default users login) last s2 t r2 in
      let (s4, bare_reset, r4) = run_cons (drop_default users reset) [] s3 t r3 in
      let back_reset = ddl.undone add_reset (drop_column users reset) s1 s2 refl added_reset in
      let back_login = ddl.undone add_login (drop_column users login) s s1 refl added_login in
      let (v, dropped, moved) =
        ddl.default_apart users login reset s2 s3 s1 refl bare_login back_reset in
      let first : ddl.apply (drop_column users reset) t ≡ some v =
        subst (λ x. ddl.apply (drop_column users reset) x ≡ some v) (same_value r4)
          (ddl.default_goes users reset s3 s4 bare_reset ∙ dropped) in
      run_step (drop_column users reset) (drop_column users login ∷ []) t v first
      ∙ run_step (drop_column users login) [] v s
          (ddl.default_goes users login s1 v moved ∙ back_login)

  auth-Restores : Restores (downgrades auth_migrations) (upgrades auth_migrations)
  auth-Restores =
      both-Restores initial_auth_schema.upgrade initial_auth_schema.downgrade
        (add_password_reset_tokens.upgrade ++ (user_security_lock_flags.upgrade ++ []))
        (([] ++ user_security_lock_flags.downgrade) ++ add_password_reset_tokens.downgrade)
        (undo-Restores _ _ refl)
        (both-Restores add_password_reset_tokens.upgrade add_password_reset_tokens.downgrade
          (user_security_lock_flags.upgrade ++ []) ([] ++ user_security_lock_flags.downgrade)
          (undo-Restores _ _ refl) flags-Restores)

  user-Restores : Restores (downgrades user_migrations) (upgrades user_migrations)
  user-Restores = undo-Restores _ _ refl

-- A full downgrade of the auth service or of the user service takes back a full upgrade that went
-- through: the database is again what it was.
pub downgrade_restores :
    {S : Type 0} (ddl : Ddl S) (service : Service) (before after : S)
    → run ddl (upgrades (migrations service)) before ≡ some after
    → run ddl (downgrades (migrations service)) after ≡ some before
unfolding Restores
downgrade_restores ddl auth_service = auth-Restores ddl
downgrade_restores ddl user_service = user-Restores ddl
