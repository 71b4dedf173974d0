-- ===== src/Auth/Repositories/Users.antt =====
-- services/auth-service/app/repositories/user_repository.py
use backend_platform.Prelude.{
  ℕ, Bool, true, false, Option, [], ◌∷◌, ◌++◌, find, update, any, ◌||◌, ◌==◌,
}
use backend_platform.Prelude.Text.{Text, text_eq, lower}
use backend_platform.Auth.Db.{Db, User}
use backend_platform.Auth.World.{Action, flush, modify, pure, ◌>>◌}

abbrev pub has_email : Text → User → Bool
has_email email u = text_eq u.email email

unfoldable pub get_by_email : Text → Db → Option User
get_by_email email db = find (has_email (lower email)) db.users

unfoldable pub get_by_id : ℕ → Db → Option User
get_by_id user_id db = find (λ u. u.id == user_id) db.users

module _ {S : Type 0} where
  -- A row with the defaults of the model; the column `email` and the key `id`, which `uuid4` draws,
  -- are unique.
  unfoldable pub create : ℕ → Text → Text → Action S User
  create id email password_hash =
      let user : User = record {
        id = id;
        email = lower email;
        password_hash = password_hash;
        is_active = true;
        is_superuser = false;
        two_factor_enabled = false;
        login_blocked = false;
        password_reset_blocked = false;
      } in
      flush (λ db. any (λ u. has_email user.email u || u.id == id) db.users)
        (λ db. record db { users = db.users ++ (user ∷ []) })
      >> pure user

  -- The changed object's row.
  unfoldable pub save : User → Action S (Unit {0})
  save user = modify λ db. record db { users = update (λ u. u.id == user.id) (λ _. user) db.users }

  unfoldable pub update_password : User → Text → Action S User
  unfolding save
  update_password user password_hash =
      let user' : User = record user {
        password_hash = password_hash;
        login_blocked = false;
        password_reset_blocked = false;
      } in
      save user' >> pure user'
