-- ===== src/Auth/TokenService/Refines.antt =====
-- A family of refresh tokens as a machine: the names of its tokens that are not revoked, and what
-- `rotate` of services/auth-service/app/services/refresh_token_service.py makes of them.
use backend_platform.Prelude.{
  ℕ, ◌≡◌, refl, sym, ◌∙◌, ap, subst, true, false, Bool, ◌||◌, Option, some, List, [], ◌∷◌, ◌++◌,
  map, arith, is_some, ◌==◌, delete, select, select-clears, update, any, find, Bool-cases, inl, inr,
}
use backend_platform.Prelude.Text.{Text, codes}
use backend_platform.Auth.Db.{Db, RefreshToken}
use backend_platform.Auth.Errors.{
  Error, Result, ok, err, Result-cases, ok_injective, token_reuse_detected, integrity_error,
}
use backend_platform.Auth.Settings.{Settings}
use backend_platform.Auth.Providers.{Providers}
use backend_platform.Auth.World.{World, ◌>>=◌}
use backend_platform.Auth.Jwt.{refresh, decode_and_validate}
use backend_platform.Auth.RefreshClaims.{RefreshIds, refresh_ids}
use backend_platform.Auth.Repositories.RefreshTokens
use backend_platform.Auth.Repositories.RefreshTokens.{
  has_jti, is_unrevoked_of_family, rotated, revoked,
}
use backend_platform.Auth.TokenService.Checks.{IsMatch, check_rotation_sound}
use backend_platform.Auth.TokenService.Rotation.{
  successor, new_pair, rotate_err_check, rotate_reused, rotate_taken, rotate_fresh,
}
use backend_platform.Auth.TokenService.OneLive.Kept.{own_name}
use backend_platform.Auth.TokenService.{TokenPair, check_rotation, rotate}

-- The names of a family's tokens that are not revoked.
abbrev names : ℕ → List RefreshToken → List ℕ
names family rows = map (λ t. t.jti) (select (is_unrevoked_of_family family) rows)

abbrev pub view : ℕ → Db → List ℕ
view family db = names family db.refresh_tokens

abbrev pub is_reuse : Error → Bool
is_reuse (token_reuse_detected _ _) = true
is_reuse _ = false

-- What a rotation may do to a family, by its outcome: it trades one name for another, it ends the
-- family, which is what a detected reuse always does, it loses the name whose successor's is taken, or
-- it does nothing.
pub data Moves (family : ℕ) (v : List ℕ) (r : Result TokenPair) (v' : List ℕ) : Type 0 where
  trades :
      (pair : TokenPair) (old new : ℕ)
      → r ≡ ok pair
      → any (λ j. j == old) v ≡ true
      → v' ≡ delete (λ j. j == old) v ++ (new ∷ [])
      → Moves family v r v'
  ends :
      (session : ℕ) → r ≡ err (token_reuse_detected session family) → v' ≡ [] → Moves family v r v'
  loses : (old : ℕ) → r ≡ err integrity_error → v' ≡ delete (λ j. j == old) v → Moves family v r v'
  stays : (e : Error) → is_reuse e ≡ false → r ≡ err e → v' ≡ v → Moves family v r v'

-- What the checks raise is never that a token was used again.
decode_and_validate-is_reuse :
    (p : Providers) (settings : Settings) (raw : Text) (now : ℕ) (e : Error)
    → decode_and_validate p settings raw refresh now ≡ err e
    → is_reuse e ≡ false
unfolding decode_and_validate
decode_and_validate-is_reuse p settings raw now e h = ground (arith, h)

refresh_ids-is_reuse :
    (p : Providers) (settings : Settings) (raw : Text) (now : ℕ) (e : Error)
    → refresh_ids p settings raw now ≡ err e
    → is_reuse e ≡ false
unfolding refresh_ids
refresh_ids-is_reuse p settings raw now e h =
    ground (arith, h, decode_and_validate-is_reuse p settings raw now e)

check_rotation-is_reuse :
    {S : Type 0} (p : Providers) (settings : Settings) (raw : Text) (w : World S) (e : Error)
    → (check_rotation p settings raw w).0 ≡ err e
    → is_reuse e ≡ false
unfolding check_rotation ◌>>=◌
check_rotation-is_reuse p settings raw w e h =
    ground (arith, h, refresh_ids-is_reuse p settings raw w.now e)

names-rotated :
    (family now new_jti jti : ℕ) (rows : List RefreshToken)
    → names family (update (has_jti jti) (rotated now new_jti) rows)
      ≡ delete (λ j. j == jti) (names family rows)
names-rotated family now new_jti jti [] = refl
names-rotated family now new_jti jti (t ∷ rows) =
    ground (arith, names-rotated family now new_jti jti rows)

names-append :
    (family : ℕ) (rows : List RefreshToken) (t : RefreshToken)
    → names family (rows ++ (t ∷ [])) ≡ names family rows ++ names family (t ∷ [])
names-append family [] t = refl
names-append family (s ∷ rows) t = ground (arith, names-append family rows t)

names-found :
    (family jti : ℕ) (rows : List RefreshToken) (t : RefreshToken)
    → find (has_jti jti) rows ≡ some t
    → is_unrevoked_of_family family t ≡ true
    → any (λ j. j == jti) (names family rows) ≡ true
names-found family jti [] t h live = cc
names-found family jti (s ∷ rows) t h live = ground (arith, names-found family jti rows t, h, live)

module _ {S : Type 0} (p : Providers) (settings : Settings) (raw : Text) (ip ua : Option Text)
    (new_jti access_jti : ℕ) where
  match-Moves :
      (w : World S) (ids : RefreshIds) (t : RefreshToken)
      → IsMatch p settings raw w.now w.db ids t
      → Moves ids.family_id
          (view ids.family_id w.db)
          (rotate p settings raw ip ua new_jti access_jti w).0
          (view ids.family_id (rotate p settings raw ip ua new_jti access_jti w).1.db)
  unfolding RefreshTokens.get_by_jti_for_update
  match-Moves w ids t m =
      let rows = w.db.refresh_tokens in
      let stored = own_name ids.token_jti rows t m.stored in
      elim (Bool-cases (is_some t.revoked_at || is_some t.rotated_at)) [
        | inl used ↦ rw (rotate_reused p settings raw ip ua new_jti access_jti w ids t m used) (
            ends ids.session_id refl (
              ap (map (λ (r : RefreshToken). r.jti)) (
                select-clears (is_unrevoked_of_family ids.family_id)
                  (revoked w.now (codes "reuse_detected")) (λ r. ground arith) rows)))
        | inr fresh ↦
            elim (Bool-cases
              (any (has_jti new_jti) (update (has_jti t.jti) (rotated w.now new_jti) rows))) [
                | inl taken ↦
                    rw (rotate_taken p settings raw ip ua new_jti access_jti w ids t m fresh taken)
                      (loses t.jti refl (names-rotated ids.family_id w.now new_jti t.jti rows))
                | inr free ↦
                    let new = successor p settings w.now ids t ip ua new_jti in
                    rw (rotate_fresh p settings raw ip ua new_jti access_jti w ids t m fresh free) (
                      trades (new_pair p settings raw ip ua new_jti access_jti ids w) t.jti new_jti
                        refl
                        (names-found ids.family_id t.jti rows t stored
                          (ground (arith, fresh, m.family)))
                        (ground (
                          arith,
                          names-append ids.family_id
                              (update (has_jti t.jti) (rotated w.now new_jti) rows) new,
                          names-rotated ids.family_id w.now new_jti t.jti rows,
                        )))
              ]
      ]

  -- Every rotation is a move of the machine on the family that the token names: with success one name
  -- that was usable gives way to one other, with a detected reuse none is left, and with any other
  -- failure none is added.
  pub rotate-Moves :
      (w : World S) (ids : RefreshIds)
      → refresh_ids p settings raw w.now ≡ ok ids
      → Moves ids.family_id
          (view ids.family_id w.db)
          (rotate p settings raw ip ua new_jti access_jti w).0
          (view ids.family_id (rotate p settings raw ip ua new_jti access_jti w).1.db)
  rotate-Moves w ids named = elim (Result-cases (check_rotation p settings raw w).0) [
    | inr (e, refused) ↦
        rw (rotate_err_check p settings raw ip ua new_jti access_jti w e refused)
          (stays e (check_rotation-is_reuse p settings raw w e refused) refl refl)
    | inl ((ids', t), passed) ↦
        let m = check_rotation_sound p settings raw w ids' t passed in
        let same : ids' ≡ ids = ok_injective ids' ids (sym m.named ∙ named) in
        match-Moves w ids t (subst (λ i. IsMatch p settings raw w.now w.db i t) same m)
  ]
