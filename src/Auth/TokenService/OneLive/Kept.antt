-- ===== src/Auth/TokenService/OneLive/Kept.antt =====
-- The tokens of a family that are not revoked, over the operations of
-- services/auth-service/app/services/refresh_token_service.py.
use backend_platform.Prelude.{
  ℕ, ◌++◌, ◌∷◌, [], ◌≤◌, ◌≡◌, refl, sym, subst, Bool, true, false, ◌||◌, Option, none, some, List,
  arith, is_some, ◌==◌, ==_iff, update, any, count, count-append, count-update_le, count-update_lt,
  count-update_same, find, find_sound, Bool-cases, inl, inr,
}
use backend_platform.Prelude.Text.{Text, codes}
use backend_platform.Auth.Db.{RefreshToken}
use backend_platform.Auth.Errors.{Result-cases}
use backend_platform.Auth.Settings.{Settings}
use backend_platform.Auth.Providers.{Providers}
use backend_platform.Auth.World.{World}
use backend_platform.Auth.World.Keeps.{Keeps, Holds}
use backend_platform.Auth.RefreshClaims.{RefreshIds}
use backend_platform.Auth.Repositories.RefreshTokens
use backend_platform.Auth.Repositories.RefreshTokens.{
  has_jti, is_unrevoked_of_family, is_unrevoked_of_user, revoked_by_logout, rotated, revoked,
}
use backend_platform.Auth.TokenService.Checks.{IsMatch, check_rotation_sound}
use backend_platform.Auth.TokenService.Rotation.{
  successor, rotate_err_check, rotate_reused, rotate_taken, rotate_fresh,
}
use backend_platform.Auth.TokenService.Kept.{TokenProperty}
use backend_platform.Auth.TokenService.{
  NewSession, issue_for_user, check_rotation, rotate, check_record, check_revocation,
  apply_revocation, finish_revocation, revoke,
}
use backend_platform.Auth.TokenService.OneLive.{
  is_first_of_family, IsCovered, same-IsCovered, modify-IsCovered, revoke_all-IsCovered, live_rules,
}

-- A row that is found under a name is found under its own.
pub own_name :
    (jti : ℕ) (rows : List RefreshToken) (t : RefreshToken)
    → find (has_jti jti) rows ≡ some t
    → find (has_jti t.jti) rows ≡ some t
own_name jti rows t stored =
    subst (λ j. find (has_jti j) rows ≡ some t)
      (sym ((==_iff t.jti jti).0 (find_sound (has_jti jti) rows t stored))) stored

-- A rotation trades one token of its family for another.
traded :
    (family now new_jti : ℕ) (t new : RefreshToken) (rows : List RefreshToken)
    → find (has_jti t.jti) rows ≡ some t
    → t.revoked_at ≡ none
    → new.family_id ≡ t.family_id
    → count
        (is_unrevoked_of_family family)
        (update (has_jti t.jti) (rotated now new_jti) rows ++ (new ∷ []))
      ≤ count (is_unrevoked_of_family family) rows
traded family now new_jti t new rows stored fresh same =
    let dead : (r : RefreshToken) → is_unrevoked_of_family family (rotated now new_jti r) ≡ false =
      λ r. ground arith in
    elim (Bool-cases (t.family_id == family)) [
      | inl ours ↦ ground (
        arith,
        ours,
        same,
        fresh,
        count-append (is_unrevoked_of_family family)
            (update (has_jti t.jti) (rotated now new_jti) rows) (new ∷ []),
        count-update_lt (is_unrevoked_of_family family) (has_jti t.jti) (rotated now new_jti) dead
            rows t stored,
      )
      | inr other ↦ ground (
        arith,
        other,
        same,
        count-append (is_unrevoked_of_family family)
            (update (has_jti t.jti) (rotated now new_jti) rows) (new ∷ []),
        count-update_le (is_unrevoked_of_family family) (has_jti t.jti) (rotated now new_jti) dead
            rows,
      )
    ]

-- It opens no family.
traded_opens_none :
    (family now new_jti : ℕ) (t new : RefreshToken) (rows : List RefreshToken)
    → is_some new.parent_jti ≡ true
    → count
        (is_first_of_family family)
        (update (has_jti t.jti) (rotated now new_jti) rows ++ (new ∷ []))
      ≡ count (is_first_of_family family) rows
traded_opens_none family now new_jti t new rows child = ground (
  arith,
  child,
  count-append (is_first_of_family family) (update (has_jti t.jti) (rotated now new_jti) rows)
      (new ∷ []),
  count-update_same (is_first_of_family family) (has_jti t.jti) (rotated now new_jti) (λ r. refl)
      rows,
)

module _ {S : Type 0} (p : Providers) (settings : Settings) (family : ℕ) where
  issue-IsCovered :
      (user : ℕ) (ip ua : Option Text) (drawn : NewSession)
      → Keeps (IsCovered family) (issue_for_user {S = S} p settings user ip ua drawn)
  unfolding issue_for_user
  issue-IsCovered user ip ua drawn = search live_rules

  -- The states that a rotation leaves, for a token that passes the checks.
  match-IsCovered :
      (raw : Text) (ip ua : Option Text) (new_jti access_jti : ℕ) (w : World S) (ids : RefreshIds)
      (t : RefreshToken)
      → IsMatch p settings raw w.now w.db ids t
      → Holds (IsCovered family) w
      → Holds (IsCovered family) (rotate p settings raw ip ua new_jti access_jti w).1
  unfolding RefreshTokens.get_by_jti_for_update
  match-IsCovered raw ip ua new_jti access_jti w ids t m h =
      let stored = own_name ids.token_jti w.db.refresh_tokens t m.stored in
      elim (Bool-cases (is_some t.revoked_at || is_some t.rotated_at)) [
        | inl used ↦
            rw (rotate_reused p settings raw ip ua new_jti access_jti w ids t m used) (record {
              here = record {
                bound =
                    (modify-IsCovered family (is_unrevoked_of_family ids.family_id)
                      (revoked w.now (codes "reuse_detected")) (λ r. ground arith) (λ r. refl) w.db
                      h.here).bound;
              };
              there = h.there;
            })
        | inr fresh ↦
            elim (Bool-cases (
              any (has_jti new_jti)
                (update (has_jti t.jti) (rotated w.now new_jti) w.db.refresh_tokens))) [
                  | inl taken ↦
                      rw
                        (rotate_taken p settings raw ip ua new_jti access_jti w ids t m fresh taken)
                        (record {
                          here =
                              modify-IsCovered family (has_jti t.jti) (rotated w.now new_jti)
                                (λ r. ground arith) (λ r. refl) w.db h.here;
                          there = h.there;
                        })
                  | inr free ↦
                      let new = successor p settings w.now ids t ip ua new_jti in
                      rw (rotate_fresh p settings raw ip ua new_jti access_jti w ids t m fresh free)
                        (record {
                          here = record {
                            bound = ground (
                              arith,
                              h.here.bound,
                              traded family w.now new_jti t new w.db.refresh_tokens stored
                                  (ground arith) (sym m.family),
                              traded_opens_none family w.now new_jti t new w.db.refresh_tokens refl,
                            );
                          };
                          there = h.there;
                        })
                ]
      ]

  rotate-IsCovered :
      (raw : Text) (ip ua : Option Text) (new_jti access_jti : ℕ)
      → Keeps (IsCovered family) (rotate {S = S} p settings raw ip ua new_jti access_jti)
  rotate-IsCovered raw ip ua new_jti access_jti = record {
    at = λ w h. elim (Result-cases (check_rotation p settings raw w).0) [
      | inr (e, refused) ↦
          rw (rotate_err_check p settings raw ip ua new_jti access_jti w e refused) h
      | inl ((ids, t), passed) ↦
          match-IsCovered raw ip ua new_jti access_jti w ids t
            (check_rotation_sound p settings raw w ids t passed) h
    ];
  }

  check_record-IsCovered :
      (raw : Text) (ids : RefreshIds) (found : Option RefreshToken)
      → Keeps (IsCovered family) (check_record {S = S} p settings raw ids found)
  unfolding check_record
  check_record-IsCovered raw ids none = search live_rules
  check_record-IsCovered raw ids (some t) = search live_rules

  finish_revocation-IsCovered :
      (all : Bool) (reason : Text) (checked : Option (RefreshIds × RefreshToken))
      → Keeps (IsCovered family) (finish_revocation {S = S} p settings all reason checked)
  unfolding finish_revocation apply_revocation
  finish_revocation-IsCovered all reason none = search live_rules
  finish_revocation-IsCovered all reason (some (ids, t)) = search live_rules

  revoke-IsCovered :
      (raw : Text) (all : Bool) (reason : Text)
      → Keeps (IsCovered family) (revoke {S = S} p settings raw all reason)
  unfolding revoke check_revocation
  revoke-IsCovered raw all reason =
      search (live_rules, check_record-IsCovered, finish_revocation-IsCovered)

  -- No operation adds to the tokens of a family that are not revoked, but the one that opens it.
  pub IsCovered-kept : TokenProperty S p settings (IsCovered family)
  IsCovered-kept = record {
    same = same-IsCovered family;
    issue = issue-IsCovered;
    rotates = rotate-IsCovered;
    revokes = revoke-IsCovered;
    revokes_all = revoke_all-IsCovered family;
  }
