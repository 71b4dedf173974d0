-- ===== src/Users/Bootstrap.antt =====
-- What a request of a new user leaves behind, and who may assign roles.
use backend_platform.Prelude.{
  ℕ, ◌≡◌, ◌⊎◌, ◌∙◌, refl, true, false, Option, some, List, [], ◌∷◌, any, any-append, ==_refl,
  is_some, arith, Option-cases, Bool-cases, inl, inr,
}
use backend_platform.Prelude.Text.{Text, codes}
use backend_platform.Users.Store.{
  Store, Session, Role, Error, ok, err, forbidden, not_found, bad_request, ◌>>=◌, in_session,
  Result-cases,
}
use backend_platform.Users.Service.{
  UserContext, get_by_id, get_by_subject, bootstrap_found, bootstrap_from_subject,
  context_for_subject, create_user, ensure_default_user_role, assign_role_to_user,
  assign_role_by_name, get_role_by_name, is_pair, with_pair, log_event,
}
use backend_platform.Users.Endpoints.{
  get_current_context, my_profile, assign_role, ensure_permission,
}

any-with_pair : (a b : ℕ) (rows : List (ℕ × ℕ)) → any (is_pair a b) (with_pair a b rows) ≡ true
any-with_pair a b rows = elim (Bool-cases (any (is_pair a b) rows)) [
  | inl there ↦ rw there there
  | inr new ↦
      rw new (any-append (is_pair a b) rows ((a, b) ∷ []) ∙ (rw (new, ==_refl a, ==_refl b) refl))
]

module _ (subject : ℕ) (subject_text : Text) (ip ua : Option Text) where
  -- Every write of the bootstrap is flushed at once, so that nothing is new to the session when the
  -- handler looks whether to commit.
  bootstrap_flushed :
      (w : Session)
      → w.unflushed ≡ false
      → ((bootstrap_from_subject subject subject_text ip ua w).1.unflushed ≡ false)
        × ((bootstrap_from_subject subject subject_text ip ua w).1.committed ≡ w.committed)
  unfolding bootstrap_from_subject bootstrap_found ◌>>=◌ create_user ensure_default_user_role
      assign_role_to_user log_event
  bootstrap_flushed w h = elim (Option-cases (get_by_subject subject_text w.store)) [
    | inr (u, e) ↦ ground (arith, e, h)
    | inl e ↦ elim (Option-cases (get_role_by_name (codes "user") w.store)) [
      | inl e' ↦ ground (arith, e, e', h)
      | inr (r, e') ↦ ground (arith, e, e', h)
    ]
  ]

  -- The session of a request as it opens.
  abbrev pub opened : Store → Session
  opened s = record { store = s; committed = s; unflushed = false }

  get_current_context_reads :
      (w : Session)
      → w.unflushed ≡ false
      → (get_current_context subject subject_text ip ua w).1.committed ≡ w.committed
  unfolding get_current_context context_for_subject ◌>>=◌
  get_current_context_reads w h =
      let (flushed, kept) = bootstrap_flushed w h in ground (arith, flushed, kept)

  -- A request for one's own profile commits nothing, whatever its outcome: the user that it
  -- creates for a new subject, with the profile, the role and the audit event, is lost when its
  -- session closes.
  pub my_profile_stores_nothing :
      (s : Store) → (in_session (my_profile subject subject_text ip ua) s).1 ≡ s
  unfolding in_session my_profile ensure_permission ◌>>=◌
  my_profile_stores_nothing s = ground (
    arith,
    get_current_context_reads (record { store = s; committed = s; unflushed = false }) refl,
  )

  -- What `assign_role` does for a caller who may assign roles, to a user and with a role that there are.
  pub record IsGranted (user_id : ℕ) (role_name : Text) (s s' : Store) : Type 0 where
    pub context : UserContext
    pub caller : (get_current_context subject subject_text ip ua (opened s)).0 ≡ ok context
    pub may_assign : context.permissions (codes "roles:assign") ≡ true
    pub target :
        is_some
          (get_by_id user_id (get_current_context subject subject_text ip ua (opened s)).1.store)
        ≡ true
    pub role : Role
    pub named :
        get_role_by_name role_name
          (get_current_context subject subject_text ip ua (opened s)).1.store
        ≡ some role
    pub assigned : any (is_pair user_id role.id) s'.user_roles ≡ true

  -- A request to assign a role changes the tables only where it succeeds, and it succeeds only for a
  -- caller whose own roles grant `roles:assign`, with a user and a role that there are: the user then
  -- has the role.
  pub assign_role_permitted :
      (user_id : ℕ) (role_name : Text) (s : Store)
      → (((in_session (assign_role subject subject_text ip ua user_id role_name) s).0 ≡ ok tt)
          × IsGranted user_id role_name s
              (in_session (assign_role subject subject_text ip ua user_id role_name) s).1)
        ⊎ ((e : Error) × ((in_session
                (assign_role subject subject_text ip ua user_id role_name)
                s).0
              ≡ err e)
            × ((in_session (assign_role subject subject_text ip ua user_id role_name) s).1 ≡ s))
  unfolding in_session assign_role ensure_permission ◌>>=◌ assign_role_by_name assign_role_to_user
      log_event
  assign_role_permitted user_id role_name s =
      let w = (get_current_context subject subject_text ip ua (opened s)).1 in
      let kept = get_current_context_reads (opened s) refl in
      elim (Result-cases (get_current_context subject subject_text ip ua (opened s)).0) [
        | inr (e, bad) ↦ inr (e, ground (arith, bad), ground (arith, bad, kept))
        | inl (context, good) ↦ elim (Bool-cases (context.permissions (codes "roles:assign"))) [
          | inr denied ↦
              inr (forbidden, ground (arith, good, denied), ground (arith, good, denied, kept))
          | inl may ↦ elim (Option-cases (get_by_id user_id w.store)) [
            | inl missing ↦ inr (
              not_found,
              ground (arith, good, may, missing),
              ground (arith, good, may, missing, kept),
            )
            | inr (user, there) ↦ elim (Option-cases (get_role_by_name role_name w.store)) [
              | inl unknown ↦ inr (
                bad_request,
                ground (arith, good, may, there, unknown),
                ground (arith, good, may, there, unknown, kept),
              )
              | inr (role, named) ↦ inl (
                ground (arith, good, may, there, named),
                record {
                  context = context;
                  caller = good;
                  may_assign = may;
                  target = ground (arith, there);
                  role = role;
                  named = named;
                  assigned = ground (
                    arith,
                    good,
                    may,
                    there,
                    named,
                    any-with_pair user_id role.id w.store.user_roles,
                  );
                },
              )
            ]
          ]
        ]
      ]
