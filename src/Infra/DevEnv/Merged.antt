-- ===== src/Infra/DevEnv/Merged.antt =====
-- The mail settings survive a forced run of infra/scripts/generate_dev_env.py.
use backend_platform.Prelude.{
  ℕ, ◌≡◌, refl, sym, ap, subst, ◌∙◌, true, false, Bool, ◌&&◌, Option, none, some, List, [], ◌∷◌,
  ◌++◌, any, arith, ◌==◌, if◌then◌else◌, is_some, Option-cases, Bool-cases, inl, inr,
}
use backend_platform.Prelude.Text.{Text, codes, drop_prefix, text_eq, text_eq_iff, strip}
use backend_platform.Infra.RenderEnv.{Entries, partition, get}
use backend_platform.Infra.RenderEnv.Dotenv.{raw_value}
use backend_platform.Infra.DevEnv.{merge_line, merge_smtp_into_auth_env, auth_env, DevSecrets}

-- The value of a line that starts with a key and the sign.
abbrev value_under : Text → Option (Text × Text) → Option Text
value_under key none = none
value_under key (some (k, v)) = if text_eq k key then some v else none

drop_prefix-partition :
    (key line : Text)
    → any (λ c. c == 61) key ≡ false
    → drop_prefix line (key ++ codes "=") ≡ value_under key (partition line)
drop_prefix-partition [] [] h = refl
drop_prefix-partition [] (c ∷ s) h = ground arith
drop_prefix-partition (a ∷ key) [] h = refl
drop_prefix-partition (a ∷ key) (c ∷ s) h = ground (arith, drop_prefix-partition key s)

-- A key that a line was parted at holds no sign, and the line is put together again.
partition-append :
    (k v : Text) → any (λ c. c == 61) k ≡ false → partition (k ++ (61 ∷ v)) ≡ some (k, v)
partition-append [] v h = refl
partition-append (c ∷ k) v h = ground (arith, partition-append k v)

abbrev HasKey : Option (Text × Text) → Type 0
HasKey none = Unit
HasKey (some (k, v)) = any (λ c. c == 61) k ≡ false

HasKey-cons :
    (c : ℕ) (s : Text) (rest : Option (Text × Text))
    → HasKey rest
    → HasKey (
        if c == 61 then some ([], s) else elim rest [ none ↦ none | some (k, v) ↦ some (c ∷ k, v) ])
HasKey-cons c s none h = elim (Bool-cases (c == 61)) [
  | inl sign ↦ rw sign refl
  | inr other ↦ rw other tt
]
HasKey-cons c s (some (k, v)) h = elim (Bool-cases (c == 61)) [
  | inl sign ↦ rw sign refl
  | inr other ↦ rw other (ground (arith, other, h))
]

-- The key of a line holds no sign.
partition-HasKey : (line : Text) → HasKey (partition line)
partition-HasKey [] = tt
partition-HasKey (c ∷ s) = HasKey-cons c s (partition s) (partition-HasKey s)

-- A value, or what the entries have for its key.
abbrev pub overridden : Entries → Text → Option Text → Option Text
overridden smtp key none = none
overridden smtp key (some v) = elim (get key smtp) [ none ↦ some v | some w ↦ some w ]

-- A line whose key is stripped.
abbrev pub is_tidy_key : Option (Text × Text) → Bool
is_tidy_key none = true
is_tidy_key (some (k, v)) = text_eq (strip k) k

abbrev pub all_tidy : List Text → Bool
all_tidy [] = true
all_tidy (line ∷ lines) = is_tidy_key (partition line) && all_tidy lines

module _ (smtp : Entries) (line : Text) where
  merge_line_bare : partition line ≡ none → merge_line smtp line ≡ line
  unfolding merge_line
  merge_line_bare bare = rw (bare, merge_line) refl

  module _ (k v : Text) (parted : partition line ≡ some (k, v)) where
    merge_line_left : get (strip k) smtp ≡ none → merge_line smtp line ≡ line
    unfolding merge_line
    merge_line_left left = rw (parted, merge_line) (rw (left, merge_line) refl)

    merge_line_set :
        (w : Text) → get (strip k) smtp ≡ some w → merge_line smtp line ≡ strip k ++ (61 ∷ w)
    unfolding merge_line
    merge_line_set w found = rw (parted, merge_line) (rw (found, merge_line) refl)

module _ (smtp : Entries) (key : Text) where
  -- The same for a line that is parted.
  parted-overridden :
      (line k v : Text)
      → partition line ≡ some (k, v)
      → text_eq (strip k) k ≡ true
      → value_under key (partition (merge_line smtp line))
        ≡ overridden smtp key (value_under key (some (k, v)))
  parted-overridden line k v parted tidy =
      let stripped = (text_eq_iff (strip k) k).0 tidy in
      let signless : any (λ c. c == 61) k ≡ false = subst HasKey parted (partition-HasKey line) in
      elim (Option-cases (get k smtp)) [
        | inl left ↦
            rw (merge_line_left smtp line k v parted (ap (λ t. get t smtp) stripped ∙ left), parted)
              (elim (Bool-cases (text_eq k key)) [
                | inl same ↦
                    let here = ap (λ t. get t smtp) (sym ((text_eq_iff k key).0 same)) ∙ left in
                    ground (arith, same, here)
                | inr other ↦ rw other refl
              ])
        | inr (w, found) ↦
            rw
              (
                merge_line_set smtp line k v parted w (ap (λ t. get t smtp) stripped ∙ found),
                stripped,
                partition-append k w signless,
              )
              (elim (Bool-cases (text_eq k key)) [
                | inl same ↦
                    let here = ap (λ t. get t smtp) (sym ((text_eq_iff k key).0 same)) ∙ found in
                    ground (arith, same, here)
                | inr other ↦ rw other refl
              ])
      ]

  merge_line-overridden :
      (line : Text)
      → is_tidy_key (partition line) ≡ true
      → value_under key (partition (merge_line smtp line))
        ≡ overridden smtp key (value_under key (partition line))
  merge_line-overridden line tidy = elim (Option-cases (partition line)) [
    | inl bare ↦ rw (merge_line_bare smtp line bare, bare) refl
    | inr ((k, v), parted) ↦ rw parted (parted-overridden line k v parted (rw parted at tidy))
  ]

  overridden-later :
      (later here : Option Text)
      → (if is_some (overridden smtp key later)
          then overridden smtp key later
          else overridden smtp key here)
        ≡ overridden smtp key (if is_some later then later else here)
  overridden-later none here = refl
  overridden-later (some v) here = ground arith

  module _ (signless : any (λ c. c == 61) key ≡ false) where
    -- A file that is merged gives for a key what the entries have for it, where the file has it at all.
    pub raw_value-merge :
        (lines : List Text)
        → all_tidy lines ≡ true
        → raw_value key (merge_smtp_into_auth_env lines smtp)
          ≡ overridden smtp key (raw_value key lines)
    unfolding raw_value merge_smtp_into_auth_env
    raw_value-merge [] tidy = refl
    raw_value-merge (line ∷ lines) tidy =
        rw
          (
            raw_value-merge lines (ground (arith, tidy)),
            drop_prefix-partition key (merge_line smtp line) signless,
            drop_prefix-partition key line signless,
            merge_line-overridden line (ground (arith, tidy)),
          )
          (overridden-later (raw_value key lines) (value_under key (partition line)))

pub auth_env-tidy : (s : DevSecrets) → all_tidy (auth_env s) ≡ true
unfolding auth_env
auth_env-tidy s = refl
