-- ===== src/Infra/DevEnv/Prefixed.antt =====
-- The entries that infra/scripts/generate_dev_env.py keeps are of the mail settings alone.
use backend_platform.Prelude.{
  ℕ, ◌≡◌, refl, subst, true, false, ◌||◌, Option, none, some, List, [], ◌∷◌, any, arith, ◌==◌,
  if◌then◌else◌, Option-cases, Bool-cases, inl, inr,
}
use backend_platform.Prelude.Text.{
  Text, codes, is_space, lstrip, rstrip, starts_with, strip, text_eq, text_eq_iff, is_empty,
}
use backend_platform.Prelude.Split.{is_full}
use backend_platform.Infra.RenderEnv.{Entries, partition, parse_line, get, strip_char}
use backend_platform.Infra.DevEnv.{smtp_entry, smtp_key_values_from_env_text}

abbrev mail_prefix : Text
mail_prefix = codes "SMTP_"

-- A prefix without the sign is one of the key.
abbrev KeyStarts : Text → Option (Text × Text) → Type 0
KeyStarts p none = Unit
KeyStarts p (some (k, v)) = starts_with k p ≡ true

KeyStarts-cons :
    (a : ℕ) (p : Text) (c : ℕ) (s : Text) (rest : Option (Text × Text))
    → (c == 61) ≡ false
    → (c == a) ≡ true
    → KeyStarts p rest
    → KeyStarts (a ∷ p) (
        if c == 61 then some ([], s) else elim rest [ none ↦ none | some (k, v) ↦ some (c ∷ k, v) ])
KeyStarts-cons a p c s none other same h = rw other tt
KeyStarts-cons a p c s (some (k, v)) other same h = rw (other, same) h

partition-KeyStarts :
    (p line : Text)
    → any (λ c. c == 61) p ≡ false
    → starts_with line p ≡ true
    → KeyStarts p (partition line)
partition-KeyStarts [] line h k = elim (Option-cases (partition line)) [
  | inl bare ↦ rw bare tt
  | inr ((key, v), parted) ↦ rw parted refl
]
partition-KeyStarts (a ∷ p) [] h k = cc
partition-KeyStarts (a ∷ p) (c ∷ s) h k =
    KeyStarts-cons a p c s (partition s) (ground (arith, h, k)) (ground (arith, k))
      (partition-KeyStarts p s (ground (arith, h)) (ground (arith, k)))

rstrip-starts_with :
    (p s : Text)
    → any is_space p ≡ false
    → starts_with s p ≡ true
    → starts_with (rstrip is_space s) p ≡ true
rstrip-starts_with [] s h k = refl
rstrip-starts_with (a ∷ p) [] h k = cc
rstrip-starts_with (a ∷ p) (c ∷ s) h k = ground (arith, rstrip-starts_with p s)

lstrip-starts_with :
    (p s : Text)
    → any is_space p ≡ false
    → starts_with s p ≡ true
    → starts_with (lstrip is_space s) p ≡ true
lstrip-starts_with [] s h k = refl
lstrip-starts_with (a ∷ p) [] h k = cc
lstrip-starts_with (a ∷ p) (c ∷ s) h k = ground (arith, h, k)

strip-starts_with :
    (p s : Text) → any is_space p ≡ false → starts_with s p ≡ true → starts_with (strip s) p ≡ true
strip-starts_with p s h k = lstrip-starts_with p (rstrip is_space s) h (rstrip-starts_with p s h k)

-- The key of an entry that is kept.
abbrev EntryIsMail : Option (Text × Text) → Type 0
EntryIsMail none = Unit
EntryIsMail (some (k, v)) = starts_with k mail_prefix ≡ true

stripped-IsMail :
    (o : Option (Text × Text))
    → KeyStarts mail_prefix o
    → EntryIsMail (elim o [
      | none ↦ none
      | some (k, v) ↦ some (strip k, strip_char 39 (strip_char 34 (strip v)))
    ])
stripped-IsMail none h = tt
stripped-IsMail (some (k, v)) h = strip-starts_with mail_prefix k refl h

full-IsMail :
    (o : Option (Text × Text))
    → EntryIsMail o
    → EntryIsMail (elim o [ none ↦ none | some (k, v) ↦ if is_full v then some (k, v) else none ])
full-IsMail none h = tt
full-IsMail (some (k, v)) h = elim (Bool-cases (is_full v)) [
  | inl full ↦ rw full h
  | inr blank ↦ rw blank tt
]

parse_line-IsMail :
    (line : Text) → starts_with (strip line) mail_prefix ≡ true → EntryIsMail (parse_line line)
unfolding parse_line
parse_line-IsMail line mail =
    elim (Bool-cases (is_empty (strip line) || starts_with (strip line) (codes "#"))) [
      | inl skipped ↦ rw skipped tt
      | inr read ↦ rw read (
          stripped-IsMail (partition (strip line))
            (partition-KeyStarts mail_prefix (strip line) refl mail))
    ]

smtp_entry-IsMail : (line : Text) → EntryIsMail (smtp_entry line)
unfolding smtp_entry
smtp_entry-IsMail line = elim (Bool-cases (starts_with (strip line) mail_prefix)) [
  | inr other ↦ rw other tt
  | inl mail ↦ rw mail (full-IsMail (parse_line line) (parse_line-IsMail line mail))
]

get_cons-none :
    (key : Text) (o : Option (Text × Text)) (rest : Entries)
    → starts_with key mail_prefix ≡ false
    → EntryIsMail o
    → get key rest ≡ none
    → get key (elim o [ none ↦ rest | some e ↦ e ∷ rest ]) ≡ none
unfolding get
get_cons-none key none rest other h left = left
get_cons-none key (some (k, v)) rest other h left = elim (Bool-cases (text_eq k key)) [
  | inl same ↦
      cc (other, subst (λ t. starts_with t mail_prefix ≡ true) ((text_eq_iff k key).0 same) h)
  | inr apart ↦ rw (left, apart) refl
]

-- Nothing else is taken over from an older file.
pub get-smtp_key_values :
    (key : Text) (lines : List Text)
    → starts_with key mail_prefix ≡ false
    → get key (smtp_key_values_from_env_text lines) ≡ none
unfolding smtp_key_values_from_env_text get
get-smtp_key_values key [] other = refl
get-smtp_key_values key (line ∷ lines) other =
    get_cons-none key (smtp_entry line) (smtp_key_values_from_env_text lines) other
      (smtp_entry-IsMail line) (get-smtp_key_values key lines other)
