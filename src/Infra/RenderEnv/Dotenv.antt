-- ===== src/Infra/RenderEnv/Dotenv.antt =====
-- What a reader of environment files (python-dotenv, behind the settings of the services) makes of the
-- lines that infra/scripts write: a parameter with the documented rules for plain and quoted values.
use backend_platform.Prelude.{
  ℕ, ◌≡◌, ◌||◌, ◌==◌, Bool, false, Option, none, some, List, [], ◌∷◌, ◌++◌, All, any, is_some,
  if◌then◌else◌,
}
use backend_platform.Prelude.Text.{Text, codes, drop_prefix, is_space}
use backend_platform.Infra.RenderEnv.Files.{escape_pem}

-- What stands behind `KEY=` in the last line that starts so.
unfoldable pub raw_value : Text → List Text → Option Text
raw_value key [] = none
raw_value key (line ∷ lines) =
    let later = raw_value key lines in
    if is_some later then later else drop_prefix line (key ++ codes "=")

-- The characters that may mean something else than themselves in a line without quotes, and in a value
-- between double quotes.
abbrev pub needs_care : ℕ → Bool
needs_care c = is_space c || (c == 34 || (c == 35 || (c == 36 || c == 39)))

abbrev pub is_escape : ℕ → Bool
is_escape c = c == 34 || (c == 36 || c == 92)

-- A line in which every character stands for itself, or one with a value between double quotes.
pub data IsLine : Text → Type 0 where
  plain : (line : Text) → any needs_care line ≡ false → IsLine line
  quoted :
      (key value : Text)
      → any needs_care key ≡ false
      → any is_escape value ≡ false
      → IsLine (key ++ (codes "=\"" ++ (escape_pem value ++ codes "\"")))

-- The text that a reader finds under a key in a file of such lines.
pub record Dotenv (dotenv : List Text → Text → Option Text) : Type 0 where
  pub reads_plain :
      (lines : List Text) (key value : Text)
      → All IsLine lines
      → raw_value key lines ≡ some value
      → any needs_care value ≡ false
      → dotenv lines key ≡ some value
  pub reads_quoted :
      (lines : List Text) (key value : Text)
      → All IsLine lines
      → raw_value key lines ≡ some (34 ∷ (escape_pem value ++ codes "\""))
      → any is_escape value ≡ false
      → dotenv lines key ≡ some value
  pub reads_absent :
      (lines : List Text) (key : Text)
      → All IsLine lines
      → raw_value key lines ≡ none
      → dotenv lines key ≡ none
