-- ===== src/Gateway/Json.antt =====
-- JSON values and objects, with what dictionaries do.
use backend_platform.Prelude.{Option, none, some, if◌then◌else◌}
use backend_platform.Prelude.Text.{Text, text_eq}

-- `scalar` is a value that is neither a string nor an object.
mutual
  pub data Json : Type 0 where
    string : Text → Json
    object : Members → Json
    scalar : Text → Json

  pub data Members : Type 0 where
    end : Members
    member : Text → Json → Members → Members

-- `data.get(key)`
unfoldable pub lookup : Text → Members → Option Json
lookup key end = none
lookup key (member k v rest) =
    let found = lookup key rest in if text_eq k key then some v else found

-- `data.pop(key, None)`
unfoldable pub remove : Text → Members → Members
remove key end = end
remove key (member k v rest) =
    let kept = remove key rest in if text_eq k key then kept else member k v kept

-- `data[key] = value`, for a key that is there.
unfoldable pub replace : Text → Json → Members → Members
replace key value end = end
replace key value (member k v rest) =
    let kept = replace key value rest in
    if text_eq k key then member k value kept else member k v kept

-- `isinstance(value, str)`
abbrev pub string_of : Option Json → Option Text
string_of none = none
string_of (some (string t)) = some t
string_of (some (object _)) = none
string_of (some (scalar _)) = none
