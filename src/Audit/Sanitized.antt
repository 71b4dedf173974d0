-- ===== src/Audit/Sanitized.antt =====
-- Sanitised payloads (services/auth-service/app/services/audit_service.py).
use backend_platform.Prelude.{◌≡◌, ◌↔◌, refl, ap, ap₂, false, inl, inr, Bool-cases}
use backend_platform.Prelude.Text.{Text, lower, Among, member-false_iff}
use backend_platform.Audit.{
  Value, Fields, Items, plain, mapping, items, end, field, nil, cons, is_sensitive,
  sensitive_fields, sanitize_value, sanitize_payload, sanitize_items,
}

is_sensitive-false :
    (key : Text) → (is_sensitive key ≡ false) ↔ (¬ Among (lower key) sensitive_fields)
unfolding is_sensitive
is_sensitive-false key = member-false_iff (lower key) sensitive_fields

-- No key at any depth names a secret.
abbrev mutual
  pub IsClean : Value → Type 0
  IsClean (plain t) = Unit
  IsClean (mapping fields) = AreCleanFields fields
  IsClean (items values) = AreCleanItems values

  pub AreCleanFields : Fields → Type 0
  AreCleanFields end = Unit
  AreCleanFields (field key value rest) =
      (¬ Among (lower key) sensitive_fields) × IsClean value × AreCleanFields rest

  pub AreCleanItems : Items → Type 0
  AreCleanItems nil = Unit
  AreCleanItems (cons value rest) = IsClean value × AreCleanItems rest

mutual
  unfolding sanitize_value sanitize_payload sanitize_items

  sanitize_value-IsClean : (v : Value) → IsClean (sanitize_value v)
  sanitize_value-IsClean (plain t) = tt
  sanitize_value-IsClean (mapping fields) = sanitize_fields-AreCleanFields fields
  sanitize_value-IsClean (items values) = sanitize_items-AreCleanItems values

  sanitize_fields-AreCleanFields : (f : Fields) → AreCleanFields (sanitize_payload f)
  sanitize_fields-AreCleanFields end = tt
  sanitize_fields-AreCleanFields (field key value rest) =
      let inner = sanitize_value-IsClean value in
      let others = sanitize_fields-AreCleanFields rest in
      elim (Bool-cases (is_sensitive key)) [
        | inl secret ↦ rw secret others
        | inr open_key ↦ rw open_key ((is_sensitive-false key).0 open_key, inner, others)
      ]

  sanitize_items-AreCleanItems : (l : Items) → AreCleanItems (sanitize_items l)
  sanitize_items-AreCleanItems nil = tt
  sanitize_items-AreCleanItems (cons value rest) =
      (sanitize_value-IsClean value, sanitize_items-AreCleanItems rest)

mutual
  unfolding sanitize_value sanitize_payload sanitize_items

  sanitize_value-of_IsClean : (v : Value) → IsClean v → sanitize_value v ≡ v
  sanitize_value-of_IsClean (plain t) h = refl
  sanitize_value-of_IsClean (mapping fields) h = ap mapping (sanitize_fields-of_AreClean fields h)
  sanitize_value-of_IsClean (items values) h = ap items (sanitize_items-of_AreClean values h)

  sanitize_fields-of_AreClean : (f : Fields) → AreCleanFields f → sanitize_payload f ≡ f
  sanitize_fields-of_AreClean end h = refl
  sanitize_fields-of_AreClean (field key value rest) h =
      rw ((is_sensitive-false key).1 h.0) (
        ap₂ (field key) (sanitize_value-of_IsClean value h.1)
          (sanitize_fields-of_AreClean rest h.2))

  sanitize_items-of_AreClean : (l : Items) → AreCleanItems l → sanitize_items l ≡ l
  sanitize_items-of_AreClean nil h = refl
  sanitize_items-of_AreClean (cons value rest) h =
      ap₂ cons (sanitize_value-of_IsClean value h.0) (sanitize_items-of_AreClean rest h.1)

-- A sanitised payload has no key, lower-cased, of the sensitive ones at any depth, in mappings and lists alike, and to
-- sanitise it again changes nothing.
pub sanitize_payload-AreCleanFields :
    (f : Fields)
    → AreCleanFields (sanitize_payload f)
      × (sanitize_payload (sanitize_payload f) ≡ sanitize_payload f)
sanitize_payload-AreCleanFields f =
    let clean = sanitize_fields-AreCleanFields f in (clean, sanitize_fields-of_AreClean _ clean)
