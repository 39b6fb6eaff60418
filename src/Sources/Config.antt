-- ===== src/Sources/Config.antt =====
-- internal/module/source/service.go: the configuration of a source, and what is shown of it.
use contentflow.Prelude.{
  if◌then◌else◌, trim_space, Sentinel, Err, Result, ok, err, ℕ, String, Bool, true, false, ◌&&◌,
  ◌||◌, not, Option, none, some, List, [], ◌∷◌, str_eq,
}
use contentflow.Sources.Data.{Env, Value, Items, Fields, type_email}

-- "{}"
abbrev pub empty_object : List ℕ
empty_object = 0x7b ∷ 0x7d ∷ []

abbrev pub redacted : Value
redacted = Value.text "[REDACTED]"

-- `value["password"]`: of a key that is repeated the last value counts
unfoldable pub field_value : String → Fields → Option Value
field_value key Fields.no_more = none
field_value key (Fields.field k v fs) = elim (field_value key fs) [
  | some later ↦ some later
  | none ↦ if str_eq k key then some v else none
]

abbrev pub is_password_set : Value → Bool
is_password_set Value.null = false
is_password_set (Value.text s) = not (str_eq (trim_space s) "")
is_password_set (Value.boolean b) = true
is_password_set (Value.number n) = true
is_password_set (Value.array xs) = true
is_password_set (Value.object fs) = true

abbrev pub has_password_field : Value → Bool
has_password_field (Value.object fs) = elim (field_value "password" fs) [
  | none ↦ false
  | some v ↦ is_password_set v
]
has_password_field Value.null = false
has_password_field (Value.text s) = false
has_password_field (Value.boolean b) = false
has_password_field (Value.number n) = false
has_password_field (Value.array xs) = false

module _ (env : Env) where
  -- `isSensitiveConfigKey`
  unfoldable pub is_sensitive_config_key : String → Bool
  is_sensitive_config_key key =
      let normalized = env.net.to_lower (trim_space key) in
      str_eq normalized "password"
      || str_eq normalized "passwd"
      || str_eq normalized "secret"
      || str_eq normalized "token"
      || str_eq normalized "access_token"
      || str_eq normalized "refresh_token"
      || str_eq normalized "api_key"
      || str_eq normalized "apikey"
      || str_eq normalized "client_secret"
      || str_eq normalized "private_key"
      || str_eq normalized "authorization"
      || str_eq normalized "bearer_token"

  -- `redactConfigValue`
  unfoldable mutual
    pub redact_config_value : Value → Value
    redact_config_value Value.null = Value.null
    redact_config_value (Value.boolean b) = Value.boolean b
    redact_config_value (Value.number n) = Value.number n
    redact_config_value (Value.text s) = Value.text s
    redact_config_value (Value.array xs) = Value.array (redact_items xs)
    redact_config_value (Value.object fs) = Value.object (redact_fields fs)

    pub redact_items : Items → Items
    redact_items Items.none_left = Items.none_left
    redact_items (Items.item v xs) = Items.item (redact_config_value v) (redact_items xs)

    pub redact_fields : Fields → Fields
    redact_fields Fields.no_more = Fields.no_more
    redact_fields (Fields.field k v fs) =
        Fields.field k (if is_sensitive_config_key k then redacted else redact_config_value v)
          (redact_fields fs)

  -- `redactConfig`
  unfoldable pub redact_config : List ℕ → List ℕ
  redact_config [] = empty_object
  redact_config (b ∷ bs) = elim (env.unmarshal (b ∷ bs)) [
    | none ↦ empty_object
    | some value ↦ elim (env.marshal (redact_config_value value)) [
      | none ↦ empty_object
      | some shown ↦ shown
    ]
  ]

  -- `emailConfigHasPlaintextPassword`
  unfoldable pub email_config_has_plaintext_password : List ℕ → Bool
  email_config_has_plaintext_password [] = false
  email_config_has_plaintext_password (b ∷ bs) = elim (env.unmarshal (b ∷ bs)) [
    | none ↦ false
    | some value ↦ has_password_field value
  ]

  -- `normalizeConfig`
  unfoldable pub normalize_config : List ℕ → Result (List ℕ)
  normalize_config [] = ok empty_object
  normalize_config (b ∷ bs) =
      if env.is_json (b ∷ bs)
      then ok (b ∷ bs)
      else err (Err.sentinel Sentinel.invalid_source_config)

  -- `normalizeSourceConfig`
  unfoldable pub normalize_source_config : String → List ℕ → Result (List ℕ)
  normalize_source_config kind config = elim (normalize_config config) [
    | err e ↦ err e
    | ok config_json ↦
        if str_eq kind type_email && email_config_has_plaintext_password config_json
        then err (Err.sentinel Sentinel.invalid_source_config)
        else ok config_json
  ]
