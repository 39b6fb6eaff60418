-- ===== src/Sources/Redaction.antt =====
-- What the answers show of a configuration.
use contentflow.Prelude.{
  Bool-cases, Option-cases, ℕ, ◌≡◌, refl, ap, ◌⊎◌, inl, inr, true, none, some, List, [], ◌∷◌, arith,
}
use contentflow.Sources.Data.{Env, Value, Items, Fields}
use contentflow.Sources.Config.{
  redacted, is_sensitive_config_key, redact_config_value, redact_items, redact_fields, empty_object,
  redact_config,
}

module _ (env : Env) where
  -- At no depth has a sensitive key a value but "[REDACTED]".
  mutual
    pub IsRedacted : Value → Type 0
    IsRedacted Value.null = Unit {0}
    IsRedacted (Value.boolean b) = Unit {0}
    IsRedacted (Value.number n) = Unit {0}
    IsRedacted (Value.text s) = Unit {0}
    IsRedacted (Value.array xs) = AreRedacted xs
    IsRedacted (Value.object fs) = HasRedacted fs

    pub AreRedacted : Items → Type 0
    AreRedacted Items.none_left = Unit {0}
    AreRedacted (Items.item v xs) = IsRedacted v × AreRedacted xs

    pub HasRedacted : Fields → Type 0
    HasRedacted Fields.no_more = Unit {0}
    HasRedacted (Fields.field k v fs) =
        (is_sensitive_config_key env k ≡ true → v ≡ redacted) × IsRedacted v × HasRedacted fs

  mutual
    unfolding redact_config_value IsRedacted

    redact-IsRedacted : (v : Value) → IsRedacted (redact_config_value env v)
    redact-IsRedacted Value.null = tt
    redact-IsRedacted (Value.boolean b) = tt
    redact-IsRedacted (Value.number n) = tt
    redact-IsRedacted (Value.text s) = tt
    redact-IsRedacted (Value.array xs) = items-IsRedacted xs
    redact-IsRedacted (Value.object fs) = fields-IsRedacted fs

    items-IsRedacted : (xs : Items) → AreRedacted (redact_items env xs)
    items-IsRedacted Items.none_left = tt
    items-IsRedacted (Items.item v xs) = (redact-IsRedacted v, items-IsRedacted xs)

    fields-IsRedacted : (fs : Fields) → HasRedacted (redact_fields env fs)
    fields-IsRedacted Fields.no_more = tt
    fields-IsRedacted (Fields.field k v fs) = elim (Bool-cases (is_sensitive_config_key env k)) [
      | inl secret ↦ rw secret ((λ h. refl), tt, fields-IsRedacted fs)
      | inr plain ↦
          rw plain ((λ h. absurd (ground arith)), redact-IsRedacted v, fields-IsRedacted fs)
    ]

  mutual
    unfolding redact_config_value IsRedacted

    redacted-redact : (v : Value) → IsRedacted v → redact_config_value env v ≡ v
    redacted-redact Value.null h = refl
    redacted-redact (Value.boolean b) h = refl
    redacted-redact (Value.number n) h = refl
    redacted-redact (Value.text s) h = refl
    redacted-redact (Value.array xs) h = ap Value.array (redacted-items xs h)
    redacted-redact (Value.object fs) h = ap Value.object (redacted-fields fs h)

    redacted-items : (xs : Items) → AreRedacted xs → redact_items env xs ≡ xs
    redacted-items Items.none_left h = refl
    redacted-items (Items.item v xs) h = rw (redacted-redact v h.0, redacted-items xs h.1)

    redacted-fields : (fs : Fields) → HasRedacted fs → redact_fields env fs ≡ fs
    redacted-fields Fields.no_more h = refl
    redacted-fields (Fields.field k v fs) h =
        ground (arith, h.0, redacted-redact v h.1, redacted-fields fs h.2)

  -- What the encoder and the decoder of JSON owe each other: a value that was decoded is read back
  -- after it has been redacted and encoded, "{}" is the text of the empty object, and the empty text
  -- is no JSON.
  pub record IsFaithfulJson : Type 0 where
    pub back :
        (raw shown : List ℕ) (v : Value)
        → env.unmarshal raw ≡ some v
        → env.marshal (redact_config_value env v) ≡ some shown
        → env.unmarshal shown ≡ some (redact_config_value env v)
    pub nothing : env.unmarshal [] ≡ none
    pub empty_again : env.marshal (Value.object Fields.no_more) ≡ some empty_object
    pub empty : env.unmarshal empty_object ≡ some (Value.object Fields.no_more)

  -- a text of JSON that shows no sensitive value
  abbrev pub IsShowable : List ℕ → Type 0
  IsShowable config = (v : Value) × (env.unmarshal config ≡ some v) × IsRedacted v

  empty-IsShowable : IsFaithfulJson → IsShowable empty_object
  unfolding IsRedacted
  empty-IsShowable json = (Value.object Fields.no_more, json.empty, tt)

  -- What is shown: the empty object, or the text of the redacted value.
  redact_config-cases :
      (config : List ℕ)
      → (redact_config env config ≡ empty_object)
        ⊎ ((v : Value) × (env.unmarshal config ≡ some v)
            × (env.marshal (redact_config_value env v) ≡ some (redact_config env config)))
  unfolding redact_config
  redact_config-cases [] = inl refl
  redact_config-cases (b ∷ bs) = elim (Option-cases (env.unmarshal (b ∷ bs))) [
    | inl bad ↦ inl (ground (arith, bad))
    | inr (v, good) ↦ elim (Option-cases (env.marshal (redact_config_value env v))) [
      | inl bad ↦ inl (ground (arith, good, bad))
      | inr (shown, made) ↦ inr (v, good, ground (arith, good, made))
    ]
  ]

  pub redact_config-IsShowable :
      IsFaithfulJson → (config : List ℕ) → IsShowable (redact_config env config)
  redact_config-IsShowable json config = elim (redact_config-cases config) [
    | inl none_shown ↦ rw none_shown (empty-IsShowable json)
    | inr (v, good, made) ↦ (
      redact_config_value env v,
      json.back config (redact_config env config) v good made,
      redact-IsRedacted v,
    )
  ]

  -- What is shown is shown again as it is.
  redact_config-known :
      IsFaithfulJson
      → (shown : List ℕ) (v : Value) → env.unmarshal shown ≡ some v
      → IsRedacted v
      → env.marshal v ≡ some shown
      → redact_config env shown ≡ shown
  unfolding redact_config
  redact_config-known json [] v read clean made = absurd (ground (arith, json.nothing, read))
  redact_config-known json (b ∷ bs) v read clean made =
      ground (arith, read, redacted-redact v clean, made)

  empty_shown : IsFaithfulJson → redact_config env empty_object ≡ empty_object
  unfolding IsRedacted
  empty_shown json =
      redact_config-known json empty_object (Value.object Fields.no_more) json.empty tt
        json.empty_again

  pub redact_config_twice :
      IsFaithfulJson
      → (config : List ℕ) → redact_config env (redact_config env config) ≡ redact_config env config
  redact_config_twice json config = elim (redact_config-cases config) [
    | inl none_shown ↦ rw none_shown (empty_shown json)
    | inr (v, good, made) ↦
        redact_config-known json (redact_config env config) (redact_config_value env v)
          (json.back config (redact_config env config) v good made) (redact-IsRedacted v) made
  ]
