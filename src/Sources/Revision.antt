-- ===== src/Sources/Revision.antt =====
-- What an update request makes of a row.
use contentflow.Prelude.{
  Option-cases, is_some, trim_space, Result, Result-cases, ok, ℕ, String, ◌≡◌, refl, ◌∙◌, inl, inr,
  true, false, Option, some, List, [], ◌∷◌, arith, str_eq, eq_iff,
}
use mathlib.Core.Path.{subst}
use contentflow.Sources.Data.{Env, Value, Source, UpdateSourceRequest, type_rss, type_email}
use contentflow.Sources.Config.{
  empty_object, field_value, is_password_set, email_config_has_plaintext_password, normalize_config,
  normalize_source_config,
}
use contentflow.Sources.Request.{SourceService, normalize_name, url_of_type}
use contentflow.Sources.Service.{updated_name, updated_url, updated_config, updated_active}
use contentflow.Sources.History.{IsValidRow, IsEmpty, IsDiscreet}

-- a value that is not taken for a password
unset-IsEmpty : (v : Value) → is_password_set v ≡ false → IsEmpty (some v)
unset-IsEmpty Value.null h = tt
unset-IsEmpty (Value.text s) h = (eq_iff (trim_space s) "").0 (ground arith)
unset-IsEmpty (Value.boolean b) h = absurd (ground arith)
unset-IsEmpty (Value.number n) h = absurd (ground arith)
unset-IsEmpty (Value.array xs) h = absurd (ground arith)
unset-IsEmpty (Value.object fs) h = absurd (ground arith)

module _ (env : Env) where
  -- What the check accepts is discreet.
  checked-IsDiscreet :
      (b : ℕ) (bs : List ℕ)
      → email_config_has_plaintext_password env (b ∷ bs) ≡ false
      → IsDiscreet env (b ∷ bs)
  unfolding email_config_has_plaintext_password
  checked-IsDiscreet b bs passed fs read = elim (Option-cases (field_value "password" fs)) [
    | inl missing ↦ rw missing tt
    | inr (v, found) ↦ rw found (unset-IsEmpty v (ground (arith, passed, read, found)))
  ]

  pub url_of_type-placed :
      (kind : String) (raw url : Option String)
      → url_of_type env kind raw ≡ ok url
      → str_eq kind type_rss ≡ true
      → is_some url ≡ true
  url_of_type-placed kind raw url done rss = ground arith

  pub config-IsDiscreet :
      (kind : String) (raw config : List ℕ)
      → normalize_source_config env kind raw ≡ ok config
      → str_eq kind type_email ≡ true
      → IsDiscreet env config
  unfolding normalize_source_config normalize_config
  config-IsDiscreet kind [] config done email =
      let same : empty_object ≡ config = ground arith in
      subst (IsDiscreet env) same (checked-IsDiscreet 0x7b (0x7d ∷ []) (ground arith))
  config-IsDiscreet kind (b ∷ bs) config done email =
      let same : b ∷ bs ≡ config = ground arith in
      subst (IsDiscreet env) same (checked-IsDiscreet b bs (ground arith))

  -- `t` is the row `r` with other contents, and valid.
  pub record IsRevision (n : ℕ) (r t : Source) : Type 0 where
    pub same_id : t.id ≡ r.id
    pub same_user : t.user_id ≡ r.user_id
    pub same_kind : t.kind ≡ r.kind
    pub valid : IsValidRow env n t

module _ (env : Env) (s : SourceService) (n : ℕ) where
  kept : (r : Source) → IsValidRow env n r → IsRevision env n r r
  kept r v = record { same_id = refl; same_user = refl; same_kind = refl; valid = v }

  revised :
      (r u t : Source)
      → ◌≡◌ {A = Result Source} (ok u) (ok t)
      → IsRevision env n r u
      → IsRevision env n r t
  revised r u t same revision =
      let equal : u ≡ t = ground arith in subst (IsRevision env n r) equal revision

  pub updated_name-IsRevision :
      (req : UpdateSourceRequest) (r t : Source)
      → IsValidRow env n r
      → updated_name env s req r ≡ ok t
      → IsRevision env n r t
  unfolding updated_name
  updated_name-IsRevision req r t v done = elim (Option-cases req.name) [
    | inl missing ↦ revised r r t (ground arith) (kept r v)
    | inr (raw, given) ↦ elim (Result-cases (normalize_name raw)) [
      | inr (e, bad) ↦ absurd (ground arith)
      | inl (name, good) ↦
          revised r (record r { name = name }) t (ground arith)
            (record {
              same_id = refl;
              same_user = refl;
              same_kind = refl;
              valid = record {
                numbered = v.numbered;
                known = v.known;
                placed = v.placed;
                discreet = v.discreet;
              };
            })
    ]
  ]

  pub updated_url-IsRevision :
      (req : UpdateSourceRequest) (r t : Source)
      → IsValidRow env n r
      → updated_url env s req r ≡ ok t
      → IsRevision env n r t
  unfolding updated_url
  updated_url-IsRevision req r t v done = elim (Option-cases req.url) [
    | inl missing ↦ revised r r t (ground arith) (kept r v)
    | inr (raw, given) ↦ elim (Result-cases (url_of_type env r.kind (some raw))) [
      | inr (e, bad) ↦ absurd (ground arith)
      | inl (url, good) ↦
          revised r (record r { url = url }) t (ground arith)
            (record {
              same_id = refl;
              same_user = refl;
              same_kind = refl;
              valid = record {
                numbered = v.numbered;
                known = v.known;
                placed = url_of_type-placed env r.kind (some raw) url good;
                discreet = v.discreet;
              };
            })
    ]
  ]

  pub updated_config-IsRevision :
      (req : UpdateSourceRequest) (r t : Source)
      → IsValidRow env n r
      → updated_config env s req r ≡ ok t
      → IsRevision env n r t
  unfolding updated_config
  updated_config-IsRevision req r t v done = elim (Option-cases req.config) [
    | inl missing ↦ revised r r t (ground arith) (kept r v)
    | inr (raw, given) ↦ elim (Result-cases (normalize_source_config env r.kind raw)) [
      | inr (e, bad) ↦ absurd (ground arith)
      | inl (config, good) ↦
          revised r (record r { config_json = config }) t (ground arith)
            (record {
              same_id = refl;
              same_user = refl;
              same_kind = refl;
              valid = record {
                numbered = v.numbered;
                known = v.known;
                placed = v.placed;
                discreet = config-IsDiscreet env r.kind raw config good;
              };
            })
    ]
  ]

  -- All the changes of an update request, and the time of the update.
  pub updated-IsRevision :
      (req : UpdateSourceRequest) (now : ℕ) (r a b c : Source)
      → IsValidRow env n r
      → updated_name env s req r ≡ ok a
      → updated_url env s req a ≡ ok b
      → updated_config env s req b ≡ ok c
      → IsRevision env n r (record (updated_active env s req c) { updated_at = now })
  updated-IsRevision req now r a b c v named placed configured =
      let ra = updated_name-IsRevision req r a v named in
      let ab = updated_url-IsRevision req a b ra.valid placed in
      let bc = updated_config-IsRevision req b c ab.valid configured in
      let id : c.id ≡ r.id = bc.same_id ∙ ab.same_id ∙ ra.same_id in
      let user : c.user_id ≡ r.user_id = bc.same_user ∙ ab.same_user ∙ ra.same_user in
      let kind : c.kind ≡ r.kind = bc.same_kind ∙ ab.same_kind ∙ ra.same_kind in
      record {
        same_id = ground (arith, id);
        same_user = ground (arith, user);
        same_kind = ground (arith, kind);
        valid = record {
          numbered = ground (arith, bc.valid.numbered);
          known = ground (arith, bc.valid.known);
          placed = ground (arith, bc.valid.placed);
          discreet = ground (arith, bc.valid.discreet);
        };
      }
