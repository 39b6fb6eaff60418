-- ===== src/Sources/History.antt =====
-- What holds of the table of sources, and how the statements that write it keep that.
use contentflow.Prelude.{
  ◌==◌, if◌then◌else◌, Bool-cases, Option-cases, is_some, trim_space, first_where, update_where,
  All, All-append, All-mono, All-zip, Pairwise, Pairwise-append, All-updated, Pairwise-update_where,
  All-first_none, ℕ, suc, ◌<◌, String, ◌≡◌, refl, inl, inr, Bool, true, false, ◌&&◌, not, Option,
  none, some, List, [], ◌∷◌, ◌++◌, arith, str_eq, eq_iff,
}
use contentflow.Sources.Data.{
  Env, Value, Fields, Source, World, type_rss, type_email, is_valid_type,
}
use contentflow.Sources.Config.{field_value}
use contentflow.Sources.Repository.{
  same_url, is_url_taken, create, is_source_of, as_stored, is_other_url_taken, with_updates, update,
}

-- Two rows have different ids, and if both are undeleted rows of one user, no common URL.
pub record IsApart (a b : Source) : Type 0 where
  pub ids : (a.id == b.id) ≡ false
  pub urls :
      (a.user_id == b.user_id
        && same_url a.url b.url
        && not (is_some a.deleted_at)
        && not (is_some b.deleted_at))
      ≡ false

-- A value, if there is one, is null or a text of nothing but spaces.
abbrev pub IsEmpty : Option Value → Type 0
IsEmpty none = Unit {0}
IsEmpty (some Value.null) = Unit {0}
IsEmpty (some (Value.text t)) = trim_space t ≡ ""
IsEmpty (some (Value.boolean b)) = ⊥
IsEmpty (some (Value.number n)) = ⊥
IsEmpty (some (Value.array xs)) = ⊥
IsEmpty (some (Value.object fs)) = ⊥

module _ (env : Env) where
  -- If the configuration is an object, it has nothing under the key "password" but null or a blank
  -- text.
  abbrev pub IsDiscreet : List ℕ → Type 0
  IsDiscreet config =
      (fs : Fields)
      → env.unmarshal config ≡ some (Value.object fs)
      → IsEmpty (field_value "password" fs)

  -- A row has a known type; an RSS source has a URL; the configuration of an e-mail source is
  -- discreet.
  pub record IsValidRow (serial : ℕ) (s : Source) : Type 0 where
    pub numbered : s.id < serial
    pub known : is_valid_type s.kind ≡ true
    pub placed : str_eq s.kind type_rss ≡ true → is_some s.url ≡ true
    pub discreet : str_eq s.kind type_email ≡ true → IsDiscreet s.config_json

  pub record IsValidStore (w : World) : Type 0 where
    pub rows : All (IsValidRow w.serial) w.sources
    pub apart : Pairwise IsApart w.sources

  later_row : (n : ℕ) (s : Source) → IsValidRow n s → IsValidRow (suc n) s
  later_row n s v = record {
    numbered = omega (arith, v.numbered);
    known = v.known;
    placed = v.placed;
    discreet = v.discreet;
  }

  new-IsApart :
      (src s : Source) (n : ℕ)
      → s.id < n
      → is_url_taken src.user_id src.url s ≡ false
      → IsApart s (as_stored env (record src { id = n }))
  new-IsApart src s n below open_url = record {
    ids = ground (arith, below);
    urls = ground (arith, open_url);
  }

  pub create-IsValid :
      (src : Source) (w : World)
      → ((n : ℕ) → IsValidRow (suc n) (as_stored env (record src { id = n })))
      → IsValidStore w
      → IsValidStore (create env src w).1
  unfolding create
  create-IsValid src w good v = elim (Option-cases (env.fault w.tick)) [
    | inr (e, bad) ↦ ground (arith, v)
    | inl quiet ↦ elim (Option-cases (first_where (is_url_taken src.user_id src.url) w.sources)) [
      | inr (other, taken) ↦ ground (arith, v)
      | inl free ↦
          let added = as_stored env (record src { id = w.serial }) in
          let store : IsValidStore (record w {
            tick = suc w.tick;
            serial = suc w.serial;
            sources = w.sources ++ added ∷ [];
          }) =
            record {
              rows =
                  All-append (IsValidRow (suc w.serial)) w.sources (added ∷ [])
                    (All-mono (later_row w.serial) w.sources v.rows) (good w.serial, tt);
              apart = Pairwise-append IsApart w.sources added v.apart (
                  All-mono (λ s both. new-IsApart src s w.serial both.0.numbered both.1) w.sources
                    (All-zip (IsValidRow w.serial) (λ s. is_url_taken src.user_id src.url s ≡ false)
                      w.sources v.rows
                      (All-first_none (is_url_taken src.user_id src.url) w.sources free)));
            } in
          ground (arith, store)
    ]
  ]

  same_url_sym : (a b : Option String) → same_url a b ≡ same_url b a
  same_url_sym none none = refl
  same_url_sym none (some b) = refl
  same_url_sym (some a) none = refl
  same_url_sym (some a) (some b) = ground (arith, eq_iff a b, eq_iff b a)

  -- an update of the row that `src` describes, to a URL that no other row has
  updated-IsApart :
      (src x y : Source)
      → is_other_url_taken src x ≡ false
      → is_other_url_taken src y ≡ false
      → IsApart x y
      → IsApart
          (if is_source_of src.user_id src.id x then with_updates src x else x)
          (if is_source_of src.user_id src.id y then with_updates src y else y)
  updated-IsApart src x y free_x free_y apart = record {
    ids = ground (arith, apart.ids);
    urls = ground (arith, apart.ids, apart.urls, free_x, free_y, same_url_sym src.url y.url);
  }

  pub updated-IsValidRow :
      (p : Source → Bool) (u : Source → Source) (n : ℕ) (x : Source)
      → IsValidRow n x
      → (p x ≡ true → IsValidRow n (u x))
      → IsValidRow n (if p x then u x else x)
  updated-IsValidRow p u n x plain changed = elim (Bool-cases (p x)) [
    | inl hit ↦ rw hit (changed hit)
    | inr miss ↦ rw miss plain
  ]

  pub update-IsValid :
      (src : Source) (w : World)
      → All
          (λ x.
            is_source_of src.user_id src.id x ≡ true
            → IsValidRow w.serial (with_updates (as_stored env src) x))
          w.sources
      → IsValidStore w
      → IsValidStore (update env src w).1
  unfolding update
  update-IsValid src w fits v = elim (Option-cases (env.fault w.tick)) [
    | inr (e, bad) ↦ ground (arith, v)
    | inl quiet ↦ elim (Option-cases (first_where (is_source_of src.user_id src.id) w.sources)) [
      | inl missing ↦ ground (arith, v)
      | inr (s, found) ↦ elim (Option-cases (first_where (is_other_url_taken src) w.sources)) [
        | inr (other, taken) ↦ ground (arith, v)
        | inl free ↦
            let store : IsValidStore (record w {
              tick = suc w.tick;
              sources =
                  update_where (is_source_of src.user_id src.id) (with_updates (as_stored env src))
                    w.sources;
            }) =
              record {
                rows =
                    All-updated
                      (λ x.
                        IsValidRow w.serial x
                        × (is_source_of src.user_id src.id x ≡ true
                            → IsValidRow w.serial (with_updates (as_stored env src) x)))
                      (IsValidRow w.serial) (is_source_of src.user_id src.id)
                      (with_updates (as_stored env src)) w.sources
                      (λ x both.
                        updated-IsValidRow (is_source_of src.user_id src.id)
                          (with_updates (as_stored env src)) w.serial x both.0 both.1)
                      (All-zip (IsValidRow w.serial)
                        (λ x.
                          is_source_of src.user_id src.id x ≡ true
                          → IsValidRow w.serial (with_updates (as_stored env src) x))
                        w.sources v.rows fits);
                apart =
                    Pairwise-update_where IsApart (λ x. is_other_url_taken src x ≡ false)
                      (is_source_of src.user_id src.id) (with_updates (as_stored env src)) w.sources
                      (updated-IsApart (as_stored env src))
                      (All-first_none (is_other_url_taken src) w.sources free) v.apart;
              } in
            ground (arith, store)
      ]
    ]
  ]
