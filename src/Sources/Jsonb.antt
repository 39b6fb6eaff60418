-- ===== src/Sources/Jsonb.antt =====
-- What a JSONB column keeps of the configuration of a source.
use contentflow.Prelude.{trim_space, ℕ, String, ◌≡◌, Option, none, some, List, arith}
use contentflow.Sources.Data.{Env, Value, Fields}
use contentflow.Sources.Config.{field_value}
use contentflow.Sources.History.{IsEmpty, IsDiscreet}

-- What every form of a JSON value shows: a text is a text, and null is null.
pub data Sight : Type 0 where
  absent : Sight
  shows_null : Sight
  shows_text : String → Sight
  shows_else : Sight

abbrev pub sight : Option Value → Sight
sight none = Sight.absent
sight (some Value.null) = Sight.shows_null
sight (some (Value.text t)) = Sight.shows_text t
sight (some (Value.boolean b)) = Sight.shows_else
sight (some (Value.number n)) = Sight.shows_else
sight (some (Value.array xs)) = Sight.shows_else
sight (some (Value.object fs)) = Sight.shows_else

-- PostgreSQL reads JSON into a JSONB column and writes it out again with other spaces, another order
-- of the keys and only the last of repeated keys; an object stays an object, and under each key a
-- text stays the same text, null stays null, and a value of another kind stays of another kind.
pub record IsJsonb (env : Env) : Type 0 where
  pub forth :
      (raw : List ℕ) (fs : Fields)
      → env.unmarshal raw ≡ some (Value.object fs)
      → (kept : Fields) × (env.unmarshal (env.jsonb raw) ≡ some (Value.object kept))
        × ((key : String) → sight (field_value key kept) ≡ sight (field_value key fs))
  pub back :
      (raw : List ℕ) (kept : Fields)
      → env.unmarshal (env.jsonb raw) ≡ some (Value.object kept)
      → (fs : Fields) × (env.unmarshal raw ≡ some (Value.object fs))
        × ((key : String) → sight (field_value key kept) ≡ sight (field_value key fs))

-- the same of a value of which only the sight is known
IsEmptySight : Sight → Type 0
IsEmptySight Sight.absent = Unit {0}
IsEmptySight Sight.shows_null = Unit {0}
IsEmptySight (Sight.shows_text t) = trim_space t ≡ ""
IsEmptySight Sight.shows_else = ⊥

empty_sight : (v : Option Value) → IsEmpty v → IsEmptySight (sight v)
unfolding IsEmptySight
empty_sight none e = tt
empty_sight (some Value.null) e = tt
empty_sight (some (Value.text t)) e = e
empty_sight (some (Value.boolean b)) e = e
empty_sight (some (Value.number n)) e = e
empty_sight (some (Value.array xs)) e = e
empty_sight (some (Value.object fs)) e = e

sight-IsEmpty : (v : Option Value) → IsEmptySight (sight v) → IsEmpty v
unfolding IsEmptySight
sight-IsEmpty none e = tt
sight-IsEmpty (some Value.null) e = tt
sight-IsEmpty (some (Value.text t)) e = e
sight-IsEmpty (some (Value.boolean b)) e = e
sight-IsEmpty (some (Value.number n)) e = e
sight-IsEmpty (some (Value.array xs)) e = e
sight-IsEmpty (some (Value.object fs)) e = e

-- A discreet configuration is discreet in the database too.
pub stored-IsDiscreet :
    (env : Env)
    → IsJsonb env
    → (config : List ℕ) → IsDiscreet env config
    → IsDiscreet env (env.jsonb config)
stored-IsDiscreet env json config clean kept read =
    let (fs, given, same) = json.back config kept read in
    sight-IsEmpty (field_value "password" kept)
      (rw (same "password") (empty_sight (field_value "password" fs) (clean fs given)))

-- a value that looks like a text is that text
pub sight-text :
    (v : Option Value) (t : String) → sight v ≡ Sight.shows_text t → v ≡ some (Value.text t)
sight-text none t e = absurd (ground arith)
sight-text (some Value.null) t e = absurd (ground arith)
sight-text (some (Value.text s)) t e = ground arith
sight-text (some (Value.boolean b)) t e = absurd (ground arith)
sight-text (some (Value.number n)) t e = absurd (ground arith)
sight-text (some (Value.array xs)) t e = absurd (ground arith)
sight-text (some (Value.object fs)) t e = absurd (ground arith)
