-- ===== src/Sources/Tests.antt =====
-- A small world of sources, and the theorems about the sources at work in it.
use contentflow.Prelude.{
  ◌==◌, if◌then◌else◌, pos, trim_space, ok, select_where, first_where, count_where, insert_by,
  order_by, All, ℕ, ◌+◌, String, ◌≡◌, refl, Bool, true, false, Option, none, some, List, [], ◌∷◌,
  arith, str_eq,
}
use mathlib.Core.Path.{subst}
use mathlib.Core.Option.{some-injective}
use contentflow.Netguard.Tests.{small}
use contentflow.Sources.Data.{
  Env, Value, Fields, Source, CreateSourceRequest, ListSourcesRequest, ListSourcesResponse,
  UpdateSourceRequest, World,
}
use contentflow.Sources.Config.{
  empty_object, redacted, is_sensitive_config_key, redact_config_value, field_value, redact_config,
}
use contentflow.Sources.Repository.{list_by_user_id}
use contentflow.Sources.Request.{SourceService}
use contentflow.Sources.Service.{
  list_sources, get_source, update_source, delete_source, list_stored,
}
use contentflow.Sources.Redaction.{IsFaithfulJson, IsShowable}
use contentflow.Sources.Answers.{list_sources_cached, list_sources-IsShowable}
use contentflow.Sources.Reachable.{Op, run}
use contentflow.Sources.Access.{run-own, refused, foreign_source, belongs_to}

abbrev secret : Fields
secret = Fields.field "Password" (Value.text "hunter2") Fields.no_more

abbrev hidden : Fields
hidden = Fields.field "Password" redacted Fields.no_more

-- a JSON of three texts: "{}", and one byte each for the two objects above
abbrev read : List ℕ → Option Value
read [] = none
read (b ∷ bs) =
    if b == 0x7b
    then some (Value.object Fields.no_more)
    else if b == 1
    then some (Value.object secret)
    else if b == 2
    then some (Value.object hidden)
    else none

abbrev write_fields : Fields → Option (List ℕ)
write_fields Fields.no_more = some empty_object
write_fields (Fields.field k v fs) = some (2 ∷ [])

abbrev write : Value → Option (List ℕ)
write Value.null = none
write (Value.boolean b) = none
write (Value.number n) = none
write (Value.text s) = none
write (Value.array xs) = none
write (Value.object fs) = write_fields fs

abbrev lower : String → String
lower s = if str_eq s "Password" then "password" else s

-- the cache keeps nothing but what it is given at the call 9
abbrev env_with : ListSourcesResponse → Env
env_with resp = record {
  fault = λ n. none;
  clock = λ n. 1000 + n;
  net = record small { to_lower = lower };
  is_json = λ s. true;
  unmarshal = read;
  marshal = write;
  jsonb = λ text. text;
  cached = λ n req. ok (if n == 9 then some resp else none);
}

abbrev mail : Source
mail = record {
  id = 1;
  user_id = 5;
  name = "Mail";
  kind = "email";
  url = none;
  config_json = 1 ∷ [];
  is_active = true;
  last_fetched_at = none;
  last_fetch_status = "";
  last_fetch_message = "";
  created_at = 10;
  updated_at = 10;
  deleted_at = none;
}

abbrev list_answer : ListSourcesResponse
list_answer = record {
  sources =
      record {
        id = 1;
        name = "Mail";
        kind = "email";
        url = none;
        config = 2 ∷ [];
        is_active = true;
        last_fetched_at = none;
        last_fetch_status = "";
        last_fetch_message = "";
        created_at = 10;
        updated_at = 10;
      }
      ∷ [];
  total = 1;
  limit = pos 20;
  offset = pos 0;
}

abbrev env : Env
env = env_with list_answer

abbrev service : SourceService
service = record { has_list_cache = true }

abbrev world : World
world = record { tick = 0; serial = 2; sources = mail ∷ []; invalidated = []; stored = [] }

abbrev page : ListSourcesRequest
page = record { user_id = 5; kind = ""; limit = pos 0; offset = pos 0 }

abbrev value_at : Value → Option Value
value_at Value.null = none
value_at (Value.boolean b) = none
value_at (Value.number n) = none
value_at (Value.text s) = none
value_at (Value.array xs) = none
value_at (Value.object fs) = field_value "password" fs

abbrev IsReadBack : Value → Type 0
IsReadBack v =
    (shown : List ℕ)
    → write (redact_config_value env v) ≡ some shown
    → read shown ≡ some (redact_config_value env v)

if_some :
    (P : Value → Type 0) (t : Bool) (x : Value) (o : Option Value) (v : Value)
    → P x
    → (o ≡ some v → P v)
    → (if t then some x else o) ≡ some v
    → P v
if_some P true x o v px rest good = subst P (some-injective x v good) px
if_some P false x o v px rest good = rest good

read_back : (raw : List ℕ) (v : Value) → read raw ≡ some v → IsReadBack v
unfolding redact_config_value is_sensitive_config_key trim_space
read_back [] v good = absurd (ground arith)
read_back (b ∷ bs) v good =
    let hides : (shown : List ℕ)
        → some (2 ∷ []) ≡ some shown
        → read shown ≡ some (Value.object hidden) =
      λ shown made.
        subst (λ x. read x ≡ some (Value.object hidden)) (some-injective (2 ∷ []) shown made)
          refl in
    let empties : (shown : List ℕ)
        → some empty_object ≡ some shown
        → read shown ≡ some (Value.object Fields.no_more) =
      λ shown made.
        subst (λ x. read x ≡ some (Value.object Fields.no_more))
          (some-injective empty_object shown made) refl in
    if_some IsReadBack (b == 0x7b) (Value.object Fields.no_more) _ v empties
      (if_some IsReadBack (b == 1) (Value.object secret) _ v hides (
        if_some IsReadBack (b == 2) (Value.object hidden) none v hides
          (λ h. absurd (ground arith))))
      good

faithful : IsFaithfulJson env
faithful = record {
  back = λ raw shown v good made. read_back raw v good shown made;
  nothing = refl;
  empty_again = refl;
  empty = refl;
}

list_sources-IsShowable_example : All (λ d. IsShowable env d.config) list_answer.sources
unfolding list_sources list_stored list_by_user_id select_where count_where order_by insert_by
    redact_config redact_config_value is_sensitive_config_key trim_space
list_sources-IsShowable_example =
    list_sources-IsShowable env service faithful page world list_answer refl

list_sources_cached_example :
    (list_sources env service page (record world { tick = 9 })).0 ≡ ok list_answer
unfolding list_sources list_stored list_by_user_id select_where count_where order_by insert_by
    redact_config redact_config_value is_sensitive_config_key trim_space
list_sources_cached_example =
    list_sources_cached env service faithful page world (record world { tick = 9 }) list_answer refl
      refl refl

abbrev form : CreateSourceRequest
form = record { user_id = 6; name = "News"; kind = " rss"; url = some "example.org"; config = [] }

abbrev mail_form : CreateSourceRequest
mail_form = record { user_id = 6; name = " Post"; kind = "email"; url = none; config = 1 ∷ [] }

abbrev ops : List Op
ops = Op.creates form ∷ Op.deletes (record { user_id = 6; source_id = 1 }) ∷ []

run-own_example : select_where (belongs_to 5) (run env service ops world).sources ≡ mail ∷ []
unfolding select_where
run-own_example = run-own env service 5 ops world (refl, (refl, tt))

abbrev renaming : UpdateSourceRequest
renaming = record {
  user_id = 6;
  source_id = 1;
  name = some "Mine";
  url = none;
  is_active = none;
  config = none;
}

foreign_source_example :
    ((get_source env service (record { user_id = 6; source_id = 1 }) world).0 ≡ refused)
    × ((update_source env service renaming world).0 ≡ refused)
    × ((update_source env service renaming world).1.sources ≡ mail ∷ [])
    × ((delete_source env service (record { user_id = 6; source_id = 1 }) world).0 ≡ refused)
    × ((delete_source env service (record { user_id = 6; source_id = 1 }) world).1.sources
        ≡ mail ∷ [])
unfolding first_where
foreign_source_example =
    foreign_source env service (record { user_id = 6; source_id = 1 }) renaming world refl refl
      (λ n. refl) refl
