-- ===== src/Sources/Data.antt =====
-- internal/module/source/model.go, dto.go and type.go: the rows, the requests and the world.
use contentflow.Prelude.{
  ℤ, Err, Result, Proc, calling, ok, ℕ, suc, String, Bool, ◌||◌, Option, List, str_eq,
}
use contentflow.Netguard.{Net}

-- JSON as `json.Unmarshal` gives it for `any`; the keys of a map stand in the order of the list.
mutual
  pub data Value : Type 0 where
    null : Value
    boolean : Bool → Value
    number : String → Value
    text : String → Value
    array : Items → Value
    object : Fields → Value

  pub data Items : Type 0 where
    none_left : Items
    item : Value → Items → Items

  pub data Fields : Type 0 where
    no_more : Fields
    field : String → Value → Fields → Fields

pub record Source : Type 0 where
  pub id : ℕ
  pub user_id : ℕ
  pub name : String
  pub kind : String
  pub url : Option String
  pub config_json : List ℕ
  pub is_active : Bool
  pub last_fetched_at : Option ℕ
  pub last_fetch_status : String
  pub last_fetch_message : String
  pub created_at : ℕ
  pub updated_at : ℕ
  pub deleted_at : Option ℕ

pub record SourceDto : Type 0 where
  pub id : ℕ
  pub name : String
  pub kind : String
  pub url : Option String
  pub config : List ℕ
  pub is_active : Bool
  pub last_fetched_at : Option ℕ
  pub last_fetch_status : String
  pub last_fetch_message : String
  pub created_at : ℕ
  pub updated_at : ℕ

pub record CreateSourceRequest : Type 0 where
  pub user_id : ℕ
  pub name : String
  pub kind : String
  pub url : Option String
  pub config : List ℕ

-- also `ListParams` of the repository
pub record ListSourcesRequest : Type 0 where
  pub user_id : ℕ
  pub kind : String
  pub limit : ℤ
  pub offset : ℤ

pub record ListSourcesResponse : Type 0 where
  pub sources : List SourceDto
  pub total : ℕ
  pub limit : ℤ
  pub offset : ℤ

-- also `DeleteSourceRequest`
pub record GetSourceRequest : Type 0 where
  pub user_id : ℕ
  pub source_id : ℕ

-- `config` is none where the Go slice is nil.
pub record UpdateSourceRequest : Type 0 where
  pub user_id : ℕ
  pub source_id : ℕ
  pub name : Option String
  pub url : Option String
  pub is_active : Option Bool
  pub config : Option (List ℕ)

pub record Env : Type 0 where
  pub fault : ℕ → Option Err
  pub clock : ℕ → ℕ
  -- `strings.ToLower` and what the guard of outgoing URLs calls
  pub net : Net
  -- `json.Valid`, `json.Unmarshal` to `any` and `json.Marshal`
  pub is_json : List ℕ → Bool
  pub unmarshal : List ℕ → Option Value
  pub marshal : Value → Option (List ℕ)
  -- the text that a JSONB column gives back for a text that is written into it
  pub jsonb : List ℕ → List ℕ
  -- the answer of the list cache to the call with the number
  pub cached : ℕ → ListSourcesRequest → Result (Option ListSourcesResponse)

-- `invalidated` and `stored` are the calls of the list cache.
pub record World : Type 0 where
  pub tick : ℕ
  pub serial : ℕ
  pub sources : List Source
  pub invalidated : List ℕ
  pub stored : List (ListSourcesRequest × ListSourcesResponse)

abbrev pub type_rss : String
type_rss = "rss"

abbrev pub type_email : String
type_email = "email"

-- `IsValidType`
abbrev pub is_valid_type : String → Bool
is_valid_type t = str_eq t type_rss || str_eq t type_email

abbrev pub next_tick : World → World
next_tick w = record w { tick = suc w.tick }

module _ (env : Env) where
  abbrev pub statement : Proc World (Unit {0})
  statement = calling (λ (w : World). w.tick) next_tick env.fault

  abbrev pub read_clock : Proc World ℕ
  read_clock w = (ok (env.clock w.tick), next_tick w)
