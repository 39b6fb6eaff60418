-- ===== src/Sources/Reachable.antt =====
-- The sources of all users through any calls of the service.
use contentflow.Prelude.{List, [], ◌∷◌}
use contentflow.Sources.Data.{
  Env, CreateSourceRequest, ListSourcesRequest, GetSourceRequest, UpdateSourceRequest, World,
}
use contentflow.Sources.Request.{SourceService}
use contentflow.Sources.Service.{
  create_source, list_sources, get_source, update_source, delete_source,
}

-- A call of the service, by any client at any time.
pub data Op : Type 0 where
  creates : CreateSourceRequest → Op
  lists : ListSourcesRequest → Op
  gets_one : GetSourceRequest → Op
  updates : UpdateSourceRequest → Op
  deletes : GetSourceRequest → Op

module _ (env : Env) (s : SourceService) where
  unfoldable pub step : Op → World → World
  step (creates req) w = (create_source env s req w).1
  step (lists req) w = (list_sources env s req w).1
  step (gets_one req) w = (get_source env s req w).1
  step (updates req) w = (update_source env s req w).1
  step (deletes req) w = (delete_source env s req w).1

  unfoldable pub run : List Op → World → World
  run [] w = w
  run (op ∷ ops) w = run ops (step op w)
