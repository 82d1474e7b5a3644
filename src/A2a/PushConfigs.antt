-- ===== src/A2a/PushConfigs.antt =====
-- `DurablePushConfigs` of core/a2a_adapter/official.py.
pub mod Lookups
pub mod Stored
use s13code.Prelude.{
  String, Bool, true, false, not, ◌&&◌, ◌==◌, Option, none, some, List, [], ◌∷◌, ◌++◌,
  if◌then◌else◌, any, filter,
}

-- A row of `a2a_push`, whose primary key is `id` alone.
pub record PushConfig : Type 0 where
  pub task_id : String
  pub id : String
  pub url : String
  pub token : String

abbrev others : String → List PushConfig → List PushConfig
others ident cs = filter (λ c. not (c.id == ident)) cs

-- `put`: `insert or replace`.
unfoldable pub put_config : PushConfig → List PushConfig → List PushConfig
put_config c cs = others c.id cs ++ c ∷ []

-- `get`
unfoldable pub get_config : String → List PushConfig → Option PushConfig
get_config ident [] = none
get_config ident (c ∷ cs) = if c.id == ident then some c else get_config ident cs

-- `list`
unfoldable pub list_configs : String → List PushConfig → List PushConfig
list_configs task cs = filter (λ c. c.task_id == task) cs

abbrev pub is_row : String → String → PushConfig → Bool
is_row task ident c = c.task_id == task && c.id == ident

abbrev unlisted : String → String → List PushConfig → List PushConfig
unlisted task ident cs = filter (λ c. not (is_row task ident c)) cs

-- `delete`, and whether a row was deleted.
unfoldable pub delete_config : String → String → List PushConfig → Bool × List PushConfig
delete_config task ident cs = (any (is_row task ident) cs, unlisted task ident cs)
