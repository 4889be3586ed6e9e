-- ===== src/Database/Open.antt =====
-- `Db::open` and `shellexpand_path` of crates/skb-core/src/db.rs. The file system and the engine are
-- parameters.
use mathlib.Core.List.{reverse}
use surreal_knowledge_base.Base.{
  ℕ, Text, lit, strip_prefix, starts_with, text_eq, is_empty, drop_while, Bool, ◌==◌, ◌||◌, Option,
  none, some, [], ◌∷◌, if◌then◌else◌, not,
}
use surreal_knowledge_base.Error.{ErrorCode, SkbError, skb_error, Outcome, ok, err, ◌>>◌, map_err}
use surreal_knowledge_base.Config.{Config, StorageMode, embedded, remote, join}
use surreal_knowledge_base.Search.Filter.{db_error}

pub record Engine : Type 0 where
  -- The variable `HOME`.
  pub home : Option Text
  pub create_dir_all : Text → Outcome Text (Unit {0})
  pub connect : Text → Outcome Text (Unit {0})
  pub select : Text → Text → Outcome Text (Unit {0})

expand_home : Option Text → Text → Option Text → Text
expand_home none path rest = path
expand_home (some home) path none = home
expand_home (some home) path (some rest) = join home rest

-- `shellexpand_path`
unfoldable pub shellexpand_path : Option Text → Text → Text
unfolding expand_home
shellexpand_path home path =
    if starts_with (lit "~/") path || text_eq path (lit "~")
    then expand_home home path (strip_prefix (lit "~/") path)
    else path

is_slash : ℕ → Bool
is_slash c = c == b'/'

trim_slashes : Text → Text
unfolding is_slash
trim_slashes path = reverse (drop_while is_slash (reverse path))

-- What stands before the last step of a path; a root stays.
before_last : Text → Text
unfolding is_slash
before_last path = reverse (drop_while (λ c. not (is_slash c)) (reverse path))

root_or : Text → Text → Text
root_or path [] = if starts_with (lit "/") path then lit "/" else []
root_or path (c ∷ rest) = c ∷ rest

-- `Path::parent`
unfoldable pub parent : Text → Option Text
unfolding trim_slashes before_last root_or
parent path =
    if is_empty (trim_slashes path)
    then none
    else some (root_or path (trim_slashes (before_last (trim_slashes path))))

create_parent : Engine → Option Text → Outcome SkbError (Unit {0})
create_parent engine none = ok tt
create_parent engine (some dir) =
    map_err (db_error (lit "create db dir")) (engine.create_dir_all dir)

open_embedded : Engine → Config → Text → Outcome SkbError (Unit {0})
unfolding create_parent parent
open_embedded engine config path = do
  create_parent engine (parent path)
  map_err (db_error (lit "open SurrealKv")) (engine.connect path)
  map_err (db_error (lit "use ns/db"))
      (engine.select config.storage.namespace config.storage.database)

open_mode : Engine → Config → StorageMode → Outcome SkbError (Unit {0})
unfolding open_embedded shellexpand_path
open_mode engine config embedded =
    open_embedded engine config (shellexpand_path engine.home config.storage.path)
open_mode engine config remote =
    err
      (skb_error ErrorCode.db (lit "Remote mode not yet implemented. Use embedded mode (default)."))

-- `Db::open`
unfoldable pub open_db : Engine → Config → Outcome SkbError (Unit {0})
unfolding open_mode
open_db engine config = open_mode engine config config.storage.mode
