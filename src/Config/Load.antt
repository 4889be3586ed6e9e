-- ===== src/Config/Load.antt =====
-- `Config::load` and the paths of the configuration file, in crates/skb-core/src/config.rs.
use surreal_knowledge_base.Base.{Text, lit, Option, none, some, ◌++◌, Bool, if◌then◌else◌}
use surreal_knowledge_base.Error.{AnyError, other, context, Outcome, ok, ◌>>=◌, map_err}
use surreal_knowledge_base.Config.{Config, join, default_config}
use surreal_knowledge_base.Config.Env.{Env, present, apply_env_overrides}

-- What a run reads of its machine. `read` fails with the system's message, `from_toml` with the
-- parser's.
pub record Host : Type 0 where
  pub env : Env
  pub on_windows : Bool
  pub exists : Text → Bool
  pub read : Text → Outcome Text Text
  pub from_toml : Text → Outcome Text Config

abbrev dot : Text
dot = lit "."

-- `home_dir`
unfoldable pub home_dir : Host → Text
home_dir h = elim (h.env "HOME") [
  | present home ↦ home
  | _ ↦ if h.on_windows then (elim (h.env "USERPROFILE") [ present p ↦ p | _ ↦ dot ]) else dot
]

-- `Config::find_config_path`
unfoldable pub find_config_path : Host → Option Text
unfolding home_dir
find_config_path h =
    let project = lit "./skb.toml" in
    let user = join (home_dir h) (lit ".config/skb/config.toml") in
    if h.exists project then some project else if h.exists user then some user else none

-- `Config::writable_config_path`
unfoldable pub writable_config_path : Host → Text
unfolding find_config_path
writable_config_path h = elim (find_config_path h) [ none ↦ lit "./skb.toml" | some p ↦ p ]

from_file : Host → Option Text → Outcome AnyError Config
from_file h none = ok (default_config (home_dir h))
from_file h (some path) = do
  content ← map_err (λ m. context (lit "failed to read config: " ++ path) (other m)) (h.read path)
  map_err (λ m. context (lit "failed to parse config: " ++ path) (other m)) (h.from_toml content)

-- `Config::load`
unfoldable pub load : Host → Outcome AnyError Config
unfolding from_file find_config_path
load h = do c ← from_file h (find_config_path h); apply_env_overrides h.env c
