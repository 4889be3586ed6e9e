-- ===== src/Config/Env/Statements.antt =====
-- One statement of `apply_env_overrides` (crates/skb-core/src/config.rs).
use surreal_knowledge_base.Base.{
  ℕ, Text, String, Option, none, some, List, ◌≡◌, refl, ◌⊎◌, inl, inr, arith,
}
use surreal_knowledge_base.Error.{
  SkbError, AnyError, Outcome, ok, err, panic, out_of_fuel, ◌>>=◌, >>=-eq-ok,
}
use surreal_knowledge_base.Config.{Config, StorageMode, SearchMode}
use surreal_knowledge_base.Config.Parse.{parse_unsigned}
use surreal_knowledge_base.Config.Env.{
  Env, present, not_present, env_opt, env_parse, assign, overlay, set_storage_mode,
  set_default_mode, set_allowed_dirs, listed_dirs,
}
use surreal_knowledge_base.Config.Env.Fields.{
  Overlaid, IsNumber, IsStorageMode, IsSearchMode, IsDirs,
}

-- A statement that succeeds found nothing and left the configuration, or wrote what it found.
pub overlay-eq-ok :
    {A : Type 0} (found : Outcome SkbError (Option A))
    (write : A → Config → Outcome AnyError Config) (c r : Config)
    → overlay found write c ≡ ok r
    → ((found ≡ ok none) × (r ≡ c)) ⊎ ((a : A) × (found ≡ ok (some a)) × (write a c ≡ ok r))
overlay-eq-ok (ok none) write c r e = inl (refl, ground arith)
overlay-eq-ok (ok (some a)) write c r e = inr (a, refl, e)
overlay-eq-ok (err x) write c r e = cc
overlay-eq-ok panic write c r e = cc
overlay-eq-ok out_of_fuel write c r e = cc

pub env_opt-none : (env : Env) (key : String) → env_opt env key ≡ ok none → env key ≡ not_present
unfolding env_opt
env_opt-none env key e = ground arith

pub env_opt-some :
    (env : Env) (key : String) (t : Text) → env_opt env key ≡ ok (some t) → env key ≡ present t
unfolding env_opt
env_opt-some env key t e = ground arith

pub env_parse-none :
    (env : Env) (key : String) → env_parse env key ≡ ok none → env key ≡ not_present
unfolding env_opt env_parse
env_parse-none env key e = ground arith

pub env_parse-some :
    (env : Env) (key : String) (n : ℕ)
    → env_parse env key ≡ ok (some n)
    → (t : Text) × (env key ≡ present t) × (parse_unsigned t ≡ ok n)
unfolding env_opt env_parse
env_parse-some env key n e = ground arith

-- One statement of a chain: the chain goes on from the configuration with the field as overlaid.
module _ (env : Env) (key : String) {B : Type 0} (old : B) where
  pub variable_bind :
      (Reads : Text → B → Type 0) (put : B → Config → Config)
      (write : Text → Config → Outcome AnyError Config) (k : Config → Outcome AnyError Config)
      (c r : Config)
      → put old c ≡ c
      → ((t : Text) (d : Config) → write t c ≡ ok d → (v : B) × Reads t v × (d ≡ put v c))
      → (overlay (env_opt env key) write c >>= k) ≡ ok r
      → (v : B) × Overlaid env key Reads old v × (k (put v c) ≡ ok r)
  variable_bind Reads put write k c r same reads e =
      let (d, p, q) = >>=-eq-ok (overlay (env_opt env key) write c) k e in
      elim (overlay-eq-ok (env_opt env key) write c d p) [
        | inl (none_found, unchanged) ↦
            (old, inr (env_opt-none env key none_found, refl), (rw same (rw unchanged at q)))
        | inr (t, found, w) ↦
            let (v, holds, made) = reads t d w in
            (v, inl (t, env_opt-some env key t found, holds), (rw made at q))
      ]

pub IsNumber-bind :
    (env : Env) (key : String) (old : ℕ) (put : ℕ → Config → Config)
    (k : Config → Outcome AnyError Config) (c r : Config)
    → put old c ≡ c
    → (assign (env_parse env key) put c >>= k) ≡ ok r
    → (n : ℕ) × Overlaid env key IsNumber old n × (k (put n c) ≡ ok r)
IsNumber-bind env key old put k c r same e =
    let (d, p, q) = >>=-eq-ok (assign (env_parse env key) put c) k e in
    elim (overlay-eq-ok (env_parse env key) (λ n d. ok (put n d)) c d p) [
      | inl (none_found, unchanged) ↦
          (old, inr (env_parse-none env key none_found, refl), (rw same (rw unchanged at q)))
      | inr (n, found, w) ↦
          let (t, is_set, holds) = env_parse-some env key n found in
          let made : d ≡ put n c = ground arith in (n, inl (t, is_set, holds), (rw made at q))
    ]

pub bind-ok : {E A : Type 0} (m : Outcome E A) {r : A} → m ≡ ok r → (m >>= ok) ≡ ok r
bind-ok (ok a) e = e
bind-ok (err x) e = e
bind-ok panic e = e
bind-ok out_of_fuel e = e

pub storage_mode_reads :
    (t : Text) (c d : Config)
    → set_storage_mode t c ≡ ok d
    → (m : StorageMode) × IsStorageMode t m
      × (d ≡ record c { storage = record c.storage { mode = m } })
unfolding set_storage_mode
storage_mode_reads t c d e = ground arith

pub search_mode_reads :
    (t : Text) (c d : Config)
    → set_default_mode t c ≡ ok d
    → (m : SearchMode) × IsSearchMode t m
      × (d ≡ record c { search = record c.search { default_mode = m } })
unfolding set_default_mode
search_mode_reads t c d e = ground arith

pub IsDirs-reads :
    (t : Text) (c d : Config)
    → set_allowed_dirs t c ≡ ok d
    → (ds : List Text) × IsDirs t ds
      × (d ≡ record c { upload = record c.upload { allowed_dirs = ds } })
unfolding set_allowed_dirs
IsDirs-reads t c d e = (listed_dirs t, (refl, ground arith), ground arith)
