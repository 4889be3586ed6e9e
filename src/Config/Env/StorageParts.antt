-- ===== src/Config/Env/StorageParts.antt =====
-- The statements of `apply_env_overrides` (crates/skb-core/src/config.rs) on the storage.
use surreal_knowledge_base.Base.{Text, Option, some, ◌≡◌, refl, sym, subst, arith}
use surreal_knowledge_base.Error.{ok, ◌>>=◌, >>=-eq-ok}
use surreal_knowledge_base.Config.{Config, StorageMode, StorageConfig}
use surreal_knowledge_base.Config.Env.{
  Env, override_storage, override_location, override_credentials, override_database,
  set_storage_mode,
}
use surreal_knowledge_base.Config.Env.Fields.{
  Overlaid, IsText, IsSome, IsStorageMode, IsStorageOverlaid,
}
use surreal_knowledge_base.Config.Env.Statements.{variable_bind, bind-ok, storage_mode_reads}

location-Overlaid :
    (env : Env) (c r : Config)
    → override_location env c ≡ ok r
    → (path : Text) × (mode : StorageMode) × (url : Option Text) × Overlaid env "SKB_STORAGE_PATH"
        IsText c.storage.path path
      × Overlaid env "SKB_STORAGE_MODE" IsStorageMode c.storage.mode mode
      × Overlaid env "SKB_STORAGE_URL" IsSome c.storage.url url
      × (record c { storage = record c.storage { path = path; mode = mode; url = url } } ≡ r)
unfolding override_location
location-Overlaid env c r e =
    let (v0, o0, e) =
      variable_bind env "SKB_STORAGE_PATH" c.storage.path IsText
        (λ v c. record c { storage = record c.storage { path = v } })
        (λ v c. ok (record c { storage = record c.storage { path = v } })) _ _ r refl
        (λ t d w. (t, refl, ground arith)) e in
    let (v1, o1, e) =
      variable_bind env "SKB_STORAGE_MODE" c.storage.mode IsStorageMode
        (λ v c. record c { storage = record c.storage { mode = v } }) set_storage_mode _ _ r refl
        (λ t d w. storage_mode_reads t _ d w) e in
    let (v2, o2, e) =
      variable_bind env "SKB_STORAGE_URL" c.storage.url IsSome
        (λ v c. record c { storage = record c.storage { url = v } })
        (λ v c. ok (record c { storage = record c.storage { url = some v } })) ok _ r refl
        (λ t d w. (some t, refl, ground arith)) (bind-ok _ e) in
    (v0, v1, v2, o0, o1, o2, ground arith)

credentials-Overlaid :
    (env : Env) (c r : Config)
    → override_credentials env c ≡ ok r
    → (username : Option Text) × (password : Option Text) × Overlaid env "SKB_STORAGE_USERNAME"
        IsSome c.storage.username username
      × Overlaid env "SKB_STORAGE_PASSWORD" IsSome c.storage.password password
      × (record c { storage = record c.storage { username = username; password = password } } ≡ r)
unfolding override_credentials
credentials-Overlaid env c r e =
    let (v0, o0, e) =
      variable_bind env "SKB_STORAGE_USERNAME" c.storage.username IsSome
        (λ v c. record c { storage = record c.storage { username = v } })
        (λ v c. ok (record c { storage = record c.storage { username = some v } })) _ _ r refl
        (λ t d w. (some t, refl, ground arith)) e in
    let (v1, o1, e) =
      variable_bind env "SKB_STORAGE_PASSWORD" c.storage.password IsSome
        (λ v c. record c { storage = record c.storage { password = v } })
        (λ v c. ok (record c { storage = record c.storage { password = some v } })) ok _ r refl
        (λ t d w. (some t, refl, ground arith)) (bind-ok _ e) in
    (v0, v1, o0, o1, ground arith)

database-Overlaid :
    (env : Env) (c r : Config)
    → override_database env c ≡ ok r
    → (namespace : Text) × (database : Text) × Overlaid env "SKB_STORAGE_NAMESPACE" IsText
        c.storage.namespace namespace
      × Overlaid env "SKB_STORAGE_DATABASE" IsText c.storage.database database
      × (record c { storage = record c.storage { namespace = namespace; database = database } } ≡ r)
unfolding override_database
database-Overlaid env c r e =
    let (v0, o0, e) =
      variable_bind env "SKB_STORAGE_NAMESPACE" c.storage.namespace IsText
        (λ v c. record c { storage = record c.storage { namespace = v } })
        (λ v c. ok (record c { storage = record c.storage { namespace = v } })) _ _ r refl
        (λ t d w. (t, refl, ground arith)) e in
    let (v1, o1, e) =
      variable_bind env "SKB_STORAGE_DATABASE" c.storage.database IsText
        (λ v c. record c { storage = record c.storage { database = v } })
        (λ v c. ok (record c { storage = record c.storage { database = v } })) ok _ r refl
        (λ t d w. (t, refl, ground arith)) (bind-ok _ e) in
    (v0, v1, o0, o1, ground arith)

pub storage_overlaid :
    (env : Env) (c r : Config)
    → override_storage env c ≡ ok r
    → (part : StorageConfig) × IsStorageOverlaid env c.storage part
      × (record c { storage = part } ≡ r)
unfolding override_storage
storage_overlaid env c r e0 =
    let (d0, p0, e1) = >>=-eq-ok (override_location env _) _ e0 in
    let (path, mode, url, o_path, o_mode, o_url, m0) = location-Overlaid env _ d0 p0 in
    let t1 =
      subst (λ x. (override_credentials env x >>= override_database env) ≡ ok r) (sym m0) e1 in
    let (d1, p1, e2) = >>=-eq-ok (override_credentials env _) _ t1 in
    let (username, password, o_username, o_password, m1) = credentials-Overlaid env _ d1 p1 in
    let (namespace, database, o_namespace, o_database, whole) =
      database-Overlaid env _ r (subst (λ x. override_database env x ≡ ok r) (sym m1) e2) in
    (
      record {
        path = path;
        mode = mode;
        url = url;
        username = username;
        password = password;
        namespace = namespace;
        database = database;
      },
      record {
        path = o_path;
        mode = o_mode;
        url = o_url;
        username = o_username;
        password = o_password;
        namespace = o_namespace;
        database = o_database;
      },
      whole,
    )
