-- ===== src/Graph/Requests.antt =====
-- The requests of crates/skb-core/src/graph.rs and their checks.
use surreal_knowledge_base.Base.{
  OnSome, refl, ℕ, ◌≤◌, ◌<◌, ◌≡◌, ◌↔◌, Text, lit, trim, is_empty, show, Option, none, some, ◌++◌,
  ltb, leb, ◌==◌, Bool, true, false, not, ◌&&◌, ◌||◌, arith,
}
use surreal_knowledge_base.Base.Float.{Float, Order, less}
use surreal_knowledge_base.Error.{SkbError, Outcome, ok, ◌>>◌}
use surreal_knowledge_base.Config.{reject_if}
use surreal_knowledge_base.Search.Limits.{max_top_k}

pub record EntityInfo : Type 0 where
  pub name : Text
  pub kind : Text
  pub description : Option Text

-- `EntityInfo::validate`
unfoldable pub validate_entity : EntityInfo → Outcome SkbError (Unit {0})
validate_entity e = do
  reject_if (is_empty (trim e.name)) (lit "name must not be empty")
  reject_if (is_empty (trim e.kind)) (lit "kind must not be empty")

pub record LinkInfo (F : Type 0) : Type 0 where
  pub from : Text
  pub to : Text
  pub relation : Text
  pub weight : Option F

is_less : Option Order → Bool
is_less (some less) = true
is_less _ = false

-- `is_finite` is the standard library's test on `f64`.
check_weight : {F : Type 0} → Float F → (F → Bool) → Option F → Outcome SkbError (Unit {0})
unfolding is_less
check_weight f is_finite none = ok tt
check_weight f is_finite (some w) =
    reject_if (not (is_finite w) || is_less (f.partial_cmp w (f.of_ℕ 0)))
      (lit "weight must be a finite non-negative number")

-- `LinkInfo::validate`
unfoldable pub validate_link :
    {F : Type 0} → Float F → (F → Bool) → LinkInfo F → Outcome SkbError (Unit {0})
unfolding check_weight
validate_link f is_finite l = do
  reject_if (is_empty (trim l.from)) (lit "from must not be empty")
  reject_if (is_empty (trim l.to)) (lit "to must not be empty")
  reject_if (is_empty (trim l.relation)) (lit "relation must not be empty")
  check_weight f is_finite l.weight

pub record GraphQueryRequest : Type 0 where
  pub from : Text
  pub relation : Option Text
  pub depth : Option ℕ
  pub limit : Option ℕ

check_depth : Option ℕ → Outcome SkbError (Unit {0})
check_depth none = ok tt
check_depth (some d) = reject_if (not (leb 1 d && leb d 5)) (lit "depth must be between 1 and 5")

check_limit : Option ℕ → Outcome SkbError (Unit {0})
check_limit none = ok tt
check_limit (some n) = do
  reject_if (n == 0) (lit "limit must be at least 1")
  reject_if (ltb max_top_k n) (lit "limit must be at most " ++ show max_top_k)

-- `GraphQueryRequest::validate`
unfoldable pub validate_query : GraphQueryRequest → Outcome SkbError (Unit {0})
unfolding check_depth check_limit
validate_query r = do
  reject_if (is_empty (trim r.from)) (lit "from must not be empty")
  check_depth r.depth
  check_limit r.limit

pub record IsValidQuery (r : GraphQueryRequest) : Type 0 where
  pub from : is_empty (trim r.from) ≡ false
  pub depth : OnSome (λ d. (0 < d) × (d ≤ 5)) r.depth
  pub limit : OnSome (λ n. (0 < n) × (n ≤ max_top_k)) r.limit

depth_bounds : (o : Option ℕ) → (check_depth o ≡ ok tt) ↔ OnSome (λ d. (0 < d) × (d ≤ 5)) o
unfolding check_depth
depth_bounds none = (λ h. tt, λ h. refl)
depth_bounds (some d) = (λ h. ground arith, λ h. ground arith)

limit_bounds : (o : Option ℕ) → (check_limit o ≡ ok tt) ↔ OnSome (λ n. (0 < n) × (n ≤ max_top_k)) o
unfolding check_limit
limit_bounds none = (λ h. tt, λ h. refl)
limit_bounds (some d) = (λ h. ground arith, λ h. ground arith)

-- A graph query is accepted exactly when its start is not blank, its depth, if given, lies between
-- 1 and 5, and its limit, if given, lies between 1 and 1000.
pub validate_query-eq-ok_iff : (r : GraphQueryRequest) → (validate_query r ≡ ok tt) ↔ IsValidQuery r
unfolding validate_query
validate_query-eq-ok_iff r = (
  λ h. record {
    from = ground arith;
    depth = (depth_bounds r.depth).0 (ground arith);
    limit = (limit_bounds r.limit).0 (ground arith);
  },
  λ v. ground (arith, v.from, (depth_bounds r.depth).1 v.depth, (limit_bounds r.limit).1 v.limit),
)
