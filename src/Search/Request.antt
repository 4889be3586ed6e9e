-- ===== src/Search/Request.antt =====
-- `SearchRequest` of crates/skb-core/src/search.rs and its check.
use surreal_knowledge_base.Base.{
  OnSome, refl, ℕ, ◌≤◌, ◌<◌, ◌≡◌, ◌↔◌, Text, lit, trim, is_empty, show, Option, none, some, List,
  ◌++◌, ltb, ◌==◌, arith, false,
}
use surreal_knowledge_base.Error.{SkbError, Outcome, ok, ◌>>◌}
use surreal_knowledge_base.Config.{SearchMode, reject_if}
use surreal_knowledge_base.Search.Limits.{max_top_k, max_graph_expand}

pub record SearchRequest : Type 0 where
  pub query : Text
  pub mode : Option SearchMode
  pub top_k : Option ℕ
  pub graph_expand : Option ℕ
  pub filter : Option (List (Text × Text))

check_top_k : Option ℕ → Outcome SkbError (Unit {0})
check_top_k none = ok tt
check_top_k (some k) = do
  reject_if (k == 0) (lit "top_k must be at least 1")
  reject_if (ltb max_top_k k) (lit "top_k must be at most " ++ show max_top_k)

check_graph_expand : Option ℕ → Outcome SkbError (Unit {0})
check_graph_expand none = ok tt
check_graph_expand (some d) =
    reject_if (ltb max_graph_expand d)
      (lit "graph_expand must be at most " ++ show max_graph_expand)

-- `SearchRequest::validate`
unfoldable pub validate : SearchRequest → Outcome SkbError (Unit {0})
unfolding check_top_k check_graph_expand
validate r = do
  reject_if (is_empty (trim r.query)) (lit "query must not be empty")
  check_top_k r.top_k
  check_graph_expand r.graph_expand

pub record IsValid (r : SearchRequest) : Type 0 where
  pub query : is_empty (trim r.query) ≡ false
  pub top_k : OnSome (λ k. (0 < k) × (k ≤ max_top_k)) r.top_k
  pub graph_expand : OnSome (λ d. d ≤ max_graph_expand) r.graph_expand

bounds_of_check_top_k :
    (o : Option ℕ) → (check_top_k o ≡ ok tt) ↔ OnSome (λ k. (0 < k) × (k ≤ max_top_k)) o
unfolding check_top_k
bounds_of_check_top_k none = (λ h. tt, λ h. refl)
bounds_of_check_top_k (some k) = (λ h. ground arith, λ h. ground arith)

bounds_of_check_graph_expand :
    (o : Option ℕ) → (check_graph_expand o ≡ ok tt) ↔ OnSome (λ d. d ≤ max_graph_expand) o
unfolding check_graph_expand
bounds_of_check_graph_expand none = (λ h. tt, λ h. refl)
bounds_of_check_graph_expand (some d) = (λ h. ground arith, λ h. ground arith)

-- A search request is accepted exactly when its query holds more than white space, its result
-- count, if given, lies between 1 and 1000, and its graph depth, if given, is at most 5.
pub validate_request-eq-ok_iff : (r : SearchRequest) → (validate r ≡ ok tt) ↔ IsValid r
unfolding validate
validate_request-eq-ok_iff r = (
  λ h. record {
    query = ground arith;
    top_k = (bounds_of_check_top_k r.top_k).0 (ground arith);
    graph_expand = (bounds_of_check_graph_expand r.graph_expand).0 (ground arith);
  },
  λ v. ground (
    arith,
    v.query,
    (bounds_of_check_top_k r.top_k).1 v.top_k,
    (bounds_of_check_graph_expand r.graph_expand).1 v.graph_expand,
  ),
)
