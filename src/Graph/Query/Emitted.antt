-- ===== src/Graph/Query/Emitted.antt =====
-- The invariant of the traversal of `graph_query` (crates/skb-core/src/graph.rs), and the emission of
-- one entity.
use surreal_knowledge_base.Base.{
  ℕ, ◌≤◌, ◌<◌, ◌≡◌, refl, ap, ◌∙◌, Text, text_eq, List, [], ◌∷◌, ◌++◌, map, length, length-append,
  any_by, filter_by, All, All-append, ltb, Bool, true, false, Bool-cases, inl, inr, arith, tests,
}
use surreal_knowledge_base.Graph.Ids.{entity_rid}
use surreal_knowledge_base.Graph.Rows.{GraphNode, GraphEdge, Walk}
use surreal_knowledge_base.Graph.Query.{emit}

-- No text stands twice in the list.
abbrev pub AreDifferent : List Text → Type 0
AreDifferent [] = Unit
AreDifferent (s ∷ ss) = (any_by (λ t. text_eq t s) ss ≡ false) × AreDifferent ss

pub record IsTraversal (limit depth : ℕ) (nodes : List GraphNode) (edges : List GraphEdge)
    (emitted : List Text) : Type 0 where
  pub targets : map (λ e. e.to) edges ≡ emitted
  pub reached : map (λ n. n.id) (filter_by (λ n. ltb 0 n.depth) nodes) ≡ emitted
  pub once : AreDifferent emitted
  pub few : length emitted ≤ limit
  pub shallow : All (λ n. n.depth ≤ depth) nodes

pub any_by-snoc :
    {A : Type 0} (p : A → Bool) (xs : List A) (x : A)
    → any_by p xs ≡ false
    → p x ≡ false
    → any_by p (xs ++ x ∷ []) ≡ false
any_by-snoc p [] x h k = ground arith
any_by-snoc p (y ∷ xs) x h k = ground (arith, any_by-snoc p xs x)

pub snoc-AreDifferent :
    (ss : List Text) (s : Text)
    → any_by (text_eq s) ss ≡ false
    → AreDifferent ss
    → AreDifferent (ss ++ s ∷ [])
snoc-AreDifferent [] s h k = (refl, tt)
snoc-AreDifferent (t ∷ ss) s h (k, ks) =
    (any_by-snoc (λ u. text_eq u t) ss s k (ground arith), snoc-AreDifferent ss s (ground arith) ks)

pub map-snoc :
    {A B : Type 0} (f : A → B) (xs : List A) (x : A) → map f (xs ++ x ∷ []) ≡ map f xs ++ f x ∷ []
map-snoc f [] x = refl
map-snoc f (y ∷ xs) x = ap (λ t. f y ∷ t) (map-snoc f xs x)

pub filter_by-snoc :
    {A : Type 0} (p : A → Bool) (xs : List A) (x : A)
    → p x ≡ true
    → filter_by p (xs ++ x ∷ []) ≡ filter_by p xs ++ x ∷ []
filter_by-snoc p [] x h = rw h
filter_by-snoc p (y ∷ xs) x h = elim (Bool-cases (p y)) [
  | inl e ↦ rw (e, filter_by-snoc p xs x h)
  | inr e ↦ rw (e, filter_by-snoc p xs x h)
]

pub filter_by-snoc_not :
    {A : Type 0} (p : A → Bool) (xs : List A) (x : A)
    → p x ≡ false
    → filter_by p (xs ++ x ∷ []) ≡ filter_by p xs
filter_by-snoc_not p [] x h = rw h
filter_by-snoc_not p (y ∷ xs) x h = elim (Bool-cases (p y)) [
  | inl e ↦ rw (e, filter_by-snoc_not p xs x h)
  | inr e ↦ rw (e, filter_by-snoc_not p xs x h)
]

abbrev pub Keeps : ℕ → ℕ → Walk → Type 0
Keeps limit depth w = IsTraversal limit depth w.nodes w.edges w.emitted

pub emit-Keeps :
    (limit depth d : ℕ) (from relation name kind : Text) (w : Walk)
    → 0 < d
    → d ≤ depth
    → any_by (text_eq (entity_rid name)) w.emitted ≡ false
    → length w.emitted < limit
    → Keeps limit depth w
    → Keeps limit depth (emit from relation d name kind w)
unfolding emit
emit-Keeps limit depth d from relation name kind w low high fresh space h = record {
  targets = map-snoc (λ e. e.to) w.edges _ ∙ ap (λ t. t ++ entity_rid name ∷ []) h.targets;
  reached =
      ap (λ t. map (λ n. n.id) t) (filter_by-snoc (λ n. ltb 0 n.depth) w.nodes _ (omega tests))
      ∙ map-snoc (λ n. n.id) (filter_by (λ n. ltb 0 n.depth) w.nodes) _
      ∙ ap (λ t. t ++ entity_rid name ∷ []) h.reached;
  once = snoc-AreDifferent w.emitted (entity_rid name) fresh h.once;
  few = omega (arith, length-append w.emitted (entity_rid name ∷ []));
  shallow = All-append (λ n. n.depth ≤ depth) w.nodes _ h.shallow (high, tt);
}
