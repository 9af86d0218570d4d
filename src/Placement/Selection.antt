-- ===== src/Placement/Selection.antt =====
-- Which clusters and datacenters the rules of capsule/placement select.
use falak.Prelude.{
  Bool, ◌&&◌, ◌||◌, ◌≡◌, refl, ◌∙◌, ap, List, [], ◌∷◌, some, String, lookup, any, keep, is_nil,
  ◌==◌, string_eq, arith,
}
use falak.Capsule.Labels.{Labels, labels_match}
use falak.Capsule.Labels.Matching.{labels_match-nil}
use falak.Placement.{
  Rule, Entity, EntityProvider, contains, select, select_by_name, select_by_labels,
  evaluate_cluster_rule, evaluate_datacenter_rule,
}

-- An empty list of names selects every name; a list with names selects those.
abbrev pub name_selected : List String → String → Bool
name_selected names s = is_nil names || contains names s

any-keep {ℓ} :
    {A : Type ℓ} (p q : A → Bool) (xs : List A) → any p (keep q xs) ≡ any (λ x. q x && p x) xs
unfolding any keep
any-keep p q [] = refl
any-keep p q (x ∷ xs) = ground (arith, any-keep p q xs)

any-cong {ℓ} :
    {A : Type ℓ} (p q : A → Bool) (xs : List A) → ((x : A) → p x ≡ q x) → any p xs ≡ any q xs
unfolding any
any-cong p q [] h = refl
any-cong p q (x ∷ xs) h = ground (arith, h x, any-cong p q xs)

any-select_by_name :
    (p : Entity → Bool) (entities : List Entity) (names : List String)
    → any p (select_by_name entities names) ≡ any (λ e. name_selected names e.name && p e) entities
unfolding select_by_name
any-select_by_name p entities [] = any-cong p _ entities (λ e. refl)
any-select_by_name p entities (n ∷ names) = any-keep p (λ e. contains (n ∷ names) e.name) entities

any-select_by_labels :
    (p : Entity → Bool) (entities : List Entity) (labels : Labels)
    → any p (select_by_labels entities labels)
      ≡ any (λ e. labels_match e.labels labels && p e) entities
unfolding select_by_labels
any-select_by_labels p entities [] = any-cong p _ entities (λ e. rw (labels_match-nil e.labels))
any-select_by_labels p entities (l ∷ labels) =
    any-keep p (λ e. labels_match e.labels (l ∷ labels)) entities

select-twice :
    (entities : List Entity) (names : List String) (labels : Labels)
    → select entities names labels ≡ select_by_labels (select_by_name entities names) labels
unfolding select select_by_name select_by_labels
select-twice entities [] [] = refl
select-twice entities [] (l ∷ labels) = refl
select-twice entities (n ∷ names) [] = refl
select-twice entities (n ∷ names) (l ∷ labels) = refl

-- An entity that passes a test is found among the selected ones exactly when one of the entities
-- passes it and has a selected name and the labels asked for.
any-select :
    (p : Entity → Bool) (entities : List Entity) (names : List String) (labels : Labels)
    → any p (select entities names labels)
      ≡ any (λ e. name_selected names e.name && (labels_match e.labels labels && p e)) entities
any-select p entities names labels =
    ap (any p) (select-twice entities names labels)
    ∙ any-select_by_labels p (select_by_name entities names) labels
    ∙ any-select_by_name _ entities names

-- A node that says which cluster and which datacenter it is in meets a cluster rule, or a
-- datacenter rule, exactly when the provider has one of that name that the rule's names, if there
-- are any, contain and whose labels match the rule's.
pub evaluate_cluster_rule_lem :
    (provider : EntityProvider) (n : Entity) (rule : Rule) (c d : String)
    → lookup "cluster" n.labels ≡ some c
    → lookup "datacenter" n.labels ≡ some d
    → (evaluate_cluster_rule provider n rule
        ≡ any
            (λ e.
              name_selected rule.names e.name && (labels_match e.labels rule.labels && e.name == c))
            provider.clusters)
      × (evaluate_datacenter_rule provider n rule
          ≡ any
              (λ e.
                name_selected rule.names e.name
                && (labels_match e.labels rule.labels && e.name == d))
              provider.datacenters)
unfolding evaluate_cluster_rule evaluate_datacenter_rule
evaluate_cluster_rule_lem provider n rule c d h k = (
  rw h (any-select (λ e. e.name == c) provider.clusters rule.names rule.labels),
  rw k (any-select (λ e. e.name == d) provider.datacenters rule.names rule.labels),
)
