-- ===== src/Metadata/Operations.antt =====
-- src/policy_metadata.rs: the operations of a rule, read from their names.
use policy_evaluator.Prelude.{
  String, List, [], ◌∷◌, ok, ◌≡◌, ◌↔◌, refl, arith, map, eq_iff, >>=-eq-ok,
}
use policy_evaluator.Metadata.{
  Operation, create, update, delete, connect, all, operation_try_from, collect_operations,
  NamedRuleWithOperations, Rule, rule_try_from, list_or_default,
}

-- the name of an operation in a manifest
abbrev pub operation_name : Operation → String
operation_name create = "CREATE"
operation_name update = "UPDATE"
operation_name delete = "DELETE"
operation_name connect = "CONNECT"
operation_name all = "*"

operation_try_from_sound :
    (s : String) (op : Operation) → operation_try_from s ≡ ok op → s ≡ operation_name op
unfolding operation_try_from
operation_try_from_sound s op h = ground (
  arith,
  eq_iff s "CREATE",
  eq_iff s "UPDATE",
  eq_iff s "DELETE",
  eq_iff s "CONNECT",
  eq_iff s "*",
)

-- The name of an operation is read back as that operation.
operation_try_from-name : (op : Operation) → operation_try_from (operation_name op) ≡ ok op
unfolding operation_try_from
operation_try_from-name create = refl
operation_try_from-name update = refl
operation_try_from-name delete = refl
operation_try_from-name connect = refl
operation_try_from-name all = refl

collect_operations_sound :
    (names : List String) (ops : List Operation)
    → collect_operations names ≡ ok ops
    → names ≡ map operation_name ops
unfolding collect_operations
collect_operations_sound [] ops h = ground arith
collect_operations_sound (s ∷ names) ops h =
    let (o, here, rest) = >>=-eq-ok (operation_try_from s) _ h in
    let (os, later, same) = >>=-eq-ok (collect_operations names) _ rest in
    ground (arith, operation_try_from_sound s o here, collect_operations_sound names os later)

collect_operations-names :
    (ops : List Operation) → collect_operations (map operation_name ops) ≡ ok ops
unfolding collect_operations
collect_operations-names [] = refl
collect_operations-names (o ∷ ops) =
    rw (operation_try_from-name o, collect_operations-names ops) refl

-- The other three lists of a rule are those of the manifest, or empty.
pub record Reads (named : NamedRuleWithOperations) (rule : Rule) : Type 0 where
  pub operations : list_or_default named.operations ≡ map operation_name rule.operations
  pub api_groups : rule.api_groups ≡ list_or_default named.api_groups
  pub api_versions : rule.api_versions ≡ list_or_default named.api_versions
  pub resources : rule.resources ≡ list_or_default named.resources

-- A rule is read from a manifest exactly if its operations have the names listed there, in order,
-- and its other lists are those of the manifest.
pub rule_try_from_iff :
    (named : NamedRuleWithOperations) (rule : Rule)
    → (rule_try_from named ≡ ok rule) ↔ Reads named rule
unfolding rule_try_from
rule_try_from_iff named rule = (
  (λ h.
      let (ops, read, same) =
        >>=-eq-ok (collect_operations (list_or_default named.operations)) _ h in
      record {
        operations =
            ground (arith, collect_operations_sound (list_or_default named.operations) ops read);
        api_groups = ground arith;
        api_versions = ground arith;
        resources = ground arith;
      }),
  (λ h. rw (h.operations, collect_operations-names rule.operations) (ground arith)),
)
