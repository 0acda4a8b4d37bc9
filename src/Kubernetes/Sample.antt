-- ===== src/Kubernetes/Sample.antt =====
-- A cluster with one pod, whose objects are numbers.
use mathlib.Core.List.{[], ◌∷◌}
use policy_evaluator.Prelude.{ℕ, String, true, none, List, ok, err}
use policy_evaluator.Kubernetes.{Kube, Cluster}

abbrev pub numbers : Kube
numbers = record {
  Object = ℕ;
  Event = ℕ;
  modify = λ f event. f event;
  clear_managed_fields = λ n. n;
  remove_annotation = λ key n. n;
  Store = List ℕ;
  new_store = λ resource. [];
  apply_watcher_event = λ event store. event ∷ store;
  state = λ store. store;
  SubjectAccessReview = Unit;
  SubjectAccessReviewStatus = Unit;
}

abbrev pub quote : String → String
quote s = s

abbrev pub one_pod : Cluster numbers
one_pod = record {
  now = 5;
  list_core_api_resources =
      λ version. ok (record { name = "pods"; kind = "Pod"; namespaced = true } ∷ []);
  list_api_group_resources = λ version. err "no such group";
  until_ready = λ watch. ok ((6, ok 11) ∷ []);
  get_opt = λ api name. ok none;
  create_review = λ review. ok none;
}
