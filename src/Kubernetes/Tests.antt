-- ===== src/Kubernetes/Tests.antt =====
-- The client of src/callback_handler/kubernetes, at a cluster with a pod.
use mathlib.Core.List.{[], ◌∷◌}
use policy_evaluator.Prelude.{
  ℕ, ◌<◌, false, none, some, All, ok, err, ◌≡◌, refl, subst, string_eq, ok_injective, arith,
}
use policy_evaluator.Prelude.Dict.{get-insert_every, get, insert}
use policy_evaluator.Kubernetes.{api_version_kind_eq}
use policy_evaluator.Kubernetes.Reflector.{
  Reflector, compute_id, announce, apply_pending, see, see_all, create_and_run,
}
use policy_evaluator.Kubernetes.Client.{
  Client, ObjectList, new, register_reflector, list_resources_all, list_resources_from_reflector,
  build_kube_resource, get_reflector_reader, search_resource, find_kind, group_and_version,
  have_reflector_resources_changed_since, has_list_resources_all_result_changed_since_instant,
}
use policy_evaluator.Kubernetes.Client.Interleaving.{IsAfter, Reach, here, next, hear}
use policy_evaluator.Kubernetes.Client.Steps.{list_all, operate, operate-Reach}
use policy_evaluator.Kubernetes.Client.Coherent.{IsCoherent, new-IsCoherent, Reach-IsCoherent}
use policy_evaluator.Kubernetes.Client.Unchanged.{IsSettled, list_unchanged}
use policy_evaluator.Kubernetes.Sample.{numbers, quote, one_pod}

-- the instants of the cluster
one_pod-IsAfter : IsAfter 0 one_pod
one_pod-IsAfter = record {
  created = omega arith;
  items_seen = λ watch items got.
      subst (λ q. All (λ item. 0 < item.0) q) (ok_injective got) (omega arith, tt);
}

-- the client after all pods were listed
abbrev listing : Client numbers
listing = operate quote one_pod (new quote) (list_all "v1" "Pod" none none)

abbrev pod_list : ObjectList ℕ
pod_list = record { api_version = "v1"; kind = "PodList"; items = 11 ∷ [] }

operate-Reach_example : Reach quote 0 (new quote) listing
operate-Reach_example =
    operate-Reach quote 0 one_pod (new quote) (list_all "v1" "Pod" none none) one_pod-IsAfter

Reach-IsCoherent_example : IsCoherent quote listing
Reach-IsCoherent_example =
    Reach-IsCoherent quote (new-IsCoherent quote)
      (operate-Reach quote 0 one_pod (new quote) (list_all "v1" "Pod" none none) one_pod-IsAfter)

abbrev pods : Reflector numbers
pods = record {
  watch = record {
    api = record {
      resource = record {
        group = "";
        version = "v1";
        api_version = "v1";
        kind = "Pod";
        plural = "pods";
      };
      namespace = none;
    };
    label_selector = none;
    field_selector = none;
  };
  reader = 11 ∷ [];
  last_change_seen_at = 6;
  pending = none;
}

pods_are_watched : get listing.reflectors "v1|Pod|None|None|None" ≡ some pods
unfolding list_resources_all list_resources_from_reflector build_kube_resource get_reflector_reader
    get insert search_resource create_and_run announce apply_pending see see_all compute_id
    find_kind group_and_version
pods_are_watched = refl

-- the watch fails once
abbrev later : Client numbers
later = register_reflector quote listing "v1|Pod|None|None|None" (announce 9 (err "timeout") pods)

failing : Reach quote 7 listing later
failing = next here (
    hear listing "v1|Pod|None|None|None" pods 9 (err "timeout") pods_are_watched refl (omega arith))

listed_pods :
    list_resources_all quote one_pod (new quote) "v1" "Pod" none none ≡ (ok pod_list, listing)
unfolding list_resources_all list_resources_from_reflector build_kube_resource get_reflector_reader
    get insert search_resource create_and_run announce apply_pending see see_all compute_id
    find_kind group_and_version
listed_pods = refl

unchanged_pods :
    has_list_resources_all_result_changed_since_instant quote one_pod later "v1" "Pod" none none 7
    ≡ (ok false, later)
unfolding has_list_resources_all_result_changed_since_instant have_reflector_resources_changed_since
    list_resources_all list_resources_from_reflector build_kube_resource get_reflector_reader get
    insert search_resource create_and_run announce apply_pending see see_all compute_id find_kind
    group_and_version
unchanged_pods = refl

listing-IsSettled : IsSettled quote listing
unfolding list_resources_all list_resources_from_reflector build_kube_resource get_reflector_reader
    get insert search_resource create_and_run announce apply_pending see see_all compute_id
    find_kind group_and_version
listing-IsSettled id r there =
    get-insert_every (λ j q. q.pending ≡ none) [] "v1|Pod|None|None|None" pods (λ j w h. cc) refl id
      r there

list_unchanged_example :
    list_resources_all quote one_pod later "v1" "Pod" none none ≡ (ok pod_list, later)
list_unchanged_example =
    list_unchanged quote (new quote) listing later later pod_list one_pod one_pod one_pod "v1" "Pod"
      none none listed_pods
      (Reach-IsCoherent quote (new-IsCoherent quote)
        (operate-Reach quote 0 one_pod (new quote) (list_all "v1" "Pod" none none) one_pod-IsAfter))
      listing-IsSettled failing unchanged_pods
