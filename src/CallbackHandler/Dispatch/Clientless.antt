-- ===== src/CallbackHandler/Dispatch/Clientless.antt =====
-- src/callback_handler.rs and src/callback_handler/kubernetes.rs: the answers to the requests to the
-- cluster, with a client of Kubernetes and without one.
use policy_evaluator.Prelude.{
  Bool, true, false, Option, none, some, is_some, Result, ok, err, ◌≡◌, refl, String, ℕ, arith,
}
use policy_evaluator.Callback.Requests.{
  Bytes, Sdk, CallbackRequestType, kubernetes_list_resource_namespace, kubernetes_list_resource_all,
  kubernetes_get_resource, kubernetes_get_resource_plural_name,
  has_kubernetes_list_resource_all_result_changed_since_instant, kubernetes_can_i,
}
use policy_evaluator.Kubernetes.{Kube}
use policy_evaluator.Kubernetes.Client.{Client}
use policy_evaluator.Kubernetes.Calls.{
  Return, Called, or_cached, get_resource_key, list_resources_by_namespace, list_resources_all,
  get_resource, get_resource_cached, get_resource_plural_name,
  has_list_resources_all_result_changed_since_instant, can_i, can_i_cached,
}
use policy_evaluator.CallbackHandler.Dispatch.{
  Services, CallbackHandler, handle_callback, updating, handle_request,
}

abbrev pub asks_cluster : {sdk : Sdk} → CallbackRequestType sdk → Bool
asks_cluster (kubernetes_list_resource_namespace api_version kind ns ls fs) = true
asks_cluster (kubernetes_list_resource_all api_version kind ls fs) = true
asks_cluster (kubernetes_get_resource api_version kind name ns disable_cache) = true
asks_cluster (kubernetes_get_resource_plural_name api_version kind) = true
asks_cluster (has_kubernetes_list_resource_all_result_changed_since_instant a k ls fs since) = true
asks_cluster (kubernetes_can_i request disable_cache) = true
asks_cluster _ = false

handle_callback-is_some :
    {A : Type 0} (to_vec : A → Result String Bytes) (r : Option (Result String (Return A)))
    → is_some r ≡ true
    → is_some (handle_callback to_vec r) ≡ true
handle_callback-is_some to_vec none there = ground arith
handle_callback-is_some to_vec (some (ok response)) there = refl
handle_callback-is_some to_vec (some (err e)) there = refl

-- a call that does not panic, and leaves a client where there was one
abbrev IsDone : {kube : Kube} {A : Type 0} → Option (Client kube) → Called kube A → Type 0
IsDone client called = (is_some called.0 ≡ true) × (is_some called.1 ≡ is_some client)

or_cached-IsDone :
    {kube : Kube} {A : Type 0} (cached : Option A) (client : Option (Client kube))
    (call : Called kube A)
    → IsDone client call
    → IsDone client (or_cached cached client call)
or_cached-IsDone (some a) client call done = (refl, refl)
or_cached-IsDone none client call done = done

module _ {sdk : Sdk} (s : Services sdk) where
  list_resources_by_namespace-IsDone :
      (client : Option (Client s.kube)) (a k ns : String) (ls fs : Option String)
      → IsDone client (list_resources_by_namespace s.debug.text s.cluster client a k ns ls fs)
  unfolding list_resources_by_namespace
  list_resources_by_namespace-IsDone none a k ns ls fs = (refl, refl)
  list_resources_by_namespace-IsDone (some client) a k ns ls fs = (refl, refl)

  list_resources_all-IsDone :
      (client : Option (Client s.kube)) (a k : String) (ls fs : Option String)
      → IsDone client (list_resources_all s.debug.text s.cluster client a k ls fs)
  unfolding list_resources_all
  list_resources_all-IsDone none a k ls fs = (refl, refl)
  list_resources_all-IsDone (some client) a k ls fs = (refl, refl)

  get_resource-IsDone :
      (client : Option (Client s.kube)) (a k name : String) (ns : Option String)
      → IsDone client (get_resource s.debug.text s.cluster client a k name ns)
  unfolding get_resource
  get_resource-IsDone none a k name ns = (refl, refl)
  get_resource-IsDone (some client) a k name ns = (refl, refl)

  get_resource_plural_name-IsDone :
      (client : Option (Client s.kube)) (a k : String)
      → IsDone client (get_resource_plural_name s.debug.text s.cluster client a k)
  unfolding get_resource_plural_name
  get_resource_plural_name-IsDone none a k = (refl, refl)
  get_resource_plural_name-IsDone (some client) a k = (refl, refl)

  has_list_resources_all_result_changed_since_instant-IsDone :
      (client : Option (Client s.kube)) (a k : String) (ls fs : Option String) (since : ℕ)
      → IsDone client (
          has_list_resources_all_result_changed_since_instant s.debug.text s.cluster client a k ls
            fs since)
  unfolding has_list_resources_all_result_changed_since_instant
  has_list_resources_all_result_changed_since_instant-IsDone none a k ls fs since = (refl, refl)
  has_list_resources_all_result_changed_since_instant-IsDone (some client) a k ls fs since =
      (refl, refl)

  can_i-IsDone :
      (client : Option (Client s.kube)) (request : s.kube.SubjectAccessReview)
      → IsDone client (can_i s.debug.text s.cluster client request)
  unfolding can_i
  can_i-IsDone none request = (refl, refl)
  can_i-IsDone (some client) request = (refl, refl)

  sent :
      {A : Type 0} (handler : CallbackHandler s) (to_vec : A → Result String Bytes)
      (client : Option (Client s.kube)) (called : Called s.kube A)
      → IsDone client called
      → (is_some (updating s handler to_vec called).0 ≡ true)
        × (is_some (updating s handler to_vec called).1.kubernetes_client ≡ is_some client)
  sent handler to_vec client called (answered, left) =
      (handle_callback-is_some to_vec called.0 answered, left)

  -- Every request to the cluster is answered, by a response or an error but not by a panic, with a
  -- client of Kubernetes or without one and whatever the caches have, and the handler has a client
  -- afterwards exactly if it had one before.
  pub handle_request_answers :
      (handler : CallbackHandler s) (req : CallbackRequestType sdk)
      → asks_cluster req ≡ true
      → (is_some (handle_request s handler req).0 ≡ true)
        × (is_some (handle_request s handler req).1.kubernetes_client
            ≡ is_some handler.kubernetes_client)
  unfolding handle_request get_resource_cached can_i_cached
  handle_request_answers handler (kubernetes_list_resource_namespace a k ns ls fs) asks =
      sent handler s.object_list_to_vec handler.kubernetes_client
        (list_resources_by_namespace s.debug.text s.cluster handler.kubernetes_client a k ns ls fs)
        (list_resources_by_namespace-IsDone handler.kubernetes_client a k ns ls fs)
  handle_request_answers handler (kubernetes_list_resource_all a k ls fs) asks =
      sent handler s.object_list_to_vec handler.kubernetes_client
        (list_resources_all s.debug.text s.cluster handler.kubernetes_client a k ls fs)
        (list_resources_all-IsDone handler.kubernetes_client a k ls fs)
  handle_request_answers handler (kubernetes_get_resource a k name ns true) asks =
      sent handler s.object_to_vec handler.kubernetes_client
        (get_resource s.debug.text s.cluster handler.kubernetes_client a k name ns)
        (get_resource-IsDone handler.kubernetes_client a k name ns)
  handle_request_answers handler (kubernetes_get_resource a k name ns false) asks =
      sent handler s.object_to_vec handler.kubernetes_client _ (
        or_cached-IsDone
          (s.cached_object
            (get_resource_key s.debug.text s.cluster handler.kubernetes_client a k name ns))
          handler.kubernetes_client
          (get_resource s.debug.text s.cluster handler.kubernetes_client a k name ns)
          (get_resource-IsDone handler.kubernetes_client a k name ns))
  handle_request_answers handler (kubernetes_get_resource_plural_name a k) asks =
      sent handler s.text_to_vec handler.kubernetes_client
        (get_resource_plural_name s.debug.text s.cluster handler.kubernetes_client a k)
        (get_resource_plural_name-IsDone handler.kubernetes_client a k)
  handle_request_answers handler
        (has_kubernetes_list_resource_all_result_changed_since_instant a k ls fs since) asks =
      sent handler s.bool_to_vec handler.kubernetes_client
        (has_list_resources_all_result_changed_since_instant s.debug.text s.cluster
          handler.kubernetes_client a k ls fs since)
        (has_list_resources_all_result_changed_since_instant-IsDone handler.kubernetes_client a k ls
          fs since)
  handle_request_answers handler (kubernetes_can_i request true) asks =
      sent handler s.review_to_vec handler.kubernetes_client
        (can_i s.debug.text s.cluster handler.kubernetes_client (s.review_of request))
        (can_i-IsDone handler.kubernetes_client (s.review_of request))
  handle_request_answers handler (kubernetes_can_i request false) asks =
      sent handler s.review_to_vec handler.kubernetes_client _ (
        or_cached-IsDone (s.cached_review (s.review_of request)) handler.kubernetes_client
          (can_i s.debug.text s.cluster handler.kubernetes_client (s.review_of request))
          (can_i-IsDone handler.kubernetes_client (s.review_of request)))
  handle_request_answers handler _ asks = cc
