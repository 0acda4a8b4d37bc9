-- ===== src/Callback/Tests.antt =====
-- A policy that asks its host for pods, through src/runtimes/callback.rs.
use policy_evaluator.Prelude.{[], All}
use policy_evaluator.Context.{resource_eq}
use policy_evaluator.Callback.Sample.{pods_only, connected}
use policy_evaluator.Callback.Host.{host_callback}
use policy_evaluator.Callback.Host.Access.{IsPermitted, host_callback-IsPermitted}
use policy_evaluator.Callback.Host.Answers.{Origin, host_callback-Origin}

host_callback-IsPermitted_example :
    All
      (IsPermitted connected "kubewarden")
      (host_callback pods_only connected "kubewarden" "kubernetes" "list_resources_all" []).1
host_callback-IsPermitted_example =
    host_callback-IsPermitted pods_only connected "kubewarden" "kubernetes" "list_resources_all" []

host_callback-Origin_example :
    Origin connected "kubewarden" "kubernetes" "list_resources_all"
      (host_callback pods_only connected "kubewarden" "kubernetes" "list_resources_all" [])
host_callback-Origin_example =
    host_callback-Origin pods_only connected "kubewarden" "kubernetes" "list_resources_all" []
