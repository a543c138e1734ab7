-- ===== src/Proxy/Dispatch/Types.antt =====
-- The response to a request has the type that belongs to the request.
use criproxy.Prelude.{◌≡◌, ◌∙◌, none, some, inl, inr, Bool-cases, Option-cases, drop, length, ap}
use criproxy.Text.{Text, has_prefix}
use criproxy.Errors.{bad_method_prefix, no_wrapper}
use criproxy.Object.Requests.{Request, method_of}
use criproxy.Object.Responses.{Response, method_of_response}
use criproxy.Object.Responses.Types.{SameType, method_of_response-new_response}
use criproxy.Proxy.World.{fail}
use criproxy.Proxy.Client.{Env}
use criproxy.Proxy.Client.Types.{KeepsType}
use criproxy.Proxy.Logic.Ensures.{Ensures, Ensures-fail, Ensures-option, Ensures-weaken}
use criproxy.Proxy.Routing.{RuntimeProxy}
use criproxy.Proxy.Handlers.Types
use criproxy.Proxy.Handlers.Types.Loops
use criproxy.Proxy.Dispatch.{
  Handler, to_primary, to_update_runtime_config, to_run_pod_sandbox, to_list_objects,
  to_pod_sandbox, to_pod_sandbox_status, to_create_container, to_container, to_container_status,
  to_container_stats, to_image, handler_for, method_prefix, wrap_object, intercept, handle,
}
use criproxy.Proxy.Dispatch.Methods.{wrap_object-eq_some}

module _ (env : Env) (keeps : KeepsType env) (r : RuntimeProxy) where
  handle-Ensures :
      (h : Handler) (method : Text) (req : Request) (resp : Response)
      → Ensures (λ out. SameType out resp) (handle env r h method req resp)
  unfolding handle
  handle-Ensures to_primary method req resp =
      Types.pass_to_primary-Ensures env keeps r method req resp
  handle-Ensures to_update_runtime_config method req resp =
      Loops.update_runtime_config-Ensures env keeps r method resp req
  handle-Ensures to_run_pod_sandbox method req resp =
      Types.run_pod_sandbox-Ensures env keeps r method req resp
  handle-Ensures to_list_objects method req resp =
      Loops.list_objects-Ensures env keeps r method resp req
  handle-Ensures to_pod_sandbox method req resp =
      Types.handle_pod_sandbox-Ensures env keeps r method req resp
  handle-Ensures to_pod_sandbox_status method req resp =
      Types.pod_sandbox_status-Ensures env keeps r method req resp
  handle-Ensures to_create_container method req resp =
      Types.create_container-Ensures env keeps r method req resp
  handle-Ensures to_container method req resp =
      Types.handle_container-Ensures env keeps r method req resp
  handle-Ensures to_container_status method req resp =
      Types.container_status-Ensures env keeps r method req resp
  handle-Ensures to_container_stats method req resp =
      Types.container_stats-Ensures env keeps r method req resp
  handle-Ensures to_image method req resp = Types.handle_image-Ensures env keeps r method req resp

  -- Where a call leaves a response of the type that it was given, a response of Intercept to a
  -- request, under any method name and whatever the schedule, is of the type that belongs to the
  -- request.
  pub intercept-Ensures :
      (full_method : Text) (req : Request)
      → Ensures (λ out. method_of_response out ≡ method_of req) (intercept env r full_method req)
  unfolding intercept
  intercept-Ensures full_method req =
      elim (Bool-cases (has_prefix full_method (method_prefix r.cri_version))) [
        | inr e ↦ rw e (Ensures-fail _ (bad_method_prefix full_method))
        | inl e ↦ rw e (
            Ensures-option _ _ _
              (handler_for (drop (length (method_prefix r.cri_version)) full_method))
              (Ensures-fail _ _) λ h. wrapped_handle h)
      ]
    where
      wrapped_handle :
          (h : Handler)
          → Ensures {A = Response}
              (λ out. method_of_response out ≡ method_of req)
              (elim (wrap_object r.cri_version req) [
                | none ↦ fail no_wrapper
                | some wrapped ↦ handle env r h full_method wrapped.0 wrapped.1
              ])
      wrapped_handle h = elim (Option-cases (wrap_object r.cri_version req)) [
        | inl e ↦ rw e (Ensures-fail _ no_wrapper)
        | inr (wrapped, e) ↦ rw e (
            Ensures-weaken _ _ _ (handle-Ensures h full_method wrapped.0 wrapped.1) λ out k.
              k
              ∙ (ap (λ p. method_of_response p.1) (wrap_object-eq_some r.cri_version req wrapped e)
                  ∙ method_of_response-new_response (method_of req)))
      ]
