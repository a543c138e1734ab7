-- ===== src/Proxy/Handlers/Types.antt =====
-- A handler of a single object returns a response of the type of the empty one that it was given.
pub mod Loops
use criproxy.Prelude.{
  ℕ, suc, ◌≡◌, refl, subst, sym, ap, ◌∙◌, true, false, Bool, Option, none, some, List, [], ◌∷◌,
  ◌++◌, get_elem?, arith, inl, inr, Option-cases, Bool-cases, if◌then◌else◌,
}
use mathlib.Core.Option.{some-injective}
use criproxy.Text.{Text, text_eq}
use criproxy.Errors.{Error, no_image_specified, target_unavailable}
use criproxy.Naming.{ClientBase}
use criproxy.Object.Requests.{Request, image?, set_image, set_pod_sandbox_id}
use criproxy.Object.Responses.{
  Response, Item, method_of_response, url?, set_url, set_items, image_status_response,
  pull_image_response, create_container_response, container_status_response,
  container_stats_response, run_pod_sandbox_response, pod_sandbox_status_response,
}
use criproxy.Object.Responses.Types.{SameType, set_url-SameType, set_items-SameType}
use criproxy.Proxy.World.{M, ◌>>=◌, pure, fail, assert}
use criproxy.Proxy.Client.{
  Env, connect_client, invoke, invoke_with_error_handling, handle_client_error,
}
use criproxy.Proxy.Client.Types.{KeepsType, invoke-Ensures, invoke_with_error_handling-Ensures}
use criproxy.Proxy.Logic.Ensures.{
  Ensures, Ensures-bind, Ensures-after, Ensures-pure, Ensures-fail, Ensures-assert,
}
use criproxy.Proxy.Routing.{RuntimeProxy, clients}
use criproxy.Proxy.Handlers.Common.{
  with_client, fix_response_url, fix_streaming_url, pass_to_primary, update_runtime_config,
  update_runtime_config_from, end_update,
}
use criproxy.Proxy.Handlers.Sandbox.{
  invoke_pod_sandbox_method, run_pod_sandbox, handle_pod_sandbox, pod_sandbox_status,
  augment_pod_sandbox_id, augment_status,
}
use criproxy.Proxy.Handlers.Container.{
  invoke_container_method, handle_container, create_container, container_status, container_stats,
  augment_container_id, augment_container_status, augment_container_stats,
}
use criproxy.Proxy.Handlers.Image.{handle_image, prefix_response_image}
use criproxy.Proxy.Handlers.Listing.{Target, list_client, list_from, list_objects}

-- A change of a response that keeps its type where it applies.
abbrev KeepsResponse : (ClientBase → Response → Option Response) → Type 0
KeepsResponse f = (c : ClientBase) (a out : Response) → f c a ≡ some out → SameType out a

augment_pod_sandbox_id-SameType : KeepsResponse augment_pod_sandbox_id
unfolding method_of_response
augment_pod_sandbox_id-SameType c (run_pod_sandbox_response r) out e = ground arith
augment_pod_sandbox_id-SameType c _ out e = cc

augment_status-SameType : KeepsResponse augment_status
unfolding method_of_response
augment_status-SameType c (pod_sandbox_status_response r) out e = ground arith
augment_status-SameType c _ out e = cc

augment_container_id-SameType : KeepsResponse augment_container_id
unfolding method_of_response
augment_container_id-SameType c (create_container_response r) out e = ground arith
augment_container_id-SameType c _ out e = cc

augment_container_status-SameType : KeepsResponse augment_container_status
unfolding method_of_response
augment_container_status-SameType c (container_status_response r) out e = ground arith
augment_container_status-SameType c _ out e = cc

augment_container_stats-SameType : KeepsResponse augment_container_stats
unfolding method_of_response
augment_container_stats-SameType c (container_stats_response r) out e = ground arith
augment_container_stats-SameType c _ out e = cc

found_client :
    {A : Type 0} (o : Option ClientBase) (f : ClientBase → A) (Q : A → Type 0)
    → ((c : ClientBase) → Q (f c))
    → Ensures Q (assert (elim o [ none ↦ none | some c ↦ some (f c) ]))
found_client none f Q h = Ensures-assert Q none λ a e. cc
found_client (some c) f Q h =
    Ensures-assert Q (some (f c)) λ a e. subst Q (some-injective (f c) a e) (h c)

module _ (r : RuntimeProxy) (i : ℕ) where
  with_client-Ensures :
      {A : Type 0} (f : ClientBase → A) (Q : A → Type 0)
      → ((c : ClientBase) → Q (f c))
      → Ensures Q (with_client r i f)
  with_client-Ensures f Q h = found_client (get_elem? (clients r) i) f Q h

  augment-Ensures :
      (f : ClientBase → Response → Option Response)
      → KeepsResponse f
      → (a resp : Response) → SameType a resp
      → Ensures (λ out. SameType out resp) (with_client r i (λ c. f c a) >>= assert)
  augment-Ensures f keeps a resp h =
      Ensures-bind (λ o. (out : Response) → o ≡ some out → SameType out resp) _ _ _
        (with_client-Ensures (λ c. f c a) _ λ c out e. keeps c a out e ∙ h)
        λ o k. Ensures-assert _ o λ out e. k out e

module _ (env : Env) (keeps : KeepsType env) (r : RuntimeProxy) (method : Text) where
  pub pass_to_primary-Ensures :
      (req : Request) (resp : Response)
      → Ensures (λ out. SameType out resp) (pass_to_primary env r method req resp)
  unfolding pass_to_primary
  pass_to_primary-Ensures req resp =
      Ensures-after _ _ _ λ i. invoke_with_error_handling-Ensures env keeps i method req resp

  fix_response_url-SameType : (resp : Response) → SameType (fix_response_url env resp) resp
  unfolding fix_response_url
  fix_response_url-SameType resp = elim (Option-cases (url? resp)) [
    | inl e ↦ rw (e, fix_response_url) refl
    | inr (url, e) ↦ rw (e, fix_response_url) (set_url-SameType _ resp)
  ]

  invoke_pod_sandbox_method-Ensures :
      (req : Request) (resp : Response)
      → Ensures (λ out. SameType out.1 resp) (invoke_pod_sandbox_method env r method req resp)
  unfolding invoke_pod_sandbox_method
  invoke_pod_sandbox_method-Ensures req resp = Ensures-after _ _ _ λ id.
      Ensures-after _ _ _ λ found.
        Ensures-bind _ _ _ _ (invoke_with_error_handling-Ensures env keeps found.0 method _ resp)
          λ a h. Ensures-pure _ (found.0, a) h

  pub handle_pod_sandbox-Ensures :
      (req : Request) (resp : Response)
      → Ensures (λ out. SameType out resp) (handle_pod_sandbox env r method req resp)
  unfolding handle_pod_sandbox
  handle_pod_sandbox-Ensures req resp =
      Ensures-bind _ _ _ _ (invoke_pod_sandbox_method-Ensures req resp)
        λ a h. Ensures-pure _ _ (fix_response_url-SameType a.1 ∙ h)

  pub pod_sandbox_status-Ensures :
      (req : Request) (resp : Response)
      → Ensures (λ out. SameType out resp) (pod_sandbox_status env r method req resp)
  unfolding pod_sandbox_status
  pod_sandbox_status-Ensures req resp =
      Ensures-bind _ _ _ _ (invoke_pod_sandbox_method-Ensures req resp)
        λ a h. augment-Ensures r a.0 augment_status augment_status-SameType a.1 resp h

  pub run_pod_sandbox-Ensures :
      (req : Request) (resp : Response)
      → Ensures (λ out. SameType out resp) (run_pod_sandbox env r method req resp)
  unfolding run_pod_sandbox
  run_pod_sandbox-Ensures req resp = Ensures-after _ _ _ λ annotations. Ensures-after _ _ _ λ i.
      Ensures-bind _ _ _ _ (invoke_with_error_handling-Ensures env keeps i method req resp)
        λ a h. augment-Ensures r i augment_pod_sandbox_id augment_pod_sandbox_id-SameType a resp h

  invoke_container_method-Ensures :
      (req : Request) (resp : Response)
      → Ensures (λ out. SameType out.1 resp) (invoke_container_method env r method req resp)
  unfolding invoke_container_method
  invoke_container_method-Ensures req resp = Ensures-after _ _ _ λ id. Ensures-after _ _ _ λ found.
      Ensures-bind _ _ _ _ (invoke_with_error_handling-Ensures env keeps found.0 method _ resp)
        λ a h. Ensures-pure _ (found.0, a) h

  pub handle_container-Ensures :
      (req : Request) (resp : Response)
      → Ensures (λ out. SameType out resp) (handle_container env r method req resp)
  unfolding handle_container
  handle_container-Ensures req resp =
      Ensures-bind _ _ _ _ (invoke_container_method-Ensures req resp)
        λ a h. Ensures-pure _ _ (fix_response_url-SameType a.1 ∙ h)

  pub container_status-Ensures :
      (req : Request) (resp : Response)
      → Ensures (λ out. SameType out resp) (container_status env r method req resp)
  unfolding container_status
  container_status-Ensures req resp =
      Ensures-bind _ _ _ _ (invoke_container_method-Ensures req resp) λ a h.
        augment-Ensures r a.0 augment_container_status augment_container_status-SameType a.1 resp h

  pub container_stats-Ensures :
      (req : Request) (resp : Response)
      → Ensures (λ out. SameType out resp) (container_stats env r method req resp)
  unfolding container_stats
  container_stats-Ensures req resp =
      Ensures-bind _ _ _ _ (invoke_container_method-Ensures req resp) λ a h.
        augment-Ensures r a.0 augment_container_stats augment_container_stats-SameType a.1 resp h

  pub create_container-Ensures :
      (req : Request) (resp : Response)
      → Ensures (λ out. SameType out resp) (create_container env r method req resp)
  unfolding create_container
  create_container-Ensures req resp = Ensures-after _ _ _ λ id. Ensures-after _ _ _ λ found.
      Ensures-after _ _ _ λ image. Ensures-after _ _ _ λ req'.
        Ensures-bind _ _ _ _ (invoke_with_error_handling-Ensures env keeps found.0 method req' resp)
          λ a h.
            augment-Ensures r found.0 augment_container_id augment_container_id-SameType a resp h

  prefix_response_image-SameType :
      (c : ClientBase) (a : Response) → SameType (prefix_response_image env r method c a) a
  unfolding method_of_response
  prefix_response_image-SameType c (image_status_response out) = ground arith
  prefix_response_image-SameType c (pull_image_response out) = refl
  prefix_response_image-SameType c _ = refl

  pub handle_image-Ensures :
      (req : Request) (resp : Response)
      → Ensures (λ out. SameType out resp) (handle_image env r method req resp)
  unfolding handle_image
  handle_image-Ensures req resp = Ensures-after _ _ _ λ image. Ensures-after _ _ _ (by_client image)
    where
      by_client :
          (image : Text) (found : Option (ℕ × Text))
          → Ensures {A = Response}
              (λ out. SameType out resp)
              (elim found [
                | none ↦ pure resp
                | some (i, unprefixed) ↦ do
                  resp' ← invoke_with_error_handling env i method (set_image unprefixed req) resp
                  with_client r i (λ c. prefix_response_image env r method c resp')
              ])
      by_client image none = Ensures-pure _ resp refl
      by_client image (some (i, unprefixed)) =
          Ensures-bind _ _ _ _ (invoke_with_error_handling-Ensures env keeps i method _ resp) λ a h.
            with_client-Ensures r i (λ c. prefix_response_image env r method c a) _
              λ c. prefix_response_image-SameType c a ∙ h
