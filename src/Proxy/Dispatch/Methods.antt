-- ===== src/Proxy/Dispatch/Methods.antt =====
-- The methods of CRI: each is matched by one version and dispatched to a handler that fits it.
use mathlib.Core.Option.{some-injective}
use mathlib.Core.Bool.{false≢true}
use criproxy.Prelude.{
  subst, ◌≡◌, refl, sym, ap, ◌∙◌, true, none, some, ℕ, zero, suc, [], ◌∷◌, ◌++◌, ◌+◌, take,
  drop-length, arith, Option-cases, inl, inr,
}
use criproxy.Text.{Text, codes, text_eq, text_eq_iff, has_prefix, has_prefix-append, last_index}
use criproxy.Object.Requests.{
  Request, reopen_container_log_request, wrap_request, Method, method_of, annotations?,
  pod_sandbox_id?, container_id?, image?,
}
use criproxy.Object.Requests
use criproxy.Object.Responses.{
  Response, new_response, items?, run_pod_sandbox_response, pod_sandbox_status_response,
  create_container_response, container_status_response, container_stats_response,
}
use criproxy.Proxy.World.{Version, cri19, cri112}
use criproxy.Proxy.Client.{Env}
use criproxy.Proxy.Routing.{RuntimeProxy}
use criproxy.Proxy.Dispatch.{
  Handler, to_primary, to_update_runtime_config, to_run_pod_sandbox, to_list_objects,
  to_pod_sandbox, to_pod_sandbox_status, to_create_container, to_container, to_container_status,
  to_container_stats, to_image, handler_for, proto_package, method_prefix, matches, wrap_object,
  intercept, handle,
}

-- The services and methods of the CRI protocol.
unfoldable pub method_name : Method → Text
method_name Requests.version = codes "RuntimeService/Version"
method_name Requests.status = codes "RuntimeService/Status"
method_name Requests.update_runtime_config = codes "RuntimeService/UpdateRuntimeConfig"
method_name Requests.run_pod_sandbox = codes "RuntimeService/RunPodSandbox"
method_name Requests.list_pod_sandbox = codes "RuntimeService/ListPodSandbox"
method_name Requests.stop_pod_sandbox = codes "RuntimeService/StopPodSandbox"
method_name Requests.remove_pod_sandbox = codes "RuntimeService/RemovePodSandbox"
method_name Requests.pod_sandbox_status = codes "RuntimeService/PodSandboxStatus"
method_name Requests.create_container = codes "RuntimeService/CreateContainer"
method_name Requests.list_containers = codes "RuntimeService/ListContainers"
method_name Requests.list_container_stats = codes "RuntimeService/ListContainerStats"
method_name Requests.start_container = codes "RuntimeService/StartContainer"
method_name Requests.stop_container = codes "RuntimeService/StopContainer"
method_name Requests.remove_container = codes "RuntimeService/RemoveContainer"
method_name Requests.container_status = codes "RuntimeService/ContainerStatus"
method_name Requests.container_stats = codes "RuntimeService/ContainerStats"
method_name Requests.update_container_resources = codes "RuntimeService/UpdateContainerResources"
method_name Requests.exec_sync = codes "RuntimeService/ExecSync"
method_name Requests.exec = codes "RuntimeService/Exec"
method_name Requests.attach = codes "RuntimeService/Attach"
method_name Requests.reopen_container_log = codes "RuntimeService/ReopenContainerLog"
method_name Requests.port_forward = codes "RuntimeService/PortForward"
method_name Requests.list_images = codes "ImageService/ListImages"
method_name Requests.image_status = codes "ImageService/ImageStatus"
method_name Requests.pull_image = codes "ImageService/PullImage"
method_name Requests.remove_image = codes "ImageService/RemoveImage"
method_name Requests.image_fs_info = codes "ImageService/ImageFsInfo"

-- The request has no annotations and names no object, and the response is not a list.
abbrev pub NamesNothing : Request → Response → Type 0
NamesNothing req resp =
    (annotations? req ≡ none)
    × (pod_sandbox_id? req ≡ none)
    × (container_id? req ≡ none)
    × (image? req ≡ none)
    × (items? resp ≡ none)

-- The type assertions that the handler makes of the request and of its response succeed; and a
-- handler that does not route gets no request that names an object or lists objects.
abbrev pub Fits : Handler → Request → Response → Type 0
Fits to_primary req resp = NamesNothing req resp
Fits to_update_runtime_config req resp = NamesNothing req resp
Fits to_run_pod_sandbox req resp =
    ((a : _) × (annotations? req ≡ some a)) × ((out : _) × (resp ≡ run_pod_sandbox_response out))
Fits to_list_objects req resp = (xs : _) × (items? resp ≡ some xs)
Fits to_pod_sandbox req resp = (id : Text) × (pod_sandbox_id? req ≡ some id)
Fits to_pod_sandbox_status req resp =
    ((id : Text) × (pod_sandbox_id? req ≡ some id))
    × ((out : _) × (resp ≡ pod_sandbox_status_response out))
Fits to_create_container req resp =
    ((id : Text) × (pod_sandbox_id? req ≡ some id))
    × ((x : Text) × (image? req ≡ some x))
    × ((out : _) × (resp ≡ create_container_response out))
Fits to_container req resp = (id : Text) × (container_id? req ≡ some id)
Fits to_container_status req resp =
    ((id : Text) × (container_id? req ≡ some id))
    × ((out : _) × (resp ≡ container_status_response out))
Fits to_container_stats req resp =
    ((id : Text) × (container_id? req ≡ some id))
    × ((out : _) × (resp ≡ container_stats_response out))
Fits to_image req resp = (x : Text) × (image? req ≡ some x)

method_prefix_injective : (v v' : Version) → method_prefix v ≡ method_prefix v' → v ≡ v'
unfolding method_prefix proto_package text_eq
method_prefix_injective cri19 cri19 e = refl
method_prefix_injective cri112 cri112 e = refl
method_prefix_injective cri19 cri112 e =
    absurd (false≢true ((text_eq_iff (method_prefix cri19) (method_prefix cri112)).1 e))
method_prefix_injective cri112 cri19 e =
    absurd (false≢true ((text_eq_iff (method_prefix cri112) (method_prefix cri19)).1 e))

-- What a match says: the method up to its last dot is the prefix of the version.
matches-eq_true :
    (r : RuntimeProxy) (full_method : Text)
    → matches r full_method ≡ true
    → (dot : ℕ) × (last_index full_method (codes ".") ≡ some dot)
      × (take (dot + 1) full_method ≡ method_prefix r.cri_version)
unfolding matches
matches-eq_true r full_method h = elim (Option-cases (last_index full_method (codes "."))) [
  | inl e ↦ ground arith
  | inr (dot, e) ↦ (
    dot,
    e,
    (text_eq_iff (take (dot + 1) full_method) (method_prefix r.cri_version)).0 (ground arith),
  )
]

-- Two proxies that match the same method are of the same version.
pub matches_version :
    (r r' : RuntimeProxy) (full_method : Text)
    → matches r full_method ≡ true
    → matches r' full_method ≡ true
    → r.cri_version ≡ r'.cri_version
matches_version r r' full_method h h' =
    let (dot, e, p) = matches-eq_true r full_method h in
    let (dot', e', p') = matches-eq_true r' full_method h' in
    let same : dot ≡ dot' = some-injective dot dot' (sym e ∙ e') in
    method_prefix_injective r.cri_version r'.cri_version
      (sym p ∙ (ap (λ (d : ℕ). take (d + 1) full_method) same ∙ p'))

has_prefix-take : (n : ℕ) (s : Text) → has_prefix s (take n s) ≡ true
unfolding has_prefix
has_prefix-take zero s = refl
has_prefix-take (suc n) [] = refl
has_prefix-take (suc n) (c ∷ s) = ground (arith, has_prefix-take n s)

-- A method that a proxy matches has the prefix that its Intercept expects.
pub matches-has_prefix :
    (r : RuntimeProxy) (full_method : Text)
    → matches r full_method ≡ true
    → has_prefix full_method (method_prefix r.cri_version) ≡ true
matches-has_prefix r full_method h =
    let (dot, e, p) = matches-eq_true r full_method h in
    subst (λ q. has_prefix full_method q ≡ true) p (has_prefix-take (dot + 1) full_method)

pub wrap_object-eq_some :
    (v : Version) (req : Request) (wrapped : Request × Response)
    → wrap_object v req ≡ some wrapped
    → wrapped ≡ (wrap_request v req, new_response (method_of req))
unfolding wrap_object
wrap_object-eq_some cri112 req wrapped e = sym (some-injective _ wrapped e)
wrap_object-eq_some cri19 (reopen_container_log_request req) wrapped e = cc
wrap_object-eq_some cri19 req wrapped e = sym (some-injective _ wrapped e)

-- The handler of the method runs the request, wrapped.
pub intercept-handler_for :
    (env : Env) (r : RuntimeProxy) (req : Request) (wrapped : Request × Response) (h : Handler)
    → wrap_object r.cri_version req ≡ some wrapped
    → handler_for (method_name (method_of req)) ≡ some h
    → intercept env r (method_prefix r.cri_version ++ method_name (method_of req)) req
      ≡ handle env r h
          (method_prefix r.cri_version ++ method_name (method_of req))
          wrapped.0
          wrapped.1
unfolding intercept
intercept-handler_for env r req wrapped h e found = rw (
  has_prefix-append (method_prefix r.cri_version) (method_name (method_of req)),
  drop-length (method_prefix r.cri_version) (method_name (method_of req)),
  found,
  e,
)
