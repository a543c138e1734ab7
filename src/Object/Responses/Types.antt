-- ===== src/Object/Responses/Types.antt =====
-- What the setters of a response keep: its type.
use criproxy.Prelude.{
  ◌≡◌, refl, sym, ap, ◌∙◌, some, List, [], ◌∷◌, get_elem?, arith, inl, inr, Option-cases,
  Bool-cases, ◌==◌, ==_iff,
}
use mathlib.Core.Option.{some-injective}
use criproxy.Text.{Text}
use criproxy.Object.Requests.{Method}
use criproxy.Object.Requests
use criproxy.Object.Wrap.{number, wrap_response}
use criproxy.Object.Responses.{
  Item, Response, method_of_response, new_response, cast_all, as_pod_sandbox, as_container,
  as_container_stats_item, as_image, as_filesystem_usage, set_items, set_url, exec_response,
  attach_response, port_forward_response, list_pod_sandbox_response, list_containers_response,
  list_container_stats_response, list_images_response, image_fs_info_response,
}

-- Two responses of one type.
abbrev pub SameType : Response → Response → Type 0
SameType a b = method_of_response a ≡ method_of_response b

pub method_of_response-new_response : (m : Method) → method_of_response (new_response m) ≡ m
unfolding method_of_response new_response
method_of_response-new_response Requests.version = refl
method_of_response-new_response Requests.status = refl
method_of_response-new_response Requests.update_runtime_config = refl
method_of_response-new_response Requests.run_pod_sandbox = refl
method_of_response-new_response Requests.list_pod_sandbox = refl
method_of_response-new_response Requests.stop_pod_sandbox = refl
method_of_response-new_response Requests.remove_pod_sandbox = refl
method_of_response-new_response Requests.pod_sandbox_status = refl
method_of_response-new_response Requests.create_container = refl
method_of_response-new_response Requests.list_containers = refl
method_of_response-new_response Requests.list_container_stats = refl
method_of_response-new_response Requests.start_container = refl
method_of_response-new_response Requests.stop_container = refl
method_of_response-new_response Requests.remove_container = refl
method_of_response-new_response Requests.container_status = refl
method_of_response-new_response Requests.container_stats = refl
method_of_response-new_response Requests.update_container_resources = refl
method_of_response-new_response Requests.exec_sync = refl
method_of_response-new_response Requests.exec = refl
method_of_response-new_response Requests.attach = refl
method_of_response-new_response Requests.reopen_container_log = refl
method_of_response-new_response Requests.port_forward = refl
method_of_response-new_response Requests.list_images = refl
method_of_response-new_response Requests.image_status = refl
method_of_response-new_response Requests.pull_image = refl
method_of_response-new_response Requests.remove_image = refl
method_of_response-new_response Requests.image_fs_info = refl

pub set_url-SameType : (url : Text) (resp : Response) → SameType (set_url url resp) resp
unfolding set_url method_of_response
set_url-SameType url (exec_response r) = refl
set_url-SameType url (attach_response r) = refl
set_url-SameType url (port_forward_response r) = refl
set_url-SameType url _ = refl

pub set_items-SameType :
    (items : List Item) (resp out : Response) → set_items items resp ≡ some out → SameType out resp
unfolding set_items method_of_response
set_items-SameType items (list_pod_sandbox_response r) out e =
    elim (Option-cases (cast_all as_pod_sandbox items)) [
      | inl n ↦ ground arith
      | inr (xs, h) ↦ ground arith
    ]
set_items-SameType items (list_containers_response r) out e =
    elim (Option-cases (cast_all as_container items)) [
      | inl n ↦ ground arith
      | inr (xs, h) ↦ ground arith
    ]
set_items-SameType items (list_container_stats_response r) out e =
    elim (Option-cases (cast_all as_container_stats_item items)) [
      | inl n ↦ ground arith
      | inr (xs, h) ↦ ground arith
    ]
set_items-SameType items (list_images_response r) out e =
    elim (Option-cases (cast_all as_image items)) [
      | inl n ↦ ground arith
      | inr (xs, h) ↦ ground arith
    ]
set_items-SameType items (image_fs_info_response r) out e =
    elim (Option-cases (cast_all as_filesystem_usage items)) [
      | inl n ↦ ground arith
      | inr (xs, h) ↦ ground arith
    ]
set_items-SameType items _ out e = cc

abbrev methods : List Method
methods =
    Requests.version ∷ Requests.status ∷ Requests.update_runtime_config ∷ Requests.run_pod_sandbox
    ∷ Requests.list_pod_sandbox ∷ Requests.stop_pod_sandbox ∷ Requests.remove_pod_sandbox
    ∷ Requests.pod_sandbox_status ∷ Requests.create_container ∷ Requests.list_containers
    ∷ Requests.list_container_stats ∷ Requests.start_container ∷ Requests.stop_container
    ∷ Requests.remove_container ∷ Requests.container_status ∷ Requests.container_stats
    ∷ Requests.update_container_resources ∷ Requests.exec_sync ∷ Requests.exec ∷ Requests.attach
    ∷ Requests.reopen_container_log ∷ Requests.port_forward ∷ Requests.list_images
    ∷ Requests.image_status ∷ Requests.pull_image ∷ Requests.remove_image ∷ Requests.image_fs_info
    ∷ []

get_elem?-number : (m : Method) → get_elem? methods (number m) ≡ some m
unfolding number
get_elem?-number Requests.version = refl
get_elem?-number Requests.status = refl
get_elem?-number Requests.update_runtime_config = refl
get_elem?-number Requests.run_pod_sandbox = refl
get_elem?-number Requests.list_pod_sandbox = refl
get_elem?-number Requests.stop_pod_sandbox = refl
get_elem?-number Requests.remove_pod_sandbox = refl
get_elem?-number Requests.pod_sandbox_status = refl
get_elem?-number Requests.create_container = refl
get_elem?-number Requests.list_containers = refl
get_elem?-number Requests.list_container_stats = refl
get_elem?-number Requests.start_container = refl
get_elem?-number Requests.stop_container = refl
get_elem?-number Requests.remove_container = refl
get_elem?-number Requests.container_status = refl
get_elem?-number Requests.container_stats = refl
get_elem?-number Requests.update_container_resources = refl
get_elem?-number Requests.exec_sync = refl
get_elem?-number Requests.exec = refl
get_elem?-number Requests.attach = refl
get_elem?-number Requests.reopen_container_log = refl
get_elem?-number Requests.port_forward = refl
get_elem?-number Requests.list_images = refl
get_elem?-number Requests.image_status = refl
get_elem?-number Requests.pull_image = refl
get_elem?-number Requests.remove_image = refl
get_elem?-number Requests.image_fs_info = refl

number_injective : (m n : Method) → number m ≡ number n → m ≡ n
number_injective m n e =
    some-injective m n (sym (get_elem?-number m) ∙ (ap (get_elem? methods) e ∙ get_elem?-number n))

-- Wrap panics at a message of another type.
pub wrap_response-SameType :
    (resp raw out : Response) → wrap_response resp raw ≡ some out → SameType out resp
unfolding wrap_response
wrap_response-SameType resp raw out e =
    elim (Bool-cases (number (method_of_response resp) == number (method_of_response raw))) [
      | inr n ↦ ground arith
      | inl h ↦
          let is_raw : raw ≡ out = ground arith in
          ap method_of_response (sym is_raw) ∙ sym (number_injective _ _ ((==_iff _ _).0 h))
    ]
