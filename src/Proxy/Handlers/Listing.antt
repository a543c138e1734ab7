-- ===== src/Proxy/Handlers/Listing.antt =====
-- listObjects of pkg/proxy/proxy.go.
pub mod Listed
pub mod Results
pub mod Exact
pub mod Whole
pub mod Targets
pub mod Filtered
use criproxy.Prelude.{
  ℕ, suc, Bool, true, false, Option, none, some, List, [], ◌∷◌, ◌++◌, map, if◌then◌else◌, ◌==◌,
}
use criproxy.Text.{Text}
use criproxy.Naming.{ClientBase}
use criproxy.Prefix.{add_prefix}
use criproxy.Object.Requests.{Request}
use criproxy.Object.Filters.{
  id_filter?, set_id_filter, pod_sandbox_id_filter?, set_pod_sandbox_id_filter, image_filter?,
  set_image_filter,
}
use criproxy.Object.Responses.{Item, Response, items?, set_items}
use criproxy.Proxy.World.{M, ◌>>=◌, pure, assert}
use criproxy.Proxy.Client.{Env, connect_client, is_client_up, handle_client_error, invoke}
use criproxy.Proxy.Routing.{RuntimeProxy, clients, client_for_id, client_for_image}
use criproxy.Proxy.Handlers.Common.{with_client}

-- The variables of listObjects that its filters set: singleClient, useSingleClient and the request.
pub record Target : Type 0 where
  pub single : Option ℕ
  pub use_single : Bool
  pub req : Request

-- A filter that is there and not empty.
abbrev pub given : Option Text → Option Text
given (some (b ∷ bs)) = some (b ∷ bs)
given _ = none

-- The client of one more filter, with the request's filter set; none is the early return with no
-- items, for filters of different clients.
unfoldable pub add_target : (Text → Request → Request) → Target → Option (ℕ × Text) → Option Target
add_target set t none = some (record t { use_single = true })
add_target set t (some (i, unprefixed)) =
    let t' : Target = record { single = some i; use_single = true; req = set unprefixed t.req } in
    elim t.single [ none ↦ some t' | some j ↦ if j == i then some t' else none ]

module _ (r : RuntimeProxy) where
  unfoldable pub filter_by_id : Request → M Target
  filter_by_id req = elim (given (id_filter? req)) [
    | none ↦ pure (record { single = none; use_single = false; req = req })
    | some id ↦ do
      (i, unprefixed) ← client_for_id r id
      pure (record { single = some i; use_single = true; req = set_id_filter unprefixed req })
  ]

  unfoldable pub filter_by_sandbox : Target → M (Option Target)
  filter_by_sandbox t = elim (given (pod_sandbox_id_filter? t.req)) [
    | none ↦ pure (some t)
    | some id ↦ do
      found ← client_for_id r id
      pure (add_target set_pod_sandbox_id_filter t (some found))
  ]

  unfoldable pub filter_by_image : Target → M (Option Target)
  filter_by_image t = elim (given (image_filter? t.req)) [
    | none ↦ pure (some t)
    | some image ↦ do
      found ← client_for_image r image true
      pure (add_target set_image_filter t found)
  ]

  unfoldable pub targets : Request → M (Option Target)
  targets req = do
    t ← filter_by_id req
    t' ← filter_by_sandbox t
    elim t' [ none ↦ pure none | some t'' ↦ filter_by_image t'' ]

-- The clients with their places.
unfoldable pub enumerate : ℕ → List ClientBase → List (ℕ × ClientBase)
enumerate i [] = []
enumerate i (c ∷ cs) = (i, c) ∷ enumerate (suc i) cs

module _ (env : Env) (method : Text) where
  -- The body of the loop for a client that is up: what the call leaves, and the client's items.
  unfoldable pub list_client : ℕ → ClientBase → Request → Response → M (Response × List Item)
  list_client i c req resp = do
    emptied ← assert (set_items [] resp)
    (resp', e) ← invoke env i method req emptied
    _ ← elim e [ none ↦ pure none | some x ↦ handle_client_error i x true ]
    items ← assert (items? resp')
    pure (resp', map (add_prefix env.is_digest c) items)

  -- The loop, with the items so far.
  unfoldable pub list_from :
      List (ℕ × ClientBase) → Request → Response → List Item → M (Response × List Item)
  list_from [] req resp items = pure (resp, items)
  list_from ((i, c) ∷ cs) req resp items = do
    up ← is_client_up i
    elim up [
      | false ↦ do _ ← connect_client i; list_from cs req resp items
      | true ↦ do (resp', more) ← list_client i c req resp; list_from cs req resp' (items ++ more)
    ]

module _ (env : Env) (r : RuntimeProxy) (method : Text) where
  abbrev pub chosen : Target → M (List (ℕ × ClientBase))
  chosen t = elim t.single [
    | none ↦ pure (if t.use_single then [] else enumerate 0 (clients r))
    | some i ↦ do c ← with_client r i (λ c. c); pure ((i, c) ∷ [])
  ]

  unfoldable pub list_objects : Request → Response → M Response
  list_objects req resp = do
    _ ← assert (items? resp)
    t ← targets r req
    elim t [
      | none ↦ assert (set_items [] resp)
      | some t' ↦ do
        cs ← chosen t'
        (resp', items) ← list_from env method cs t'.req resp []
        assert (set_items items resp')
    ]
