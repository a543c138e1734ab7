-- ===== src/Proxy/Handlers/Listing/Filtered.antt =====
-- A listing with a filter asks one client, whatever happens meanwhile.
use mathlib.Core.Option.{some-injective}
use criproxy.Prelude.{
  inl, inr, ℕ, ◌≡◌, ◌≢◌, refl, sym, ◌∙◌, true, Option, none, some, List, [], ◌∷◌, map, get_elem?,
  All,
}
use criproxy.Text.{Text}
use criproxy.Errors.{Error}
use criproxy.Naming.{ClientBase}
use criproxy.Prefix.{add_prefix}
use criproxy.Object.Requests.{Request}
use criproxy.Object.Filters.{id_filter?, pod_sandbox_id_filter?}
use criproxy.Object.Responses.{Item, Response, items?, set_items}
use criproxy.Object.Responses.Items.{items?-set_items}
use criproxy.Proxy.World.{M, ◌>>=◌, pure, assert}
use criproxy.Proxy.Client.{Env, handle_client_error}
use criproxy.Proxy.Client.Calls.{IsSent}
use criproxy.Proxy.Client.Sending.{invoke-Makes}
use criproxy.Proxy.Logic.{Reads, Reads-bind, Reads-assert}
use criproxy.Proxy.Logic.Sections.{
  Any, connect_client-Reads, is_client_up-Reads, handle_client_error-Reads,
}
use criproxy.Proxy.Logic.Makes.{
  Makes, Makes-bind, Makes-pure, Makes-assert, Makes-of_reading, Makes-if,
}
use criproxy.Proxy.Routing.{RuntimeProxy, clients}
use criproxy.Proxy.Routing.Route.{route_id}
use criproxy.Proxy.Handlers.Listing.Targets.{
  IsFor, one_client, no_client, targets-IsFor, targets-apart,
}
use criproxy.Proxy.Handlers.Listing.{Target, given, chosen, list_client, list_from, list_objects}

module _ (env : Env) (c : ClientBase) where
  -- An item with the client's prefix.
  abbrev pub IsOf : Item → Type 0
  IsOf x = (y : Item) × (x ≡ add_prefix env.is_digest c y)

  IsOf-All : (items : List Item) → All IsOf (map (add_prefix env.is_digest c) items)
  IsOf-All [] = tt
  IsOf-All (y ∷ ys) = ((y, refl), IsOf-All ys)

  module _ (method : Text) (i : ℕ) (req : Request) where
    tolerated-Makes :
        (e : Option Error)
        → Makes {A = Option Error}
            (IsSent env i method req)
            Any
            (elim e [ none ↦ pure none | some x ↦ handle_client_error i x true ])
    tolerated-Makes none = Makes-pure _ Any none tt
    tolerated-Makes (some x) = Makes-of_reading _ Any _ (handle_client_error-Reads i x true)

    list_client-Makes :
        (resp : Response)
        → Makes
            (IsSent env i method req)
            (λ out. All IsOf out.1)
            (list_client env method i c req resp)
    unfolding list_client
    list_client-Makes resp = Makes-bind _ Any _ _ _ (Makes-assert _ Any _ λ a e. tt) λ emptied _.
        Makes-bind _ Any _ _ _ (invoke-Makes env i method req emptied) λ answered _.
          Makes-bind _ Any _ _ _ (tolerated-Makes answered.1) λ left _.
            Makes-bind _ Any _ _ _ (Makes-assert _ Any _ λ a e. tt) λ items _.
              Makes-pure _ _ (answered.0, map (add_prefix env.is_digest c) items) (IsOf-All items)

    list_one-Makes :
        (resp : Response)
        → Makes
            (IsSent env i method req)
            (λ out. All IsOf out.1)
            (list_from env method ((i, c) ∷ []) req resp [])
    unfolding list_from
    list_one-Makes resp =
        Makes-bind _ Any _ _ _ (Makes-of_reading _ Any _ (is_client_up-Reads i)) λ up _.
          Makes-if _ _ _ _ up
            (Makes-bind _ Any _ _ _ (Makes-of_reading _ Any _ (connect_client-Reads i))
              λ ch _. Makes-pure _ _ (resp, []) tt)
            (Makes-bind _ _ _ _ _ (list_client-Makes resp) λ out h. Makes-pure _ _ (out.0, out.1) h)

    abbrev AllPrefixed : Response → Type 0
    AllPrefixed out = (items : List Item) × (items? out ≡ some items) × All IsOf items

    set_items-Makes :
        (out : Response × List Item)
        → All IsOf out.1
        → Makes (IsSent env i method req) AllPrefixed (assert (set_items out.1 out.0))
    set_items-Makes out h =
        Makes-assert _ _ _ λ listed f. (out.1, items?-set_items out.1 out.0 listed f, h)

    -- The end of a listing, for a target.
    abbrev asked : RuntimeProxy → Response → Target → M Response
    asked r resp t = do
      cs ← chosen env r method t
      (resp', items) ← list_from env method cs t.req resp []
      assert (set_items items resp')

    asked-Makes :
        (r : RuntimeProxy) (listing : Request) (resp : Response)
        → get_elem? (clients r) i ≡ some c
        → Makes (IsSent env i method req) AllPrefixed (asked r resp (one_client r listing i req))
    asked-Makes r listing resp here =
        Makes-bind _ (λ cs. cs ≡ (i, c) ∷ []) _ _ _ chosen_one
          λ cs same. rw (same) (Makes-bind _ _ _ _ _ (list_one-Makes resp) set_items-Makes)
      where
        chosen_one :
            Makes
              (IsSent env i method req)
              (λ cs. cs ≡ (i, c) ∷ [])
              (chosen env r method (one_client r listing i req))
        chosen_one = rw (here) (
            Makes-bind _ (λ d. c ≡ d) _ _ _ (Makes-assert _ _ (some c) λ d e. some-injective c d e)
              λ d e. Makes-pure _ _ ((i, d) ∷ []) (rw (e) refl))

    nobody_asked-Makes :
        (r : RuntimeProxy) (listing : Request) (resp : Response)
        → Makes (IsSent env i method req) AllPrefixed (asked r resp (no_client r listing))
    unfolding list_from
    nobody_asked-Makes r listing resp =
        Makes-bind _ (λ cs. cs ≡ []) _ _ _ (Makes-pure _ _ [] refl)
          λ cs same. rw (same) (
            Makes-bind _ (λ out. All IsOf out.1) _ _ _ (Makes-pure _ _ (resp, []) tt)
              set_items-Makes)

    -- A listing with filters that are for one client makes no calls but to this client, of the method and
    -- with the names that it knows, whatever happens meanwhile; and the items of its result have this
    -- client's prefix.
    pub list_objects-IsFor :
        (r : RuntimeProxy) (listing : Request) (resp : Response)
        → IsFor r listing i req
        → get_elem? (clients r) i ≡ some c
        → Makes
            (IsSent env i method req)
            (λ out. (items : List Item) × (items? out ≡ some items) × All IsOf items)
            (list_objects env r method listing resp)
    unfolding list_objects
    list_objects-IsFor r listing resp is_for here =
        Makes-bind _ Any _ _ _ (Makes-assert _ Any _ λ a e. tt) λ _ _.
          Makes-bind _ _ _ _ _ (Makes-of_reading _ _ _ (targets-IsFor r listing i req is_for))
            λ t e. elim e [
              | inl one ↦ rw (one) (asked-Makes r listing resp here)
              | inr none_up ↦ rw (none_up) (nobody_asked-Makes r listing resp)
            ]

-- A listing whose filters of an id and of a sandbox's id are for different clients makes no call and
-- returns no items, whatever happens meanwhile.
pub list_objects-apart :
    (env : Env) (r : RuntimeProxy) (method : Text) (listing : Request) (resp emptied : Response)
    (id sandbox : Text)
    → given (id_filter? listing) ≡ some id
    → given (pod_sandbox_id_filter? listing) ≡ some sandbox
    → (route_id r id).0 ≢ (route_id r sandbox).0
    → set_items [] resp ≡ some emptied
    → Reads
        (λ out. (out ≡ emptied) × (items? out ≡ some []))
        (list_objects env r method listing resp)
unfolding list_objects
list_objects-apart env r method listing resp emptied id sandbox e f apart list =
    Reads-bind Any _ _ _ (Reads-assert Any _ λ a h. tt) λ _ _.
      Reads-bind _ _ _ _ (targets-apart r listing id sandbox e f apart) λ t none_left.
        rw (none_left) (
          Reads-assert _ _
            λ out h. (some-injective out emptied (sym h ∙ list), items?-set_items [] resp out h))
