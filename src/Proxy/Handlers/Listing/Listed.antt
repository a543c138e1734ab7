-- ===== src/Proxy/Handlers/Listing/Listed.antt =====
-- The items of what a call to one client of a listing left.
use criproxy.Prelude.{
  ℕ, suc, ◌≡◌, refl, sym, ap, ◌∙◌, ◌⊎◌, inl, inr, Option, none, some, subst, List, [], ◌∷◌, map,
  get_elem?, All,
}
use criproxy.Text.{Text}
use criproxy.Errors.{Error}
use criproxy.Naming.{ClientBase}
use criproxy.Prefix.{add_prefix}
use criproxy.Object.Requests.{Request}
use criproxy.Object.Responses.{Item, Response, items?}
use criproxy.Proxy.World.{Next}
use criproxy.Proxy.Client.{Env}
use criproxy.Proxy.Client.Answered.{Leaves, Answered}
use mathlib.Core.Option.{some-injective}
use criproxy.Proxy.Routing.{RuntimeProxy, clients}

module _ (env : Env) (r : RuntimeProxy) where
  -- The item is one of those that a call of the method with the request, both converted where the
  -- client upgrades, to a client of the proxy left in an emptied response, with this client's prefix.
  pub record IsListed (method : Text) (req : Request) (x : Item) : Type 0 where
    pub place : ℕ
    pub client : ClientBase
    pub here : get_elem? (clients r) place ≡ some client
    pub next : Next
    pub emptied : Response
    pub empty : items? emptied ≡ some []
    pub out : Response
    pub answered : Answered env next place method req emptied out
    pub items : List Item
    pub left : items? out ≡ some items
    pub index : ℕ
    pub item : Item
    pub at_index : get_elem? items index ≡ some item
    pub prefixed : x ≡ add_prefix env.is_digest client item

  All-map :
      (P : Item → Type 0) (f : Item → Item) (items : List Item)
      → ((k : ℕ) (y : Item) → get_elem? items k ≡ some y → P (f y))
      → All P (map f items)
  All-map P f [] h = tt
  All-map P f (y ∷ ys) h = (h 0 y refl, All-map P f ys λ k z e. h (suc k) z e)

  module _ (method : Text) (req : Request) where
    -- The items of what invoke left in the emptied response.
    pub left-IsListed :
        (i : ℕ) (c : ClientBase) (emptied : Response)
        → get_elem? (clients r) i ≡ some c
        → items? emptied ≡ some []
        → (out : Response × Option Error)
        → Leaves (λ x. (next : Next) × Answered env next i method req emptied x) emptied out
        → (items : List Item) → items? out.0 ≡ some items
        → All (IsListed method req) (map (add_prefix env.is_digest c) items)
    left-IsListed i c emptied here empty (out, e) left items e' = elim (answered out e left) [
      | inl same ↦
          subst (λ ys. All (IsListed method req) (map (add_prefix env.is_digest c) ys))
            (some-injective _ _ (sym empty ∙ ap items? (sym same) ∙ e')) tt
      | inr (next, a) ↦ All-map (IsListed method req) (add_prefix env.is_digest c) items λ k y at_k.
          record {
            place = i;
            client = c;
            here = here;
            next = next;
            emptied = emptied;
            empty = empty;
            out = out;
            answered = a;
            items = items;
            left = e';
            index = k;
            item = y;
            at_index = at_k;
            prefixed = refl;
          }
    ]
      where
        answered :
            (out : Response) (e : Option Error)
            → Leaves
                (λ x. (next : Next) × Answered env next i method req emptied x)
                emptied
                (out, e)
            → (out ≡ emptied) ⊎ ((next : Next) × Answered env next i method req emptied out)
        answered out none p = inr p
        answered out (some x) p = p
