-- ===== src/Proxy/Handlers/Common/Ends.antt =====
-- The ends of the handlers that put a client's prefix on a response.
use criproxy.Prelude.{ℕ, ◌≡◌, refl, sym, ◌∙◌, Option, none, some, get_elem?}
use criproxy.Naming.{ClientBase}
use criproxy.Object.Responses.{Response}
use criproxy.Proxy.World.{◌>>=◌, assert}
use criproxy.Proxy.Logic.{Reads, Reads-bind, Reads-assert}
use criproxy.Proxy.Routing.{RuntimeProxy, clients}
use criproxy.Proxy.Handlers.Common.{with_client}

with_found :
    {A : Type 0} (f : ClientBase → A) (o : Option ClientBase)
    → Reads
        (λ a. (c : ClientBase) × (o ≡ some c) × (a ≡ f c))
        (assert (elim o [ none ↦ none | some c ↦ some (f c) ]))
with_found f none = Reads-assert _ none λ a e. cc
with_found f (some c) = Reads-assert _ (some (f c)) λ a e. (c, refl, cc)

module _ (r : RuntimeProxy) (i : ℕ) where
  pub with_client-Reads :
      {A : Type 0} (f : ClientBase → A)
      → Reads
          (λ a. (c : ClientBase) × (get_elem? (clients r) i ≡ some c) × (a ≡ f c))
          (with_client r i f)
  with_client-Reads f = with_found f (get_elem? (clients r) i)

  -- The prefix of the client at a place, or a panic.
  pub augment-Reads :
      (augment : ClientBase → Response → Option Response) (answer : Response)
      → Reads
          (λ out.
            (c : ClientBase) × (get_elem? (clients r) i ≡ some c) × (augment c answer ≡ some out))
          (with_client r i (λ c. augment c answer) >>= assert)
  augment-Reads augment answer =
      Reads-bind _ _ _ _ (with_client-Reads (λ c. augment c answer))
        λ o h. Reads-assert _ o λ out e. (h.0, h.1, sym h.2 ∙ e)
