-- ===== src/Proxy/Handlers/Image/Effects.antt =====
-- What the handler of single images returns where the image's runtime is up.
use criproxy.Prelude.{ℕ, ◌≡◌, refl, ap, ◌∙◌, true, Option, some, get_elem?}
use criproxy.Text.{Text}
use criproxy.Naming.{ClientBase}
use criproxy.Object.Requests.{Request, image?, set_image}
use criproxy.Object.Responses.{Response}
use criproxy.Proxy.World.{Next, World, ok}
use criproxy.Proxy.Client.{Env}
use criproxy.Proxy.Client.Returns.{
  Returns, Returns-then, IsUp, Serves, assert_returns, invoke_with_error_handling_returns,
}
use criproxy.Proxy.Routing.{RuntimeProxy, clients, client_for_image}
use criproxy.Proxy.Routing.Route.{route_image}
use criproxy.Proxy.Routing.Returns.{client_for_image_returns}
use criproxy.Proxy.Handlers.Image.{handle_image, prefix_response_image, no_client_on_error}

module _ (env : Env) (r : RuntimeProxy) (method : Text) (req : Request) (resp : Response)
    (image : Text) (has_image : image? req ≡ some image) (w : World) where
  -- If no other events happen, the client that the image is routed to is up, and its runtime answers
  -- the method with the image's name there, then handleImage returns the answer, with that client's
  -- prefix on the names of the image in it.
  pub handle_image_returns :
      (next : Next) (c : ClientBase) (answer : Response)
      → get_elem? (clients r) (route_image r image).0 ≡ some c
      → IsUp next (route_image r image).0 w.log w
      → Serves env next
          (route_image r image).0
          method
          (set_image (route_image r image).1 req)
          resp
          w.log
          answer
      → (w' : World) × (handle_image env r method req resp w
          ≡ (ok (prefix_response_image env r method c answer), w'))
  unfolding handle_image
  handle_image_returns next c answer here up served =
      let (a, v, e, (k, _)) =
        Returns-then _ _ _ image _ (λ a v. (a ≡ prefix_response_image env r method c answer) × Unit)
          (assert_returns up _ image has_image)
          λ w1 u1.
            Returns-then _ _ _ (some (route_image r image)) _ _
              (tolerated _ _ (client_for_image_returns r image true u1))
              λ w2 u2.
                Returns-then _ _ _ answer _ _
                  (invoke_with_error_handling_returns env method _ resp answer u2 served)
                  λ w3 _. (prefix_response_image env r method c answer, w3, rw here, (refl, tt)) in
      (v, e ∙ ap (λ x. (ok x, v)) k)
    where
      tolerated :
          (v : World) (Q : Option (ℕ × Text) → World → Type 0)
          → Returns (client_for_image r image true) v Q
          → Returns (λ w. no_client_on_error env r method (client_for_image r image true w)) v Q
      tolerated v Q (a, v', e, q) = (a, v', rw e, q)
