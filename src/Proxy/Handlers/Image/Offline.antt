-- ===== src/Proxy/Handlers/Image/Offline.antt =====
-- What the handler of single images does where the image's runtime is not connected.
use criproxy.Prelude.{
  ℕ, suc, ◌≡◌, ◌≢◌, refl, sym, ap, ◌∙◌, inl, inr, true, false, Option, Option-cases, none, some,
  List, [], ◌∷◌, ◌++◌, length, arith,
}
use criproxy.Text.{Text}
use criproxy.Naming.{ClientBase, image_matches}
use criproxy.Connection.{connecting, Connection, connect}
use criproxy.Object.Requests.{Request, image?}
use criproxy.Object.Responses.{Response}
use criproxy.Proxy.World.{Slot, Call, World, ok, M, ◌>>=◌, ◌>>◌, pure, on_connection}
use criproxy.Proxy.Quiet.{quiet, on_slot-quiet, >>=-quiet}
use criproxy.Proxy.Client.{Env, is_up, connect_client, is_client_up, connect_and_wait}
use criproxy.Proxy.Routing.{RuntimeProxy, client_for_image, client_for_image_from}
use criproxy.Proxy.Routing.Route.{route_from, route_image}
use criproxy.Proxy.Handlers.Image.{handle_image}

-- What clientForImage does with the client it found for handleImage.
abbrev at_client : ℕ → Text → M (Option (ℕ × Text))
at_client i unprefixed = do
  _ ← connect_client i
  up ← is_client_up i
  elim up [ false ↦ pure none | true ↦ do connect_and_wait i; pure (some (i, unprefixed)) ]

route_from-none :
    (i : ℕ) (c : ClientBase) (cs : List ClientBase) (image : Text)
    → image_matches c image ≡ none
    → route_from image_matches i (c ∷ cs) image ≡ route_from image_matches (suc i) cs image
unfolding route_from
route_from-none i c cs image k = rw (k, route_from) refl

route_from-some :
    (i : ℕ) (c : ClientBase) (cs : List ClientBase) (image x : Text)
    → image_matches c image ≡ some x
    → route_from image_matches i (c ∷ cs) image ≡ (i, x)
unfolding route_from
route_from-some i c cs image x k = rw (k, route_from) refl

route_from-empty :
    (i : ℕ) (image : Text) (j : ℕ) (u : Text) → route_from image_matches i [] image ≢ (suc j, u)
unfolding route_from
route_from-empty i image j u e = omega (arith, ap (λ p. p.0) e)

client_for_image_from-at_client :
    (i : ℕ) (cs : List ClientBase) (image : Text) (j : ℕ) (u : Text)
    → route_from image_matches i cs image ≡ (suc j, u)
    → client_for_image_from i cs image true ≡ at_client (suc j) u
unfolding client_for_image_from
client_for_image_from-at_client i [] image j u e = absurd (route_from-empty i image j u e)
client_for_image_from-at_client i (c ∷ cs) image j u e =
    elim (Option-cases (image_matches c image)) [
      | inl k ↦
          rw (k, client_for_image_from)
            (client_for_image_from-at_client (suc i) cs image j u
              (sym (route_from-none i c cs image k) ∙ e))
      | inr (x, k) ↦
          rw (k, client_for_image_from)
            (ap (λ p. at_client p.0 p.1) (sym (route_from-some i c cs image x k) ∙ e))
    ]

connect_down : (c : Connection) → is_up c.state ≡ false → (connect c).state ≡ connecting
unfolding connect
connect_down c down = ground arith

module _ (before : List Slot) (s : Slot) (after : List Slot) (log : List Call) where
  abbrev before_connect : World
  before_connect = quiet (before ++ s ∷ after) log

  abbrev after_connect : World
  after_connect = quiet (before ++ on_connection connect s ∷ after) log

  -- The client after those of `before` is not up.
  at_client-down :
      (u : Text)
      → is_up s.connection.state ≡ false
      → at_client (length before) u before_connect ≡ (ok none, after_connect)
  unfolding connect_client is_client_up
  at_client-down u down =
      >>=-quiet _ _ before_connect after_connect _ (on_slot-quiet before s after log _ _)
      ∙ >>=-quiet _ _ after_connect after_connect _
          (on_slot-quiet before (on_connection connect s) after log _ (λ t. t))
      ∙ rw (connect_down s.connection down)

module _ (env : Env) (r : RuntimeProxy) (method : Text) (req : Request) (resp : Response)
    (image : Text) (p : Slot) (before : List Slot) (s : Slot) (after : List Slot)
    (log : List Call) where
  -- Where nothing else happens and the client that the image is routed to, another than the primary
  -- one, is not up, handleImage returns the response as it was given, and no error; it makes no call,
  -- and connects to that client, which is connecting then, while the others stay as they are.
  pub handle_image_offline :
      image? req ≡ some image
      → (route_image r image).0 ≡ suc (length before)
      → is_up s.connection.state ≡ false
      → (handle_image env r method req resp (quiet (p ∷ before ++ s ∷ after) log)
          ≡ (ok resp, quiet (p ∷ before ++ on_connection connect s ∷ after) log))
        × ((on_connection connect s).connection.state ≡ connecting)
  unfolding handle_image ◌>>=◌ client_for_image
  handle_image_offline has_image routed down = (
    rw (has_image, found, at_client-down (p ∷ before) s after log (route_image r image).1 down),
    connect_down s.connection down,
  )
    where
      found :
          client_for_image_from 1 r.others image true
          ≡ at_client (suc (length before)) (route_image r image).1
      found =
          client_for_image_from-at_client 1 r.others image (length before) (route_image r image).1
            (ap (λ (i : ℕ). (i, (route_image r image).1)) routed)
