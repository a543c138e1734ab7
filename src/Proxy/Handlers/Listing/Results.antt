-- ===== src/Proxy/Handlers/Listing/Results.antt =====
-- What a listing with no filter returns, whatever the schedule.
use criproxy.Prelude.{ℕ, ◌≡◌, none, some, get_elem?}
use criproxy.Text.{Text}
use criproxy.Naming.{ClientBase}
use criproxy.Object.Requests.{Request}
use criproxy.Object.Filters.{id_filter?, pod_sandbox_id_filter?, image_filter?}
use criproxy.Object.Responses.{Item}
use criproxy.Proxy.World.{◌>>=◌}
use criproxy.Proxy.Client.{Env}
use criproxy.Proxy.Logic.Unfailing.{Unfailing}
use criproxy.Proxy.Routing.{RuntimeProxy, clients}
use criproxy.Proxy.Handlers.Listing.Listed.{IsListed}
use criproxy.Proxy.Handlers.Listing.{given}

module _ (env : Env) (r : RuntimeProxy) where
  abbrev IsPlace : ℕ × ClientBase → Type 0
  IsPlace p = get_elem? (clients r) p.0 ≡ some p.1

  module _ (method : Text) (req : Request) where
    abbrev IsPrefixed : Item → Type 0
    IsPrefixed x = IsListed env r method req x

  -- No filter of the request is there and not empty.
  abbrev pub IsUnfiltered : Request → Type 0
  IsUnfiltered req =
      (given (id_filter? req) ≡ none)
      × (given (pod_sandbox_id_filter? req) ≡ none)
      × (given (image_filter? req) ≡ none)
