-- ===== src/Proxy/Handlers/Listing/Whole.antt =====
-- The whole of a listing with no filter, where nothing else happens.
use criproxy.Prelude.{
  map, ℕ, suc, ◌≡◌, refl, sym, ◌∙◌, false, none, some, subst, List, [], ◌∷◌, ◌++◌, All, All-append,
}
use criproxy.Text.{Text}
use criproxy.Naming.{ClientBase}
use criproxy.Object.Requests.{Request}
use criproxy.Object.Responses.{Item, Response, items?, set_items}
use criproxy.Object.Responses.Types.{set_items-SameType}
use criproxy.Object.Responses.Fits.{FitsItem, Fits, set_items-Fits, add_prefix-Fits, has_items}
use criproxy.Proxy.World.{Slot, Call, World, ok, ◌>>=◌}
use criproxy.Proxy.Quiet.{quiet, >>=-quiet}
use criproxy.Proxy.Client.{Env}
use criproxy.Proxy.Client.Quiet.{IsAsked}
use criproxy.Proxy.Routing.{RuntimeProxy, clients}
use criproxy.Proxy.Handlers.Listing.{
  filter_by_id, filter_by_sandbox, filter_by_image, targets, enumerate, list_objects,
}
use criproxy.Proxy.Handlers.Listing.Results.{IsUnfiltered}
use criproxy.Proxy.Handlers.Listing.Exact.{
  Outcome, offline, asked, slots_after, listed, HaveOutcomes, was_asked, list_from-quiet,
}

targets_all :
    (env : Env) (r : RuntimeProxy) (req : Request) (w : World)
    → IsUnfiltered env r req
    → targets r req w ≡ (ok (some (record { single = none; use_single = false; req = req })), w)
unfolding targets filter_by_id filter_by_sandbox filter_by_image ◌>>=◌
targets_all env r req w (a, b, c) =
    rw (filter_by_id, a, filter_by_sandbox, b, filter_by_image, c) refl

module _ (env : Env) (method : Text) (req : Request) (resp emptied : Response)
    (list : set_items [] resp ≡ some emptied) where
  Fits-emptied :
      (left : Response) (xs : List Item)
      → set_items [] left ≡ some emptied
      → Fits left xs
      → Fits emptied xs
  Fits-emptied left xs e h =
      subst (λ m. All (FitsItem m) xs) (sym (set_items-SameType [] left emptied e)) h

  listed-Fits :
      (i : ℕ) (cs : List ClientBase) (slots : List Slot) (os : List Outcome)
      → HaveOutcomes env method req emptied i cs slots os
      → Fits emptied (listed env.is_digest cs os)
  listed-Fits i [] [] [] h = tt
  listed-Fits i (c ∷ cs) (s ∷ slots) (offline ∷ os) (o, h) = listed-Fits (suc i) cs slots os h
  listed-Fits i (c ∷ cs) (s ∷ slots) (asked left items e ∷ os)
        ((next, up, behind, served, left_list, has_items), h) =
      All-append _ _ _
        (Fits-emptied left _ left_list (add_prefix-Fits env.is_digest c left items has_items))
        (listed-Fits (suc i) cs slots os h)
  listed-Fits i _ _ _ h = absurd h

  -- A listing with no filter, where nothing else happens, returns the items of all clients that are
  -- up, in the clients' order and with their prefixes, whether their runtimes gave an error or not. It
  -- makes one call to each of these clients, in this order, of the method and the request. A client that
  -- is not up is connected to, and one whose runtime gave an error handles it; the other clients stay as
  -- they are.
  pub list_objects-Exact :
      (r : RuntimeProxy) (slots : List Slot) (os : List Outcome) (log : List Call)
      → IsUnfiltered env r req
      → HaveOutcomes env method req emptied 0 (clients r) slots os
      → (out : Response) × (new : List Call) × (list_objects env r method req resp (quiet slots log)
          ≡ (ok out, quiet (slots_after os slots) (new ++ log)))
        × (items? out ≡ some (listed env.is_digest (clients r) os))
        × IsAsked env method req 0 (map was_asked os) new
  unfolding list_objects
  list_objects-Exact r slots os log unfiltered h =
      let (resp', new, made, left_list, calls) =
        list_from-quiet env method req emptied (clients r) slots os [] resp [] log list h in
      let has_list = has_items resp emptied list in
      let same = set_items-SameType [] resp' emptied left_list in
      let (out, set, has) =
        set_items-Fits (listed env.is_digest (clients r) os) resp' emptied left_list (
          subst (λ m. All (FitsItem m) (listed env.is_digest (clients r) os)) same
            (listed-Fits 0 (clients r) slots os h)) in
      (
        out,
        new,
        >>=-quiet _ _ _ (quiet slots log) has_list.0 (rw (has_list.1) refl)
            ∙ (>>=-quiet _ _ _ _ _ (targets_all env r req (quiet slots log) unfiltered)
                ∙ (>>=-quiet _ _ _ (quiet slots log) (enumerate 0 (clients r)) refl
                    ∙ (>>=-quiet _ _ _ _ _ made ∙ rw (set) refl))),
        has,
        calls,
      )
