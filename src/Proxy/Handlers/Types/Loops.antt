-- ===== src/Proxy/Handlers/Types/Loops.antt =====
-- The handlers that ask several clients return a response of the type of the empty one.
use criproxy.Prelude.{ℕ, suc, refl, ◌∙◌, Option, none, some, List, [], ◌∷◌, ◌++◌}
use criproxy.Text.{Text}
use criproxy.Errors.{Error, join}
use criproxy.Naming.{ClientBase}
use criproxy.Object.Requests.{Request}
use criproxy.Object.Responses.{Response, Item, set_items}
use criproxy.Object.Responses.Types.{SameType, set_items-SameType}
use criproxy.Proxy.World.{◌>>=◌, assert}
use criproxy.Proxy.Client.{Env}
use criproxy.Proxy.Client.Types.{KeepsType, invoke-Ensures}
use criproxy.Proxy.Logic.Ensures.{
  Ensures, Ensures-bind, Ensures-after, Ensures-pure, Ensures-fail, Ensures-assert, Ensures-if,
  Ensures-option,
}
use criproxy.Proxy.Routing.{RuntimeProxy, clients}
use criproxy.Proxy.Handlers.Common.{update_runtime_config, update_runtime_config_from, end_update}
use criproxy.Proxy.Handlers.Listing.{Target, list_client, list_from, chosen, list_objects}

module _ (env : Env) (keeps : KeepsType env) (r : RuntimeProxy) (method : Text)
    (resp : Response) where
  update_from-Ensures :
      (i : ℕ) (cs : List ClientBase) (req : Request) (a : Response) (errs : List Error)
      → SameType a resp
      → Ensures
          (λ out. SameType out.0 resp)
          (update_runtime_config_from env r method i cs req a errs)
  unfolding update_runtime_config_from
  update_from-Ensures i [] req a errs h = Ensures-pure _ (a, errs) h
  update_from-Ensures i (c ∷ cs) req a errs h = Ensures-after _ _ _ λ up.
      Ensures-if _ _ _ up (Ensures-after _ _ _ λ ch. update_from-Ensures (suc i) cs req a errs h) (
        Ensures-bind _ _ _ _ (invoke-Ensures env keeps i method req a) λ answered k.
          Ensures-option _ _ _ answered.1
            (update_from-Ensures (suc i) cs req answered.0 errs (k ∙ h))
            λ e. Ensures-after _ _ _ λ left.
              Ensures-after _ _ _
                λ y. update_from-Ensures (suc i) cs req answered.0 (errs ++ (y ∷ [])) (k ∙ h))

  end_update-Ensures :
      (out : Response × List Error)
      → SameType out.0 resp
      → Ensures (λ b. SameType b resp) (end_update env r method out)
  end_update-Ensures (a, []) h = Ensures-pure _ a h
  end_update-Ensures (a, e ∷ es) h = Ensures-fail _ (join e es)

  pub update_runtime_config-Ensures :
      (req : Request)
      → Ensures (λ out. SameType out resp) (update_runtime_config env r method req resp)
  unfolding update_runtime_config
  update_runtime_config-Ensures req =
      Ensures-bind _ _ _ _ (update_from-Ensures 0 (clients r) req resp [] refl) end_update-Ensures

  list_client-Ensures :
      (i : ℕ) (c : ClientBase) (req : Request) (a : Response)
      → SameType a resp
      → Ensures (λ out. SameType out.0 resp) (list_client env method i c req a)
  unfolding list_client
  list_client-Ensures i c req a h =
      Ensures-bind (λ b. SameType b resp) _ _ _
        (Ensures-assert _ _ λ b e. set_items-SameType [] a b e ∙ h)
        λ emptied k.
          Ensures-bind _ _ _ _ (invoke-Ensures env keeps i method req emptied) λ answered l.
            Ensures-after _ _ _
              λ left. Ensures-after _ _ _ λ items. Ensures-pure _ (answered.0, _) (l ∙ k)

  list_from-Ensures :
      (cs : List (ℕ × ClientBase)) (req : Request) (a : Response) (items : List Item)
      → SameType a resp
      → Ensures (λ out. SameType out.0 resp) (list_from env method cs req a items)
  unfolding list_from
  list_from-Ensures [] req a items h = Ensures-pure _ (a, items) h
  list_from-Ensures ((i, c) ∷ cs) req a items h = Ensures-after _ _ _ λ up.
      Ensures-if _ _ _ up (Ensures-after _ _ _ λ ch. list_from-Ensures cs req a items h) (
        Ensures-bind _ _ _ _ (list_client-Ensures i c req a h)
          λ out k. list_from-Ensures cs req out.0 (items ++ out.1) k)

  pub list_objects-Ensures :
      (req : Request) → Ensures (λ out. SameType out resp) (list_objects env r method req resp)
  unfolding list_objects
  list_objects-Ensures req = Ensures-after _ _ _ λ items. Ensures-after _ _ _ by_target
    where
      by_target :
          (t : Option Target)
          → Ensures {A = Response}
              (λ out. SameType out resp)
              (elim t [
                | none ↦ assert (set_items [] resp)
                | some t' ↦ do
                  cs ← chosen env r method t'
                  (resp', items) ← list_from env method cs t'.req resp []
                  assert (set_items items resp')
              ])
      by_target none = Ensures-assert _ _ λ out e. set_items-SameType [] resp out e
      by_target (some t) = Ensures-after _ _ _ λ cs.
          Ensures-bind _ _ _ _ (list_from-Ensures cs t.req resp [] refl)
            λ listed h. Ensures-assert _ _ λ out e. set_items-SameType listed.1 listed.0 out e ∙ h
