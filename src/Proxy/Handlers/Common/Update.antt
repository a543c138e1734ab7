-- ===== src/Proxy/Handlers/Common/Update.antt =====
-- updateRuntimeConfig where nothing else happens: every client that is up is asked, whatever the errors.
use criproxy.Prelude.{
  false, true, Bool, map, ℕ, suc, ◌≡◌, refl, sym, ◌∙◌, Option, none, some, subst, List, [], ◌∷◌,
  ◌++◌, length, append_assoc, append-nil, arith,
}
use criproxy.Text.{Text}
use criproxy.Errors.{Error, at_addr, join}
use criproxy.Naming.{ClientBase}
use criproxy.Connection.{connected, connect, Connection, handle_error}
use criproxy.Object.Requests.{Request}
use criproxy.Object.Responses.{Response}
use criproxy.Proxy.World.{Next, Slot, Call, World, Out, ok, err, on_connection}
use criproxy.Proxy.Quiet.{quiet, on_slot-quiet, >>=-quiet, append_snoc, length_snoc}
use criproxy.Proxy.Client.{Env, is_up, connect_client, is_client_up, handle_client_error}
use criproxy.Proxy.Client.Quiet.{Leaves, invoke-quiet, IsAsked}
use criproxy.Proxy.Routing.{RuntimeProxy, clients}
use criproxy.Proxy.Handlers.Common.{update_runtime_config_from, end_update, update_runtime_config}

-- What the runtime of a client that is up leaves in the response, and its error.
abbrev pub Outcome : Type 0
Outcome = Option (Response × Option Error)

abbrev pub slot_after : Outcome → Slot → Slot
slot_after none s = on_connection connect s
slot_after (some (left, none)) s = s
slot_after (some (left, some e)) s = on_connection (λ c. (handle_error e false c).0) s

abbrev pub slots_after : List Outcome → List Slot → List Slot
slots_after (o ∷ os) (s ∷ slots) = slot_after o s ∷ slots_after os slots
slots_after _ _ = []

abbrev pub was_asked : Outcome → Bool
was_asked none = false
was_asked (some o) = true

-- The errors of the runtimes, with the address of each, in the clients' order.
abbrev pub errors_of : List Outcome → List Slot → List Error
errors_of (some (left, some e) ∷ os) (s ∷ slots) = at_addr s.connection.addr e ∷ errors_of os slots
errors_of (o ∷ os) (s ∷ slots) = errors_of os slots
errors_of _ _ = []

abbrev pub response_after : List Outcome → Response → Response
response_after [] resp = resp
response_after (none ∷ os) resp = response_after os resp
response_after (some (left, e) ∷ os) resp = response_after os left

abbrev pub result_of : Response → List Error → Out Response
result_of resp [] = ok resp
result_of resp (e ∷ es) = err (join e es)

handle_error-left :
    (e : Error) (c : Connection) → (handle_error e false c).1 ≡ some (at_addr c.addr e)
unfolding handle_error
handle_error-left e c = ground arith

module _ (env : Env) (method : Text) (req : Request) where
  abbrev pub HasOutcome : ℕ → Slot → Response → Outcome → Type 0
  HasOutcome i s resp none = is_up s.connection.state ≡ false
  HasOutcome i s resp (some (left, e)) =
      (next : Next) × (s.connection.state ≡ connected)
      × (s.next ≡ some next)
      × ((log : List Call) → Leaves env next i s.connection.conn method req resp log left e)

  abbrev pub HaveOutcomes : ℕ → List ClientBase → List Slot → Response → List Outcome → Type 0
  HaveOutcomes i [] [] resp [] = Unit {0}
  HaveOutcomes i (c ∷ cs) (s ∷ slots) resp (o ∷ os) =
      HasOutcome i s resp o × HaveOutcomes (suc i) cs slots (response_after (o ∷ []) resp) os
  HaveOutcomes i _ _ _ _ = ⊥

module _ (env : Env) (r : RuntimeProxy) (method : Text) (req : Request) where
  -- The loop in a world, with the errors so far, ends with this response and errors, and these slots.
  abbrev Updates :
      ℕ
      → List ClientBase
      → List Outcome
      → Response
      → List Error
      → List Call
      → World
      → Response × List Error
      → List Slot
      → Type 0
  Updates i cs os resp errs log w out slots =
      (new : List Call) × (update_runtime_config_from env r method i cs req resp errs w
        ≡ (ok out, quiet slots (new ++ log)))
      × IsAsked env method req i (map was_asked os) new

  -- The rest of the loop, after a client.
  rest_of :
      (before : List Slot) (s : Slot) (cs : List ClientBase) (slots : List Slot) (os : List Outcome)
      (resp : Response) (errs : List Error) (log : List Call) (out : Response × List Error)
      → Updates
          (length (before ++ s ∷ []))
          cs
          os
          resp
          errs
          log
          (quiet ((before ++ s ∷ []) ++ slots) log)
          out
          ((before ++ s ∷ []) ++ slots_after os slots)
      → Updates
          (suc (length before))
          cs
          os
          resp
          errs
          log
          (quiet (before ++ s ∷ slots) log)
          out
          (before ++ s ∷ slots_after os slots)
  rest_of before s cs slots os resp errs log out h =
      rw
        (
          append_snoc before s slots,
          append_snoc before s (slots_after os slots),
          sym (length_snoc before s),
        )
        h

  update_from-quiet :
      (cs : List ClientBase) (slots : List Slot) (os : List Outcome) (before : List Slot)
      (resp : Response) (errs : List Error) (log : List Call)
      → HaveOutcomes env method req (length before) cs slots resp os
      → Updates
          (length before)
          cs
          os
          resp
          errs
          log
          (quiet (before ++ slots) log)
          (response_after os resp, errs ++ errors_of os slots)
          (before ++ slots_after os slots)
  unfolding update_runtime_config_from is_client_up connect_client handle_client_error
  update_from-quiet [] [] [] before resp errs log h = ([], rw (append-nil errs) refl, refl)
  update_from-quiet (c ∷ cs) (s ∷ slots) (none ∷ os) before resp errs log (down, h) =
      let after = slot_after none s in
      let (new, e, calls) = rest_of before after cs slots os resp errs log _ (
        update_from-quiet cs slots os (before ++ after ∷ []) resp errs log (
          subst (λ i. HaveOutcomes env method req i cs slots resp os)
            (sym (length_snoc before after)) h)) in
      (
        new,
        >>=-quiet _ _ _ _ false (on_slot-quiet before s slots log _ _ ∙ rw (down) refl)
            ∙ (>>=-quiet _ _ _ _ _ (on_slot-quiet before s slots log _ _) ∙ e),
        calls,
      )
  update_from-quiet (c ∷ cs) (s ∷ slots) (some (left, none) ∷ os) before resp errs log
        ((next, up, behind, served), h) =
      let (call, sent, made) =
        invoke-quiet env before s slots up next method req resp left none log behind (served log) in
      let (new, e, calls) = rest_of before s cs slots os left errs (call ∷ log) _ (
        update_from-quiet cs slots os (before ++ s ∷ []) left errs (call ∷ log) (
          subst (λ i. HaveOutcomes env method req i cs slots left os) (sym (length_snoc before s))
            h)) in
      (
        new ++ call ∷ [],
        >>=-quiet _ _ _ _ true (on_slot-quiet before s slots log _ _ ∙ rw (up) refl)
            ∙ (>>=-quiet _ _ _ _ _ made ∙ (e ∙ rw (append_snoc new call log) refl)),
        (call, new, refl, (next, sent), calls),
      )
  update_from-quiet (c ∷ cs) (s ∷ slots) (some (left, some x) ∷ os) before resp errs log
        ((next, up, behind, served), h) =
      let after = slot_after (some (left, some x)) s in
      let y = at_addr s.connection.addr x in
      let (call, sent, made) =
        invoke-quiet env before s slots up next method req resp left (some x) log behind
          (served log) in
      let (new, e, calls) = rest_of before after cs slots os left (errs ++ y ∷ []) (call ∷ log) _ (
        update_from-quiet cs slots os (before ++ after ∷ []) left (errs ++ y ∷ []) (call ∷ log) (
          subst (λ i. HaveOutcomes env method req i cs slots left os)
            (sym (length_snoc before after)) h)) in
      (
        new ++ call ∷ [],
        >>=-quiet _ _ _ _ true (on_slot-quiet before s slots log _ _ ∙ rw (up) refl)
            ∙ (>>=-quiet _ _ _ _ _ made
                ∙ (>>=-quiet _ _ _ _ _ (on_slot-quiet before s slots (call ∷ log) _ _)
                    ∙ (>>=-quiet _ _ _ _ y (rw (handle_error-left x s.connection) refl)
                        ∙ (e
                            ∙ rw
                                (
                                  append_assoc errs (y ∷ []) (errors_of os slots),
                                  append_snoc new call log,
                                )
                                refl)))),
        (call, new, refl, (next, sent), calls),
      )
  update_from-quiet _ _ _ before resp errs log h = absurd h

  -- Where nothing else happens, updateRuntimeConfig makes one call to each client that is up, in the
  -- clients' order and also after an error, and connects to the others. If no runtime gave an error it returns the response, as the calls left
  -- it; else the error is all of theirs in the clients' order, each with its runtime's address, and each
  -- of these clients has handled its own.
  pub update_runtime_config-Exact :
      (slots : List Slot) (os : List Outcome) (resp : Response) (log : List Call)
      → HaveOutcomes env method req 0 (clients r) slots resp os
      → (new : List Call) × (update_runtime_config env r method req resp (quiet slots log) ≡ (
        result_of (response_after os resp) (errors_of os slots),
        quiet (slots_after os slots) (new ++ log),
      ))
        × IsAsked env method req 0 (map was_asked os) new
  unfolding update_runtime_config
  update_runtime_config-Exact slots os resp log h =
      let (new, e, calls) = update_from-quiet (clients r) slots os [] resp [] log h in
      (new, >>=-quiet _ _ _ _ _ e ∙ ended (response_after os resp) (errors_of os slots) _, calls)
    where
      ended :
          (resp : Response) (errs : List Error) (w : World)
          → end_update env r method (resp, errs) w ≡ (result_of resp errs, w)
      ended resp [] w = refl
      ended resp (x ∷ xs) w = refl
