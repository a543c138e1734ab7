-- ===== src/Proxy/Handlers/Listing/Exact.antt =====
-- What a listing with no filter returns where nothing else happens.
use criproxy.Prelude.{
  false, true, Bool, map, ℕ, suc, ◌≡◌, refl, sym, ◌∙◌, Option, none, some, subst, List, [], ◌∷◌,
  ◌++◌, length, append_assoc, append-nil,
}
use criproxy.Text.{Text}
use criproxy.Errors.{Error}
use criproxy.Naming.{ClientBase}
use criproxy.Prefix.{add_prefix}
use criproxy.Connection.{connected, connect, handle_error}
use criproxy.Object.Requests.{Request}
use criproxy.Object.Responses.{Item, Response, items?, set_items}
use criproxy.Proxy.World.{Next, Slot, Call, World, ok, M, pure, on_connection}
use criproxy.Proxy.Quiet.{quiet, on_slot-quiet, >>=-quiet, append_snoc, length_snoc}
use criproxy.Proxy.Client.{Env, is_up, connect_client, is_client_up, handle_client_error}
use criproxy.Proxy.Client.Calls.{IsSent}
use criproxy.Proxy.Client.Quiet.{Leaves, invoke-quiet, IsAsked}
use criproxy.Proxy.Handlers.Listing.{enumerate, list_client, list_from}

-- What a client does in a listing: nothing where it is not up, else it leaves a response with these
-- items, with an error or without.
pub data Outcome : Type 0 where
  offline : Outcome
  asked : Response → List Item → Option Error → Outcome

abbrev pub slot_after : Outcome → Slot → Slot
slot_after offline s = on_connection connect s
slot_after (asked left items none) s = s
slot_after (asked left items (some e)) s = on_connection (λ c. (handle_error e true c).0) s

abbrev pub slots_after : List Outcome → List Slot → List Slot
slots_after (o ∷ os) (s ∷ slots) = slot_after o s ∷ slots_after os slots
slots_after _ _ = []

abbrev pub was_asked : Outcome → Bool
was_asked offline = false
was_asked (asked left items e) = true

abbrev pub listed_by : (Text → Bool) → ClientBase → Outcome → List Item
listed_by is_digest c offline = []
listed_by is_digest c (asked left items e) = map (add_prefix is_digest c) items

-- The items of all clients, in the clients' order, with their prefixes.
abbrev pub listed : (Text → Bool) → List ClientBase → List Outcome → List Item
listed is_digest (c ∷ cs) (o ∷ os) = listed_by is_digest c o ++ listed is_digest cs os
listed is_digest _ _ = []

module _ (env : Env) (method : Text) (req : Request) (emptied : Response) where
  -- The outcome of a client that is asked with a response without items, after any calls.
  abbrev pub HasOutcome : ℕ → Slot → Outcome → Type 0
  HasOutcome i s offline = is_up s.connection.state ≡ false
  HasOutcome i s (asked left items e) =
      (next : Next) × (s.connection.state ≡ connected)
      × (s.next ≡ some next)
      × ((log : List Call) → Leaves env next i s.connection.conn method req emptied log left e)
      × (set_items [] left ≡ some emptied)
      × (items? left ≡ some items)

  abbrev pub HaveOutcomes : ℕ → List ClientBase → List Slot → List Outcome → Type 0
  HaveOutcomes i [] [] [] = Unit {0}
  HaveOutcomes i (c ∷ cs) (s ∷ slots) (o ∷ os) = HasOutcome i s o × HaveOutcomes (suc i) cs slots os
  HaveOutcomes i _ _ _ = ⊥

  tolerated-quiet :
      (before : List Slot) (s : Slot) (after : List Slot) (log : List Call) (left : Response)
      (items : List Item) (e : Option Error)
      → (x : Option Error) × ((elim e as (λ _. M (Option Error)) [
        | none ↦ pure none
        | some x ↦ handle_client_error (length before) x true
      ])
            (quiet (before ++ s ∷ after) log)
          ≡ (ok x, quiet (before ++ slot_after (asked left items e) s ∷ after) log))
  unfolding handle_client_error
  tolerated-quiet before s after log left items none = (none, refl)
  tolerated-quiet before s after log left items (some x) = (_, on_slot-quiet before s after log _ _)

  -- The body of the loop for a client that is up.
  list_client-quiet :
      (before : List Slot) (s : Slot) (after : List Slot) (c : ClientBase) (resp left : Response)
      (items : List Item) (e : Option Error) (log : List Call)
      → set_items [] resp ≡ some emptied
      → HasOutcome (length before) s (asked left items e)
      → (call : Call) × IsSent env (length before) method req call
        × (list_client env method (length before) c req resp (quiet (before ++ s ∷ after) log) ≡ (
          ok (left, map (add_prefix env.is_digest c) items),
          quiet (before ++ slot_after (asked left items e) s ∷ after) (call ∷ log),
        ))
  unfolding list_client
  list_client-quiet before s after c resp left items e log hs
        (next, up, behind, served, left_list, has_items) =
      let (call, sent, made) =
        invoke-quiet env before s after up next method req emptied left e log behind (served log) in
      let (x, tolerated) = tolerated-quiet before s after (call ∷ log) left items e in
      (
        call,
        (next, sent),
        >>=-quiet _ _ _ (quiet (before ++ s ∷ after) log) emptied (rw (hs) refl)
            ∙ (>>=-quiet _ _ _ _ _ made
                ∙ (>>=-quiet _ _ _ _ _ tolerated
                    ∙ >>=-quiet _ _ _
                        (quiet (before ++ slot_after (asked left items e) s ∷ after) (call ∷ log))
                        items (rw (has_items) refl))),
      )

  -- The loop in a world, with the items so far, ends with these slots.
  abbrev pub ListsAll :
      ℕ
      → List ClientBase
      → List Outcome
      → Response
      → List Item
      → List Call
      → World
      → List Slot
      → Type 0
  ListsAll i cs os resp items log w slots =
      (resp' : Response) × (new : List Call) × (list_from env method (enumerate i cs) req resp items
          w
        ≡ (ok (resp', items ++ listed env.is_digest cs os), quiet slots (new ++ log)))
      × (set_items [] resp' ≡ some emptied)
      × IsAsked env method req i (map was_asked os) new

  -- The rest of the loop, after a client.
  after_client :
      (before : List Slot) (s : Slot) (cs : List ClientBase) (slots : List Slot) (os : List Outcome)
      (resp : Response) (items : List Item) (log : List Call)
      → ListsAll
          (length (before ++ s ∷ []))
          cs
          os
          resp
          items
          log
          (quiet ((before ++ s ∷ []) ++ slots) log)
          ((before ++ s ∷ []) ++ slots_after os slots)
      → ListsAll
          (suc (length before))
          cs
          os
          resp
          items
          log
          (quiet (before ++ s ∷ slots) log)
          (before ++ s ∷ slots_after os slots)
  after_client before s cs slots os resp items log h =
      rw
        (
          append_snoc before s slots,
          append_snoc before s (slots_after os slots),
          sym (length_snoc before s),
        )
        h

  pub list_from-quiet :
      (cs : List ClientBase) (slots : List Slot) (os : List Outcome) (before : List Slot)
      (resp : Response) (items : List Item) (log : List Call)
      → set_items [] resp ≡ some emptied
      → HaveOutcomes (length before) cs slots os
      → ListsAll
          (length before)
          cs
          os
          resp
          items
          log
          (quiet (before ++ slots) log)
          (before ++ slots_after os slots)
  unfolding list_from enumerate is_client_up connect_client
  list_from-quiet [] [] [] before resp items log hs h =
      (resp, [], rw (append-nil items) refl, hs, refl)
  list_from-quiet (c ∷ cs) (s ∷ slots) (offline ∷ os) before resp items log hs (down, h) =
      let after = on_connection connect s in
      let (resp', new, e, k, calls) = after_client before after cs slots os resp items log (
        list_from-quiet cs slots os (before ++ after ∷ []) resp items log hs
          (subst (λ i. HaveOutcomes i cs slots os) (sym (length_snoc before after)) h)) in
      (
        resp',
        new,
        >>=-quiet _ _ _ _ false (on_slot-quiet before s slots log _ _ ∙ rw (down) refl)
            ∙ (>>=-quiet _ _ _ _ _ (on_slot-quiet before s slots log _ _) ∙ e),
        k,
        calls,
      )
  list_from-quiet (c ∷ cs) (s ∷ slots) (asked left mine err ∷ os) before resp items log hs (o, h) =
      let after = slot_after (asked left mine err) s in
      let more = map (add_prefix env.is_digest c) mine in
      let (call, sent, listed_one) =
        list_client-quiet before s slots c resp left mine err log hs o in
      let (next, up, behind, served, left_list, has_items) = o in
      let (resp', new, e, k, calls) =
        after_client before after cs slots os left (items ++ more) (call ∷ log) (
          list_from-quiet cs slots os (before ++ after ∷ []) left (items ++ more) (call ∷ log)
            left_list
            (subst (λ i. HaveOutcomes i cs slots os) (sym (length_snoc before after)) h)) in
      (
        resp',
        new ++ call ∷ [],
        >>=-quiet _ _ _ _ true (on_slot-quiet before s slots log _ _ ∙ rw (up) refl)
            ∙ (>>=-quiet _ _ _ _ _ listed_one
                ∙ (e
                    ∙ rw
                        (
                          append_assoc items more (listed env.is_digest cs os),
                          append_snoc new call log,
                        )
                        refl)),
        k,
        (call, new, refl, sent, calls),
      )
  list_from-quiet _ _ _ before resp items log hs h = absurd h
