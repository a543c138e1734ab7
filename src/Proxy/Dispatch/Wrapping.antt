-- ===== src/Proxy/Dispatch/Wrapping.antt =====
-- What the wrappers of pkg/proxy/cri19.go and pkg/proxy/cri110.go make of a request.
use criproxy.Prelude.{
  ◌≡◌, refl, Bool, true, false, not, ◌&&◌, Bool-cases, ◌⊎◌, inl, inr, Option, none, some,
}
use criproxy.Object.Requests.{
  Request, exec_request, attach_request, reopen_container_log_request, wrap_exec_19, wrap_attach_19,
  wrap_exec_112, wrap_attach_112, wrap_exec, wrap_attach, wrap_request,
}
use criproxy.Object.Containers.{ExecRequest, AttachRequest}
use criproxy.Object.Responses.{Response}
use criproxy.Proxy.World.{Version, cri19, cri112}
use criproxy.Proxy.Dispatch.{wrap_object}

-- A request for streams that asks for no output stream.
abbrev pub asks_nothing : Request → Bool
asks_nothing (exec_request r) = not r.stdout && not r.stderr
asks_nothing (attach_request r) = not r.stdout && not r.stderr
asks_nothing _ = false

-- The request, asking for both output streams.
abbrev pub asking_both : Request → Request
asking_both (exec_request r) = exec_request (record r { stdout = true; stderr = true })
asking_both (attach_request r) = attach_request (record r { stdout = true; stderr = true })
asking_both req = req

-- The request is kept, unless version 1.9 has it ask for both streams in place of none.
abbrev pub IsKept : Version → Request → Request → Type 0
IsKept v req wrapped =
    ((wrapped ≡ req) × ((v ≡ cri112) ⊎ (asks_nothing req ≡ false)))
    ⊎ ((wrapped ≡ asking_both req) × (v ≡ cri19) × (asks_nothing req ≡ true))

abbrev pub IsKeptIn : Version → Request → Option (Request × Response) → Type 0
IsKeptIn v req none = Unit
IsKeptIn v req (some (wrapped, resp)) = IsKept v req wrapped

wrap_exec_19-IsKept :
    (r : ExecRequest) → IsKept cri19 (exec_request r) (exec_request (wrap_exec_19 r))
unfolding wrap_exec_19
wrap_exec_19-IsKept r = elim (Bool-cases (not r.stdout && not r.stderr)) [
  | inl e ↦ inr (rw e refl, refl, e)
  | inr e ↦ inl (rw e refl, inr e)
]

wrap_attach_19-IsKept :
    (r : AttachRequest) → IsKept cri19 (attach_request r) (attach_request (wrap_attach_19 r))
unfolding wrap_attach_19
wrap_attach_19-IsKept r = elim (Bool-cases (not r.stdout && not r.stderr)) [
  | inl e ↦ inr (rw e refl, refl, e)
  | inr e ↦ inl (rw e refl, inr e)
]

wrap_request-IsKept : (v : Version) (req : Request) → IsKept v req (wrap_request v req)
unfolding wrap_request wrap_exec wrap_attach wrap_exec_112 wrap_attach_112
wrap_request-IsKept cri112 (exec_request r) = inl (refl, inl refl)
wrap_request-IsKept cri112 (attach_request r) = inl (refl, inl refl)
wrap_request-IsKept cri112 _ = inl (refl, inl refl)
wrap_request-IsKept cri19 (exec_request r) = wrap_exec_19-IsKept r
wrap_request-IsKept cri19 (attach_request r) = wrap_attach_19-IsKept r
wrap_request-IsKept cri19 _ = inl (refl, inr refl)

pub wrap_object-IsKept : (v : Version) (req : Request) → IsKeptIn v req (wrap_object v req)
unfolding wrap_object
wrap_object-IsKept cri112 req = wrap_request-IsKept cri112 req
wrap_object-IsKept cri19 (reopen_container_log_request r) = tt
wrap_object-IsKept cri19 req = wrap_request-IsKept cri19 req
