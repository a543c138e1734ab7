-- ===== src/Errors.antt =====
-- The errors of pkg/proxy, by what they are made of instead of by their messages.
use criproxy.Prelude.{ℕ, Bool, true, false, Option, List, [], ◌∷◌}
use criproxy.Text.{Text}

-- The code of a gRPC status; `other` holds any code but Unavailable and OK.
pub data Code : Type 0 where
  unavailable : Code
  other : ℕ → Code

pub data Error : Type 0 where
  -- an error of grpc.Invoke
  rpc : Code → Text → Error
  not_connected old_connection target_unavailable no_image_specified : Error
  -- an error of the operating system
  socket : Text → Error
  -- "failed to connect to the socket: %v"
  connect_failed : Error → Error
  -- "%q: %v" with the address of the connection
  at_addr : Text → Error → Error
  unknown_runtime : Option Text → Error
  wrong_runtime bad_method_prefix no_handler no_interceptor : Text → Error
  -- a type that no wrapper is registered for
  no_wrapper no_sockets first_not_primary other_primary : Error
  -- two messages with a line break between them
  joined : Error → Error → Error

-- grpc.Code(err) == codes.Unavailable: an error that is no status has the code Unknown.
unfoldable pub is_unavailable : Error → Bool
is_unavailable (rpc unavailable message) = true
is_unavailable _ = false

-- errors.New(strings.Join(errs, "\n")) of one or more errors
unfoldable pub join : Error → List Error → Error
join e [] = e
join e (f ∷ fs) = joined e (join f fs)
