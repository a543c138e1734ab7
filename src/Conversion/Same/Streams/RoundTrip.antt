-- ===== src/Conversion/Same/Streams/RoundTrip.antt =====
-- The messages that open streams, and those of ExecSync come back from a conversion there and back.
use criproxy.Prelude.{◌≡◌, refl}
use criproxy.Proxy.World.{Version}
use criproxy.Conversion.Same.Streams.{
  ExecRequestOf, convert_exec_request, ExecResponseOf, convert_exec_response, ExecSyncRequestOf,
  convert_exec_sync_request, ExecSyncResponseOf, convert_exec_sync_response, AttachRequestOf,
  convert_attach_request, AttachResponseOf, convert_attach_response, PortForwardRequestOf,
  convert_port_forward_request, PortForwardResponseOf, convert_port_forward_response,
}

pub convert_exec_request-convert :
    {u : Version} (v : Version) (m : ExecRequestOf u)
    → convert_exec_request u (convert_exec_request v m) ≡ m
unfolding convert_exec_request
convert_exec_request-convert v m = refl

pub convert_exec_response-convert :
    {u : Version} (v : Version) (m : ExecResponseOf u)
    → convert_exec_response u (convert_exec_response v m) ≡ m
unfolding convert_exec_response
convert_exec_response-convert v m = refl

pub convert_exec_sync_request-convert :
    {u : Version} (v : Version) (m : ExecSyncRequestOf u)
    → convert_exec_sync_request u (convert_exec_sync_request v m) ≡ m
unfolding convert_exec_sync_request
convert_exec_sync_request-convert v m = refl

pub convert_exec_sync_response-convert :
    {u : Version} (v : Version) (m : ExecSyncResponseOf u)
    → convert_exec_sync_response u (convert_exec_sync_response v m) ≡ m
unfolding convert_exec_sync_response
convert_exec_sync_response-convert v m = refl

pub convert_attach_request-convert :
    {u : Version} (v : Version) (m : AttachRequestOf u)
    → convert_attach_request u (convert_attach_request v m) ≡ m
unfolding convert_attach_request
convert_attach_request-convert v m = refl

pub convert_attach_response-convert :
    {u : Version} (v : Version) (m : AttachResponseOf u)
    → convert_attach_response u (convert_attach_response v m) ≡ m
unfolding convert_attach_response
convert_attach_response-convert v m = refl

pub convert_port_forward_request-convert :
    {u : Version} (v : Version) (m : PortForwardRequestOf u)
    → convert_port_forward_request u (convert_port_forward_request v m) ≡ m
unfolding convert_port_forward_request
convert_port_forward_request-convert v m = refl

pub convert_port_forward_response-convert :
    {u : Version} (v : Version) (m : PortForwardResponseOf u)
    → convert_port_forward_response u (convert_port_forward_response v m) ≡ m
unfolding convert_port_forward_response
convert_port_forward_response-convert v m = refl
