-- ===== src/Conversion/Same/Streams.antt =====
-- The messages that open streams, and those of ExecSync, the same in both versions, and their conversions in both
-- directions (pkg/runtimeapis/v1_9/conversion_generated.go).
pub mod RoundTrip
use criproxy.Prelude.{ℤ, Bool, List}
use criproxy.Text.{Text}
use criproxy.Proxy.World.{Version}

pub record ExecRequestOf (v : Version) : Type 0 where
  pub container_id : Text
  pub cmd : List Text
  pub tty : Bool
  pub stdin : Bool
  pub stdout : Bool
  pub stderr : Bool

unfoldable pub convert_exec_request :
    {u : Version} (v : Version) → ExecRequestOf u → ExecRequestOf v
convert_exec_request v m = record {
  container_id = m.container_id;
  cmd = m.cmd;
  tty = m.tty;
  stdin = m.stdin;
  stdout = m.stdout;
  stderr = m.stderr;
}

pub record ExecResponseOf (v : Version) : Type 0 where
  pub url : Text

unfoldable pub convert_exec_response :
    {u : Version} (v : Version) → ExecResponseOf u → ExecResponseOf v
convert_exec_response v m = record { url = m.url }

pub record ExecSyncRequestOf (v : Version) : Type 0 where
  pub container_id : Text
  pub cmd : List Text
  pub timeout : ℤ

unfoldable pub convert_exec_sync_request :
    {u : Version} (v : Version) → ExecSyncRequestOf u → ExecSyncRequestOf v
convert_exec_sync_request v m = record {
  container_id = m.container_id;
  cmd = m.cmd;
  timeout = m.timeout;
}

pub record ExecSyncResponseOf (v : Version) : Type 0 where
  pub stdout : Text
  pub stderr : Text
  pub exit_code : ℤ

unfoldable pub convert_exec_sync_response :
    {u : Version} (v : Version) → ExecSyncResponseOf u → ExecSyncResponseOf v
convert_exec_sync_response v m = record {
  stdout = m.stdout;
  stderr = m.stderr;
  exit_code = m.exit_code;
}

pub record AttachRequestOf (v : Version) : Type 0 where
  pub container_id : Text
  pub stdin : Bool
  pub tty : Bool
  pub stdout : Bool
  pub stderr : Bool

unfoldable pub convert_attach_request :
    {u : Version} (v : Version) → AttachRequestOf u → AttachRequestOf v
convert_attach_request v m = record {
  container_id = m.container_id;
  stdin = m.stdin;
  tty = m.tty;
  stdout = m.stdout;
  stderr = m.stderr;
}

pub record AttachResponseOf (v : Version) : Type 0 where
  pub url : Text

unfoldable pub convert_attach_response :
    {u : Version} (v : Version) → AttachResponseOf u → AttachResponseOf v
convert_attach_response v m = record { url = m.url }

pub record PortForwardRequestOf (v : Version) : Type 0 where
  pub pod_sandbox_id : Text
  pub port : List ℤ

unfoldable pub convert_port_forward_request :
    {u : Version} (v : Version) → PortForwardRequestOf u → PortForwardRequestOf v
convert_port_forward_request v m = record { pod_sandbox_id = m.pod_sandbox_id; port = m.port }

pub record PortForwardResponseOf (v : Version) : Type 0 where
  pub url : Text

unfoldable pub convert_port_forward_response :
    {u : Version} (v : Version) → PortForwardResponseOf u → PortForwardResponseOf v
convert_port_forward_response v m = record { url = m.url }
