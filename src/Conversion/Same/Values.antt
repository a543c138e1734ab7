-- ===== src/Conversion/Same/Values.antt =====
-- Messages that others hold, the same in both versions, and their conversions in both
-- directions (pkg/runtimeapis/v1_9/conversion_generated.go).
pub mod RoundTrip
use criproxy.Prelude.{ℕ, ℤ, Bool, List}
use criproxy.Text.{Text}
use criproxy.Proxy.World.{Version}

pub record Int64ValueOf (v : Version) : Type 0 where
  pub value : ℤ

unfoldable pub convert_int64_value : {u : Version} (v : Version) → Int64ValueOf u → Int64ValueOf v
convert_int64_value v m = record { value = m.value }

pub record Uint64ValueOf (v : Version) : Type 0 where
  pub value : ℕ

unfoldable pub convert_uint64_value :
    {u : Version} (v : Version) → Uint64ValueOf u → Uint64ValueOf v
convert_uint64_value v m = record { value = m.value }

pub record KeyValueOf (v : Version) : Type 0 where
  pub key : Text
  pub value : Text

unfoldable pub convert_key_value : {u : Version} (v : Version) → KeyValueOf u → KeyValueOf v
convert_key_value v m = record { key = m.key; value = m.value }

pub record ImageSpecOf (v : Version) : Type 0 where
  pub image : Text

unfoldable pub convert_image_spec : {u : Version} (v : Version) → ImageSpecOf u → ImageSpecOf v
convert_image_spec v m = record { image = m.image }

pub record AuthConfigOf (v : Version) : Type 0 where
  pub username : Text
  pub password : Text
  pub auth : Text
  pub server_address : Text
  pub identity_token : Text
  pub registry_token : Text

unfoldable pub convert_auth_config : {u : Version} (v : Version) → AuthConfigOf u → AuthConfigOf v
convert_auth_config v m = record {
  username = m.username;
  password = m.password;
  auth = m.auth;
  server_address = m.server_address;
  identity_token = m.identity_token;
  registry_token = m.registry_token;
}

pub record CapabilityOf (v : Version) : Type 0 where
  pub add_capabilities : List Text
  pub drop_capabilities : List Text

unfoldable pub convert_capability : {u : Version} (v : Version) → CapabilityOf u → CapabilityOf v
convert_capability v m = record {
  add_capabilities = m.add_capabilities;
  drop_capabilities = m.drop_capabilities;
}

pub record DnsConfigOf (v : Version) : Type 0 where
  pub servers : List Text
  pub searches : List Text
  pub options : List Text

unfoldable pub convert_dns_config : {u : Version} (v : Version) → DnsConfigOf u → DnsConfigOf v
convert_dns_config v m = record { servers = m.servers; searches = m.searches; options = m.options }

pub record DeviceOf (v : Version) : Type 0 where
  pub container_path : Text
  pub host_path : Text
  pub permissions : Text

unfoldable pub convert_device : {u : Version} (v : Version) → DeviceOf u → DeviceOf v
convert_device v m = record {
  container_path = m.container_path;
  host_path = m.host_path;
  permissions = m.permissions;
}

pub record MountOf (v : Version) : Type 0 where
  pub container_path : Text
  pub host_path : Text
  pub readonly : Bool
  pub selinux_relabel : Bool
  pub propagation : ℤ

unfoldable pub convert_mount : {u : Version} (v : Version) → MountOf u → MountOf v
convert_mount v m = record {
  container_path = m.container_path;
  host_path = m.host_path;
  readonly = m.readonly;
  selinux_relabel = m.selinux_relabel;
  propagation = m.propagation;
}

pub record SelinuxOptionOf (v : Version) : Type 0 where
  pub user : Text
  pub role : Text
  pub type : Text
  pub level : Text

unfoldable pub convert_selinux_option :
    {u : Version} (v : Version) → SelinuxOptionOf u → SelinuxOptionOf v
convert_selinux_option v m = record { user = m.user; role = m.role; type = m.type; level = m.level }

pub record PortMappingOf (v : Version) : Type 0 where
  pub protocol : ℤ
  pub container_port : ℤ
  pub host_port : ℤ
  pub host_ip : Text

unfoldable pub convert_port_mapping :
    {u : Version} (v : Version) → PortMappingOf u → PortMappingOf v
convert_port_mapping v m = record {
  protocol = m.protocol;
  container_port = m.container_port;
  host_port = m.host_port;
  host_ip = m.host_ip;
}

pub record LinuxContainerResourcesOf (v : Version) : Type 0 where
  pub cpu_period : ℤ
  pub cpu_quota : ℤ
  pub cpu_shares : ℤ
  pub memory_limit_in_bytes : ℤ
  pub oom_score_adj : ℤ
  pub cpuset_cpus : Text
  pub cpuset_mems : Text

unfoldable pub convert_linux_container_resources :
    {u : Version} (v : Version) → LinuxContainerResourcesOf u → LinuxContainerResourcesOf v
convert_linux_container_resources v m = record {
  cpu_period = m.cpu_period;
  cpu_quota = m.cpu_quota;
  cpu_shares = m.cpu_shares;
  memory_limit_in_bytes = m.memory_limit_in_bytes;
  oom_score_adj = m.oom_score_adj;
  cpuset_cpus = m.cpuset_cpus;
  cpuset_mems = m.cpuset_mems;
}

pub record ContainerMetadataOf (v : Version) : Type 0 where
  pub name : Text
  pub attempt : ℕ

unfoldable pub convert_container_metadata :
    {u : Version} (v : Version) → ContainerMetadataOf u → ContainerMetadataOf v
convert_container_metadata v m = record { name = m.name; attempt = m.attempt }

pub record PodSandboxMetadataOf (v : Version) : Type 0 where
  pub name : Text
  pub uid : Text
  pub namespace : Text
  pub attempt : ℕ

unfoldable pub convert_pod_sandbox_metadata :
    {u : Version} (v : Version) → PodSandboxMetadataOf u → PodSandboxMetadataOf v
convert_pod_sandbox_metadata v m = record {
  name = m.name;
  uid = m.uid;
  namespace = m.namespace;
  attempt = m.attempt;
}
