-- ===== src/Conversion/Same/Values/RoundTrip.antt =====
-- Messages that others hold come back from a conversion there and back.
use criproxy.Prelude.{◌≡◌, refl}
use criproxy.Proxy.World.{Version}
use criproxy.Conversion.Same.Values.{
  Int64ValueOf, convert_int64_value, Uint64ValueOf, convert_uint64_value, KeyValueOf,
  convert_key_value, ImageSpecOf, convert_image_spec, AuthConfigOf, convert_auth_config,
  CapabilityOf, convert_capability, DnsConfigOf, convert_dns_config, DeviceOf, convert_device,
  MountOf, convert_mount, SelinuxOptionOf, convert_selinux_option, PortMappingOf,
  convert_port_mapping, LinuxContainerResourcesOf, convert_linux_container_resources,
  ContainerMetadataOf, convert_container_metadata, PodSandboxMetadataOf,
  convert_pod_sandbox_metadata,
}

pub convert_int64_value-convert :
    {u : Version} (v : Version) (m : Int64ValueOf u)
    → convert_int64_value u (convert_int64_value v m) ≡ m
unfolding convert_int64_value
convert_int64_value-convert v m = refl

pub convert_uint64_value-convert :
    {u : Version} (v : Version) (m : Uint64ValueOf u)
    → convert_uint64_value u (convert_uint64_value v m) ≡ m
unfolding convert_uint64_value
convert_uint64_value-convert v m = refl

pub convert_key_value-convert :
    {u : Version} (v : Version) (m : KeyValueOf u) → convert_key_value u (convert_key_value v m) ≡ m
unfolding convert_key_value
convert_key_value-convert v m = refl

pub convert_image_spec-convert :
    {u : Version} (v : Version) (m : ImageSpecOf u)
    → convert_image_spec u (convert_image_spec v m) ≡ m
unfolding convert_image_spec
convert_image_spec-convert v m = refl

pub convert_auth_config-convert :
    {u : Version} (v : Version) (m : AuthConfigOf u)
    → convert_auth_config u (convert_auth_config v m) ≡ m
unfolding convert_auth_config
convert_auth_config-convert v m = refl

pub convert_capability-convert :
    {u : Version} (v : Version) (m : CapabilityOf u)
    → convert_capability u (convert_capability v m) ≡ m
unfolding convert_capability
convert_capability-convert v m = refl

pub convert_dns_config-convert :
    {u : Version} (v : Version) (m : DnsConfigOf u)
    → convert_dns_config u (convert_dns_config v m) ≡ m
unfolding convert_dns_config
convert_dns_config-convert v m = refl

pub convert_device-convert :
    {u : Version} (v : Version) (m : DeviceOf u) → convert_device u (convert_device v m) ≡ m
unfolding convert_device
convert_device-convert v m = refl

pub convert_mount-convert :
    {u : Version} (v : Version) (m : MountOf u) → convert_mount u (convert_mount v m) ≡ m
unfolding convert_mount
convert_mount-convert v m = refl

pub convert_selinux_option-convert :
    {u : Version} (v : Version) (m : SelinuxOptionOf u)
    → convert_selinux_option u (convert_selinux_option v m) ≡ m
unfolding convert_selinux_option
convert_selinux_option-convert v m = refl

pub convert_port_mapping-convert :
    {u : Version} (v : Version) (m : PortMappingOf u)
    → convert_port_mapping u (convert_port_mapping v m) ≡ m
unfolding convert_port_mapping
convert_port_mapping-convert v m = refl

pub convert_linux_container_resources-convert :
    {u : Version} (v : Version) (m : LinuxContainerResourcesOf u)
    → convert_linux_container_resources u (convert_linux_container_resources v m) ≡ m
unfolding convert_linux_container_resources
convert_linux_container_resources-convert v m = refl

pub convert_container_metadata-convert :
    {u : Version} (v : Version) (m : ContainerMetadataOf u)
    → convert_container_metadata u (convert_container_metadata v m) ≡ m
unfolding convert_container_metadata
convert_container_metadata-convert v m = refl

pub convert_pod_sandbox_metadata-convert :
    {u : Version} (v : Version) (m : PodSandboxMetadataOf u)
    → convert_pod_sandbox_metadata u (convert_pod_sandbox_metadata v m) ≡ m
unfolding convert_pod_sandbox_metadata
convert_pod_sandbox_metadata-convert v m = refl
