-- ===== src/Kvm.antt =====
-- ostest/private/qemu_runner_support.py: `probe_linux_kvm`.
pub mod Probe
use text.Mathlib.Text.{◌==◌ as str_eq}
use rules_ostest.Base.{
  String, Bool, true, false, not, ◌||◌, Option, none, some, List, [], ◌∷◌, ◌==◌, if◌then◌else◌,
}
use rules_ostest.Base.Int.{ℤ, pos, negsuc, is_negative}

-- The descriptor and the calls on it; `none` is a call that raises `OSError`.
pub record Device : Type 0 where
  pub open_fn : Option ℤ
  pub get_api_version : ℤ → Option ℤ
  pub create_vm : ℤ → Option ℤ

-- What the probe is told of the host. `no_ioctl` is the lack of the module fcntl, and
-- `strip_lower` is `value.strip().lower()`.
pub record ProbedHost : Type 0 where
  pub system_is_linux : Bool
  pub machine_name : String
  pub no_ioctl : Bool
  pub strip_lower : String → String
  pub device : Device

pub data ProbeReason : Type 0 where
  not_linux unsupported_host other_architecture no_fcntl cannot_open version_failed : ProbeReason
  wrong_version create_failed bad_descriptor created : ProbeReason

pub record KvmProbeResult : Type 0 where
  pub available : Bool
  pub reason : ProbeReason
  pub guest_arch : String
  pub host_arch : Option String
  pub api_version : Option ℤ

-- A result and the descriptors that were closed, in order.
pub record Probed : Type 0 where
  pub probe : KvmProbeResult
  pub closed : List ℤ

-- `_ARCHITECTURE_ALIASES`
unfoldable pub architecture_alias : String → Option String
architecture_alias name =
    if str_eq name "aarch64" || str_eq name "arm64"
    then some "aarch64"
    else if str_eq name "amd64" || str_eq name "x64" || str_eq name "x86-64" || str_eq name "x86_64"
    then some "x86_64"
    else none

unfoldable pub normalize_architecture : (String → String) → String → Option String
unfolding architecture_alias
normalize_architecture strip_lower value = architecture_alias (strip_lower value)

-- `KVM_EXPECTED_API_VERSION`
abbrev pub is_expected_version : ℤ → Bool
is_expected_version (pos n) = n == 12
is_expected_version (negsuc n) = false

abbrev pub unavailable : ProbeReason → String → Option String → Option ℤ → List ℤ → Probed
unavailable why guest host version closed = record {
  probe = record {
    available = false;
    reason = why;
    guest_arch = guest;
    host_arch = host;
    api_version = version;
  };
  closed = closed;
}

-- The calls on an open device, and the closing of what they opened.
unfoldable pub probe_device : Device → ℤ → String → String → Probed
probe_device device fd guest host = elim (device.get_api_version fd) [
  | none ↦ unavailable version_failed guest (some host) none (fd ∷ [])
  | some version ↦
      if not (is_expected_version version)
      then unavailable wrong_version guest (some host) (some version) (fd ∷ [])
      else elim (device.create_vm fd) [
        | none ↦ unavailable create_failed guest (some host) (some version) (fd ∷ [])
        | some vm_fd ↦
            if is_negative vm_fd
            then unavailable bad_descriptor guest (some host) (some version) (fd ∷ [])
            else record {
              probe = record {
                available = true;
                reason = created;
                guest_arch = guest;
                host_arch = some host;
                api_version = some version;
              };
              closed = vm_fd ∷ fd ∷ [];
            }
      ]
]

-- The checks of the host, for a guest architecture that is known.
unfoldable pub probe_host : ProbedHost → String → Probed
unfolding probe_device normalize_architecture
probe_host m guest =
    let host = normalize_architecture m.strip_lower m.machine_name in
    if not m.system_is_linux then unavailable not_linux guest host none [] else elim host [
      | none ↦ unavailable unsupported_host guest none none []
      | some host_arch ↦
          if not (str_eq host_arch guest)
          then unavailable other_architecture guest (some host_arch) none []
          else if m.no_ioctl
          then unavailable no_fcntl guest (some host_arch) none []
          else elim m.device.open_fn [
            | none ↦ unavailable cannot_open guest (some host_arch) none []
            | some fd ↦ probe_device m.device fd guest host_arch
          ]
    ]

-- `none` is the `ValueError` for a guest architecture that is not known.
unfoldable pub probe_linux_kvm : ProbedHost → String → Option Probed
unfolding probe_host
probe_linux_kvm m guest_arch = elim (normalize_architecture m.strip_lower guest_arch) [
  | none ↦ none
  | some guest ↦ some (probe_host m guest)
]
