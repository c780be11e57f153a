-- ===== src/Kvm/Probe.antt =====
-- The outcomes of `probe_linux_kvm` and the descriptors that it closes.
use rules_ostest.Base.{
  String, ◌≡◌, sym, ap, ◌∙◌, inl, inr, true, false, some, [], ◌∷◌, arith, Bool-cases, Option-cases,
}
use rules_ostest.Base.Int.{ℤ, is_negative}
use mathlib.Core.Path.{subst}
use rules_ostest.Kvm.{
  ProbedHost, Probed, probe_host, is_expected_version, probe_device, normalize_architecture, str_eq,
}

-- The device answered with the expected version and made a machine.
pub record Answered (m : ProbedHost) (guest : String) (r : Probed) : Type 0 where
  pub linux : m.system_is_linux ≡ true
  pub fd : ℤ
  pub vm_fd : ℤ
  pub version : ℤ
  pub opened : m.device.open_fn ≡ some fd
  pub asked : m.device.get_api_version fd ≡ some version
  pub expected : is_expected_version version ≡ true
  pub made : m.device.create_vm fd ≡ some vm_fd
  pub valid : is_negative vm_fd ≡ false
  pub all_closed : r.closed ≡ vm_fd ∷ fd ∷ []

probe_device-Answered :
    (m : ProbedHost) (guest host : String) (fd : ℤ)
    → m.system_is_linux ≡ true
    → m.device.open_fn ≡ some fd
    → (probe_device m.device fd guest host).probe.available ≡ true
    → Answered m guest (probe_device m.device fd guest host)
unfolding probe_device
probe_device-Answered m guest host fd on_linux opened h =
    elim (Option-cases (m.device.get_api_version fd)) [
      | inl e ↦ ground arith
      | inr (version, asked) ↦ elim (Bool-cases (is_expected_version version)) [
        | inr other ↦ ground arith
        | inl expected ↦ elim (Option-cases (m.device.create_vm fd)) [
          | inl e ↦ ground arith
          | inr (vm_fd, made) ↦ elim (Bool-cases (is_negative vm_fd)) [
            | inl negative ↦ ground arith
            | inr valid ↦ record {
              linux = on_linux;
              fd = fd;
              vm_fd = vm_fd;
              version = version;
              opened = opened;
              asked = asked;
              expected = expected;
              made = made;
              valid = valid;
              all_closed = ground arith;
            }
          ]
        ]
      ]
    ]

host_available :
    (m : ProbedHost) (guest : String)
    → (probe_host m guest).probe.available ≡ true
    → (m.system_is_linux ≡ true)
      × ((fd : ℤ) × ((host : String) × ((m.device.open_fn ≡ some fd)
              × (probe_host m guest ≡ probe_device m.device fd guest host))))
unfolding probe_host
host_available m guest h = elim (Bool-cases m.system_is_linux) [
  | inr other ↦ ground arith
  | inl on_linux ↦ elim (Option-cases (normalize_architecture m.strip_lower m.machine_name)) [
    | inl e ↦ ground arith
    | inr (host, e) ↦ elim (Bool-cases (str_eq host guest)) [
      | inr other ↦ ground arith
      | inl same ↦ elim (Bool-cases m.no_ioctl) [
        | inl missing ↦ ground arith
        | inr present ↦ elim (Option-cases m.device.open_fn) [
          | inl closed ↦ ground arith
          | inr (fd, opened) ↦ (on_linux, (fd, (host, (opened, ground arith))))
        ]
      ]
    ]
  ]
]

-- Where the probe reports KVM as available, the host is Linux, the device was opened, it answered
-- with the expected API version and made a virtual machine with a valid descriptor, and both
-- descriptors were closed, that of the machine first.
pub probe_host-Answered :
    (m : ProbedHost) (guest : String)
    → (probe_host m guest).probe.available ≡ true
    → Answered m guest (probe_host m guest)
probe_host-Answered m guest h =
    let (on_linux, (fd, (host, (opened, e)))) = host_available m guest h in
    subst (Answered m guest) (sym e) (
      probe_device-Answered m guest host fd on_linux opened
        (ap (λ r. r.probe.available) (sym e) ∙ h))
