-- ===== src/Tests/Kvms.antt =====
-- A host with a KVM of the expected version.
use rules_ostest.Base.{◌≡◌, refl, true, false, some}
use rules_ostest.Base.Int.{pos}
use rules_ostest.Kvm.{
  ProbedHost, probe_host, probe_device, normalize_architecture, architecture_alias,
}
use rules_ostest.Kvm.Probe.{Answered, probe_host-Answered}

abbrev kvm_host : ProbedHost
kvm_host = record {
  system_is_linux = true;
  machine_name = "amd64";
  no_ioctl = false;
  strip_lower = λ name. name;
  device = record {
    open_fn = some (pos 3);
    get_api_version = λ _. some (pos 12);
    create_vm = λ _. some (pos 4);
  };
}

kvm_available : (probe_host kvm_host "x86_64").probe.available ≡ true
unfolding probe_host probe_device normalize_architecture architecture_alias
kvm_available = refl

probe_host-Answered_example : Answered kvm_host "x86_64" (probe_host kvm_host "x86_64")
probe_host-Answered_example = probe_host-Answered kvm_host "x86_64" kvm_available
