-- ===== src/Qemu/Namespace/Started.antt =====
-- From the arguments of a test to the command line of its machine.
use rules_ostest.Qemu.Command.{command}
use rules_ostest.Qemu.Namespace.{Namespace, from_namespace}
use rules_ostest.Qemu.Namespace.Checked.{IsBootable, from_namespace-IsConfig}
use rules_ostest.Text.{Text}
use rules_ostest.Qemu.Media.{Runfiles, Made}
use rules_ostest.Base.{ℕ, ◌≤◌, ◌≡◌, ◌↔◌, Bool, true, Option, none, List, ok}
use mathlib.Core.Path.{subst}
use rules_ostest.Qemu.Command.Accepted.{uses_gic_v2, command-IsStartable}
use rules_ostest.Qemu.{direct_kernel, aarch64, UefiQemuConfig, QemuNic}

bootable-kernel :
    (c : UefiQemuConfig) → IsBootable c.boot c → c.boot ≡ direct_kernel → ¬ (c.kernel ≡ none)
bootable-kernel c h e = subst (λ b. IsBootable b c) e h

-- `command` gives arguments for a configuration that `from_namespace` accepted exactly when a
-- machine on AArch64 that uses GICv2 has 8 CPUs or fewer, and there is a listener where GDB is
-- asked for.
pub from_namespace-command :
    (r : Runfiles) (tmpdir : Text) (outputs : Option Text) (instance_name : Text) (ns : Namespace)
    (c : UefiQemuConfig) (made : List Made)
    → from_namespace r tmpdir outputs instance_name ns ≡ ok (c, made)
    → (qmp_listener_fd gdb_listener_fd : Option ℕ) (nics : List QemuNic) (allow_reboot : Bool)
    → ((arguments : List Text) × (command c qmp_listener_fd gdb_listener_fd nics allow_reboot
          ≡ ok arguments))
      ↔ ((c.arch ≡ aarch64 → uses_gic_v2 c ≡ true → c.cpus ≤ 8)
          × (c.gdb ≡ true → ¬ (gdb_listener_fd ≡ none)))
from_namespace-command r tmpdir outputs instance_name ns c made h qmp fd nics reboot =
    let v = from_namespace-IsConfig r tmpdir outputs instance_name ns c made h in
    let (needs, gives) = command-IsStartable c qmp fd nics reboot in
    (
      λ found. let w = needs found in (w.cpus, w.listener),
      λ (cpus, listener).
          gives
            (record { cpus = cpus; kernel = bootable-kernel c v.bootable; listener = listener }),
    )
