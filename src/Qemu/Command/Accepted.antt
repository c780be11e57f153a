-- ===== src/Qemu/Command/Accepted.antt =====
-- When `command` gives arguments.
use rules_ostest.Text.{same_text, Text, codes}
use rules_ostest.Qemu.Command.{
  all_machine_options, any, gic_version_2, command, is_direct, option_key, is_aarch64,
  gdb_arguments, kernel_arguments,
}
use rules_ostest.Qemu.{
  uefi, direct_kernel, x86_64, aarch64, UefiQemuConfig, QemuNic, ConfigError, Boot, too_many_cpus,
  Arch,
}
use mathlib.Core.Path.{subst}
use rules_ostest.Base.{
  ℕ, ◌≤◌, ◌≡◌, refl, sym, ◌↔◌, Bool, true, false, not, ◌&&◌, ◌||◌, Option, none, some, List, [],
  ◌∷◌, arith, ltb, if◌then◌else◌, ◌>>=◌, ◌>>◌, refuse, bind-eq-ok, refuse-eq-ok, Result, ok,
}

-- GICv2 is asked for, or is what a direct kernel gets.
abbrev pub uses_gic_v2 : UefiQemuConfig → Bool
uses_gic_v2 c =
    any (λ option. same_text option gic_version_2) c.machine_options
    || (is_direct c.boot
        && not
            (any (λ option. same_text (option_key option) (codes "gic-version")) c.machine_options))

-- What the arguments need.
pub record IsStartable (c : UefiQemuConfig) (gdb_listener_fd : Option ℕ) : Type 0 where
  pub cpus : c.arch ≡ aarch64 → uses_gic_v2 c ≡ true → c.cpus ≤ 8
  pub kernel : c.boot ≡ direct_kernel → ¬ (c.kernel ≡ none)
  pub listener : c.gdb ≡ true → ¬ (gdb_listener_fd ≡ none)

or-false : (b : Bool) → (b || false) ≡ b
or-false true = refl
or-false false = refl

or-true : (b : Bool) → (b || true) ≡ true
or-true true = refl
or-true false = refl

used_gic_v2 :
    (c : UefiQemuConfig)
    → c.arch ≡ aarch64
    → any (λ option. same_text option gic_version_2) (all_machine_options c) ≡ uses_gic_v2 c
unfolding all_machine_options
used_gic_v2 c h = rw h (
    by_tests (is_direct c.boot)
      (any (λ option. same_text (option_key option) (codes "gic-version")) c.machine_options))
  where
    by_tests :
        (direct has_key : Bool)
        → any
            (λ option. same_text option gic_version_2)
            (if direct && not has_key then gic_version_2 ∷ c.machine_options else c.machine_options)
          ≡ (any (λ option. same_text option gic_version_2) c.machine_options
              || (direct && not has_key))
    by_tests true true = sym (or-false _)
    by_tests true false = sym (or-true _)
    by_tests false has_key = sym (or-false _)

Returns : Result ConfigError (List Text) → Type 0
Returns r = (arguments : List Text) × (r ≡ ok arguments)

refuse-Returns :
    {b : Bool} (e : ConfigError) (k : Result ConfigError (List Text))
    → b ≡ false
    → Returns k
    → Returns (refuse b e >> k)
refuse-Returns e k h r = subst (λ t. Returns (refuse t e >> k)) (sym h) r

bind-Returns :
    {m : Result ConfigError (List Text)} (f : List Text → Result ConfigError (List Text))
    {a : List Text}
    → m ≡ ok a
    → Returns (f a)
    → Returns (m >>= f)
bind-Returns f h r = subst (λ t. Returns (t >>= f)) (sym h) r

at_most_8 : (n : ℕ) (gic : Bool) → ((ltb 8 n && gic) ≡ false) ↔ (gic ≡ true → n ≤ 8)
at_most_8 n true = (λ h e. ground arith, λ h. below (h refl))
  where
    below : n ≤ 8 → (ltb 8 n && true) ≡ false
    below h = ground arith
at_most_8 n false = (λ h e. cc, λ h. ground arith)

-- The test in front of the arguments, when it does not raise.
few_cpus :
    (c : UefiQemuConfig)
    → ((is_aarch64 c.arch
          && ltb 8 c.cpus
          && any (λ option. same_text option gic_version_2) (all_machine_options c))
        ≡ false)
      ↔ (c.arch ≡ aarch64 → uses_gic_v2 c ≡ true → c.cpus ≤ 8)
few_cpus c = by_arch c.arch refl
  where
    by_arch :
        (arch : Arch)
        → c.arch ≡ arch
        → ((is_aarch64 arch
              && ltb 8 c.cpus
              && any (λ option. same_text option gic_version_2) (all_machine_options c))
            ≡ false)
          ↔ (arch ≡ aarch64 → uses_gic_v2 c ≡ true → c.cpus ≤ 8)
    by_arch x86_64 e = (λ h a. cc, λ h. refl)
    by_arch aarch64 e =
        let (up, down) = at_most_8 c.cpus (uses_gic_v2 c) in
        rw (used_gic_v2 c e) (λ h a. up h, λ h. down (h refl))

kernel_given :
    (boot : Boot) (kernel : Option Text) (c : UefiQemuConfig)
    → Returns (kernel_arguments boot kernel c) ↔ (boot ≡ direct_kernel → ¬ (kernel ≡ none))
unfolding Returns
kernel_given uefi kernel c = (λ h e. cc, λ h. ([], refl))
kernel_given direct_kernel none c = (λ (l, h) e. cc, λ h. absurd (h refl refl))
kernel_given direct_kernel (some path) c = (λ h e k. cc, λ h. (_, refl))

listener_given :
    (gdb : Bool) (fd : Option ℕ) → Returns (gdb_arguments gdb fd) ↔ (gdb ≡ true → ¬ (fd ≡ none))
unfolding Returns
listener_given false fd = (λ h e. cc, λ h. ([], refl))
listener_given true none = (λ (l, h) e. cc, λ h. absurd (h refl refl))
listener_given true (some fd) = (λ h e k. cc, λ h. (_, refl))

-- `command` gives arguments exactly when a machine on AArch64 that asks for GICv2, or gets it as
-- a direct kernel, has 8 CPUs or fewer, a direct kernel is given where one is booted, and there
-- is a listener where GDB is asked for.
pub command-IsStartable :
    (c : UefiQemuConfig) (qmp_listener_fd gdb_listener_fd : Option ℕ) (nics : List QemuNic)
    (allow_reboot : Bool)
    → ((arguments : List Text) × (command c qmp_listener_fd gdb_listener_fd nics allow_reboot
          ≡ ok arguments))
      ↔ IsStartable c gdb_listener_fd
unfolding command Returns
command-IsStartable c qmp fd nics reboot = (needs, gives)
  where
    needs :
        ((arguments : List Text) × (command c qmp fd nics reboot ≡ ok arguments)) → IsStartable c fd
    needs (l, h) =
        let (few, h₁) = refuse-eq-ok _ too_many_cpus _ h in
        let (kernel, k, h₂) = bind-eq-ok (kernel_arguments c.boot c.kernel c) _ h₁ in
        let (gdb, g, _) = bind-eq-ok (gdb_arguments c.gdb fd) _ h₂ in
        record {
          cpus = (few_cpus c).0 few;
          kernel = (kernel_given c.boot c.kernel c).0 (kernel, k);
          listener = (listener_given c.gdb fd).0 (gdb, g);
        }

    gives :
        IsStartable c fd → (arguments : List Text) × (command c qmp fd nics reboot ≡ ok arguments)
    gives v =
        let (kernel, k) = (kernel_given c.boot c.kernel c).1 v.kernel in
        let (gdb, g) = (listener_given c.gdb fd).1 v.listener in
        let few = (few_cpus c).1 v.cpus in
        refuse-Returns _ _ few (bind-Returns _ k (bind-Returns _ g (_, refl)))
