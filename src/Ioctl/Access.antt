-- ===== src/Ioctl/Access.antt =====
-- kernel_modification/ioctl.c: which commands reach a queue, and on whose behalf.
use nvme_ioctl.Prelude.{
  ◌≡◌, ◌≢◌, ◌↔◌, ◌⊎◌, ◌<◌, inl, inr, Bool, true, false, Option, none, some, arith, Bool-cases,
}
use nvme_ioctl.Ioctl.{Ns, Command, opcode_of, Cns, other_cns, CmdFlags, Env}
use nvme_ioctl.Ioctl.Permission.{harmless_cns, nvme_cmd_allowed}

-- The rules by which a command may be sent, one for each reason.
pub data Permitted (env : Env) (c : Command) (flags : CmdFlags) (writable : Bool)
    : Option Ns → Type 0 where
  privileged : {ns : Option Ns} → env.admin ≡ true → Permitted env c flags writable ns
  identifies :
      flags.partition ≡ false
      → opcode_of c < env.vendor_start
      → opcode_of c ≢ env.fabrics_command
      → opcode_of c ≡ env.admin_identify
      → env.cns c ≢ other_cns
      → Permitted env c flags writable none
  -- An I/O command of known effects; one that writes needs a writable file.
  supported :
      {n : Ns}
      → flags.partition ≡ false
      → opcode_of c < env.vendor_start
      → opcode_of c ≢ env.fabrics_command
      → (env.effects n (opcode_of c)).csupp ≡ true
      → (env.effects n (opcode_of c)).rest ≡ 0
      → ((writable ≡ true)
          ⊎ ((env.is_write c ≡ false) × ((env.effects n (opcode_of c)).lbcc ≡ false)))
      → Permitted env c flags writable (some n)

module _ (env : Env) where
  harmless-ne-other : (n : Cns) → harmless_cns n ≡ true → n ≢ other_cns
  unfolding harmless_cns
  harmless-ne-other n h = ground arith

  ne_other-harmless : (n : Cns) → n ≢ other_cns → harmless_cns n ≡ true
  unfolding harmless_cns
  ne_other-harmless n h = ground arith

  allowed-Permitted :
      (ns : Option Ns) (c : Command) (flags : CmdFlags) (writable : Bool)
      → nvme_cmd_allowed env ns c flags writable ≡ true
      → Permitted env c flags writable ns
  unfolding nvme_cmd_allowed
  allowed-Permitted none c flags writable h = elim (Bool-cases env.admin) [
    | inl yes_ ↦ privileged yes_
    | inr no_ ↦
        identifies (ground arith) (ground arith) (ground arith) (ground arith)
          (harmless-ne-other (env.cns c) (ground arith))
  ]
  allowed-Permitted (some n) c flags writable h = elim (Bool-cases env.admin) [
    | inl yes_ ↦ privileged yes_
    | inr no_ ↦
        supported (ground arith) (ground arith) (ground arith) (ground arith) (ground arith)
          (ground arith)
  ]

  Permitted-allowed :
      {ns : Option Ns} {c : Command} {flags : CmdFlags} {writable : Bool}
      → Permitted env c flags writable ns
      → nvme_cmd_allowed env ns c flags writable ≡ true
  unfolding nvme_cmd_allowed
  Permitted-allowed (privileged p) = ground arith
  Permitted-allowed {c} (identifies a b d e f) = ground (arith, ne_other-harmless (env.cns c) f)
  Permitted-allowed (supported a b d e f g) = ground arith

  -- nvme_cmd_allowed() says yes exactly where one of the rules of `Permitted` gives the right: to
  -- the administrator; for a harmless identify command to the controller; and, outside a
  -- partition, for a command to a namespace whose known effects the file's mode covers.
  pub nvme_cmd_allowed_iff :
      (ns : Option Ns) (c : Command) (flags : CmdFlags) (writable : Bool)
      → (nvme_cmd_allowed env ns c flags writable ≡ true) ↔ Permitted env c flags writable ns
  nvme_cmd_allowed_iff ns c flags writable =
      (allowed-Permitted ns c flags writable, Permitted-allowed)
