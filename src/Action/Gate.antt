-- ===== src/Action/Gate.antt =====
-- redfish_ctl/redfish_manager.py: the fail-safe gate of invoke_action, and the flags that it reads.
use redfish_ctl.Common.{String, Bool, true, not, ◌&&◌, Option, none, some, if◌then◌else◌}
use redfish_ctl.Policy.{Destructiveness, destructive, irreversible}

pub record Options : Type 0 where
  pub dry_run : Bool
  pub confirm : Bool
  pub confirm_irreversible : Bool

-- The gate: whether the call stays a dry run, and why.
unfoldable pub gate : Destructiveness → Options → Bool × Option String
gate irreversible o =
    if not (o.confirm && o.confirm_irreversible)
    then (true, some "irreversible action requires --confirm and --i-understand-irreversible")
    else (o.dry_run, none)
gate destructive o =
    if not o.confirm
    then (true, some "destructive action requires --confirm")
    else (o.dry_run, none)
gate level o = (o.dry_run, none)
