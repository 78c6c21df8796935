-- ===== src/Scst/Conf/Edits.antt =====
-- The objects that parseScstConf of server/utils/scst-conf-parser.ts builds. The code keeps, for each
-- open block, a reference to the object that the block filled last in its parent; here the same
-- object is the last item of its parent's list, and a change through the reference is a change of
-- that item.
use esos_webui.Common.{List, String, [], false, true, ℕ, ◌++◌, ◌∷◌}
use esos_webui.Scst.Types.{
  Lun, Group, Target, Driver, Device, Handler, AluaTargetGroupConfig, AluaDeviceGroupConfig,
  ScstConfig,
}

-- An open block (ParserContext); the lowest level, the file itself, is the empty stack. A LUN's
-- block stands in a target or in a group.
pub data Context : Type 0 where
  handler : Context
  driver : Context
  device_group : Context
  device : Context
  target : Context
  alua_target_group : Context
  group : Context
  target_lun : Context
  group_lun : Context

-- The reader's variables: `config` and `stack`, the innermost block first.
pub record Reading : Type 0 where
  pub config : ScstConfig
  pub stack : List Context

-- `xs.push(x)`
abbrev pub push {ℓ} : {A : Type ℓ} → A → List A → List A
push x xs = xs ++ x ∷ []

unfoldable pub edit_last {ℓ} : {A : Type ℓ} → (A → A) → List A → List A
edit_last f [] = []
edit_last f (x ∷ []) = f x ∷ []
edit_last f (x ∷ y ∷ xs) = x ∷ edit_last f (y ∷ xs)

-- What is changed through a reference to the last object of a kind.
unfoldable pub edit_handler : (Handler → Handler) → ScstConfig → ScstConfig
unfolding edit_last
edit_handler f c = record c { handlers = edit_last f c.handlers }

unfoldable pub edit_device : (Device → Device) → ScstConfig → ScstConfig
unfolding edit_handler
edit_device f = edit_handler (λ h. record h { devices = edit_last f h.devices })

unfoldable pub edit_driver : (Driver → Driver) → ScstConfig → ScstConfig
unfolding edit_last
edit_driver f c = record c { drivers = edit_last f c.drivers }

unfoldable pub edit_target : (Target → Target) → ScstConfig → ScstConfig
unfolding edit_driver
edit_target f = edit_driver (λ d. record d { targets = edit_last f d.targets })

unfoldable pub edit_group : (Group → Group) → ScstConfig → ScstConfig
unfolding edit_target
edit_group f = edit_target (λ t. record t { groups = edit_last f t.groups })

unfoldable pub edit_target_lun : (Lun → Lun) → ScstConfig → ScstConfig
unfolding edit_target
edit_target_lun f = edit_target (λ t. record t { luns = edit_last f t.luns })

unfoldable pub edit_group_lun : (Lun → Lun) → ScstConfig → ScstConfig
unfolding edit_group
edit_group_lun f = edit_group (λ g. record g { luns = edit_last f g.luns })

unfoldable pub edit_device_group :
    (AluaDeviceGroupConfig → AluaDeviceGroupConfig) → ScstConfig → ScstConfig
unfolding edit_last
edit_device_group f c = record c { device_groups = edit_last f c.device_groups }

unfoldable pub edit_target_group :
    (AluaTargetGroupConfig → AluaTargetGroupConfig) → ScstConfig → ScstConfig
unfolding edit_device_group
edit_target_group f =
    edit_device_group (λ g. record g { target_groups = edit_last f g.target_groups })

-- The objects as a block's first line makes them.
abbrev pub empty_config : ScstConfig
empty_config = record { handlers = []; drivers = []; device_groups = [] }

abbrev pub new_handler : String → Handler
new_handler n = record { name = n; devices = [] }

abbrev pub new_device : String → String → Device
new_device h n = record { name = n; handler = h; filename = ""; attrs = [] }

abbrev pub new_driver : String → Driver
new_driver n = record { name = n; enabled = true; targets = [] }

abbrev pub begun_target : String → String → Target
begun_target d n = record {
  name = n;
  driver = d;
  enabled = true;
  hw_target = false;
  attrs = [];
  groups = [];
  luns = [];
  sessions = [];
}

abbrev pub new_group : String → Group
new_group n = record { name = n; initiators = []; luns = [] }

abbrev pub new_lun : ℕ → String → Lun
new_lun n d = record { id = n; device = d; read_only = false; attrs = [] }

abbrev pub new_device_group : String → AluaDeviceGroupConfig
new_device_group n = record { name = n; devices = []; target_groups = [] }

abbrev pub new_target_group : String → AluaTargetGroupConfig
new_target_group n = record { name = n; group_id = 0; targets = [] }
