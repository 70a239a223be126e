-- ===== src/Pinctrl/Tables.antt =====
-- The tables of virt-pinctrl.c and the functions that the pin controller's core reads them with.
use linux_driver_kb.Prelude.{
  ℕ, zero, suc, ◌<◌, ◌≡◌, refl, Option, some, ◌>>=◌, List, [], ◌∷◌, length, get_elem?, arith,
}

-- The names in the tables.
pub data GroupName : Type 0 where
  i2c0_group i2c1_group spi0_group : GroupName

pub data FunctionName : Type 0 where
  i2c0 i2c1 spi0 : FunctionName

pub record Group : Type 0 where
  pub name : GroupName
  pub pins : List ℕ

pub record MuxFunction : Type 0 where
  pub name : FunctionName
  pub groups : List GroupName

-- The numbers of VIO0 to VIO3.
abbrev pub virt_pins : List ℕ
virt_pins = 0 ∷ 1 ∷ 2 ∷ 3 ∷ []

abbrev pub virt_pinctrl_group : List Group
virt_pinctrl_group =
    record { name = i2c0_group; pins = 0 ∷ 1 ∷ [] }
    ∷ record { name = i2c1_group; pins = 2 ∷ 3 ∷ [] }
    ∷ record { name = spi0_group; pins = 0 ∷ 1 ∷ 2 ∷ 3 ∷ [] }
    ∷ []

abbrev pub virt_pinmux_function : List MuxFunction
virt_pinmux_function =
    record { name = i2c0; groups = i2c0_group ∷ [] }
    ∷ record { name = i2c1; groups = i2c1_group ∷ [] }
    ∷ record { name = spi0; groups = spi0_group ∷ [] }
    ∷ []

unfoldable pub virt_pinctrl_get_groups_count : ℕ
virt_pinctrl_get_groups_count = length virt_pinctrl_group

-- `none`: the selector is outside the table, and the C code reads past its end.
unfoldable pub virt_pinctrl_get_group_name : ℕ → Option GroupName
virt_pinctrl_get_group_name selector =
    get_elem? virt_pinctrl_group selector >>= λ group. some group.name

unfoldable pub virt_pinctrl_get_group_pins : ℕ → Option (List ℕ × ℕ)
virt_pinctrl_get_group_pins selector =
    get_elem? virt_pinctrl_group selector >>= λ group. some (group.pins, length group.pins)

unfoldable pub virt_pinmux_get_functions_count : ℕ
virt_pinmux_get_functions_count = length virt_pinmux_function

unfoldable pub virt_pinmux_get_function_name : ℕ → Option FunctionName
virt_pinmux_get_function_name selector =
    get_elem? virt_pinmux_function selector >>= λ func. some func.name

unfoldable pub virt_pinmux_get_function_groups : ℕ → Option (List GroupName × ℕ)
virt_pinmux_get_function_groups selector =
    get_elem? virt_pinmux_function selector >>= λ func. some (func.groups, length func.groups)

-- Every number of the list is one of a registered pin.
abbrev pub AllRegistered : List ℕ → Type 0
AllRegistered [] = Unit
AllRegistered (p ∷ ps) = (p < length virt_pins) × AllRegistered ps

-- One group whose pins are registered.
pub record Muxes (function group : ℕ) : Type 0 where
  pub name : GroupName
  pub pins : List ℕ
  pub its_groups : virt_pinmux_get_function_groups function ≡ some (name ∷ [], 1)
  pub exists : group < virt_pinctrl_get_groups_count
  pub group_name : virt_pinctrl_get_group_name group ≡ some name
  pub group_pins : virt_pinctrl_get_group_pins group ≡ some (pins, length pins)
  pub registered : AllRegistered pins

-- Each function that the count announces has one group, which the groups' count announces under the
-- same number: its name is the one that the function gives, and all its pins are registered.
pub function-Muxes :
    (selector : ℕ) → selector < virt_pinmux_get_functions_count → Muxes selector selector
unfolding virt_pinmux_get_functions_count virt_pinctrl_get_groups_count virt_pinctrl_get_group_name
    virt_pinctrl_get_group_pins virt_pinmux_get_function_groups
function-Muxes zero h = record {
  name = i2c0_group;
  pins = 0 ∷ 1 ∷ [];
  its_groups = refl;
  exists = omega arith;
  group_name = refl;
  group_pins = refl;
  registered = (omega arith, (omega arith, record {}));
}
function-Muxes (suc zero) h = record {
  name = i2c1_group;
  pins = 2 ∷ 3 ∷ [];
  its_groups = refl;
  exists = omega arith;
  group_name = refl;
  group_pins = refl;
  registered = (omega arith, (omega arith, record {}));
}
function-Muxes (suc (suc zero)) h = record {
  name = spi0_group;
  pins = 0 ∷ 1 ∷ 2 ∷ 3 ∷ [];
  its_groups = refl;
  exists = omega arith;
  group_name = refl;
  group_pins = refl;
  registered = (omega arith, (omega arith, (omega arith, (omega arith, record {}))));
}
function-Muxes (suc (suc (suc n))) h = absurd (omega arith)
