-- ===== src/Mfd/Children.antt =====
-- The two children of 30.mfd设备/driver/virt_mfd_core.c, and what the probes of virt_mfd_subdev1.c and
-- virt_mfd_subdev2.c find there: the strings that they print.
use linux_driver_kb.Prelude.{
  ℕ, ◌+◌, ◌≡◌, refl, Option, none, some, List, [], ◌∷◌, ◌++◌, map, take, if◌then◌else◌, ◌==◌,
}
use Prim.Native.Char.{code}
use Prim.Native.String.{String, len}

-- An mfd_cell.
pub record MfdCell : Type 0 where
  pub name : String
  pub of_compatible : String
  pub platform_data : String
  pub pdata_size : ℕ

abbrev pub virt_mfd_devs : List MfdCell
virt_mfd_devs =
    record {
      name = "virt-mfd-dev1";
      of_compatible = "xm,virt-mfd-dev1";
      platform_data = "virt mfd dev1 platform data";
      pdata_size = len "virt mfd dev2 platform data" + 1;
    }
    ∷ record {
      name = "virt-mfd-dev2";
      of_compatible = "xm,virt-mfd-dev2";
      platform_data = "virt mfd dev2 platform data";
      pdata_size = len "virt mfd dev2 platform data" + 1;
    }
    ∷ []

abbrev pub codes : String → List ℕ
codes String.[] = []
codes (String.◌∷◌ c s) = code c ∷ codes s

-- What `%s` prints of some bytes; `none` if it runs out of them.
abbrev pub printed : List ℕ → Option (List ℕ)
printed [] = none
printed (b ∷ bs) =
    let rest = printed bs in
    if b == 0 then some [] else elim rest [ none ↦ none | some cs ↦ some (b ∷ cs) ]

-- A child that devm_mfd_add_devices makes: the parent's driver data, the copy of the platform data, and the
-- cell.
pub record Child : Type 0 where
  pub parent_data : List ℕ
  pub platdata : List ℕ
  pub cell_name : List ℕ
  pub cell_data : List ℕ

-- The memory from a string on, its zero and what stands `behind` it.
module _ (behind : String → List ℕ) where
  abbrev pub from : String → List ℕ
  from s = codes s ++ (0 ∷ behind s)

  abbrev pub child : MfdCell → Child
  child cell = record {
    parent_data = from "virt mfd core driver data";
    platdata = take cell.pdata_size (from cell.platform_data);
    cell_name = from cell.name;
    cell_data = from cell.platform_data;
  }

unfoldable pub virt_mfd_subdev1_probe : Child → List (Option (List ℕ))
virt_mfd_subdev1_probe c =
    printed c.parent_data ∷ printed c.platdata ∷ printed c.cell_name ∷ printed c.cell_data ∷ []

unfoldable pub virt_mfd_subdev2_probe : Child → List (Option (List ℕ))
virt_mfd_subdev2_probe c =
    printed c.parent_data ∷ printed c.platdata ∷ printed c.cell_name ∷ printed c.cell_data ∷ []

abbrev lines_of : String → String → List (Option (List ℕ))
lines_of name platform_data =
    some (codes "virt mfd core driver data")
    ∷ some (codes platform_data)
    ∷ some (codes name)
    ∷ some (codes platform_data)
    ∷ []

-- Whatever stands behind the strings in memory: each child finds the core's data, and its own platform data
-- in whole, in the copy too, although the size of the first copy is that of the second string.
pub children_print :
    (behind : String → List ℕ)
    → (map (λ cell. virt_mfd_subdev1_probe (child behind cell)) virt_mfd_devs
        ≡ lines_of "virt-mfd-dev1" "virt mfd dev1 platform data"
          ∷ lines_of "virt-mfd-dev2" "virt mfd dev2 platform data"
          ∷ [])
      × (map (λ cell. virt_mfd_subdev2_probe (child behind cell)) virt_mfd_devs
          ≡ map (λ cell. virt_mfd_subdev1_probe (child behind cell)) virt_mfd_devs)
unfolding virt_mfd_subdev1_probe virt_mfd_subdev2_probe
children_print behind = (refl, refl)
