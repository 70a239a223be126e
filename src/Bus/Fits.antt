-- ===== src/Bus/Fits.antt =====
-- What the table says of two drivers that one device fits.
use linux_driver_kb.Prelude.{
  ◌≡◌, refl, ap, sym, ◌∙◌, Bool, true, false, inl, inr, ◌⊎◌, [], ◌∷◌, not, ◌&&◌, ◌||◌, Memᴰ, arith,
}
use linux_driver_kb.Prelude.Search.{has, meets, all, all-Mem, meets_common}
use linux_driver_kb.Bus.{
  BusType, platform_bus, i2c_bus, DeviceDriver, Device, by_name, fits, same_bus, same_slot, overlap,
}
use linux_driver_kb.Bus.Table.{drivers, drivers_coherent}
use Prim.Native.String.{String}
use text.Mathlib.Text.{◌==◌}
use text.Mathlib.TextEquality.{eq_iff}

same_bus_join : (a b c : BusType) → same_bus a b ≡ true → same_bus a c ≡ true → same_bus b c ≡ true
same_bus_join platform_bus platform_bus platform_bus h k = refl
same_bus_join platform_bus platform_bus i2c_bus h k = k
same_bus_join platform_bus i2c_bus c h k = absurd (ground (arith, h))
same_bus_join i2c_bus platform_bus c h k = absurd (ground (arith, h))
same_bus_join i2c_bus i2c_bus platform_bus h k = k
same_bus_join i2c_bus i2c_bus i2c_bus h k = refl

bus_cases :
    (a b : BusType)
    → same_bus a b ≡ true
    → ((a ≡ platform_bus) × (b ≡ platform_bus)) ⊎ ((a ≡ i2c_bus) × (b ≡ i2c_bus))
bus_cases platform_bus platform_bus h = inl (refl, refl)
bus_cases platform_bus i2c_bus h = absurd (ground (arith, h))
bus_cases i2c_bus platform_bus h = absurd (ground (arith, h))
bus_cases i2c_bus i2c_bus h = inr (refl, refl)

and_left : (a b : Bool) → a && b ≡ true → a ≡ true
and_left true b h = refl
and_left false b h = h

and_right : (a b : Bool) → a && b ≡ true → b ≡ true
and_right true b h = h
and_right false b h = absurd (ground (arith, h))

same_name : (n a b : String) → n == a ≡ true → n == b ≡ true → a == b ≡ true
same_name n a b h k = (eq_iff a b).1 (sym ((eq_iff n a).0 h) ∙ (eq_iff n b).0 k)

by_name_platform :
    (n : String) (d : DeviceDriver) → d.bus ≡ platform_bus → by_name n d ≡ (n == d.name)
by_name_platform n d p = rw p refl

by_name_i2c : (n : String) (d : DeviceDriver) → d.bus ≡ i2c_bus → by_name n d ≡ has n d.id_table
by_name_i2c n d p = rw p refl

or_false : (b : Bool) → b || false ≡ b
or_false true = refl
or_false false = refl

named_overlap :
    (n : String) (d e : DeviceDriver)
    → same_bus d.bus e.bus ≡ true
    → by_name n d ≡ true
    → by_name n e ≡ true
    → overlap d e ≡ true
named_overlap n d e buses h k = elim (bus_cases d.bus e.bus buses) [
  | inl (p, q) ↦
      let common : d.name == e.name ≡ true =
        same_name n d.name e.name (sym (by_name_platform n d p) ∙ h)
          (sym (by_name_platform n e q) ∙ k) in
      ground (arith, buses, common)
  | inr (p, q) ↦
      let common : meets d.id_table e.id_table ≡ true =
        meets_common n d.id_table e.id_table (sym (by_name_i2c n d p) ∙ h)
          (sym (by_name_i2c n e q) ∙ k) in
      ground (arith, buses, common)
]

-- The device goes by one string: it has no compatible string, or one, and then each driver of its bus that has
-- its name has that string too.
abbrev pub IsPlain : Device → Type 0
IsPlain x =
    (x.compatible ≡ [])
    ⊎ ((c : String) × (x.compatible ≡ c ∷ [])
        × (all (λ d. not (same_bus x.bus d.bus && by_name x.name d) || has c d.of_match_table)
              drivers
            ≡ true))

implied : (a b : Bool) → (not a || b) ≡ true → a ≡ true → b ≡ true
implied true b h k = h
implied false b h k = absurd (ground (arith, k))

either : (a b c : Bool) → (a ≡ true → c ≡ true) → (b ≡ true → c ≡ true) → a || b ≡ true → c ≡ true
either true b c f g h = f refl
either false b c f g h = g h

-- A driver of the table that a device with one string fits has that string.
has_string :
    (x : Device) (c : String) (d : DeviceDriver)
    → x.compatible ≡ c ∷ []
    → all (λ d. not (same_bus x.bus d.bus && by_name x.name d) || has c d.of_match_table) drivers
      ≡ true
    → Memᴰ d drivers
    → fits x d ≡ true
    → has c d.of_match_table ≡ true
unfolding fits
has_string x c d one names m h =
    let row =
      all-Mem (λ d. not (same_bus x.bus d.bus && by_name x.name d) || has c d.of_match_table)
        drivers d names m in
    let bus =
      and_left (same_bus x.bus d.bus) (meets x.compatible d.of_match_table || by_name x.name d) h in
    let way =
      and_right (same_bus x.bus d.bus) (meets x.compatible d.of_match_table || by_name x.name d)
        h in
    either (meets x.compatible d.of_match_table) (by_name x.name d) (has c d.of_match_table)
      (λ k.
        sym (or_false (has c d.of_match_table))
        ∙ ap (λ cs. meets cs d.of_match_table) (sym one)
        ∙ k)
      (λ k.
        implied (same_bus x.bus d.bus && by_name x.name d) (has c d.of_match_table) row
          (rw (bus, k) refl))
      way

-- Two drivers of the table that a plain device fits overlap.
fits-overlap :
    (x : Device) (d e : DeviceDriver)
    → IsPlain x
    → Memᴰ d drivers
    → Memᴰ e drivers
    → fits x d ≡ true
    → fits x e ≡ true
    → overlap d e ≡ true
unfolding fits
fits-overlap x d e plain md me h k =
    let rule : (f : DeviceDriver) → Bool =
      λ f. meets x.compatible f.of_match_table || by_name x.name f in
    let buses : same_bus d.bus e.bus ≡ true =
      same_bus_join x.bus d.bus e.bus (and_left (same_bus x.bus d.bus) (rule d) h)
        (and_left (same_bus x.bus e.bus) (rule e) k) in
    elim plain [
      | inl none ↦
          let by_itself : (f : DeviceDriver) → rule f ≡ true → by_name x.name f ≡ true =
            λ f r. ap (λ cs. meets cs f.of_match_table || by_name x.name f) (sym none) ∙ r in
          named_overlap x.name d e buses (by_itself d (and_right (same_bus x.bus d.bus) (rule d) h))
            (by_itself e (and_right (same_bus x.bus e.bus) (rule e) k))
      | inr (c, one, names) ↦
          let common : meets d.of_match_table e.of_match_table ≡ true =
            meets_common c d.of_match_table e.of_match_table (has_string x c d one names md h)
              (has_string x c e one names me k) in
          rw (buses, common) refl
    ]

-- Two drivers of the table that a plain device fits have one name on one bus.
pub fits-same_slot :
    (x : Device) (d e : DeviceDriver)
    → IsPlain x
    → Memᴰ d drivers
    → Memᴰ e drivers
    → fits x d ≡ true
    → fits x e ≡ true
    → same_slot d e ≡ true
fits-same_slot x d e plain md me h k =
    let row =
      all-Mem (λ d. all (λ e. not (overlap d e) || same_slot d e) drivers) drivers d
        drivers_coherent md in
    let cell = all-Mem (λ e. not (overlap d e) || same_slot d e) drivers e row me in
    implied (overlap d e) (same_slot d e) cell (fits-overlap x d e plain md me h k)
