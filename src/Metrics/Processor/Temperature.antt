-- ===== src/Metrics/Processor/Temperature.antt =====
-- metrics/cpu.rs: which sensor the temperature comes from.
use vigil_collector.Prelude.{
  ◌≡◌, refl, ap, ◌∙◌, inl, inr, Bool, ◌&&◌, Option, none, some, List, [], ◌∷◌, if◌then◌else◌,
  Bool-cases,
}
use vigil_collector.Float.{Float}
use vigil_collector.Metrics.Disk.Partitions.{or_else}
use vigil_collector.Metrics.Processor.{
  Component, is_labelled, choose_temp, rounded_temp, read_via_components,
}

-- The first item that passes a test.
abbrev pub first_of : {A : Type 0} → (A → Bool) → List A → Option A
first_of p [] = none
first_of p (x ∷ xs) = let later = first_of p xs in if p x then some x else later

module _ {F : Type 0} ⦃f : Float F⦄ where
  abbrev pub is_numeric : Component F → Bool
  is_numeric c = f.is_finite c.temperature

  abbrev pub is_package : Component F → Bool
  is_package c = f.is_finite c.temperature && is_labelled c.label

  abbrev pub temp_of : Option (Component F) → Option F
  temp_of none = none
  temp_of (some c) = some c.temperature

  keeps_first :
      (x o : Option F) (t : F) (y : Option F)
      → or_else x (or_else (or_else o (some t)) y) ≡ or_else x (or_else o (some t))
  unfolding or_else
  keeps_first x none t y = refl
  keeps_first x (some s) t y = refl

  choose_temp-first :
      (cs : List (Component F)) (o : Option F)
      → choose_temp o cs
        ≡ or_else (temp_of (first_of is_package cs)) (or_else o (temp_of (first_of is_numeric cs)))
  unfolding choose_temp or_else
  choose_temp-first [] none = refl
  choose_temp-first [] (some t) = refl
  choose_temp-first (c ∷ cs) o = elim (Bool-cases (f.is_finite c.temperature)) [
    | inr odd ↦ rw odd (choose_temp-first cs o)
    | inl finite ↦ elim (Bool-cases (is_labelled c.label)) [
      | inl labelled ↦ rw (finite, labelled)
      | inr plain ↦
          rw (finite, plain)
            (choose_temp-first cs (or_else o (some c.temperature))
              ∙ keeps_first _ o c.temperature _)
    ]
  ]

  -- The temperature is that of the first sensor with a finite reading whose label names the CPU, and
  -- where there is none, that of the first sensor with a finite reading, rounded to a tenth.
  read_via_components-first :
      (cs : List (Component F))
      → read_via_components cs
        ≡ rounded_temp
            (or_else (temp_of (first_of is_package cs)) (temp_of (first_of is_numeric cs)))
  unfolding read_via_components or_else
  read_via_components-first cs = ap rounded_temp (choose_temp-first cs none)
