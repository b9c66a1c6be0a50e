-- ===== src/Metrics/Net/Statistics.antt =====
-- metrics/net.rs: which interfaces the statistics hold, and with which figures.
use vigil_collector.Prelude.{
  ℕ, ◌≡◌, refl, ap, ◌∙◌, inl, inr, Bool, true, false, Option, none, some, List, [], ◌∷◌,
  if◌then◌else◌, Bool-cases,
}
use vigil_collector.Float.{Float}
use vigil_collector.Text.{Text, text_eq}
use vigil_collector.BTree.{insert_key, get_key, get_key-insert_key}
use vigil_collector.Snapshot.{NetIfaceStats}
use vigil_collector.Metrics.Net.{
  Interface, stats_of, put_interfaces, set_drops, put_drops, read_proc_net_drops, statistics,
}

-- The last interface of a name.
abbrev pub named : Text → List Interface → Option Interface → Option Interface
named n [] found = found
named n (d ∷ ds) found = named n ds (if text_eq d.name n then some d else found)

-- An entry of the statistics without its drop counters, and that of an interface.
abbrev pub without_drops : {F : Type 0} → Option (NetIfaceStats F) → Option (NetIfaceStats F)
without_drops none = none
without_drops (some s) = some (record s { dropin = 0; dropout = 0 })

abbrev pub stats_or_none : {F : Type 0} ⦃f : Float F⦄ → Option Interface → Option (NetIfaceStats F)
stats_or_none none = none
stats_or_none (some d) = some (stats_of d)

get_key-set_drops :
    {F : Type 0} (n name : Text) (d : ℕ × ℕ) (m : List (Text × NetIfaceStats F))
    → without_drops (get_key n (set_drops name d m)) ≡ without_drops (get_key n m)
unfolding get_key set_drops
get_key-set_drops n name d [] = refl
get_key-set_drops n name d ((j, s) ∷ m) = elim (Bool-cases (text_eq j name)) [
  | inl hit ↦ elim (Bool-cases (text_eq j n)) [ inl e ↦ rw (hit, e) | inr e ↦ rw (hit, e) ]
  | inr miss ↦ elim (Bool-cases (text_eq j n)) [
    | inl e ↦ rw (miss, e)
    | inr e ↦ rw (miss, e) (get_key-set_drops n name d m)
  ]
]

get_key-put_drops :
    {F : Type 0} (n : Text) (drops : List (Text × (ℕ × ℕ))) (m : List (Text × NetIfaceStats F))
    → without_drops (get_key n (put_drops drops m)) ≡ without_drops (get_key n m)
unfolding put_drops
get_key-put_drops n [] m = refl
get_key-put_drops n ((name, d) ∷ drops) m =
    get_key-put_drops n drops (set_drops name d m) ∙ get_key-set_drops n name d m

module _ {F : Type 0} ⦃f : Float F⦄ where
  stats_or_none-if :
      (b : Bool) (d : Interface) (found : Option Interface)
      → (if b then some (stats_of d) else stats_or_none found)
        ≡ stats_or_none {F = F} (if b then some d else found)
  stats_or_none-if true d found = refl
  stats_or_none-if false d found = refl

  get_key-put_interfaces :
      (n : Text) (ds : List Interface) (out : List (Text × NetIfaceStats F))
      (found : Option Interface)
      → get_key n out ≡ stats_or_none found
      → get_key n (put_interfaces ds out) ≡ stats_or_none (named n ds found)
  unfolding put_interfaces
  get_key-put_interfaces n [] out found h = h
  get_key-put_interfaces n (d ∷ ds) out found h =
      get_key-put_interfaces n ds (insert_key d.name (stats_of d) out)
        (if text_eq d.name n then some d else found)
        (get_key-insert_key d.name n (stats_of d) out
          ∙ ap (λ (o : Option (NetIfaceStats F)). if text_eq d.name n then some (stats_of d) else o)
              h
          ∙ stats_or_none-if (text_eq d.name n) d found)

  -- Whatever /proc/net/dev says, the statistics hold an entry for the interfaces of sysinfo alone, and
  -- apart from the drop counters it is that of the last interface with the name.
  get_key-statistics :
      (n : Text) (ds : List Interface) (net_dev : Option Text)
      → without_drops (get_key n (statistics {F = F} ds net_dev)) ≡ stats_or_none (named n ds none)
  unfolding statistics stats_of get_key
  get_key-statistics n ds net_dev = go (read_proc_net_drops net_dev)
    where
      counters : get_key n (put_interfaces {F = F} ds []) ≡ stats_or_none (named n ds none)
      counters = get_key-put_interfaces n ds [] none refl

      no_drops : (o : Option Interface) → without_drops (stats_or_none {F = F} o) ≡ stats_or_none o
      no_drops none = refl
      no_drops (some d) = refl

      go :
          (o : Option (List (Text × (ℕ × ℕ))))
          → without_drops (
              get_key n (elim o [
                | none ↦ put_interfaces {F = F} ds []
                | some drops ↦ put_drops drops (put_interfaces ds [])
              ]))
            ≡ stats_or_none (named n ds none)
      go none = ap without_drops counters ∙ no_drops (named n ds none)
      go (some drops) =
          get_key-put_drops n drops (put_interfaces ds [])
          ∙ ap without_drops counters
          ∙ no_drops (named n ds none)
