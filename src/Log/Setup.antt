-- ===== src/Log/Setup.antt =====
-- log.rs: what the set-up leaves behind.
use vigil_collector.Prelude.{
  ◌≡◌, refl, ap, ◌↔◌, ◌⊎◌, inl, inr, Bool, true, false, not, ◌||◌, Option, none, some, List, [],
  ◌∷◌, ◌++◌, arith, if◌then◌else◌,
}
use vigil_collector.Text.{Text, codes, text_eq}
use vigil_collector.Log.{
  LogState, Faults, Filters, Exit, done, failed, directive_of, directive, env_filter, init,
}

-- The levels that the settings may name, with the words of tracing for them.
abbrev levels : List (Text × Text)
levels =
    (codes "DEBUG", codes "debug")
    ∷ (codes "WARNING", codes "warn")
    ∷ (codes "WARN", codes "warn")
    ∷ (codes "ERROR", codes "error")
    ∷ []

-- The word for a level; a level that is not listed logs as info.
unfoldable pub word_of : List (Text × Text) → Text → Text
word_of [] level = codes "info"
word_of ((name, word) ∷ more) level =
    let rest = word_of more level in if text_eq level name then word else rest

unfoldable pub mutes : Bool → Text → Text
mutes enabled level =
    if enabled then codes "vigil_collector=" ++ word_of levels level else codes "off"

directive-mutes :
    (to_uppercase : Text → Text) (level : Text) (enabled : Bool)
    → directive to_uppercase level enabled ≡ mutes enabled (to_uppercase level)
unfolding directive directive_of mutes word_of
directive-mutes to_uppercase level false = refl
directive-mutes to_uppercase level true =
    go (text_eq up (codes "DEBUG")) (text_eq up (codes "WARNING")) (text_eq up (codes "WARN"))
      (text_eq up (codes "ERROR"))
  where
    up : Text
    up = to_uppercase level

    go :
        (d warning warn e : Bool)
        → (if d
            then codes "vigil_collector=debug"
            else if warning || warn
            then codes "vigil_collector=warn"
            else if e
            then codes "vigil_collector=error"
            else codes "vigil_collector=info")
          ≡ codes "vigil_collector="
            ++ (if d
                then codes "debug"
                else if warning
                then codes "warn"
                else if warn
                then codes "warn"
                else if e
                then codes "error"
                else codes "info")
    go true warning warn e = refl
    go false true warn e = refl
    go false false true e = refl
    go false false false true = refl
    go false false false false = refl

-- The filter that is wanted: the one that the environment sets, or else that of the level.
unfoldable pub wanted : {E : Type 0} → Filters E → Bool → Text → E
wanted f enabled level = elim f.from_default_env [
  | none ↦ f.new_filter (mutes enabled level)
  | some e ↦ e
]

or_false : (b : Bool) → b ≡ (b || false)
or_false true = refl
or_false false = refl

or_true : (b : Bool) → true ≡ (b || true)
or_true true = refl
or_true false = refl

module _ {E : Type 0} (to_uppercase : Text → Text) (f : Filters E) where
  abbrev Outcome : Text → Bool → Faults → LogState E → Exit × LogState E → Type 0
  Outcome level enabled faults s r =
      let fails = faults.create_fails || faults.open_fails in
      (r.0 ≡ done ↔ (faults.create_fails ≡ false) × (faults.open_fails ≡ false) × (s.filter ≡ none))
      × (r.0 ≡ failed ↔ (faults.create_fails ≡ true) ⊎ (faults.open_fails ≡ true))
      × (r.1.dir_exists ≡ (s.dir_exists || not faults.create_fails))
      × (r.1.file ≡ (if fails then s.file else some []))
      × (r.1.filter ≡ (
          if fails then s.filter else elim s.filter [
            | none ↦ some (wanted f enabled (to_uppercase level))
            | some old ↦ some old
          ]))

  -- The cases, with the fields one by one.
  outcome :
      (create_fails open_fails : Bool) (level : Text) (enabled dir_exists : Bool)
      (file : Option Text) (filter : Option E)
      → let faults : Faults = record { create_fails = create_fails; open_fails = open_fails } in
        let s : LogState E = record { dir_exists = dir_exists; file = file; filter = filter } in
        Outcome level enabled faults s (init to_uppercase f faults level enabled s)
  unfolding init env_filter wanted
  outcome true o level enabled d file filter = (
    (λ h. absurd (cc), λ (a, b, c). absurd (cc)),
    (λ h. inl refl, λ h. refl),
    or_false d,
    refl,
    refl,
  )
  outcome false true level enabled d file filter = (
    (λ h. absurd (cc), λ (a, b, c). absurd (cc)),
    (λ h. inr refl, λ h. refl),
    or_true d,
    refl,
    refl,
  )
  outcome false false level enabled d file none = (
    (λ h. (refl, refl, refl), λ h. refl),
    (λ h. absurd (cc), λ h. absurd (ground arith)),
    or_true d,
    refl,
    ap (λ t. some (env_filter f t)) (directive-mutes to_uppercase level enabled),
  )
  outcome false false level enabled d file (some old) = (
    (λ h. absurd (cc), λ (a, b, c). absurd (cc)),
    (λ h. absurd (cc), λ h. absurd (ground arith)),
    or_true d,
    refl,
    refl,
  )

  -- The set-up is done exactly if neither call of the file system fails and no subscriber is installed,
  -- and it reports an error exactly if one of the calls fails. The directory is there afterwards unless
  -- it was not and could not be created. The log file is emptied if neither call fails, and left as it
  -- was otherwise. A filter that is installed stays; if none is and neither call fails, it is the one
  -- that the environment sets, whatever the settings say, or, where the environment sets none, that of
  -- the level in capitals, or of off where the settings switch the log off.
  pub init_cases :
      (faults : Faults) (level : Text) (enabled : Bool) (s : LogState E)
      → let r = init to_uppercase f faults level enabled s in
        let fails = faults.create_fails || faults.open_fails in
        (r.0 ≡ done
          ↔ (faults.create_fails ≡ false) × (faults.open_fails ≡ false) × (s.filter ≡ none))
        × (r.0 ≡ failed ↔ (faults.create_fails ≡ true) ⊎ (faults.open_fails ≡ true))
        × (r.1.dir_exists ≡ (s.dir_exists || not faults.create_fails))
        × (r.1.file ≡ (if fails then s.file else some []))
        × (r.1.filter ≡ (
            if fails then s.filter else elim s.filter [
              | none ↦ some (wanted f enabled (to_uppercase level))
              | some old ↦ some old
            ]))
  unfolding init
  init_cases faults level enabled s =
      outcome faults.create_fails faults.open_fails level enabled s.dir_exists s.file s.filter
