-- ===== src/Main/Starting.antt =====
-- main.rs: when the collector serves, and whether it pushes.
use vigil_collector.Prelude.{
  ℕ, ◌≡◌, refl, sym, subst, ◌↔◌, Bool, true, false, not, ◌&&◌, Option, none, some, if◌then◌else◌,
}
use vigil_collector.Float.{Float}
use vigil_collector.Text.{Text, is_empty}
use vigil_collector.Config.{Settings}
use vigil_collector.Main.{
  Cli, Resolver, resolve_addr, hub_target, Started, unresolved, panicked, serve,
}

abbrev given : Bool → Bool → Text → Text → Option (Text × Text)
given b c url key = if not b && not c then some (url, key) else none

-- The collector pushes to a hub exactly if it is given a url and a key and neither is empty, and then to
-- that url with that key.
hub_target_iff :
    (hub hub_key : Option Text) (url key : Text)
    → (hub_target hub hub_key ≡ some (url, key))
      ↔ ((hub ≡ some url) × (hub_key ≡ some key) × (is_empty url ≡ false) × (is_empty key ≡ false))
unfolding hub_target
hub_target_iff (some u) (some k) url key = (forth (is_empty u) refl (is_empty k) refl, back)
  where
    forth :
        (b : Bool)
        → is_empty u ≡ b
        → (c : Bool) → is_empty k ≡ c
        → given b c u k ≡ some (url, key)
        → (some u ≡ some url)
          × (some k ≡ some key)
          × (is_empty url ≡ false)
          × (is_empty key ≡ false)
    forth false eb false ec h = (cc, cc, cc, cc)
    forth false eb true ec h = absurd (cc)
    forth true eb false ec h = absurd (cc)
    forth true eb true ec h = absurd (cc)

    back :
        (some u ≡ some url) × (some k ≡ some key) × (is_empty url ≡ false) × (is_empty key ≡ false)
        → given (is_empty u) (is_empty k) u k ≡ some (url, key)
    back (eu, ek, nu, nk) =
        subst (λ (t : Text). given (is_empty t) (is_empty k) t k ≡ some (url, key)) (sym same_url)
          (subst (λ (t : Text). given (is_empty url) (is_empty t) url t ≡ some (url, key))
            (sym same_key) (rw (nu, nk)))
      where
        same_url : u ≡ url
        same_url = cc

        same_key : k ≡ key
        same_key = cc
hub_target_iff (some u) none url key = (λ h. absurd (cc), λ (a, b, c, d). absurd (cc))
hub_target_iff none (some k) url key = (λ h. absurd (cc), λ (a, b, c, d). absurd (cc))
hub_target_iff none none url key = (λ h. absurd (cc), λ (a, b, c, d). absurd (cc))

module _ {F Ip Addr : Type 0} ⦃f : Float F⦄ (r : Resolver Ip Addr) (builds : ℕ → Bool)
    (binds : Addr → Bool) where
  -- The start with an address and a port chosen.
  abbrev start_at : Text → ℕ → Cli → Settings F → Started Addr
  start_at host port args settings = elim (resolve_addr r host port) [
    | none ↦ unresolved
    | some addr ↦ elim (f.from_secs (f.max settings.ws_push_interval (f.lit 1 1))) [
      | none ↦ panicked
      | some interval ↦ serve r builds binds addr (hub_target args.hub args.hub_key) settings
    ]
  ]
