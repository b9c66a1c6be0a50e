-- ===== src/Main.antt =====
-- main.rs and cli.rs: the options, their precedence over the settings, and the start. clap's parsing and
-- the environment are behind the record `Cli`; the log, the resolver and the network are parameters.
pub mod Starting
pub mod Tags
pub mod Lifecycle
pub mod Stopping
pub mod Signals
mod Tests
use vigil_collector.Prelude.{
  ℕ, Bool, not, ◌&&◌, Option, none, some, List, [], ◌∷◌, ◌==◌, if◌then◌else◌,
}
use vigil_collector.Float.{Float}
use vigil_collector.Text.{Text, codes, text_eq, is_empty, trim, split_from, split}
use vigil_collector.Config.{Settings}

pub record Cli : Type 0 where
  pub address : Text
  pub port : ℕ
  pub hub : Option Text
  pub hub_key : Option Text
  pub hub_name : Option Text
  pub hub_tags : Option Text

unfoldable pub keep_tags : List Text → List Text
unfolding trim
keep_tags [] = []
keep_tags (s ∷ more) =
    let rest = keep_tags more in if is_empty (trim s) then rest else trim s ∷ rest

unfoldable pub parse_tags : Cli → List Text
unfolding keep_tags split_from
parse_tags cli = keep_tags (split b',' (elim cli.hub_tags [ none ↦ [] | some s ↦ s ]))

unfoldable pub chosen_address : {F : Type 0} → Cli → Settings F → Text
chosen_address args settings = if is_empty args.address then settings.address else args.address

unfoldable pub chosen_port : {F : Type 0} → Cli → Settings F → ℕ
chosen_port args settings = if args.port == 0 then settings.port_number else args.port

-- What the standard library answers: `parse::<IpAddr>` and `to_socket_addrs`, which fails or gives a list.
pub record Resolver (Ip Addr : Type 0) : Type 0 where
  pub localhost : Ip
  pub parse_ip : Text → Option Ip
  pub socket_addr : Ip → ℕ → Addr
  pub to_socket_addrs : Text → ℕ → Option (List Addr)

-- The first address of the list, if there is one.
unfoldable pub first_addr : {Addr : Type 0} → Option (List Addr) → Option Addr
first_addr none = none
first_addr (some []) = none
first_addr (some (a ∷ more)) = some a

unfoldable pub resolve_addr : {Ip Addr : Type 0} → Resolver Ip Addr → Text → ℕ → Option Addr
unfolding text_eq first_addr
resolve_addr {Addr = Addr} r host port =
    let parsed : Option Addr = elim (r.parse_ip host) [
      | some ip ↦ some (r.socket_addr ip port)
      | none ↦ first_addr (r.to_socket_addrs host port)
    ] in
    if text_eq host (codes "localhost") then some (r.socket_addr r.localhost port) else parsed

-- The url and the key to push with.
unfoldable pub hub_target : Option Text → Option Text → Option (Text × Text)
hub_target (some url) (some key) =
    if not (is_empty url) && not (is_empty key) then some (url, key) else none
hub_target (some url) none = none
hub_target none (some key) = none
hub_target none none = none

-- What comes of the start: an error that `main` returns, a panic, or a server at an address, with the
-- hub that it pushes to.
pub data Started (Addr : Type 0) : Type 0 where
  unresolved unbuilt unbound panicked : Started Addr
  serving : Addr → Option (Text × Text) → Started Addr

module _ {F Ip Addr : Type 0} ⦃f : Float F⦄ (r : Resolver Ip Addr) (builds : ℕ → Bool)
    (binds : Addr → Bool) where
  -- `server::serve`, up to `axum::serve`: `builds` tells whether reqwest builds a client for a timeout,
  -- and `binds` whether the listener binds.
  unfoldable pub serve : Addr → Option (Text × Text) → Settings F → Started Addr
  serve addr hub settings = elim (f.from_secs settings.probe_timeout) [
    | none ↦ panicked
    | some timeout ↦
        if not (builds timeout)
        then unbuilt
        else if not (binds addr)
        then unbound
        else serving addr hub
  ]

  -- `main`, behind the set-up of the log: the address, the sampler, the hub client and the server.
  unfoldable pub start : Cli → Settings F → Started Addr
  unfolding resolve_addr chosen_address chosen_port hub_target serve
  start args settings =
      elim (resolve_addr r (chosen_address args settings) (chosen_port args settings)) [
        | none ↦ unresolved
        | some addr ↦ elim (f.from_secs (f.max settings.ws_push_interval (f.lit 1 1))) [
          | none ↦ panicked
          | some interval ↦ serve addr (hub_target args.hub args.hub_key) settings
        ]
      ]
