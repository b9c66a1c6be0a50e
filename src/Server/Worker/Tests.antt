-- ===== src/Server/Worker/Tests.antt =====
-- Runs of the registry, and its theorems at a concrete history.
use vigil_collector.Prelude.{ℕ, ◌≤◌, ◌≡◌, refl, true, List, [], ◌∷◌, arith}
use vigil_collector.Text.{Text, codes, text_eq}
use vigil_collector.Server.Worker.{
  Event, issued, claimed, fired, holds, new_registry, generate_id, issue, claim, expire, run,
}
use vigil_collector.Server.Worker.Tokens.{issues_of, wins_of, wins-le-issues}
use vigil_collector.Server.Worker.Expiry.{claims_of, live_token}

abbrev alice : Text
alice = codes "alice"

abbrev bob : Text
bob = codes "bob"

abbrev history : List (ℕ × Event)
history =
    (0, issued alice)
    ∷ (100, issued bob)
    ∷ (200, claimed alice)
    ∷ (300, claimed alice)
    ∷ (5100, fired bob)
    ∷ (5200, claimed bob)
    ∷ []

one_win : wins_of alice new_registry history ≡ 1
unfolding wins_of run claim issue expire holds text_eq
one_win = refl

expired_bob : wins_of bob new_registry history ≡ 0
unfolding wins_of run claim issue expire holds text_eq
expired_bob = refl

id_is_encoded : generate_id (λ n. n ∷ []) (λ bytes. bytes) ≡ 32 ∷ []
unfolding generate_id
id_is_encoded = refl

wins-le-issues_example : wins_of alice new_registry history ≤ issues_of alice history
wins-le-issues_example = wins-le-issues alice history

live_token_example :
    (claim alice
      (run (issue alice 50 new_registry) ((100, issued bob) ∷ (4000, claimed bob) ∷ []))).0
    ≡ true
unfolding claims_of text_eq
live_token_example =
    live_token alice 50 new_registry ((100, issued bob) ∷ (4000, claimed bob) ∷ []) tt refl
      (omega arith)
