-- ===== src/Server/Worker/Tokens.antt =====
-- server/worker.rs: a token is good for one claim.
use vigil_collector.Prelude.{
  ℕ, ◌+◌, ◌≤◌, ◌≡◌, refl, subst, inl, inr, true, false, not, ◌&&◌, ◌||◌, List, [], ◌∷◌, arith,
  if◌then◌else◌, Bool-cases,
}
use vigil_collector.Text.{Text, text_eq}
use vigil_collector.Text.Laws.{text_eq_iff, text_eq_refl}
use vigil_collector.Server.Worker.{
  WorkerRegistry, Event, issued, claimed, fired, holds, insert_id, remove_id, new_registry, issue,
  claim, expire, is_due, step, run,
}

pub holds-insert_id :
    (j id : Text) (ids : List Text) → holds j (insert_id id ids) ≡ (text_eq id j || holds j ids)
unfolding insert_id
holds-insert_id j id ids = elim (Bool-cases (holds id ids)) [
  | inl old ↦ rw old (elim (Bool-cases (text_eq id j)) [
    | inl same ↦ rw same (subst (λ k. holds k ids ≡ true) ((text_eq_iff id j).0 same) old)
    | inr other ↦ rw other
  ])
  | inr new ↦ rw new (unfold holds in refl)
]

pub holds-remove_id :
    (j id : Text) (ids : List Text)
    → holds j (remove_id id ids) ≡ (not (text_eq id j) && holds j ids)
unfolding holds remove_id
holds-remove_id j id [] = ground arith
holds-remove_id j id (k ∷ ks) =
    ground (arith, text_eq_iff k id, text_eq_iff k j, text_eq_iff id j, holds-remove_id j id ks)

-- How often `id` is issued, and how often a claim of it succeeds.
unfoldable pub issues_of : Text → List (ℕ × Event) → ℕ
issues_of id [] = 0
issues_of id ((now, issued j) ∷ es) = (if text_eq j id then 1 else 0) + issues_of id es
issues_of id ((now, claimed j) ∷ es) = issues_of id es
issues_of id ((now, fired j) ∷ es) = issues_of id es

unfoldable pub wins_of : Text → WorkerRegistry → List (ℕ × Event) → ℕ
unfolding claim
wins_of id r [] = 0
wins_of id r ((now, issued j) ∷ es) = wins_of id (step r (now, issued j)) es
wins_of id r ((now, claimed j) ∷ es) =
    (if text_eq j id && (claim j r).0 then 1 else 0) + wins_of id (step r (now, claimed j)) es
wins_of id r ((now, fired j) ∷ es) = wins_of id (step r (now, fired j)) es

abbrev pending_count : Text → WorkerRegistry → ℕ
pending_count id r = if holds id r.inner then 1 else 0

issue_count :
    (id j : Text) (now : ℕ) (r : WorkerRegistry)
    → pending_count id (step r (now, issued j))
      ≤ (if text_eq j id then 1 else 0) + pending_count id r
unfolding step issue
issue_count id j now r = rw (holds-insert_id id j r.inner) (ground arith)

claim_count :
    (id j : Text) (now : ℕ) (r : WorkerRegistry)
    → (if text_eq j id && (claim j r).0 then 1 else 0) + pending_count id (step r (now, claimed j))
      ≤ pending_count id r
unfolding step claim
claim_count id j now r = rw (holds-remove_id id j r.inner) (ground (arith, text_eq_iff j id))

expire_count :
    (id j : Text) (now : ℕ) (r : WorkerRegistry)
    → pending_count id (step r (now, fired j)) ≤ pending_count id r
unfolding step expire
expire_count id j now r = ground (arith, holds-remove_id id j r.inner)

wins_bound :
    (id : Text) (es : List (ℕ × Event)) (r : WorkerRegistry)
    → wins_of id r es ≤ issues_of id es + pending_count id r
unfolding wins_of issues_of
wins_bound id [] r = omega arith
wins_bound id ((now, issued j) ∷ es) r =
    omega (arith, wins_bound id es (step r (now, issued j)), issue_count id j now r)
wins_bound id ((now, claimed j) ∷ es) r =
    omega (arith, wins_bound id es (step r (now, claimed j)), claim_count id j now r)
wins_bound id ((now, fired j) ∷ es) r =
    omega (arith, wins_bound id es (step r (now, fired j)), expire_count id j now r)

-- In every history of a new registry a token is claimed with success at most as often as it was
-- issued, however the claims and the timers interleave.
pub wins-le-issues :
    (id : Text) (es : List (ℕ × Event)) → wins_of id new_registry es ≤ issues_of id es
unfolding holds
wins-le-issues id es = omega (arith, wins_bound id es new_registry)

stays_out :
    (id : Text) (es : List (ℕ × Event)) (r : WorkerRegistry)
    → issues_of id es ≡ 0
    → holds id r.inner ≡ false
    → holds id (run r es).inner ≡ false
unfolding run issues_of
stays_out id [] r none_issued out = out
stays_out id ((now, issued j) ∷ es) r z out =
    stays_out id es (step r (now, issued j)) (omega arith) (ground (arith, issue_count id j now r))
stays_out id ((now, claimed j) ∷ es) r z out =
    stays_out id es (step r (now, claimed j)) (omega arith) (ground (arith, claim_count id j now r))
stays_out id ((now, fired j) ∷ es) r z out =
    stays_out id es (step r (now, fired j)) (omega arith) (ground (arith, expire_count id j now r))

-- Once a token has been claimed, or a timer of it that was due has fired, no claim of it succeeds
-- again, whatever happens in between, unless the same token is issued again.
spent_token :
    (id : Text) (now : ℕ) (r : WorkerRegistry) (es : List (ℕ × Event))
    → issues_of id es ≡ 0
    → is_due id now r.timers ≡ true
    → ((claim id (run (claim id r).1 es)).0 ≡ false)
      × ((claim id (run (expire id now r) es)).0 ≡ false)
unfolding claim expire
spent_token id now r es z due = (
  stays_out id es _ z (rw (holds-remove_id id id r.inner) (rw (text_eq_refl id) refl)),
  stays_out id es _ z (rw due (rw (holds-remove_id id id r.inner) (rw (text_eq_refl id) refl))),
)
