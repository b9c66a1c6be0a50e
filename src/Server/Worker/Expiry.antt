-- ===== src/Server/Worker/Expiry.antt =====
-- server/worker.rs: how long a token lives.
use vigil_collector.Prelude.{
  ℕ, ◌+◌, ◌≤◌, ◌<◌, ◌≡◌, refl, subst, inl, inr, Bool, true, false, not, ◌&&◌, ◌||◌, List, [], ◌∷◌,
  arith, leb, if◌then◌else◌, Bool-cases,
}
use vigil_collector.Text.{Text, text_eq}
use vigil_collector.Text.Laws.{text_eq_iff, text_eq_refl}
use vigil_collector.Server.Worker.{
  WorkerRegistry, Timer, Event, issued, claimed, fired, expiry, holds, is_due, drop_due,
  new_registry, issue, claim, expire, step, run,
}
use vigil_collector.Server.Worker.Tokens.{holds-insert_id, holds-remove_id}

abbrev pub has_timer : Text → List Timer → Bool
has_timer id [] = false
has_timer id (t ∷ ts) = text_eq t.expire_id id || has_timer id ts

-- How often a history claims `id`, with success or not.
unfoldable pub claims_of : Text → List (ℕ × Event) → ℕ
claims_of id [] = 0
claims_of id ((now, claimed j) ∷ es) = (if text_eq j id then 1 else 0) + claims_of id es
claims_of id ((now, issued j) ∷ es) = claims_of id es
claims_of id ((now, fired j) ∷ es) = claims_of id es

-- Every event stands before the time.
abbrev pub AllBefore : ℕ → List (ℕ × Event) → Type 0
AllBefore limit [] = Unit {0}
AllBefore limit ((now, e) ∷ es) = (now < limit) × AllBefore limit es

-- No timer of `id` is due before the time.
abbrev pub NoneDue : Text → ℕ → List Timer → Type 0
NoneDue id limit [] = Unit {0}
NoneDue id limit (t ∷ ts) = ((t.expire_id ≡ id) → limit ≤ t.deadline) × NoneDue id limit ts

NoneDue-is_due :
    (id : Text) (limit now : ℕ) (ts : List Timer)
    → NoneDue id limit ts
    → now < limit
    → is_due id now ts ≡ false
unfolding is_due
NoneDue-is_due id limit now [] h lt = refl
NoneDue-is_due id limit now (t ∷ ts) (ht, h) lt =
    ground (arith, ht, text_eq_iff t.expire_id id, NoneDue-is_due id limit now ts h lt)

NoneDue-drop_due :
    (id : Text) (limit : ℕ) (j : Text) (now : ℕ) (ts : List Timer)
    → NoneDue id limit ts
    → NoneDue id limit (drop_due j now ts)
unfolding drop_due
NoneDue-drop_due id limit j now [] h = tt
NoneDue-drop_due id limit j now (t ∷ ts) (ht, h) =
    elim (Bool-cases (text_eq t.expire_id j && leb t.deadline now)) [
      | inl due ↦ rw due h
      | inr not_due ↦ rw not_due (ht, NoneDue-drop_due id limit j now ts h)
    ]

-- The token is in the registry, and no timer of it is due before the time.
record IsLive (id : Text) (limit : ℕ) (r : WorkerRegistry) : Type 0 where
  held : holds id r.inner ≡ true
  undue : NoneDue id limit r.timers

step-IsLive :
    (id : Text) (limit now : ℕ) (e : Event) (r : WorkerRegistry)
    → claims_of id ((now, e) ∷ []) ≡ 0
    → now < limit
    → limit ≤ now + expiry
    → IsLive id limit r
    → IsLive id limit (step r (now, e))
unfolding step issue claim expire claims_of
step-IsLive id limit now (issued j) r z lt le l = record {
  held = rw (holds-insert_id id j r.inner) (ground arith);
  undue = ((λ _. le), l.undue);
}
step-IsLive id limit now (claimed j) r z lt le l = record {
  held = rw (holds-remove_id id j r.inner) (ground arith);
  undue = l.undue;
}
step-IsLive id limit now (fired j) r z lt le l = elim (Bool-cases (is_due j now r.timers)) [
  | inl due ↦ rw due (record {
    held =
        rw (holds-remove_id id j r.inner)
          (other (NoneDue-is_due id limit now r.timers l.undue lt) due);
    undue = NoneDue-drop_due id limit j now r.timers l.undue;
  })
  | inr idle ↦ rw idle l
]
  where
    other :
        is_due id now r.timers ≡ false
        → is_due j now r.timers ≡ true
        → (not (text_eq j id) && holds id r.inner) ≡ true
    other no_id due = elim (Bool-cases (text_eq j id)) [
      | inl same ↦
          absurd (cc (subst (λ k. is_due k now r.timers ≡ true) ((text_eq_iff j id).0 same) due))
      | inr apart ↦ rw apart l.held
    ]

-- Every event stands in the five seconds that begin at `start`.
abbrev pub AllWithin : ℕ → List (ℕ × Event) → Type 0
AllWithin start [] = Unit {0}
AllWithin start ((now, e) ∷ es) = (start ≤ now) × (now < start + expiry) × AllWithin start es

claims_of-cons :
    (id : Text) (now : ℕ) (e : Event) (es : List (ℕ × Event))
    → claims_of id ((now, e) ∷ es) ≡ claims_of id ((now, e) ∷ []) + claims_of id es
unfolding claims_of
claims_of-cons id now (issued j) es = omega arith
claims_of-cons id now (claimed j) es = omega arith
claims_of-cons id now (fired j) es = omega arith

run-IsLive :
    (id : Text) (start : ℕ) (es : List (ℕ × Event)) (r : WorkerRegistry)
    → claims_of id es ≡ 0
    → AllWithin start es
    → IsLive id (start + expiry) r
    → IsLive id (start + expiry) (run r es)
unfolding run
run-IsLive id start [] r z w l = l
run-IsLive id start ((now, e) ∷ es) r z (from, to, w) l =
    let parts = claims_of-cons id now e es in
    run-IsLive id start es (step r (now, e)) (omega arith) w
      (step-IsLive id (start + expiry) now e r (omega arith) to (omega arith) l)

-- A new token can be claimed during five seconds: whatever else happens in that time, if nobody has
-- claimed it yet, a claim succeeds. (No older timer of the same token is about to fire.)
pub live_token :
    (id : Text) (start : ℕ) (r : WorkerRegistry) (es : List (ℕ × Event))
    → NoneDue id (start + expiry) r.timers
    → claims_of id es ≡ 0
    → AllWithin start es
    → (claim id (run (issue id start r) es)).0 ≡ true
unfolding claim issue
live_token id start r es fresh z w =
    (run-IsLive id start es _ z w (record {
      held = rw (holds-insert_id id id r.inner) (rw (text_eq_refl id) refl);
      undue = ((λ _. omega arith), fresh);
    })).held

IsCovered : WorkerRegistry → Type 0
IsCovered r = (id : Text) → holds id r.inner ≡ true → has_timer id r.timers ≡ true

has_timer-drop_due :
    (id j : Text) (now : ℕ) (ts : List Timer)
    → text_eq j id ≡ false
    → has_timer id (drop_due j now ts) ≡ has_timer id ts
unfolding drop_due
has_timer-drop_due id j now [] h = refl
has_timer-drop_due id j now (t ∷ ts) h = ground (
  arith,
  text_eq_iff t.expire_id j,
  text_eq_iff t.expire_id id,
  text_eq_iff j id,
  has_timer-drop_due id j now ts h,
)

step-IsCovered : (r : WorkerRegistry) (e : ℕ × Event) → IsCovered r → IsCovered (step r e)
unfolding step issue claim expire IsCovered
step-IsCovered r (now, issued j) c id h =
    let h' = rw (holds-insert_id id j r.inner) at h in ground (arith, c id)
step-IsCovered r (now, claimed j) c id h =
    let h' = rw (holds-remove_id id j r.inner) at h in ground (arith, c id)
step-IsCovered r (now, fired j) c id h =
    ground (arith, c id, holds-remove_id id j r.inner, has_timer-drop_due id j now r.timers)

run-IsCovered : (r : WorkerRegistry) (es : List (ℕ × Event)) → IsCovered r → IsCovered (run r es)
unfolding run
run-IsCovered r [] c = c
run-IsCovered r (e ∷ es) c = run-IsCovered (step r e) es (step-IsCovered r e c)

-- In every history of a new registry a token that can still be claimed has a timer that will remove
-- it, so no token stays for ever.
claimable_has_timer :
    (es : List (ℕ × Event)) (id : Text)
    → (claim id (run new_registry es)).0 ≡ true
    → has_timer id (run new_registry es).timers ≡ true
unfolding claim IsCovered holds
claimable_has_timer es id h = run-IsCovered new_registry es (λ j k. cc) id h
