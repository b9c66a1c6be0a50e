-- ===== src/Server/Worker.antt =====
-- server/worker.rs: the registry of worker tokens. The task that `issue` spawns is a timer here; the
-- runtime decides when it fires, never before its deadline. Times are in milliseconds.
pub mod Tokens
pub mod Expiry
mod Tests
use vigil_collector.Prelude.{ℕ, ◌+◌, Bool, false, ◌&&◌, ◌||◌, List, [], ◌∷◌, leb, if◌then◌else◌}
use vigil_collector.Text.{Text, text_eq}

abbrev pub token_bytes : ℕ
token_bytes = 32

abbrev pub expiry : ℕ
expiry = 5000

-- A task of `issue` that sleeps until `deadline` and then removes `expire_id`.
pub record Timer : Type 0 where
  pub deadline : ℕ
  pub expire_id : Text

-- `inner` is the set of keys of the `HashMap`.
pub record WorkerRegistry : Type 0 where
  pub inner : List Text
  pub timers : List Timer

unfoldable pub holds : Text → List Text → Bool
holds id [] = false
holds id (j ∷ js) = text_eq j id || holds id js

-- `HashMap::insert` and `HashMap::remove`.
unfoldable pub insert_id : Text → List Text → List Text
unfolding holds
insert_id id ids = if holds id ids then ids else id ∷ ids

unfoldable pub remove_id : Text → List Text → List Text
remove_id id [] = []
remove_id id (j ∷ js) = let rest = remove_id id js in if text_eq j id then rest else j ∷ rest

abbrev pub new_registry : WorkerRegistry
new_registry = record { inner = []; timers = [] }

-- The random bytes and the base64 engine come from libraries.
unfoldable pub generate_id : (ℕ → List ℕ) → (List ℕ → Text) → Text
generate_id fill_bytes encode = encode (fill_bytes token_bytes)

-- `id` is what `generate_id` returned.
unfoldable pub issue : Text → ℕ → WorkerRegistry → WorkerRegistry
unfolding insert_id
issue id now r = record {
  inner = insert_id id r.inner;
  timers = record { deadline = now + expiry; expire_id = id } ∷ r.timers;
}

unfoldable pub claim : Text → WorkerRegistry → Bool × WorkerRegistry
unfolding holds remove_id
claim id r = (holds id r.inner, record r { inner = remove_id id r.inner })

-- Whether a timer of `id` is due, and the timers without the first such one.
unfoldable pub is_due : Text → ℕ → List Timer → Bool
is_due id now [] = false
is_due id now (t ∷ ts) = (text_eq t.expire_id id && leb t.deadline now) || is_due id now ts

unfoldable pub drop_due : Text → ℕ → List Timer → List Timer
drop_due id now [] = []
drop_due id now (t ∷ ts) =
    let rest = t ∷ drop_due id now ts in
    if text_eq t.expire_id id && leb t.deadline now then ts else rest

-- The rest of the spawned task, behind the sleep.
unfoldable pub expire : Text → ℕ → WorkerRegistry → WorkerRegistry
unfolding is_due drop_due remove_id
expire id now r =
    if is_due id now r.timers
    then record { inner = remove_id id r.inner; timers = drop_due id now r.timers }
    else r

-- What happens to a registry, in the order in which the lock is taken.
pub data Event : Type 0 where
  issued claimed fired : Text → Event

unfoldable pub step : WorkerRegistry → ℕ × Event → WorkerRegistry
unfolding issue claim expire
step r (now, issued id) = issue id now r
step r (now, claimed id) = (claim id r).1
step r (now, fired id) = expire id now r

unfoldable pub run : WorkerRegistry → List (ℕ × Event) → WorkerRegistry
unfolding step
run r [] = r
run r (e ∷ es) = run (step r e) es
