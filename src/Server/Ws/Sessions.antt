-- ===== src/Server/Ws/Sessions.antt =====
-- server/ws.rs: the count of sessions and its limit.
use vigil_collector.Prelude.{
  ℕ, ◌+◌, ◌%◌, ◌^◌, ◌≤◌, ◌<◌, ◌≡◌, refl, ◌∙◌, subst, ◌≢◌, Option, some, List, [], ◌∷◌, ◌++◌, arith,
  length, All,
}
use vigil_collector.Text.{Text}
use vigil_collector.Text.Laws.{text_eq_refl}
use vigil_collector.Server.Worker.{WorkerRegistry, claim, issue, new_registry}
use vigil_collector.Server.Worker.Tokens.{holds-insert_id}
use vigil_collector.Server.Ws.{
  AppState, Admission, bad_request, forbidden, service_unavailable, upgrade, or_empty, connect,
  session_start, session_end, Server, Event, issues, expires, connects, starts, drops, ends,
  admitted, step, run, new_server,
}

-- `active_ws` counts the running sessions.
abbrev IsCounted : Server → Type 0
IsCounted s = s.app.active_ws ≡ s.running % 2 ^ 64

connect-active : (q : Option Text) (s : AppState) → (connect q s).1.active_ws ≡ s.active_ws
unfolding connect
connect-active q s = ground arith

admitted-IsCounted :
    (s : Server) (r : Admission × AppState)
    → r.1.active_ws ≡ s.app.active_ws
    → IsCounted s
    → IsCounted (admitted s r)
unfolding admitted
admitted-IsCounted s (bad_request, t) e c = e ∙ c
admitted-IsCounted s (forbidden, t) e c = e ∙ c
admitted-IsCounted s (service_unavailable, t) e c = e ∙ c
admitted-IsCounted s (upgrade, t) e c = e ∙ c

step-IsCounted : (s : Server) (e : Event) → IsCounted s → IsCounted (step s e)
unfolding step session_start session_end
step-IsCounted s (issues now id) c = c
step-IsCounted s (expires now id) c = c
step-IsCounted s (connects q) c = admitted-IsCounted s (connect q s.app) (connect-active q s.app) c
step-IsCounted s starts c = ground arith
step-IsCounted s drops c = c
step-IsCounted s ends c = ground arith

run-IsCounted : (s : Server) (es : List Event) → IsCounted s → IsCounted (run s es)
unfolding run
run-IsCounted s [] c = c
run-IsCounted s (e ∷ es) c = run-IsCounted (step s e) es (step-IsCounted s e c)

-- In every history of a new server the shared count is the number of running sessions, modulo the
-- width of the counter: each session adds one and takes one away.
pub active_ws-eq-running :
    (workers : WorkerRegistry) (max : ℕ) (es : List Event)
    → let s = run (new_server workers max) es in s.app.active_ws ≡ s.running % 2 ^ 64
unfolding new_server
active_ws-eq-running workers max es = run-IsCounted _ es refl

-- A history in which every upgrade completes before the next event.
pub data Serial : Type 0 where
  issues_one : ℕ → Text → Serial
  expires_one : ℕ → Text → Serial
  opens : Option Text → Serial
  closes : Serial

unfoldable pub serialised : List Serial → List Event
serialised [] = []
serialised (issues_one now id ∷ es) = issues now id ∷ serialised es
serialised (expires_one now id ∷ es) = expires now id ∷ serialised es
serialised (opens q ∷ es) = connects q ∷ starts ∷ serialised es
serialised (closes ∷ es) = ends ∷ serialised es

record IsWithin (max : ℕ) (s : Server) : Type 0 where
  limit : s.app.max_ws_connections ≡ max
  settled : s.upgrading ≡ 0
  counted : s.app.active_ws ≡ s.running
  within : s.running ≤ max

open-IsWithin :
    (max : ℕ) (q : Option Text) (s : Server)
    → max < 2 ^ 64
    → IsWithin max s
    → IsWithin max (step (step s (connects q)) starts)
unfolding step connect admitted session_start
open-IsWithin max q s small w = ground arith

serialised-IsWithin :
    (max : ℕ) (es : List Serial) (s : Server)
    → max < 2 ^ 64
    → IsWithin max s
    → IsWithin max (run s (serialised es))
unfolding serialised run
serialised-IsWithin max [] s small w = w
serialised-IsWithin max (issues_one now id ∷ es) s small w = serialised-IsWithin max es _ small (
    unfold step in
    record { limit = w.limit; settled = w.settled; counted = w.counted; within = w.within })
serialised-IsWithin max (expires_one now id ∷ es) s small w = serialised-IsWithin max es _ small (
    unfold step in
    record { limit = w.limit; settled = w.settled; counted = w.counted; within = w.within })
serialised-IsWithin max (opens q ∷ es) s small w =
    serialised-IsWithin max es _ small (open-IsWithin max q s small w)
serialised-IsWithin max (closes ∷ es) s small w =
    serialised-IsWithin max es _ small (unfold step session_end in ground arith)

-- If each upgrade completes before the next request, there are never more sessions than the limit.
pub serial_within_limit :
    (workers : WorkerRegistry) (max : ℕ) (es : List Serial)
    → max < 2 ^ 64
    → (run (new_server workers max) (serialised es)).running ≤ max
unfolding new_server
serial_within_limit workers max es small =
    (serialised-IsWithin max es _ small
      (record { limit = refl; settled = refl; counted = refl; within = omega arith })).within

-- Clients that each get a token and connect with it, before any upgrade completes; then all complete.
unfoldable pub requests : List Text → List Event
requests [] = []
requests (id ∷ ids) = issues 0 id ∷ connects (some id) ∷ requests ids

unfoldable pub completions : List Text → List Event
completions [] = []
completions (id ∷ ids) = starts ∷ completions ids

run-append : (s : Server) (xs ys : List Event) → run s (xs ++ ys) ≡ run (run s xs) ys
unfolding run
run-append s [] ys = refl
run-append s (x ∷ xs) ys = run-append (step s x) xs ys

record IsFlooded (max k : ℕ) (s : Server) : Type 0 where
  limit : s.app.max_ws_connections ≡ max
  waiting : s.upgrading ≡ k
  none_yet : s.running ≡ 0
  inactive : s.app.active_ws ≡ 0

request-IsFlooded :
    (max k : ℕ) (c : ℕ) (id : Text) (s : Server)
    → 0 < max
    → IsFlooded max k s
    → IsFlooded max (k + 1) (step (step s (issues 0 (c ∷ id))) (connects (some (c ∷ id))))
unfolding step connect admitted or_empty claim issue
request-IsFlooded max k c id s pos w =
    let own = holds-insert_id (c ∷ id) (c ∷ id) s.app.workers.inner in
    ground (arith, own, text_eq_refl (c ∷ id))

requests-IsFlooded :
    (max k : ℕ) (ids : List Text) (s : Server)
    → 0 < max
    → All (λ id. id ≢ []) ids
    → IsFlooded max k s
    → IsFlooded max (k + length ids) (run s (requests ids))
unfolding requests run
requests-IsFlooded max k [] s pos h w = ground arith
requests-IsFlooded max k ([] ∷ ids) s pos (h, hs) w = absurd (h refl)
requests-IsFlooded max k ((c ∷ id) ∷ ids) s pos (h, hs) w =
    let later =
      requests-IsFlooded max (k + 1) ids _ pos hs (request-IsFlooded max k c id s pos w) in
    subst (λ n. IsFlooded max n (run s (requests ((c ∷ id) ∷ ids)))) (omega arith) later

completions-running :
    (ids : List Text) (s : Server)
    → length ids ≤ s.upgrading
    → (run s (completions ids)).running ≡ s.running + length ids
unfolding completions run
completions-running [] s h = omega arith
completions-running (id ∷ ids) s h =
    let later = completions-running ids (step s starts) in unfold step in ground (arith, later)

-- The limit is not kept in general: whatever limit above 0 is set, any number of clients whose
-- requests all arrive before the first upgrade completes get a session each.
pub limit_overrun :
    (max : ℕ) (ids : List Text)
    → 0 < max
    → All (λ id. id ≢ []) ids
    → (run (new_server new_registry max) (requests ids ++ completions ids)).running ≡ length ids
unfolding new_server
limit_overrun max ids pos h =
    let w =
      requests-IsFlooded max 0 ids (new_server new_registry max) pos h
        (record { limit = refl; waiting = refl; none_yet = refl; inactive = refl }) in
    run_completions w
  where
    run_completions :
        IsFlooded max (0 + length ids) (run (new_server new_registry max) (requests ids))
        → (run (new_server new_registry max) (requests ids ++ completions ids)).running ≡ length ids
    run_completions w =
        let done =
          completions-running ids (run (new_server new_registry max) (requests ids))
            (omega (arith, w.waiting)) in
        rw (run-append (new_server new_registry max) (requests ids) (completions ids))
          (omega (arith, done, w.none_yet))
