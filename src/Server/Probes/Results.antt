-- ===== src/Server/Probes/Results.antt =====
-- server/probes.rs: what a pass reports of each probe.
use vigil_collector.Prelude.{
  ℕ, ◌%◌, ◌^◌, ◌≤◌, ◌<◌, ◌≡◌, refl, sym, ap, ◌∙◌, subst, ◌↔◌, ◌⊎◌, inl, inr, Bool, true, false,
  ◌&&◌, none, some, List, [], ◌∷◌, map, arith, ltb, leb, ◌==◌, if◌then◌else◌, ==_iff,
}
use vigil_collector.Text.{Text}
use vigil_collector.Config.{Probe}
use vigil_collector.Server.Probes.{
  ProbeResult, head, get, Reply, answered, errored, Client, or_second, last_reply, to_result,
  probe_one, not_built, run_with,
}

-- A url is up if its HEAD is answered by a success or a redirect, or by 405 and then its GET by such a
-- code.
abbrev pub IsUp : Reply → Reply → Type 0
IsUp by_head by_get =
    (code : ℕ) × ((by_head ≡ answered code) ⊎ ((by_head ≡ answered 405) × (by_get ≡ answered code)))
    × (200 ≤ code)
    × (code < 400)

-- A result that belongs to its probe, and whose `ok` says whether the url is up.
abbrev pub Reports : Client → Probe → ProbeResult → Type 0
Reports client p r =
    (r.name ≡ p.name)
    × (r.url ≡ p.url)
    × ((r.ok ≡ true) ↔ IsUp (client.send head p.url) (client.send get p.url))

-- Two lists of one length, related item by item.
abbrev pub Pointwise : {A B : Type 0} → (A → B → Type 0) → List A → List B → Type 0
Pointwise rel [] [] = Unit
Pointwise rel (x ∷ xs) (y ∷ ys) = rel x y × Pointwise rel xs ys
Pointwise rel [] (y ∷ ys) = ⊥
Pointwise rel (x ∷ xs) [] = ⊥

Pointwise-map :
    {A B : Type 0} (rel : A → B → Type 0) (f : A → B) (xs : List A)
    → ((x : A) → rel x (f x))
    → Pointwise rel xs (map f xs)
Pointwise-map rel f [] h = tt
Pointwise-map rel f (x ∷ xs) h = (h x, Pointwise-map rel f xs h)

in_range : (code : ℕ) → (leb 200 code && ltb code 400) ≡ true → (200 ≤ code) × (code < 400)
in_range code h = ground arith

of_range : (code : ℕ) → 200 ≤ code → code < 400 → (leb 200 code && ltb code 400) ≡ true
of_range code lo hi = ground arith

not_denied : (code : ℕ) → code < 400 → (code == 405) ≡ false
not_denied code hi = ground arith

abbrev is_ok : Reply → Bool
is_ok (answered code) = leb 200 code && ltb code 400
is_ok (errored status e) = false

to_result_lem :
    (name url : Text) (latency : ℕ) (r : Reply)
    → let res = to_result name url latency r in
      (res.name ≡ name) × (res.url ≡ url) × (res.ok ≡ is_ok r)
unfolding to_result
to_result_lem name url latency (answered code) = (refl, refl, refl)
to_result_lem name url latency (errored status e) = (refl, refl, refl)

ok-IsUp : (first second : Reply) → is_ok (or_second second first) ≡ true → IsUp first second
unfolding or_second
ok-IsUp (answered code) second h = go (code == 405) refl second h
  where
    go :
        (b : Bool)
        → (code == 405) ≡ b
        → (second' : Reply) → is_ok (if b then second' else answered code) ≡ true
        → IsUp (answered code) second'
    go true d (answered c) k =
        (c, inr (ap answered ((==_iff code 405).0 d), refl), (in_range c k).0, (in_range c k).1)
    go true d (errored status e) k = absurd (cc)
    go false d second' k = (code, inl refl, (in_range code k).0, (in_range code k).1)
ok-IsUp (errored status e) second h = absurd (cc)

IsUp-ok : (first second : Reply) → IsUp first second → is_ok (or_second second first) ≡ true
unfolding or_second
IsUp-ok first second (code, inl e, lo, hi) = rw (e, not_denied code hi) (of_range code lo hi)
IsUp-ok first second (code, inr (denied, e), lo, hi) = rw (denied, e) (of_range code lo hi)

probe_one-Reports : (client : Client) (p : Probe) → Reports client p (probe_one client p)
unfolding probe_one last_reply
probe_one-Reports client p = (
  same.0,
  same.1,
  (λ h. ok-IsUp first second (sym same.2 ∙ h), λ up. same.2 ∙ IsUp-ok first second up),
)
  where
    first : Reply
    first = client.send head p.url

    second : Reply
    second = client.send get p.url

    latency : ℕ
    latency = client.elapsed p.url % 2 ^ 64

    same :
        let res = to_result p.name p.url latency (or_second second first) in
        (res.name ≡ p.name) × (res.url ≡ p.url) × (res.ok ≡ is_ok (or_second second first))
    same = to_result_lem p.name p.url latency (or_second second first)

-- Where a client can be built, a pass reports on every probe of the settings, once and in their order,
-- under its name and url, and a probe is reported as ok exactly if it is up: its HEAD is answered by a
-- code from 200 to 399, or by 405 and then its GET by such a code.
pub run_with-Reports :
    (client : Client) (timeout : ℕ) (probes : List Probe)
    → client.build_error timeout ≡ none
    → Pointwise (Reports client) probes (run_with client timeout probes)
unfolding run_with
run_with-Reports client timeout probes built =
    subst
      (λ o.
        Pointwise (Reports client) probes
          (elim o [ some e ↦ map (not_built e) probes | none ↦ map (probe_one client) probes ]))
      (sym built)
      (Pointwise-map (Reports client) (probe_one client) probes (probe_one-Reports client))
