-- ===== src/Shm/Schedule.antt =====
-- An order of the steps as a list.
use network_system_programmi.Prelude.{List, [], ◌∷◌, ◌≡◌, refl, All}
use network_system_programmi.Dict.{Dictrec, Looked}
use network_system_programmi.Shm.{Progress, blocked, undefined, next, System, Event, step}
use network_system_programmi.Shm.Runs.{Reachable, moved}

abbrev pub settle : System → (System → System) → Progress System → System
settle s f (next t) = f t
settle s f _ = s

-- The events one after the other, up to the first that cannot happen.
unfoldable pub run : (Dictrec → Looked) → List Event → System → System
run lookup [] s = s
run lookup (e ∷ es) s = settle s (λ t. run lookup es t) (step lookup e s)

settle-Reachable :
    (lookup : Dictrec → Looked) (ok : Event → Type 0) (shm : Dictrec) (e : Event) (es : List Event)
    (s : System)
    → ok e
    → Reachable lookup ok shm s
    → ((t : System) → Reachable lookup ok shm t → Reachable lookup ok shm (run lookup es t))
    → (x : Progress System) → step lookup e s ≡ x
    → Reachable lookup ok shm (settle s (λ t. run lookup es t) x)
settle-Reachable lookup ok shm e es s g r later (next t) q = later t (moved e g r q)
settle-Reachable lookup ok shm e es s g r later blocked q = r
settle-Reachable lookup ok shm e es s g r later undefined q = r

pub run-Reachable :
    (lookup : Dictrec → Looked) (ok : Event → Type 0) (shm : Dictrec) (es : List Event) (s : System)
    → All ok es
    → Reachable lookup ok shm s
    → Reachable lookup ok shm (run lookup es s)
unfolding run
run-Reachable lookup ok shm [] s g r = r
run-Reachable lookup ok shm (e ∷ es) s g r =
    settle-Reachable lookup ok shm e es s g.0 r (λ t m. run-Reachable lookup ok shm es t g.1 m)
      (step lookup e s) refl
