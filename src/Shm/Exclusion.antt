-- ===== src/Shm/Exclusion.antt =====
-- How many clients are between grab and release, whatever the order of the processes, and clients that
-- end.
use native.Mathlib.Decide.{ℕ_discrete}
use network_system_programmi.Prelude.{ℕ, ◌≡◌, ◌≢◌, inl, inr, refl, sym, subst, ◌∙◌, length}
use network_system_programmi.Prelude.Bytes.{Bytes}
use network_system_programmi.Dict.{Dictrec, Looked, word_size}
use network_system_programmi.Dict.Search.Correct.{IsDictionary}
use network_system_programmi.Shm.{
  Progress, blocked, undefined, next, Shared, Phase, calling, holding, written, alerted, answered,
  released, returned, Client, client_at, Serving, System, Event, client, call, server, quit, update,
  with_client, with_server, call_at, quit_at, step,
}
use network_system_programmi.Shm.Turns.{
  Leads, IsSegment, IsQuery, IsLookup, Outside, out_calling, out_returned, Outside-step,
}
use network_system_programmi.Shm.Runs.{IsGiven, Reachable, initial, moved}
use network_system_programmi.Shm.Orderly.{
  nobody, someone, Serves, IsOrderly, Outside-IsOrderly, Inside-IsOrderly, server_at_orderly,
  client_moved, stays_out, is_in, is_out,
}
use network_system_programmi.Shm.Search.{lookup_copied}
use network_system_programmi.Shm.Told.{lookup_copied-IsLookup}

client_goes :
    (s : System) (i : ℕ) (f : ℕ → ℕ) (P : Shared × Client → Type 0) (x : Progress (Shared × Client))
    → Leads P x
    → ((t : Shared) (c : Client)
        → P (t, c)
        → IsOrderly (record s { shared = t; clients = update s.clients i c; undo = f }))
    → Leads IsOrderly (with_client (record s { undo = f }) i x)
unfolding with_client
client_goes s i f P blocked l g = tt
client_goes s i f P undefined l g = elim l [ ]
client_goes s i f P (next (t, c)) l g = g t c l

client-IsOrderly :
    (s : System) (i : ℕ) (f : ℕ → ℕ)
    → IsOrderly s
    → Leads IsOrderly (
        with_client
          (record s { undo = f })
          i
          (client_at (s.clients i).phase (s.clients i).sought s.shared))
client-IsOrderly s i f o = elim o.holder [
  | nobody m outs ↦
      client_goes s i f _ _ (Outside-IsOrderly _ _ s.shared (outs i) (o.asks i) o.segment m)
        (λ t c p. elim p.1 [
          | inl same ↦
              client_moved s i t c f o (rw same.0 o.segment) p.0
                (stays_out s i t c f o.holder same.0 (outs i) same.1)
          | inr took ↦
              client_moved s i t c f o took.1 p.0 (is_in s i t c f took.0 took.2 (λ j ji. outs j))
        ])
  | someone k m inside outs ↦ elim (ℕ_discrete i k) [
    | yes e ↦
        client_goes s i f _ _ (Inside-IsOrderly _ _ s.shared (rw e inside) (o.asks i) o.segment m)
          (λ t c p.
            let others : (j : ℕ) → j ≢ i → Outside (s.clients j).phase =
              λ j ji. outs j (λ q. ji (q ∙ sym e)) in
            elim p.2 [
              | inl on ↦ client_moved s i t c f o p.1 p.0 (is_in s i t c f on.0 on.1 others)
              | inr off ↦ client_moved s i t c f o p.1 p.0 (is_out s i t c f off.0 off.1 others)
            ])
    | no ne ↦
        client_goes s i f _ _ (Outside-step _ _ s.shared (outs i ne) (o.asks i) o.segment m)
          (λ t c p.
            client_moved s i t c f o (rw p.0 o.segment) p.2
              (stays_out s i t c f o.holder p.0 (outs i ne) p.1))
  ]
]

call-IsOrderly :
    (s : System) (i : ℕ) (q : Dictrec) (p : Phase)
    → IsQuery q
    → (s.clients i).phase ≡ p
    → IsOrderly s
    → Leads IsOrderly (with_client s i (call_at p q s.shared))
unfolding call_at with_client
call-IsOrderly s i q calling g e o = tt
call-IsOrderly s i q holding g e o = tt
call-IsOrderly s i q written g e o = tt
call-IsOrderly s i q alerted g e o = tt
call-IsOrderly s i q answered g e o = tt
call-IsOrderly s i q released g e o = tt
call-IsOrderly s i q (returned a) g e o =
    client_moved s i s.shared (record { sought = q; phase = calling }) s.undo o o.segment g
      (stays_out s i s.shared (record { sought = q; phase = calling }) s.undo o.holder refl
        (rw e out_returned) out_calling)

server_goes :
    (s : System) (x : Progress (Shared × Serving))
    → IsOrderly s
    → Leads (λ y. (y.0.mutex ≡ s.shared.mutex) × IsSegment y.0.shm × Serves y.1) x
    → Leads IsOrderly (with_server s x)
unfolding with_server
server_goes s blocked o l = tt
server_goes s undefined o l = elim l [ ]
server_goes s (next (t, v)) o l = record {
  segment = l.1;
  asks = o.asks;
  serves = l.2;
  holder = elim o.holder [
    | nobody m outs ↦ nobody (l.0 ∙ m) outs
    | someone k m inside outs ↦ someone k (l.0 ∙ m) inside outs
  ];
}

quit-IsOrderly : (s : System) (i : ℕ) (p : Phase) → IsOrderly s → Leads IsOrderly (quit_at i p s)
unfolding quit_at
quit-IsOrderly s i calling o = tt
quit-IsOrderly s i holding o = tt
quit-IsOrderly s i written o = tt
quit-IsOrderly s i alerted o = tt
quit-IsOrderly s i answered o = tt
quit-IsOrderly s i released o = tt
quit-IsOrderly s i (returned a) o = record {
  segment = o.segment;
  asks = o.asks;
  serves = o.serves;
  holder = elim o.holder [
    | nobody m outs ↦ nobody m outs
    | someone k m inside outs ↦ someone k m inside outs
  ];
}

step-IsOrderly :
    (lookup : Dictrec → Looked) (e : Event) (s : System)
    → IsLookup lookup
    → IsGiven e
    → IsOrderly s
    → Leads IsOrderly (step lookup e s)
unfolding step
step-IsOrderly lookup (client i) s l g o = client-IsOrderly s i _ o
step-IsOrderly lookup (call i q) s l g o = call-IsOrderly s i q (s.clients i).phase g refl o
step-IsOrderly lookup server s l g o =
    server_goes s _ o (server_at_orderly lookup s.serving s.shared l o.segment o.serves)
step-IsOrderly lookup (quit i) s l g o = quit-IsOrderly s i (s.clients i).phase o

pub Reachable-IsOrderly :
    (lookup : Dictrec → Looked) (shm : Dictrec) (s : System)
    → IsLookup lookup
    → IsSegment shm
    → Reachable lookup IsGiven shm s
    → IsOrderly s
Reachable-IsOrderly lookup shm _ l i initial = record {
  segment = i;
  asks = λ j. tt;
  serves = tt;
  holder = nobody refl (λ j. out_returned);
}
Reachable-IsOrderly lookup shm t l i (moved {s = s} e g r q) =
    subst (Leads IsOrderly) q
      (step-IsOrderly lookup e s l g (Reachable-IsOrderly lookup shm s l i r))

-- On a dictionary in order, from a segment with its sizes whose strings are ended in their arrays,
-- with queries whose words are ended in theirs, and whatever the order of the steps, clients that
-- end between two queries included: at most one client is between grab and release.
pub exclusion :
    (file : Bytes) (temp shm : Dictrec) (s : System) (i j : ℕ)
    → IsDictionary file
    → length temp.word ≡ word_size
    → IsSegment shm
    → Reachable (lookup_copied file temp) IsGiven shm s
    → ¬ Outside (s.clients i).phase
    → ¬ Outside (s.clients j).phase
    → i ≡ j
exclusion file temp shm s i j d w g r a b =
    let o = Reachable-IsOrderly _ shm s (lookup_copied-IsLookup file temp d w) g r in
    elim o.holder [
      | nobody m outs ↦ absurd (a (outs i))
      | someone k m inside outs ↦ elim (ℕ_discrete i k) [
        | no ne ↦ absurd (a (outs i ne))
        | yes e ↦ elim (ℕ_discrete j k) [ yes e' ↦ e ∙ sym e' | no ne ↦ absurd (b (outs j ne)) ]
      ]
    ]
