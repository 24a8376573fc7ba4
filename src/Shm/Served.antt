-- ===== src/Shm/Served.antt =====
-- How things stand in the runs in which no client ends.
use native.Mathlib.Decide.{ℕ_discrete}
use network_system_programmi.Prelude.{ℕ, ◌≡◌, inl, inr, refl, sym, subst, ◌∙◌}
use network_system_programmi.Dict.{Dictrec, Looked}
use network_system_programmi.Shm.{
  Progress, blocked, undefined, next, Shared, Phase, calling, holding, written, alerted, answered,
  released, returned, Client, client_at, Serving, waiting, server_at, System, Event, client, call,
  server, update, with_client, with_server, call_at, step, quit, alert_of, counted,
}
use network_system_programmi.Shm.Turns.{
  Leads, IsSegment, IsQuery, IsLookup, Outside, out_calling, out_returned, Asks, Outside-step,
  free-step, turn-step, server-step,
}
use network_system_programmi.Shm.Runs.{IsStaying, Reachable, initial, moved}
use network_system_programmi.Shm.Moves.{
  free, held, IsSound, outsider-IsSound, holder-IsSound, leaver-IsSound,
}

module _ (lookup : Dictrec → Looked) where
  with_client-Leads :
      (s : System) (i : ℕ) (P : Shared × Client → Type 0) (x : Progress (Shared × Client))
      → Leads P x
      → ((t : Shared) (c : Client)
          → P (t, c)
          → IsSound lookup (record s { shared = t; clients = update s.clients i c }))
      → Leads (IsSound lookup) (with_client s i x)
  unfolding with_client
  with_client-Leads s i P blocked l f = tt
  with_client-Leads s i P undefined l f = elim l [ ]
  with_client-Leads s i P (next (t, c)) l f = f t c l

  client-IsSound :
      (s : System) (i : ℕ)
      → IsSound lookup s
      → Leads
          (IsSound lookup)
          (with_client s i (client_at (s.clients i).phase (s.clients i).sought s.shared))
  client-IsSound s i sound = elim sound.order [
    | free m w v outs ↦
        with_client-Leads s i _ _
          (free-step lookup _ _ s.shared (outs i) (sound.asks i) sound.segment m w)
          (λ t c p. elim p.1 [
            | inl same ↦ outsider-IsSound lookup s i t c sound same.0 (outs i) same.1 p.0
            | inr took ↦
                holder-IsSound lookup s i t c sound took.1 took.0 (rw v took.2) (λ j ji. outs j) p.0
          ])
    | held k m turn outs ↦ elim (ℕ_discrete i k) [
      | yes e ↦
          with_client-Leads s i _ _
            (turn-step lookup _ s.serving _ s.shared (rw e turn) (sound.asks i) sound.segment m)
            (λ t c p. elim p.2 [
              | inl on ↦
                  holder-IsSound lookup s i t c sound p.1 on.0 on.1
                    (λ j ji. outs j (λ q. ji (q ∙ sym e))) p.0
              | inr off ↦
                  leaver-IsSound lookup s i t c sound p.1 off.0 off.1 off.2 off.3
                    (λ j ji. outs j (λ q. ji (q ∙ sym e))) p.0
            ])
      | no ne ↦
          with_client-Leads s i _ _
            (Outside-step _ _ s.shared (outs i ne) (sound.asks i) sound.segment m)
            (λ t c p. outsider-IsSound lookup s i t c sound p.0 (outs i ne) p.1 p.2)
    ]
  ]

  call-step :
      (p : Phase) (q : Dictrec) (s : Shared)
      → IsQuery q
      → Leads
          (λ x. (x.0 ≡ s) × Outside p × Outside x.1.phase × Asks x.1.phase x.1.sought)
          (call_at p q s)
  unfolding call_at
  call-step calling q s a = tt
  call-step holding q s a = tt
  call-step written q s a = tt
  call-step alerted q s a = tt
  call-step answered q s a = tt
  call-step released q s a = tt
  call-step (returned x) q s a = (refl, out_returned, out_calling, a)

  with_server-Leads :
      (s : System) (P : Shared × Serving → Type 0) (x : Progress (Shared × Serving))
      → Leads P x
      → ((t : Shared) (v : Serving)
          → P (t, v)
          → IsSound lookup (record s { shared = t; serving = v }))
      → Leads (IsSound lookup) (with_server s x)
  unfolding with_server
  with_server-Leads s P blocked l f = tt
  with_server-Leads s P undefined l f = elim l [ ]
  with_server-Leads s P (next (t, v)) l f = f t v l

  server_blocked : (s : Shared) → s.work ≡ 0 → server_at lookup waiting s ≡ blocked
  unfolding server_at
  server_blocked s w = rw w refl

  server-IsSound :
      (s : System)
      → IsLookup lookup
      → IsSound lookup s
      → Leads (IsSound lookup) (with_server s (server_at lookup s.serving s.shared))
  unfolding with_server
  server-IsSound s l sound = elim sound.order [
    | free m w v outs ↦ rw (v, server_blocked s.shared w) tt
    | held k m turn outs ↦
        with_server-Leads s _ _ (server-step lookup _ s.serving _ s.shared l turn sound.segment)
          (λ t v p. record { segment = p.1; asks = sound.asks; order = held k (p.0 ∙ m) p.2 outs })
  ]

  counted-IsSound :
      (s : System) (f : ℕ → ℕ) → IsSound lookup s → IsSound lookup (record s { undo = f })
  counted-IsSound s f sound = record {
    segment = sound.segment;
    asks = sound.asks;
    order = elim sound.order [
      | free m w v outs ↦ free m w v outs
      | held k m turn outs ↦ held k m turn outs
    ];
  }

  -- No step is undefined, and each keeps the protocol.
  pub step-IsSound :
      (e : Event) (s : System)
      → IsLookup lookup
      → IsStaying e
      → IsSound lookup s
      → Leads (IsSound lookup) (step lookup e s)
  unfolding step
  step-IsSound (client i) s l g sound =
      client-IsSound (record s { undo = counted s.undo i (alert_of (s.clients i).phase) }) i
        (counted-IsSound s _ sound)
  step-IsSound (call i q) s l g sound =
      with_client-Leads s i _ _ (call-step (s.clients i).phase q s.shared g)
        (λ t c p. outsider-IsSound lookup s i t c sound p.0 p.1 p.2 p.3)
  step-IsSound server s l g sound = server-IsSound s l sound
  step-IsSound (quit i) s l g sound = elim g [ ]

  pub Reachable-IsSound :
      (shm : Dictrec) (s : System)
      → IsLookup lookup
      → IsSegment shm
      → Reachable lookup IsStaying shm s
      → IsSound lookup s
  Reachable-IsSound shm _ l i initial = record {
    segment = i;
    asks = λ j. tt;
    order = free refl refl refl (λ j. out_returned);
  }
  Reachable-IsSound shm t l i (moved {s = s} e g r q) =
      subst (Leads (IsSound lookup)) q (step-IsSound e s l g (Reachable-IsSound shm s l i r))
