-- ===== src/Shm/Orderly.antt =====
-- How things stand in every run, with clients that end as well: semaphore 1 may then be reset.
use network_system_programmi.Prelude.{
  ℕ, ◌+◌, ◌≡◌, ◌≢◌, ◌⊎◌, inl, inr, refl, ◌∙◌, ap, ◌==◌, Bool-cases,
}
use network_system_programmi.Prelude.Bytes.{equal, cstr}
use network_system_programmi.Dict.{Dictrec, Looked}
use network_system_programmi.Dict.Remote.{missing}
use network_system_programmi.Shm.{
  Shared, Phase, holding, written, alerted, answered, Client, write_word, take_text, client_at,
  Serving, waiting, looking, notifying, stopped, replied, server_at, System, update,
}
use network_system_programmi.Shm.Turns.{
  Leads, IsSegment, IsLookup, Outside, out_calling, out_released, out_returned, Asks,
  copy_word-IsQuery, copy_text-IsSegment,
}
use network_system_programmi.Shm.Moves.{update_same, update_other, update_at}

-- A client between grab and release.
pub data Inside : Phase → Type 0 where
  in_holding : Inside holding
  in_written : Inside written
  in_alerted : Inside alerted
  in_answered : Inside answered

pub Inside-Outside : (p : Phase) → Inside p → Outside p → ⊥
Inside-Outside _ in_holding o = elim o [ ]
Inside-Outside _ in_written o = elim o [ ]
Inside-Outside _ in_alerted o = elim o [ ]
Inside-Outside _ in_answered o = elim o [ ]

-- Semaphore 0 is free, or one client is between grab and release.
pub data Holder (s : System) : Type 0 where
  nobody : s.shared.mutex ≡ 1 → ((j : ℕ) → Outside (s.clients j).phase) → Holder s
  someone :
      (i : ℕ)
      → s.shared.mutex ≡ 0
      → Inside (s.clients i).phase
      → ((j : ℕ) → j ≢ i → Outside (s.clients j).phase)
      → Holder s

-- The server has not ended.
abbrev pub Serves : Serving → Type 0
Serves (stopped n) = ⊥
Serves _ = Unit

pub record IsOrderly (s : System) : Type 0 where
  pub segment : IsSegment s.shared.shm
  pub asks : (j : ℕ) → Asks (s.clients j).phase (s.clients j).sought
  pub serves : Serves s.serving
  pub holder : Holder s

-- A client that is outside while semaphore 0 is 1.
pub Outside-IsOrderly :
    (p : Phase) (q : Dictrec) (s : Shared)
    → Outside p
    → Asks p q
    → IsSegment s.shm
    → s.mutex ≡ 1
    → Leads
        (λ x.
          Asks x.1.phase x.1.sought
          × (((x.0 ≡ s) × Outside x.1.phase)
              ⊎ ((x.0.mutex ≡ 0) × IsSegment x.0.shm × Inside x.1.phase)))
        (client_at p q s)
unfolding client_at take_text
Outside-IsOrderly _ q s out_calling a i m = rw m (a, inr (refl, i, in_holding))
Outside-IsOrderly _ q s out_released a i m = elim (Bool-cases (equal (cstr s.shm.text) missing)) [
  | inl e ↦ rw e (tt, inl (refl, out_returned))
  | inr e ↦
      let (t, copied) = copy_text-IsSegment q s.shm a i in
      rw (e, copied) (tt, inl (refl, out_returned))
]
Outside-IsOrderly _ q s out_returned a i m = tt

-- The client between grab and release stays there, or gives semaphore 0 back.
pub Inside-IsOrderly :
    (p : Phase) (q : Dictrec) (s : Shared)
    → Inside p
    → Asks p q
    → IsSegment s.shm
    → s.mutex ≡ 0
    → Leads
        (λ x.
          Asks x.1.phase x.1.sought
          × IsSegment x.0.shm
          × (((x.0.mutex ≡ 0) × Inside x.1.phase) ⊎ ((x.0.mutex ≡ 1) × Outside x.1.phase)))
        (client_at p q s)
unfolding client_at write_word
Inside-IsOrderly _ q s in_holding a i m =
    let (r, copied, word, fits) = copy_word-IsQuery q s.shm a i in
    rw copied (a, fits, inl (m, in_written))
Inside-IsOrderly _ q s in_written a i m = (a, i, inl (m, in_alerted))
Inside-IsOrderly _ q s in_alerted a i m = elim (Bool-cases (s.work == 0)) [
  | inl e ↦ rw e (a, i, inl (m, in_answered))
  | inr e ↦ rw e tt
]
Inside-IsOrderly _ q s in_answered a i m = (a, i, inr (ap (λ n. n + 1) m, out_released))

pub server_at_orderly :
    (lookup : Dictrec → Looked) (v : Serving) (s : Shared)
    → IsLookup lookup
    → IsSegment s.shm
    → Serves v
    → Leads (λ x. (x.0.mutex ≡ s.mutex) × IsSegment x.0.shm × Serves x.1) (server_at lookup v s)
unfolding server_at replied
server_at_orderly lookup waiting s l i r = elim (Bool-cases (s.work == 0)) [
  | inl e ↦ rw e tt
  | inr e ↦ rw e (refl, i, tt)
]
server_at_orderly lookup looking s l i r =
    let (t, done_it, fits) = l.served s.shm i in rw done_it (refl, fits, tt)
server_at_orderly lookup notifying s l i r = elim (Bool-cases (s.work == 0)) [
  | inl e ↦ rw e tt
  | inr e ↦ rw e (refl, i, tt)
]
server_at_orderly lookup (stopped n) s l i r = tt

-- A client that moves, with what its step says of semaphore 0.
pub client_moved :
    (s : System) (i : ℕ) (t : Shared) (c : Client) (f : ℕ → ℕ)
    → IsOrderly s
    → IsSegment t.shm
    → Asks c.phase c.sought
    → Holder (record s { shared = t; clients = update s.clients i c; undo = f })
    → IsOrderly (record s { shared = t; clients = update s.clients i c; undo = f })
client_moved s i t c f o segment asks holder = record {
  segment = segment;
  asks = λ j. update_at (λ d. Asks d.phase d.sought) s.clients i c j asks (λ ne. o.asks j);
  serves = o.serves;
  holder = holder;
}

module _ (s : System) (i : ℕ) (t : Shared) (c : Client) (f : ℕ → ℕ) where
  pub stays_out :
      Holder s
      → t ≡ s.shared
      → Outside (s.clients i).phase
      → Outside c.phase
      → Holder (record s { shared = t; clients = update s.clients i c; undo = f })
  stays_out (nobody m outs) e was is =
      nobody (ap (λ x. x.mutex) e ∙ m)
        (λ j. update_at (λ d. Outside d.phase) s.clients i c j is (λ ne. outs j))
  stays_out (someone k m inside outs) e was is =
      let ki : k ≢ i = λ q. Inside-Outside _ inside (rw q was) in
      someone k (ap (λ x. x.mutex) e ∙ m) (rw (update_other s.clients i k c ki) inside)
        (λ j jk. update_at (λ d. Outside d.phase) s.clients i c j is (λ ne. outs j jk))

  pub is_in :
      t.mutex ≡ 0
      → Inside c.phase
      → ((j : ℕ) → j ≢ i → Outside (s.clients j).phase)
      → Holder (record s { shared = t; clients = update s.clients i c; undo = f })
  is_in m inside outs =
      someone i m (rw (update_same s.clients i c) inside)
        (λ j ji. rw (update_other s.clients i j c ji) (outs j ji))

  pub is_out :
      t.mutex ≡ 1
      → Outside c.phase
      → ((j : ℕ) → j ≢ i → Outside (s.clients j).phase)
      → Holder (record s { shared = t; clients = update s.clients i c; undo = f })
  is_out m is outs =
      nobody m (λ j. update_at (λ d. Outside d.phase) s.clients i c j is (λ ne. outs j ne))
