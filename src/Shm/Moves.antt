-- ===== src/Shm/Moves.antt =====
-- The state of the protocol, and how a client that moves keeps it.
use native.Mathlib.Decide.{ℕ_discrete}
use network_system_programmi.Prelude.{
  ℕ, ◌≡◌, ◌≢◌, inl, inr, refl, ◌∙◌, ap, ◌==◌, ==_iff, Bool-cases,
}
use network_system_programmi.Dict.{Dictrec, Looked}
use network_system_programmi.Shm.{Shared, Phase, Client, Serving, waiting, System, update}
use network_system_programmi.Shm.Turns.{
  IsSegment, Outside, out_calling, out_released, out_returned, Asks, Turn,
}

-- The semaphores are free and the server waits, or one client is between grab and release.
pub data Order (lookup : Dictrec → Looked) (s : System) : Type 0 where
  free :
      s.shared.mutex ≡ 1
      → s.shared.work ≡ 0
      → s.serving ≡ waiting
      → ((j : ℕ) → Outside (s.clients j).phase)
      → Order lookup s
  held :
      (i : ℕ)
      → s.shared.mutex ≡ 0
      → Turn lookup s.shared (s.clients i).sought (s.clients i).phase s.serving
      → ((j : ℕ) → j ≢ i → Outside (s.clients j).phase)
      → Order lookup s

pub record IsSound (lookup : Dictrec → Looked) (s : System) : Type 0 where
  pub segment : IsSegment s.shared.shm
  pub asks : (j : ℕ) → Asks (s.clients j).phase (s.clients j).sought
  pub order : Order lookup s

pub update_same : (f : ℕ → Client) (i : ℕ) (c : Client) → update f i c i ≡ c
unfolding update
update_same f i c = rw (==_iff i i).1 refl

pub update_other : (f : ℕ → Client) (i j : ℕ) (c : Client) → j ≢ i → update f i c j ≡ f j
unfolding update
update_other f i j c ne = elim (Bool-cases (j == i)) [
  | inl e ↦ absurd (ne ((==_iff j i).0 e))
  | inr e ↦ rw e
]

pub update_at :
    (P : Client → Type 0) (f : ℕ → Client) (i : ℕ) (c : Client) (j : ℕ)
    → P c
    → (j ≢ i → P (f j))
    → P (update f i c j)
update_at P f i c j now before = elim (ℕ_discrete j i) [
  | yes e ↦ rw (e, update_same f i c) now
  | no ne ↦ rw (update_other f i j c ne) (before ne)
]

pub Turn-inside :
    (lookup : Dictrec → Looked) (s : Shared) (q : Dictrec) (p : Phase) (v : Serving)
    → Turn lookup s q p v
    → Outside p
    → ⊥
Turn-inside lookup s q _ v t out_calling = elim t [ ]
Turn-inside lookup s q _ v t out_released = elim t [ ]
Turn-inside lookup s q _ v t out_returned = elim t [ ]

module _ (lookup : Dictrec → Looked) where
  -- A client that is outside moves to a place outside, and the shared state is as it was.
  pub outsider-IsSound :
      (s : System) (i : ℕ) (t : Shared) (c : Client)
      → IsSound lookup s
      → t ≡ s.shared
      → Outside (s.clients i).phase
      → Outside c.phase
      → Asks c.phase c.sought
      → IsSound lookup (record s { shared = t; clients = update s.clients i c })
  outsider-IsSound s i t c sound e was is asks = record {
    segment = rw e sound.segment;
    asks = λ j. update_at (λ d. Asks d.phase d.sought) s.clients i c j asks (λ ne. sound.asks j);
    order = elim sound.order [
      | free m w v outs ↦
          free (ap (λ x. x.mutex) e ∙ m) (ap (λ x. x.work) e ∙ w) v
            (λ j. update_at (λ d. Outside d.phase) s.clients i c j is (λ ne. outs j))
      | held k m turn outs ↦
          let ki : k ≢ i = λ q. Turn-inside lookup _ _ _ _ turn (rw q was) in
          held k (ap (λ x. x.mutex) e ∙ m) (rw (update_other s.clients i k c ki, e) turn)
            (λ j jk. update_at (λ d. Outside d.phase) s.clients i c j is (λ ne. outs j jk))
    ];
  }

  -- The client that takes the turn, or moves on in it.
  pub holder-IsSound :
      (s : System) (i : ℕ) (t : Shared) (c : Client)
      → IsSound lookup s
      → IsSegment t.shm
      → t.mutex ≡ 0
      → Turn lookup t c.sought c.phase s.serving
      → ((j : ℕ) → j ≢ i → Outside (s.clients j).phase)
      → Asks c.phase c.sought
      → IsSound lookup (record s { shared = t; clients = update s.clients i c })
  holder-IsSound s i t c sound segment m turn outs asks = record {
    segment = segment;
    asks = λ j. update_at (λ d. Asks d.phase d.sought) s.clients i c j asks (λ ne. sound.asks j);
    order =
        held i m (rw (update_same s.clients i c) turn)
          (λ j ji. rw (update_other s.clients i j c ji) (outs j ji));
  }

  -- The client that gives the turn back.
  pub leaver-IsSound :
      (s : System) (i : ℕ) (t : Shared) (c : Client)
      → IsSound lookup s
      → IsSegment t.shm
      → t.mutex ≡ 1
      → t.work ≡ 0
      → s.serving ≡ waiting
      → Outside c.phase
      → ((j : ℕ) → j ≢ i → Outside (s.clients j).phase)
      → Asks c.phase c.sought
      → IsSound lookup (record s { shared = t; clients = update s.clients i c })
  leaver-IsSound s i t c sound segment m w v is outs asks = record {
    segment = segment;
    asks = λ j. update_at (λ d. Asks d.phase d.sought) s.clients i c j asks (λ ne. sound.asks j);
    order = free m w v (λ j. update_at (λ d. Outside d.phase) s.clients i c j is (λ ne. outs j ne));
  }
