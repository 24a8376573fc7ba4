-- ===== src/Shm/Moving.antt =====
-- Which process can move while a lookup is under way.
use network_system_programmi.Prelude.{
  ℕ, false, ◌==◌, length, ◌≡◌, ◌≢◌, ◌⊎◌, inl, inr, refl, Bool-cases,
}
use network_system_programmi.Prelude.Bytes.{Bytes, equal, cstr}
use network_system_programmi.Dict.{Answer, Dictrec, Looked, word_size}
use network_system_programmi.Dict.Remote.{missing}
use network_system_programmi.Shm.{
  Progress, blocked, undefined, next, Shared, Phase, returned, write_word, take_text, client_at,
  Serving, waiting, looking, notifying, stopped, alert_of, counted, replied, server_at, System,
  client, server, update, with_client, with_server, step,
}
use network_system_programmi.Shm.Turns.{
  IsSegment, IsLookup, Outside, out_calling, out_released, out_returned, Asks, copy_word-IsQuery,
  copy_text-IsSegment,
}
use network_system_programmi.Shm.Runs.{IsGiven, Reachable}
use network_system_programmi.Shm.Orderly.{
  Inside, in_holding, in_written, in_alerted, in_answered, nobody, someone, Serves,
}
use network_system_programmi.Shm.Exclusion.{Reachable-IsOrderly}
use network_system_programmi.Shm.Search.{lookup_copied}
use network_system_programmi.Shm.Told.{lookup_copied-IsLookup}
use network_system_programmi.Dict.Search.Correct.{IsDictionary}

abbrev Moves : {A : Type 0} → Progress A → Type 0
Moves blocked = ⊥
Moves undefined = ⊥
Moves (next a) = Unit

Moves-next : {A : Type 0} (x : Progress A) → Moves x → (a : A) × (x ≡ next a)
Moves-next blocked m = elim m [ ]
Moves-next undefined m = elim m [ ]
Moves-next (next a) m = (a, refl)

Outside-Moves :
    (p : Phase) (q : Dictrec) (s : Shared)
    → Outside p
    → ((a : Answer) → p ≢ returned a)
    → Asks p q
    → IsSegment s.shm
    → s.mutex ≡ 1
    → Moves (client_at p q s)
unfolding client_at take_text
Outside-Moves _ q s out_calling n a i m = rw m tt
Outside-Moves _ q s out_released n a i m = elim (Bool-cases (equal (cstr s.shm.text) missing)) [
  | inl e ↦ rw e tt
  | inr e ↦ let (t, copied) = copy_text-IsSegment q s.shm a i in rw (e, copied) tt
]
Outside-Moves _ q s (out_returned {a = x}) n a i m = absurd (n x refl)

serving-Moves :
    (lookup : Dictrec → Looked) (v : Serving) (s : Shared)
    → IsLookup lookup
    → IsSegment s.shm
    → Serves v
    → (s.work == 0) ≡ false
    → Moves (server_at lookup v s)
unfolding server_at replied
serving-Moves lookup waiting s l i r e = rw e tt
serving-Moves lookup looking s l i r e = let (t, done_it, fits) = l.served s.shm i in rw done_it tt
serving-Moves lookup notifying s l i r e = rw e tt
serving-Moves lookup (stopped n) s l i r e = elim r [ ]

Inside-Moves :
    (lookup : Dictrec → Looked) (p : Phase) (v : Serving) (q : Dictrec) (s : Shared)
    → IsLookup lookup
    → Inside p
    → Asks p q
    → IsSegment s.shm
    → Serves v
    → Moves (client_at p q s) ⊎ Moves (server_at lookup v s)
unfolding client_at write_word
Inside-Moves lookup _ v q s l in_holding a i r =
    let (t, copied, word, fits) = copy_word-IsQuery q s.shm a i in inl (rw copied tt)
Inside-Moves lookup _ v q s l in_written a i r = inl tt
Inside-Moves lookup _ v q s l in_alerted a i r = elim (Bool-cases (s.work == 0)) [
  | inl e ↦ inl (rw e tt)
  | inr e ↦ inr (serving-Moves lookup v s l i r e)
]
Inside-Moves lookup _ v q s l in_answered a i r = inl tt

client-Moves :
    (lookup : Dictrec → Looked) (s : System) (i : ℕ)
    → Moves (client_at (s.clients i).phase (s.clients i).sought s.shared)
    → (t : System) × (step lookup (client i) s ≡ next t)
unfolding step with_client
client-Moves lookup s i m =
    let ((t, c), e) = Moves-next (client_at (s.clients i).phase (s.clients i).sought s.shared) m in
    (
      record s {
        shared = t;
        clients = update s.clients i c;
        undo = counted s.undo i (alert_of (s.clients i).phase);
      },
      rw (step, e),
    )

server-Moves :
    (lookup : Dictrec → Looked) (s : System)
    → Moves (server_at lookup s.serving s.shared)
    → (t : System) × (step lookup server s ≡ next t)
unfolding step with_server
server-Moves lookup s m =
    let ((t, v), e) = Moves-next (server_at lookup s.serving s.shared) m in
    (record s { shared = t; serving = v }, rw (step, e))

-- On a dictionary in order, from a segment with its sizes whose strings are ended in their arrays,
-- with queries whose words are ended in theirs, and clients that end between two queries included:
-- while a client is in a call of lookup, the server or a client can take a step of its call.
pub moving :
    (file : Bytes) (temp shm : Dictrec) (s : System) (i : ℕ)
    → IsDictionary file
    → length temp.word ≡ word_size
    → IsSegment shm
    → Reachable (lookup_copied file temp) IsGiven shm s
    → ((a : Answer) → (s.clients i).phase ≢ returned a)
    → ((k : ℕ) × (t : System) × (step (lookup_copied file temp) (client k) s ≡ next t))
      ⊎ ((t : System) × (step (lookup_copied file temp) server s ≡ next t))
moving file temp shm s i d w g r n =
    let lookup = lookup_copied file temp in
    let l = lookup_copied-IsLookup file temp d w in
    let o = Reachable-IsOrderly lookup shm s l g r in
    elim o.holder [
      | nobody m outs ↦
          let (t, e) =
            client-Moves lookup s i
              (Outside-Moves _ _ s.shared (outs i) n (o.asks i) o.segment m) in
          inl (i, t, e)
      | someone k m inside outs ↦
          elim (Inside-Moves lookup _ s.serving _ s.shared l inside (o.asks k) o.segment o.serves) [
            | inl c ↦ let (t, e) = client-Moves lookup s k c in inl (k, t, e)
            | inr c ↦ inr (server-Moves lookup s c)
          ]
    ]
