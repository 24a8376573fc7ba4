-- ===== src/Shm/Turns.antt =====
-- Whose turn it is: what the segment and the semaphores say when a client is between grab and
-- release, and what one step of a client or of the server does to that.
use network_system_programmi.Prelude.{
  ℕ, suc, ◌+◌, ◌<◌, ◌∷◌, ◌++◌, some, ◌≡◌, ◌⊎◌, inl, inr, refl, ap, arith, lt→ltb, length, drop,
  length-append, length-drop, append_assoc, Bool-cases,
}
use network_system_programmi.Prelude.Bytes.{equal, cstr}
use network_system_programmi.Prelude.Order.{cstr-append}
use network_system_programmi.Machine.{done}
use network_system_programmi.Dict.{
  Answer, Dictrec, Looked, word_of, word_size, text_size, strcpy, string_in, copy_text,
}
use network_system_programmi.Dict.Remote.{missing, answer}
use network_system_programmi.Shm.{
  Progress, blocked, undefined, next, Shared, Phase, calling, holding, written, alerted, answered,
  released, returned, copy_word, write_word, take_text, client_at, Serving, waiting, looking,
  notifying, replied, server_at,
}

-- A step is defined, and what it leads to has the property.
abbrev pub Leads : {A : Type 0} → (A → Type 0) → Progress A → Type 0
Leads P blocked = Unit
Leads P undefined = ⊥
Leads P (next a) = P a

-- The segment has its size, and both strings are ended in their arrays.
pub record IsSegment (r : Dictrec) : Type 0 where
  pub word_room : length r.word ≡ word_size
  pub word_ended : length (word_of r) < word_size
  pub text_room : length r.text ≡ text_size
  pub ended : length (cstr r.text) < text_size

-- A query: its word is ended in its array, and its text has its size.
pub record IsQuery (q : Dictrec) : Type 0 where
  pub short : length (word_of q) < word_size
  pub room : length q.text ≡ text_size

-- What the server needs of lookup: every segment is answered, by a segment again.
pub record IsLookup (lookup : Dictrec → Looked) : Type 0 where
  pub served :
      (k : Dictrec) → IsSegment k → (r : Dictrec) × (answer (lookup k) ≡ done r) × IsSegment r

-- A client that is not between grab and release.
pub data Outside : Phase → Type 0 where
  out_calling : Outside calling
  out_released : Outside released
  out_returned : {a : Answer} → Outside (returned a)

-- A client in a call has a query.
abbrev pub Asks : Phase → Dictrec → Type 0
Asks (returned a) q = Unit
Asks _ q = IsQuery q

-- The segment holds the reply to the word of a query.
abbrev pub Replied : (Dictrec → Looked) → Dictrec → Dictrec → Type 0
Replied lookup r q =
    (k : Dictrec) × IsSegment k × (word_of k ≡ word_of q) × (answer (lookup k) ≡ done r)

-- How things stand when a client is between grab and release.
pub data Turn (lookup : Dictrec → Looked) (s : Shared) (q : Dictrec)
    : Phase → Serving → Type 0 where
  grabbed : s.work ≡ 0 → Turn lookup s q holding waiting
  worded : s.work ≡ 0 → word_of s.shm ≡ word_of q → Turn lookup s q written waiting
  asked : s.work ≡ 2 → word_of s.shm ≡ word_of q → Turn lookup s q alerted waiting
  searching : s.work ≡ 1 → word_of s.shm ≡ word_of q → Turn lookup s q alerted looking
  searched : s.work ≡ 1 → Replied lookup s.shm q → Turn lookup s q alerted notifying
  notified : s.work ≡ 0 → Replied lookup s.shm q → Turn lookup s q alerted waiting
  awaited : s.work ≡ 0 → Replied lookup s.shm q → Turn lookup s q answered waiting

pub copy_word-IsQuery :
    (q r : Dictrec)
    → IsQuery q
    → IsSegment r
    → (t : Dictrec) × (copy_word q r ≡ some t) × (word_of t ≡ word_of q) × IsSegment t
unfolding copy_word strcpy
copy_word-IsQuery q r iq ir =
    let w = word_of q ++ (0 ∷ drop (suc (length (word_of q))) r.word) in
    let same : word_of (record r { word = w }) ≡ word_of q =
      rw (append_assoc (word_of q) (0 ∷ drop (suc (length (word_of q))) r.word) r.text)
        (cstr-append (q.word ++ q.text) (drop (suc (length (word_of q))) r.word ++ r.text)) in
    (
      record r { word = w },
      rw (copy_word, lt→ltb (length (word_of q)) (length r.word) (rw ir.word_room iq.short)),
      same,
      record {
        word_room = omega (
          arith,
          iq.short,
          ir.word_room,
          length-append (word_of q) (0 ∷ drop (suc (length (word_of q))) r.word),
          length-drop (suc (length (word_of q))) r.word,
        );
        word_ended = omega (arith, iq.short, ap (length {A = ℕ}) same);
        text_room = ir.text_room;
        ended = ir.ended;
      },
    )

pub copy_text-IsSegment :
    (q r : Dictrec) → IsQuery q → IsSegment r → (t : Dictrec) × (copy_text q r ≡ some t)
unfolding copy_text strcpy string_in
copy_text-IsSegment q r iq ir = (
  record q { text = cstr r.text ++ (0 ∷ drop (suc (length (cstr r.text))) q.text) },
  rw (
    copy_text,
    lt→ltb (length (cstr r.text)) (length r.text) (rw ir.text_room ir.ended),
    lt→ltb (length (cstr r.text)) (length q.text) (rw iq.room ir.ended),
  ),
)

-- A client that is outside and finds semaphore 0 taken changes nothing but itself.
pub Outside-step :
    (p : Phase) (q : Dictrec) (s : Shared)
    → Outside p
    → Asks p q
    → IsSegment s.shm
    → s.mutex ≡ 0
    → Leads (λ x. (x.0 ≡ s) × Outside x.1.phase × Asks x.1.phase x.1.sought) (client_at p q s)
unfolding client_at take_text
Outside-step _ q s out_calling a i m = rw m tt
Outside-step _ q s out_released a i m = elim (Bool-cases (equal (cstr s.shm.text) missing)) [
  | inl e ↦ rw e (refl, out_returned, tt)
  | inr e ↦
      let (t, copied) = copy_text-IsSegment q s.shm a i in rw (e, copied) (refl, out_returned, tt)
]
Outside-step _ q s out_returned a i m = tt

-- A client that is outside while semaphore 0 is 1 takes it, or changes nothing but itself.
pub free-step :
    (lookup : Dictrec → Looked) (p : Phase) (q : Dictrec) (s : Shared)
    → Outside p
    → Asks p q
    → IsSegment s.shm
    → s.mutex ≡ 1
    → s.work ≡ 0
    → Leads
        (λ x.
          Asks x.1.phase x.1.sought
          × (((x.0 ≡ s) × Outside x.1.phase)
              ⊎ ((x.0.mutex ≡ 0)
                  × IsSegment x.0.shm
                  × Turn lookup x.0 x.1.sought x.1.phase waiting)))
        (client_at p q s)
unfolding client_at take_text
free-step lookup _ q s out_calling a i m w = rw m (a, inr (refl, i, grabbed w))
free-step lookup _ q s out_released a i m w = elim (Bool-cases (equal (cstr s.shm.text) missing)) [
  | inl e ↦ rw e (tt, inl (refl, out_returned))
  | inr e ↦
      let (t, copied) = copy_text-IsSegment q s.shm a i in
      rw (e, copied) (tt, inl (refl, out_returned))
]
free-step lookup _ q s out_returned a i m w = tt

-- The client whose turn it is keeps it, or gives it back with the server waiting.
pub turn-step :
    (lookup : Dictrec → Looked) (p : Phase) (v : Serving) (q : Dictrec) (s : Shared)
    → Turn lookup s q p v
    → Asks p q
    → IsSegment s.shm
    → s.mutex ≡ 0
    → Leads
        (λ x.
          Asks x.1.phase x.1.sought
          × IsSegment x.0.shm
          × (((x.0.mutex ≡ 0) × Turn lookup x.0 x.1.sought x.1.phase v)
              ⊎ ((x.0.mutex ≡ 1) × (x.0.work ≡ 0) × (v ≡ waiting) × Outside x.1.phase)))
        (client_at p q s)
unfolding client_at write_word
turn-step lookup _ _ q s (grabbed w) a i m =
    let (r, copied, word, fits) = copy_word-IsQuery q s.shm a i in
    rw copied (a, fits, inl (m, worded w word))
turn-step lookup _ _ q s (worded w e) a i m = (a, i, inl (m, asked (ap (λ n. n + 2) w) e))
turn-step lookup _ _ q s (asked w e) a i m = rw w tt
turn-step lookup _ _ q s (searching w e) a i m = rw w tt
turn-step lookup _ _ q s (searched w r) a i m = rw w tt
turn-step lookup _ _ q s (notified w r) a i m = rw w (a, i, inl (m, awaited refl r))
turn-step lookup _ _ q s (awaited w r) a i m =
    (a, i, inr (ap (λ n. n + 1) m, w, refl, out_released))

-- The server moves on within a turn.
pub server-step :
    (lookup : Dictrec → Looked) (p : Phase) (v : Serving) (q : Dictrec) (s : Shared)
    → IsLookup lookup
    → Turn lookup s q p v
    → IsSegment s.shm
    → Leads
        (λ x. (x.0.mutex ≡ s.mutex) × IsSegment x.0.shm × Turn lookup x.0 q p x.1)
        (server_at lookup v s)
unfolding server_at replied
server-step lookup _ _ q s l (grabbed w) i = rw w tt
server-step lookup _ _ q s l (worded w e) i = rw w tt
server-step lookup _ _ q s l (asked w e) i = rw w (refl, i, searching refl e)
server-step lookup _ _ q s l (searching w e) i =
    let (r, found_it, fits) = l.served s.shm i in
    rw found_it (refl, fits, searched w (s.shm, i, e, found_it))
server-step lookup _ _ q s l (searched w r) i = rw w (refl, i, notified refl r)
server-step lookup _ _ q s l (notified w r) i = rw w tt
server-step lookup _ _ q s l (awaited w r) i = rw w tt
