-- ===== src/Transfer/Reads.antt =====
-- What a step of the reader does to the stages.
use network_system_programmi.Prelude.{
  ℕ, suc, ◌+◌, Bool, true, false, [], ◌∷◌, ◌++◌, ltb, if◌then◌else◌, length, take, ◌≡◌, ◌⊎◌, inl,
  inr, refl, ◌∙◌, ap, arith, append-nil, append_assoc, length-append, take-append_length,
  Bool-cases,
}
use network_system_programmi.Prelude.Bytes.{Bytes}
use network_system_programmi.Shm.{Progress, blocked, undefined, next}
use network_system_programmi.Transfer.{
  Segment, Writer, Reader, awaiting, testing, writing, finished, Input, Received, int_end,
  reader_at,
}
use network_system_programmi.Transfer.Stage.{
  content, Pending, full, empty, Behind, at_check, at_wait, at_end, Ready, ready, ready_check,
  Stage, idle, taken, filled, posted, seen, counted, copied, over, broken, unread, Then,
}
use network_system_programmi.Transfer.Writes.{is_zero, is_suc}

take-length : (c : Bytes) → take (length c) c ≡ c
take-length c = rw (append-nil c) at (take-append_length c [])

abbrev add : Segment → Received → Progress (Segment × Received × Reader)
add s r =
    if ltb (r.bytes + s.cnt) int_end
    then next (s, record r { bytes = r.bytes + s.cnt }, writing)
    else undefined

pub test_end :
    (wrote : ℕ → Bool) (s : Segment) (r : Received)
    → s.cnt ≡ 0
    → reader_at wrote testing s r ≡ next (s, r, finished 0)
unfolding reader_at
test_end wrote s r e = ap (λ b. if b then next (s, r, finished 0) else add s r) (is_zero s.cnt e)

test_add :
    (wrote : ℕ → Bool) (s : Segment) (r : Received) (n : ℕ)
    → s.cnt ≡ suc n
    → reader_at wrote testing s r ≡ add s r
unfolding reader_at
test_add wrote s r n e = ap (λ b. if b then next (s, r, finished 0) else add s r) (is_suc s.cnt n e)

-- Either the sum is one past an int, or the reader goes on to write.
pub test_on :
    (wrote : ℕ → Bool) (s : Segment) (r : Received) (n : ℕ)
    → s.cnt ≡ suc n
    → (reader_at wrote testing s r ≡ undefined)
      ⊎ (reader_at wrote testing s r ≡ next (s, record r { bytes = r.bytes + s.cnt }, writing))
test_on wrote s r n e = elim (Bool-cases (ltb (r.bytes + s.cnt) int_end)) [
  | inl q ↦ inr (test_add wrote s r n e ∙ added q)
  | inr q ↦ inl (test_add wrote s r n e ∙ lost q)
]
  where
    added :
        ltb (r.bytes + s.cnt) int_end ≡ true
        → add s r ≡ next (s, record r { bytes = r.bytes + s.cnt }, writing)
    added q = rw q

    lost : ltb (r.bytes + s.cnt) int_end ≡ false → add s r ≡ undefined
    lost q = rw q

to_ready : (s : Segment) (v : Writer) (n : ℕ) → Behind s v → s.cnt ≡ suc n → Ready s v
to_ready s _ n at_check e = ready_check n e
to_ready s _ n (at_wait m q) e = ready
to_ready s _ n (at_end q) e = absurd (omega (arith, q, e))

module _ (wrote : ℕ → Bool) (all : Bytes) where
  seen-Stage :
      (s : Segment) (rest : Input) (r : Received) (v : Writer)
      → s.write_sem ≡ 0
      → s.read_sem ≡ 0
      → Behind s v
      → r.bytes ≡ length r.out
      → Pending all r.out s rest
      → Then (λ x. Stage all x.0 rest x.1 v x.2) (reader_at wrote testing s r)
  seen-Stage s rest r v w d q b (empty e h) = rw (test_end wrote s r e) (over w d q e b (h))
  seen-Stage s rest r v w d q b (full x c buf cnt h) = elim (test_on wrote s r (length c) cnt) [
    | inl e ↦ rw e tt
    | inr e ↦ rw e (counted (length c) w d q cnt (ap (λ n. n + s.cnt) b) (full x c buf cnt h))
  ]

  write-Stage :
      (s : Segment) (rest : Input) (r : Received) (v : Writer) (n : ℕ)
      → s.write_sem ≡ 0
      → s.read_sem ≡ 0
      → Behind s v
      → s.cnt ≡ suc n
      → r.bytes ≡ length r.out + s.cnt
      → Pending all r.out s rest
      → Then (λ x. Stage all x.0 rest x.1 v x.2) (reader_at wrote writing s r)
  unfolding reader_at
  write-Stage s rest r v n w d q e b (empty z h) = absurd (omega (arith, z, e))
  write-Stage s rest r v n w d q e b (full x c buf cnt h) = elim (Bool-cases (wrote r.xfrs)) [
    | inr k ↦ rw k (broken q w)
    | inl k ↦
        let taken_all : take s.cnt s.buf ≡ x ∷ c =
          ap (λ m. take m s.buf) cnt
          ∙ (ap (λ l. take (length (x ∷ c)) l) buf ∙ take-length (x ∷ c)) in
        rw k (
          copied n w d q e
            (omega (arith, b, cnt, ap length taken_all, length-append r.out (take s.cnt s.buf)))
            (ap (λ l. (r.out ++ l) ++ content rest) taken_all
              ∙ (append_assoc r.out (x ∷ c) (content rest) ∙ h)))
  ]

  await_blocked :
      (s : Segment) (r : Received) → s.read_sem ≡ 0 → reader_at wrote awaiting s r ≡ blocked
  unfolding reader_at
  await_blocked s r d = rw d refl

  posted-Stage :
      (s : Segment) (rest : Input) (r : Received) (v : Writer)
      → s.write_sem ≡ 0
      → s.read_sem ≡ 1
      → Behind s v
      → r.bytes ≡ length r.out
      → Pending all r.out s rest
      → Then (λ x. Stage all x.0 rest x.1 v x.2) (reader_at wrote awaiting s r)
  unfolding reader_at
  posted-Stage s rest r v w d q b h = rw d (seen w refl (same q) b (kept h))
    where
      same : {v : Writer} → Behind s v → Behind (record s { read_sem = 0 }) v
      same at_check = at_check
      same (at_wait n e) = at_wait n e
      same (at_end e) = at_end e

      kept : Pending all r.out s rest → Pending all r.out (record s { read_sem = 0 }) rest
      kept (full x c buf cnt h) = full x c buf cnt h
      kept (empty e h) = empty e h

  pub reader-Stage :
      (s : Segment) (rest : Input) (r : Received) (v : Writer) (p : Reader)
      → Stage all s rest r v p
      → Then (λ x. Stage all x.0 rest x.1 v x.2) (reader_at wrote p s r)
  reader-Stage s rest r v _ (idle w d k b h) = rw (await_blocked s r d) tt
  reader-Stage s rest r v _ (taken w d b h) = rw (await_blocked s r d) tt
  reader-Stage s rest r v _ (filled w d b h) = rw (await_blocked s r d) tt
  reader-Stage s rest r v _ (unread w d h) = rw (await_blocked s r d) tt
  reader-Stage s rest r v _ (posted w d q b h) = posted-Stage s rest r v w d q b h
  reader-Stage s rest r v _ (seen w d q b h) = seen-Stage s rest r v w d q b h
  reader-Stage s rest r v _ (counted n w d q e b h) = write-Stage s rest r v n w d q e b h
  reader-Stage s rest r v _ (copied n w d q e b h) =
      unfold reader_at in idle (ap (λ m. m + 1) w) d (go (to_ready s v n q e)) b h
    where
      go : {v : Writer} → Ready s v → Ready (record s { write_sem = s.write_sem + 1 }) v
      go ready = ready
      go (ready_check n e) = ready_check n e
  reader-Stage s rest r v _ (over w d q e b h) = unfold reader_at in tt
  reader-Stage s rest r v _ (broken q w) = unfold reader_at in tt
