-- ===== src/Transfer/Writes.antt =====
-- What a step of the writer does to the stages.
use network_system_programmi.Prelude.{
  ℕ, zero, suc, ◌+◌, true, false, [], ◌∷◌, none, some, ◌==◌, if◌then◌else◌, length, ◌≡◌, refl, sym,
  ◌∙◌, ap, arith, append-nil,
}
use network_system_programmi.Prelude.Bytes.{Bytes}
use network_system_programmi.Shm.{blocked, next}
use network_system_programmi.Transfer.{
  Segment, Writer, waiting, checking, ended, Reader, awaiting, Input, read_into, writer_at,
  Received,
}
use network_system_programmi.Transfer.Stage.{
  content, Whole, full, empty, Behind, at_check, at_wait, at_end, ready, ready_check, Stage, idle,
  taken, filled, posted, seen, counted, copied, over, broken, unread, Then,
}

read_into-Stage :
    (all : Bytes) (s : Segment) (rest : Input) (r : Received)
    → s.write_sem ≡ 0
    → s.read_sem ≡ 0
    → r.bytes ≡ length r.out
    → Whole all r.out rest
    → Then (λ x. Stage all x.0 x.1 r x.2 awaiting) (read_into s rest)
unfolding read_into content
read_into-Stage all s [] r w d b h = filled w d b (empty refl (sym (append-nil r.out) ∙ h))
read_into-Stage all s (none ∷ rest) r w d b h = unread w d (sym (append-nil r.out) ∙ h)
read_into-Stage all s (some [] ∷ rest) r w d b h =
    filled w d b (empty refl (sym (append-nil r.out) ∙ h))
read_into-Stage all s (some (x ∷ c) ∷ rest) r w d b h = filled w d b (full x c refl refl h)

pub is_zero : (c : ℕ) → c ≡ 0 → (c == 0) ≡ true
is_zero c e = ground arith

pub is_suc : (c n : ℕ) → c ≡ suc n → (c == 0) ≡ false
is_suc c n e = ground arith

pub check_end :
    (s : Segment) (rest : Input) → s.cnt ≡ 0 → writer_at checking s rest ≡ next (s, rest, ended 0)
unfolding writer_at
check_end s rest e =
    ap (λ b. if b then next (s, rest, ended 0) else next (s, rest, waiting)) (is_zero s.cnt e)

pub check_on :
    (s : Segment) (rest : Input) (n : ℕ)
    → s.cnt ≡ suc n
    → writer_at checking s rest ≡ next (s, rest, waiting)
unfolding writer_at
check_on s rest n e =
    ap (λ b. if b then next (s, rest, ended 0) else next (s, rest, waiting)) (is_suc s.cnt n e)

-- The test behind sem_post.
check-Behind :
    (s : Segment) (rest : Input) (P : Segment × Input × Writer → Type 0)
    → (s.cnt ≡ 0 → P (s, rest, ended 0))
    → ((n : ℕ) → s.cnt ≡ suc n → P (s, rest, waiting))
    → Then P (writer_at checking s rest)
check-Behind s rest P f g = split s.cnt refl
  where
    split : (n : ℕ) → s.cnt ≡ n → Then P (writer_at checking s rest)
    split zero e = rw (check_end s rest e) (f e)
    split (suc n) e = rw (check_on s rest n e) (g n e)

wait_blocked : (s : Segment) (rest : Input) → s.write_sem ≡ 0 → writer_at waiting s rest ≡ blocked
unfolding writer_at
wait_blocked s rest w = rw w refl

-- The writer behind its sem_post, in a stage that does not depend on where it is there.
behind-Stage :
    (all : Bytes) (s : Segment) (rest : Input) (r : Received) (p : Reader) (v : Writer)
    → s.write_sem ≡ 0
    → Behind s v
    → ((v' : Writer) → Behind s v' → Stage all s rest r v' p)
    → Then (λ x. Stage all x.0 x.1 r x.2 p) (writer_at v s rest)
behind-Stage all s rest r p _ w at_check k =
    check-Behind s rest (λ x. Stage all x.0 x.1 r x.2 p) (λ e. k (ended 0) (at_end e))
      (λ n e. k waiting (at_wait n e))
behind-Stage all s rest r p _ w (at_wait n e) k = rw (wait_blocked s rest w) tt
behind-Stage all s rest r p _ w (at_end e) k = unfold writer_at in tt

idle_taken :
    (all : Bytes) (s : Segment) (rest : Input) (r : Received)
    → s.write_sem ≡ 1
    → s.read_sem ≡ 0
    → r.bytes ≡ length r.out
    → Whole all r.out rest
    → Then (λ x. Stage all x.0 x.1 r x.2 awaiting) (writer_at waiting s rest)
unfolding writer_at
idle_taken all s rest r w d b h = rw w (taken refl d b h)

pub writer-Stage :
    (all : Bytes) (s : Segment) (rest : Input) (r : Received) (v : Writer) (p : Reader)
    → Stage all s rest r v p
    → Then (λ x. Stage all x.0 x.1 r x.2 p) (writer_at v s rest)
writer-Stage all s rest r _ _ (idle w d ready b h) = idle_taken all s rest r w d b h
writer-Stage all s rest r _ _ (idle w d (ready_check n e) b h) =
    rw (check_on s rest n e) (idle w d ready b h)
writer-Stage all s rest r _ _ (taken w d b h) =
    unfold writer_at in read_into-Stage all s rest r w d b h
writer-Stage all s rest r _ _ (filled w d b (full x c buf cnt h)) =
    unfold writer_at in posted w (ap (λ n. n + 1) d) at_check b (full x c buf cnt h)
writer-Stage all s rest r _ _ (filled w d b (empty cnt h)) =
    unfold writer_at in posted w (ap (λ n. n + 1) d) at_check b (empty cnt h)
writer-Stage all s rest r v p (posted w d q b h) =
    behind-Stage all s rest r p v w q (λ v' q'. posted w d q' b h)
writer-Stage all s rest r v p (seen w d q b h) =
    behind-Stage all s rest r p v w q (λ v' q'. seen w d q' b h)
writer-Stage all s rest r v p (counted n w d q e b h) =
    behind-Stage all s rest r p v w q (λ v' q'. counted n w d q' e b h)
writer-Stage all s rest r v p (copied n w d q e b h) =
    behind-Stage all s rest r p v w q (λ v' q'. copied n w d q' e b h)
writer-Stage all s rest r v p (over w d q e b h) =
    behind-Stage all s rest r p v w q (λ v' q'. over w d q' e b h)
writer-Stage all s rest r v p (broken q w) =
    behind-Stage all s rest r p v w q (λ v' q'. broken q' w)
writer-Stage all s rest r _ _ (unread w d h) = unfold writer_at in tt
