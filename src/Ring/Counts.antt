-- ===== src/Ring/Counts.antt =====
-- How the two counters of the ring stand to the signals that were queued. Increments of several
-- consumers may overlap.
use network_system_programmi.Prelude.{
  ℕ, zero, suc, ◌+◌, ◌*◌, ◌<◌, ◌≤◌, Bool, true, false, List, [], ◌∷◌, some, ◌≡◌, refl, ap, subst,
  arith, length, get_elem?, set, length-append, get_elem?-some, All,
}
use network_system_programmi.Ring.{
  Slot, Doing, waiting, counting, losing, Consumer, Phase, filling, numbering, sending, finished,
  System, Sizes, store, queue, send,
}
use network_system_programmi.Ring.Slots.{Steps}

-- How many signals the producer has queued, or has tried to.
abbrev pub Sent : Sizes → Phase → ℕ → Type 0
Sent p (filling i) k = (k ≡ i * p.n) × (i ≤ p.m)
Sent p (numbering i) k = (k ≡ i * p.n) × (i < p.m)
Sent p (sending i j) k = (k ≡ i * p.n + j) × (i < p.m) × (j ≤ p.n)
Sent p finished k = k ≡ p.m * p.n

-- All that is queued and not yet taken.
abbrev pub waiting_for : List Consumer → ℕ
waiting_for [] = 0
waiting_for (c ∷ l) = length c.pending + waiting_for l

-- What a handler has read is below the number of handlers that have read this counter.
abbrev pub Read : ℕ → ℕ → Doing → Type 0
Read counted lost waiting = Unit
Read counted lost (counting k) = k < counted
Read counted lost (losing k) = k < lost

-- `counted` and `lost` are the numbers of handlers that have read cnt and loss_cnt so far.
pub record Counted (p : Sizes) (k : ℕ) (s : System) : Type 0 where
  pub counted : ℕ
  pub lost : ℕ
  pub cnt_le : s.cnt ≤ counted
  pub loss_le : s.loss_cnt ≤ lost
  pub reads : All (λ c. Read counted lost c.doing) s.consumers
  pub taken : counted + lost + waiting_for s.consumers ≤ k

unfoldable pub CountInv : Sizes → System → Type 0
CountInv p s = (k : ℕ) × Sent p s.phase k × Counted p k s

pub waiting_for-set :
    (l : List Consumer) (j : ℕ) (c d : Consumer)
    → get_elem? l j ≡ some c
    → waiting_for (set l j d) + length c.pending ≡ waiting_for l + length d.pending
waiting_for-set [] j c d e = cc
waiting_for-set (x ∷ l) zero c d e =
    let same : x ≡ c = cc in omega (arith, ap (λ (y : Consumer). length y.pending) same)
waiting_for-set (x ∷ l) (suc j) c d e = omega (arith, waiting_for-set l j c d e)

module _ (P : Consumer → Type 0) where
  pub All-set : (l : List Consumer) (j : ℕ) (d : Consumer) → All P l → P d → All P (set l j d)
  All-set [] j d a h = tt
  All-set (x ∷ l) zero d a h = (h, a.1)
  All-set (x ∷ l) (suc j) d a h = (a.0, All-set l j d a.1 h)

  pub All-get : (l : List Consumer) (j : ℕ) (c : Consumer) → get_elem? l j ≡ some c → All P l → P c
  All-get [] j c e a = cc
  All-get (x ∷ l) zero c e a = let same : x ≡ c = cc in subst P same a.0
  All-get (x ∷ l) (suc j) c e a = All-get l j c e a.1

pub Read-more :
    (a b a' b' : ℕ) → a ≤ a' → b ≤ b' → (doing : Doing) → Read a b doing → Read a' b' doing
Read-more a b a' b' h k waiting r = tt
Read-more a b a' b' h k (counting n) r = omega arith
Read-more a b a' b' h k (losing n) r = omega arith

pub reads-more :
    (a b a' b' : ℕ)
    → a ≤ a'
    → b ≤ b'
    → (l : List Consumer) → All (λ c. Read a b c.doing) l
    → All (λ c. Read a' b' c.doing) l
reads-more a b a' b' h k [] r = tt
reads-more a b a' b' h k (c ∷ l) r =
    (Read-more a b a' b' h k c.doing r.0, reads-more a b a' b' h k l r.1)

-- A step that leaves the consumers and the counters alone.
pub unmoved :
    {p : Sizes} {k : ℕ} {s : System} (shmp : List Slot) (phase : Phase)
    → Counted p k s
    → Counted p k (record s { shmp = shmp; phase = phase })
unmoved shmp phase r = record {
  counted = r.counted;
  lost = r.lost;
  cnt_le = r.cnt_le;
  loss_le = r.loss_le;
  reads = r.reads;
  taken = r.taken;
}

pub store-CountInv :
    (p : Sizes) (k i : ℕ) (f : Slot → Slot) (phase : Phase) (s : System)
    → length s.shmp ≡ p.b
    → i < p.b
    → Sent p phase k
    → Counted p k s
    → Steps (CountInv p) (store i f phase s)
unfolding store CountInv
store-CountInv p k i f phase s z l m r =
    let (slot, e) = get_elem?-some s.shmp i (omega arith) in
    rw (e, store) (k, m, unmoved (set s.shmp i (f slot)) phase r)

length-queue :
    (q : Bool) (i : ℕ) (c : Consumer) → length (queue q i c).pending ≤ length c.pending + 1
unfolding queue
length-queue true i c = omega (arith, length-append c.pending (i ∷ []))
length-queue false i c = omega arith

doing-queue : (q : Bool) (i : ℕ) (c : Consumer) → (queue q i c).doing ≡ c.doing
unfolding queue
doing-queue true i c = refl
doing-queue false i c = refl

pub send-CountInv :
    (p : Sizes) (q : Bool) (k i j : ℕ) (s : System)
    → length s.consumers ≡ p.n
    → k ≡ i * p.n + j
    → i < p.m
    → j < p.n
    → Counted p k s
    → Steps (CountInv p) (send q i j s)
unfolding send CountInv
send-CountInv p q k i j s z m l h r =
    let (c, e) = get_elem?-some s.consumers j (omega arith) in
    rw (e, send)
      (
        suc k,
        (omega arith, l, omega arith),
        record {
          counted = r.counted;
          lost = r.lost;
          cnt_le = r.cnt_le;
          loss_le = r.loss_le;
          reads =
              All-set (λ c. Read r.counted r.lost c.doing) s.consumers j (queue q i c) r.reads
                (rw (doing-queue q i c)
                  (All-get (λ c. Read r.counted r.lost c.doing) s.consumers j c e r.reads));
          taken =
              omega (
                arith,
                r.taken,
                waiting_for-set s.consumers j c (queue q i c) e,
                length-queue q i c,
              );
        },
      )
