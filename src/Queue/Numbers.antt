-- ===== src/Queue/Numbers.antt =====
-- The ranges of numbers that the server of SP_HW8/46_2 gives away, and how they lie to each other.
use native.Mathlib.Nat.{zero-add}
use network_system_programmi.Prelude.{
  ℕ, zero, suc, ◌+◌, ◌<◌, ◌≤◌, Bool, true, false, List, [], ◌∷◌, some, ◌≡◌, refl, ap, arith, lt→ltb,
  map, take, get_elem?, if◌then◌else◌,
}
use network_system_programmi.Prelude.Int.{pos, ◌+ℤ◌, eq_of_parts, +ℤ_parts}
use network_system_programmi.Queue.{
  in_int, add_int, Response, Event, asked, Server, respond, serve, fresh, server,
}

-- A request for a length that is not negative, and whether its response is sent.
pub record Order : Type 0 where
  pub sent : Bool
  pub pid : ℕ
  pub len : ℕ

abbrev pub event_of : Order → Event
event_of o = asked o.sent (record { pid = o.pid; seq_len = pos o.len })

-- All the numbers of a list of requests.
abbrev pub total : List Order → ℕ
total [] = 0
total (o ∷ os) = o.len + total os

-- How many of the requests have a response.
abbrev pub answers : List Order → ℕ
answers [] = 0
answers (o ∷ os) = if o.sent then suc (answers os) else answers os

pos-add : (n l : ℕ) → pos n +ℤ pos l ≡ pos (n + l)
pos-add n l = eq_of_parts (pos n +ℤ pos l) (pos (n + l)) (omega (arith, +ℤ_parts (pos n) (pos l)))

add_int_fits : (n l : ℕ) → n + l < 2147483648 → add_int (pos n) (pos l) ≡ some (pos (n + l))
unfolding add_int in_int
add_int_fits n l h = rw (pos-add n l, lt→ltb (n + l) 2147483648 h)

serve_order :
    (n : ℕ) (o : Order) (es : List Event)
    → n + o.len < 2147483648
    → serve (pos n) (event_of o ∷ es)
      ≡ respond o.sent (record { mtype = o.pid; seq_num = pos n }) (serve (pos (n + o.len)) es)
unfolding serve
serve_order n o es h = rw (serve, add_int_fits n o.len h)

-- The responses that come behind those of the first request.
respond_at :
    (b : Bool) (q r : Response) (later : List Response × Server) (i : ℕ)
    → get_elem? later.0 i ≡ some r
    → get_elem? (respond b q later).0 (if b then suc i else i) ≡ some r
unfolding respond
respond_at true q r (rs, s) i e = e
respond_at false q r (rs, s) i e = e

respond_first :
    (q : Response) (later : List Response × Server) → get_elem? (respond true q later).0 0 ≡ some q
unfolding respond
respond_first q (rs, s) = refl

serve_nth :
    (n : ℕ) (os : List Order) (i : ℕ) (o : Order)
    → n + total os < 2147483648
    → get_elem? os i ≡ some o
    → o.sent ≡ true
    → get_elem? (serve (pos n) (map event_of os)).0 (answers (take i os))
      ≡ some (record { mtype = o.pid; seq_num = pos (n + total (take i os)) })
serve_nth n [] i o h e s = cc
serve_nth n (x ∷ os) zero o h e s =
    let same : x ≡ o = cc in
    rw (serve_order n x (map event_of os) (omega arith), same, s, add_zero n) (respond_first _ _)
  where
    add_zero : (n : ℕ) → n + 0 ≡ n
    add_zero n = omega arith
serve_nth n (x ∷ os) (suc i) o h e s = rw (serve_order n x (map event_of os) (omega arith)) (
    respond_at x.sent _ _ _ (answers (take i os))
      (rw (assoc n x.len (total (take i os))) at (serve_nth (n + x.len) os i o (omega arith) e s)))
  where
    assoc : (a b c : ℕ) → a + b + c ≡ a + (b + c)
    assoc a b c = omega arith

total-take :
    (os : List Order) (i j : ℕ) (o : Order)
    → get_elem? os i ≡ some o
    → i < j
    → total (take i os) + o.len ≤ total (take j os)
total-take [] i j o e h = cc
total-take (x ∷ os) i zero o e h = absurd (omega arith)
total-take (x ∷ os) zero (suc j) o e h =
    let same : x ≡ o = cc in omega (arith, ap (λ y. y.len) same)
total-take (x ∷ os) (suc i) (suc j) o e h = omega (arith, total-take os i j o e (omega arith))

-- With lengths that are not negative and all numbers within an int: a request whose response is sent
-- gets the response at its own place among those sent, to its own pid; and of two such requests the
-- numbers of the earlier, from its first number on as many as it has asked for, all lie before the
-- first number of the later one.
pub server-apart :
    (os : List Order) (i j : ℕ) (o p : Order)
    → total os < 2147483648
    → i < j
    → get_elem? os i ≡ some o
    → get_elem? os j ≡ some p
    → o.sent ≡ true
    → p.sent ≡ true
    → (m n : ℕ) × (get_elem? (server fresh (map event_of os)).0 (answers (take i os))
        ≡ some (record { mtype = o.pid; seq_num = pos m }))
      × (get_elem? (server fresh (map event_of os)).0 (answers (take j os))
          ≡ some (record { mtype = p.pid; seq_num = pos n }))
      × (m + o.len ≤ n)
unfolding server
server-apart os i j o p h ij e q s t = (
  total (take i os),
  total (take j os),
  rw zero-add at (serve_nth 0 os i o (omega arith) e s),
  rw zero-add at (serve_nth 0 os j p (omega arith) q t),
  total-take os i j o e ij,
)
