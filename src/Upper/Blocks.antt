-- ===== src/Upper/Blocks.antt =====
-- What comes back for blocks of different kinds.
use network_system_programmi.Prelude.{
  ℕ, suc, ◌+◌, ◌-◌, ◌<◌, Bool, true, false, ◌&&◌, List, [], ◌∷◌, ◌++◌, some, ◌≡◌, refl, sym, ◌∙◌,
  ap, arith, ◌==◌, if◌then◌else◌, length, replicate, map, All, Bool-cases, inl, inr, append_assoc,
  append-nil,
}
use network_system_programmi.Prelude.Bytes.{Bytes, cstr}
use network_system_programmi.Upper.{
  buf_size, to_upper, upper_cells, filled, reply, Read, got, Calls, Ended, exits, hangs, receive,
  exchange, parent_loop, main,
}

-- Every call succeeds.
pub record Calm (c : Calls) : Type 0 where
  pub pipes : (c.pipe_ok ≡ true) × (c.pipe2_ok ≡ true)
  pub forks : c.fork_ok ≡ true
  pub closes : c.close_ok ≡ true
  pub sends : (i : ℕ) → c.send_ok i ≡ true
  pub shows : (i : ℕ) → c.show_ok i ≡ true

-- A letter is no NUL in either case.
to_upper-ne-zero : (c : ℕ) → (c == 0) ≡ false → (to_upper c == 0) ≡ false
unfolding to_upper
to_upper-ne-zero c h = ground arith

-- With a NUL in the array, the bytes before it are changed.
upper_cells-zero :
    (block rest : Bytes)
    → (a : Bytes) × (upper_cells (block ++ (0 ∷ rest)) ≡ some a)
      × (cstr a ≡ map to_upper (cstr block))
unfolding upper_cells cstr
upper_cells-zero [] rest = (0 ∷ rest, refl, refl)
upper_cells-zero (c ∷ block) rest = elim (Bool-cases (c == 0)) [
  | inl e ↦ (c ∷ (block ++ (0 ∷ rest)), rw e refl, rw (e, cstr) refl)
  | inr e ↦
      let (a, got_it, same) = upper_cells-zero block rest in
      (
        to_upper c ∷ a,
        rw e (rw (got_it, upper_cells) refl),
        rw e (rw (to_upper-ne-zero c e) (ap (◌∷◌ (to_upper c)) same)),
      )
]

-- The child's answer to a block that leaves room in the array: its bytes up to a NUL, in upper case.
pub reply_short :
    (block : Bytes) → length block < buf_size → reply block ≡ some (map to_upper (cstr block))
unfolding reply filled
reply_short block h =
    let room : buf_size - length block ≡ suc (buf_size - length block - 1) = omega arith in
    let (a, cells, same) = upper_cells-zero block (replicate (buf_size - length block - 1) 0) in
    rw (ap (λ n. upper_cells (block ++ replicate n 0)) room ∙ cells, reply) (ap some same)

-- A block that comes back: it leaves room in the array and does not begin with a NUL.
abbrev pub Returns : Bytes → Type 0
Returns [] = ⊥
Returns (b ∷ bs) = (length (b ∷ bs) < buf_size) × ((b == 0) ≡ false)

-- What comes back for such blocks.
abbrev pub returned : List Bytes → Bytes
returned [] = []
returned (block ∷ blocks) = map to_upper (cstr block) ++ returned blocks

receive_shown :
    (out : Bytes) (b : ℕ) (bs : Bytes) (shown : Bool) (later : Bytes → Ended)
    → (b == 0) ≡ false
    → shown ≡ true
    → receive out (map to_upper (cstr (b ∷ bs))) shown later
      ≡ later (out ++ map to_upper (cstr (b ∷ bs)))
unfolding receive cstr
receive_shown out b bs shown later h s = rw h (rw s refl)

loop-returned :
    (c : Calls) (i : ℕ) (blocks : List Bytes) (rest : List Read) (out : Bytes)
    → Calm c
    → All Returns blocks
    → (j : ℕ) × (parent_loop c i (map got blocks ++ rest) out
        ≡ parent_loop c j rest (out ++ returned blocks))
unfolding parent_loop exchange
loop-returned c i [] rest out calm r = (i, ap (parent_loop c i rest) (sym (append-nil out)))
loop-returned c i ([] ∷ blocks) rest out calm r = elim (r.0) [ ]
loop-returned c i ((b ∷ bs) ∷ blocks) rest out calm r =
    let text = map to_upper (cstr (b ∷ bs)) in
    let (j, e) = loop-returned c (i + 1) blocks rest (out ++ text) calm r.1 in
    (
      j,
      rw (calm.sends i) (
          rw (reply_short (b ∷ bs) r.0.0, exchange)
            (receive_shown out b bs (c.show_ok i) (parent_loop c (i + 1) (map got blocks ++ rest))
                r.0.1 (calm.shows i)
              ∙ e
              ∙ ap (parent_loop c j rest) (append_assoc out text (returned blocks)))),
    )

main-Calm : (c : Calls) (reads : List Read) → Calm c → main c reads ≡ parent_loop c 0 reads []
unfolding main
main-Calm c reads calm =
    let ok : (c.pipe_ok && (c.pipe2_ok && (c.fork_ok && c.close_ok))) ≡ true =
      ground (arith, calm.pipes, calm.forks, calm.closes) in
    ap (λ b. if b then parent_loop c 0 reads [] else exits 1 []) ok

-- Where every call succeeds and every block leaves room in the array and begins with a byte that is not
-- NUL, the parent ends with status 0 and has shown each block up to its first NUL in upper case.
-- With a block that begins with a NUL behind them it never ends: it waits for a reply of no bytes.
pub main-returned :
    (c : Calls) (blocks : List Bytes) (bs : Bytes) (rest : List Read)
    → Calm c
    → All Returns blocks
    → length bs + 1 < buf_size
    → (main c (map got blocks) ≡ exits 0 (returned blocks))
      × (main c (map got blocks ++ (got (0 ∷ bs) ∷ rest)) ≡ hangs (returned blocks))
unfolding parent_loop exchange receive cstr
main-returned c blocks bs rest calm r h =
    let (i, e) = loop-returned c 0 blocks [] [] calm r in
    let (j, f) = loop-returned c 0 blocks (got (0 ∷ bs) ∷ rest) [] calm r in
    (
      main-Calm c (map got blocks) calm
          ∙ ap (λ l. parent_loop c 0 l []) (sym (append-nil (map got blocks)))
          ∙ e
          ∙ ap (λ b. if b then exits 0 (returned blocks) else exits 1 (returned blocks))
              calm.closes,
      main-Calm c (map got blocks ++ (got (0 ∷ bs) ∷ rest)) calm
          ∙ f
          ∙ rw (calm.sends j) (rw (reply_short (0 ∷ bs) (omega arith), exchange) refl),
    )
