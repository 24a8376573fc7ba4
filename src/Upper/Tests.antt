-- ===== src/Upper/Tests.antt =====
-- Two blocks through the pipes.
use network_system_programmi.Prelude.{true, List, [], ◌∷◌, ◌++◌, ◌≡◌, refl, arith, map}
use network_system_programmi.Prelude.Bytes.{Bytes, codes, cstr}
use network_system_programmi.Upper.{to_upper, got, Calls, exits, hangs, main}
use network_system_programmi.Upper.Blocks.{Calm, returned, main-returned}

abbrev calm_calls : Calls
calm_calls = record {
  pipe_ok = true;
  pipe2_ok = true;
  fork_ok = true;
  close_ok = true;
  send_ok = λ i. true;
  show_ok = λ i. true;
}

calm_calls-Calm : Calm calm_calls
calm_calls-Calm = record {
  pipes = (refl, refl);
  forks = refl;
  closes = refl;
  sends = λ i. refl;
  shows = λ i. refl;
}

abbrev blocks : List Bytes
blocks = codes "one, " ∷ codes "Two" ∷ []

main-returned_example :
    (main calm_calls (map got blocks) ≡ exits 0 (returned blocks))
    × (main calm_calls (map got blocks ++ (got (0 ∷ codes "x") ∷ [])) ≡ hangs (returned blocks))
main-returned_example =
    main-returned calm_calls blocks (codes "x") [] calm_calls-Calm
      ((omega arith, refl), ((omega arith, refl), tt)) (omega arith)

returned_text : returned blocks ≡ codes "ONE, TWO"
unfolding to_upper cstr
returned_text = refl
