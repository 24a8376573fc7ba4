-- ===== src/Dict/Servers/Children.antt =====
-- The children of a server and the connections that they serve.
use network_system_programmi.Prelude.{
  ℕ, ◌+◌, Bool, true, List, [], ◌∷◌, ◌≡◌, refl, ap, ◌<◌, lt→ltb, All, length,
}
use network_system_programmi.Prelude.Bytes.{Bytes}
use network_system_programmi.Machine.{done}
use network_system_programmi.Dict.{Dictrec, Looked, text_size}
use network_system_programmi.Dict.Search.{lookup5}
use network_system_programmi.Dict.Search.Correct.{IsDictionary}
use network_system_programmi.Dict.Remote.{
  End, closed, died, Served, path_max, answer, serve_one, usock_dialogue, isock_dialogue,
}
use network_system_programmi.Dict.Remote.Agrees.{Serves, usock_dialogue-Serves}
use network_system_programmi.Dict.Servers.{
  Startup, Event, not_accepted, not_forked, connected, born, usock_start, usock_accept,
  isock_accept, started, usock_server,
}

abbrev pub Requests : Type 0
Requests = (ℕ → Bool) × List Dictrec

-- The connections that are served, with how their sends go: all up to the first failed accept or fork.
abbrev pub connections : List Event → List Requests
connections [] = []
connections (connected sent qs ∷ es) = (sent, qs) ∷ connections es
connections (_ ∷ es) = []

-- How the parent stands after the events.
abbrev pub parent_end : List Event → End
parent_end [] = closed
parent_end (connected sent qs ∷ es) = parent_end es
parent_end (_ ∷ es) = died 1

-- Each connection has its child, and the child has served it.
abbrev pub AllServed : (Dictrec → Looked) → List Requests → List Served → Type 0
AllServed lookup [] [] = Unit
AllServed lookup (q ∷ qss) (c ∷ cs) = Serves lookup q.0 0 q.1 c.0 c.1 × AllServed lookup qss cs
AllServed lookup _ _ = ⊥

abbrev pub Fit : List Requests → Type 0
Fit qss = All (λ q. All (λ (r : Dictrec). length r.text ≡ text_size) q.1) qss

usock_accept-parent_end :
    (lookup : Dictrec → Looked) (es : List Event) → (usock_accept lookup es).1 ≡ parent_end es
unfolding usock_accept born
usock_accept-parent_end lookup [] = refl
usock_accept-parent_end lookup (not_accepted ∷ es) = refl
usock_accept-parent_end lookup (not_forked ∷ es) = refl
usock_accept-parent_end lookup (connected sent qs ∷ es) = usock_accept-parent_end lookup es

usock_accept-AllServed :
    (file : Bytes) (es : List Event)
    → IsDictionary file
    → Fit (connections es)
    → AllServed (lookup5 file) (connections es) (usock_accept (lookup5 file) es).0
unfolding usock_accept born
usock_accept-AllServed file [] d f = tt
usock_accept-AllServed file (not_accepted ∷ es) d f = tt
usock_accept-AllServed file (not_forked ∷ es) d f = tt
usock_accept-AllServed file (connected sent qs ∷ es) d f =
    (usock_dialogue-Serves file sent 0 qs d f.0, usock_accept-AllServed file es d f.1)

-- All calls that set the socket up succeed.
pub record IsUp (s : Startup) (name : Bytes) : Type 0 where
  pub socket : s.socket_ok ≡ true
  pub bind : s.bind_ok ≡ true
  pub listen : s.listen_ok ≡ true
  pub short : length name < path_max

usock_start-IsUp : (s : Startup) (name : Bytes) → IsUp s name → usock_start s 3 name ≡ done tt
unfolding usock_start
usock_start-IsUp s name u = rw (u.socket, lt→ltb (length name) path_max u.short, u.bind, u.listen)

-- With its socket set up and a dictionary in order, the Unix socket server gives every connection,
-- up to the first accept or fork that fails, a child that answers its requests in turn by lookup5 on
-- the file, until its first failed send; the parent waits for the next connection, or has ended with
-- status 1 at the failed call. The texts of the requests have to have their size.
pub usock_server-AllServed :
    (s : Startup) (name file : Bytes) (es : List Event)
    → IsUp s name
    → IsDictionary file
    → Fit (connections es)
    → AllServed (lookup5 file) (connections es) (usock_server s 3 name (lookup5 file) es).0
      × ((usock_server s 3 name (lookup5 file) es).1 ≡ parent_end es)
unfolding usock_server started
usock_server-AllServed s name file es u d f =
    rw (usock_start-IsUp s name u)
      (usock_accept-AllServed file es d f, usock_accept-parent_end (lookup5 file) es)

isock_dialogue-usock_dialogue :
    (lookup : Dictrec → Looked) (sent : ℕ → Bool) (n : ℕ) (qs : List Dictrec)
    → isock_dialogue lookup sent n qs ≡ usock_dialogue lookup sent n qs
unfolding isock_dialogue usock_dialogue
isock_dialogue-usock_dialogue lookup sent n [] = refl
isock_dialogue-usock_dialogue lookup sent n (q ∷ qs) =
    ap (serve_one (answer (lookup q)) (sent n))
      (isock_dialogue-usock_dialogue lookup sent (n + 1) qs)

-- Once they are set up, the Internet server and the Unix socket server do the same with the same
-- connections, for any lookup.
pub isock_accept-usock_accept :
    (lookup : Dictrec → Looked) (es : List Event) → isock_accept lookup es ≡ usock_accept lookup es
unfolding isock_accept usock_accept
isock_accept-usock_accept lookup [] = refl
isock_accept-usock_accept lookup (not_accepted ∷ es) = refl
isock_accept-usock_accept lookup (not_forked ∷ es) = refl
isock_accept-usock_accept lookup (connected sent qs ∷ es) =
    rw (isock_dialogue-usock_dialogue lookup sent 0 qs, isock_accept-usock_accept lookup es)
