-- ===== src/Guard/Tests.antt =====
-- The theorems about the guards on concrete traffic.
use falak.Prelude.{◌≤◌, ◌≡◌, ◌≢◌, List, [], ◌∷◌, String, lookup, string_eq, arith}
use text.Mathlib.TextEquality.{eq_iff}
use falak.Guard.Limiter.{new_limiter}
use falak.Guard.Limiter.Window
use falak.Guard.Limiter.Recent.{recent}
use falak.Guard.Limiter.Window.{request, sweep, run-bounded, allow_iff, requests-allow}
use falak.Guard.Dedup.{is_live, new_message_dedup, is_duplicate}
use falak.Guard.Dedup.Replay
use falak.Guard.Dedup.Replay.{message, evicts, is_duplicate-run}

-- Three requests of one key with a cleanup in between; two pass within 10 units.
abbrev burst : List Window.Call
burst = request 1 "a" ∷ request 2 "a" ∷ sweep 3 ∷ request 4 "a" ∷ []

run-bounded_example : recent 10 5 (Window.run "a" (new_limiter 2 10) [] burst).1 ≤ 2
run-bounded_example = run-bounded "a" 2 10 0 5 burst (ground arith) (ground arith)

b_is_not_a : ◌≢◌ {A = String} "b" "a"
b_is_not_a e = absurd (ground (arith, eq_iff "b" "a"))

-- A message, its replay, and a cleanup; the hash of a message is the message.
abbrev replayed : List (Replay.Call String)
replayed = message 1 "m" ∷ message 2 "m" ∷ evicts 3 ∷ []

is_duplicate-run_example :
    let (d, accepted) = Replay.run {K = String} (λ m. m) (new_message_dedup 10) [] replayed in
    (is_duplicate (λ m. m) d 4 "m").1 ≡ is_live 10 4 (lookup "m" accepted)
is_duplicate-run_example =
    is_duplicate-run (λ m. m) 10 0 4 replayed "m" (ground arith) (ground arith)
