-- ===== src/Examples/Replays.antt =====
-- A window of size 4.
use cypher_syntax.Py.Result.{Error, Result, ok, err, replay_detected_error, value_error}
use cypher_syntax.Py.Exec.{pure}
use cypher_syntax.Py.Value.{Value, int, null}
use cypher_syntax.Protocol.{validate_message_sequence}
use cypher_syntax.Replay.{ReplayWindow, new, observe, authenticate_and_record}
use cypher_syntax.Replay.History.{observe_all, remember_all, window_refines_history}
use cypher_syntax.Replay.Invariant.{
  IsValid, Call, observed, authenticated, run, run-IsValid, accepted_once,
}
use cypher_syntax.Prelude.{ℕ, ◌≤◌, ◌≡◌, refl, List, [], ◌∷◌, pos, negsuc, length}

abbrev window : ReplayWindow
window = record { window_size = 4; highest_seen = negsuc 0; seen = [] }

new_four : new (int (pos 4)) ≡ ok window
unfolding new
new_four = refl

abbrev numbers : List Value
numbers =
    int (pos 3) ∷ int (pos 3) ∷ int (pos 9) ∷ int (pos 5) ∷ int (negsuc 0) ∷ null ∷ int (pos 8) ∷ []

replies :
    observe_all window numbers
    ≡ ok tt
      ∷ err replay_detected_error
      ∷ ok tt
      ∷ err replay_detected_error
      ∷ err value_error
      ∷ err Error.type_error
      ∷ ok tt
      ∷ []
unfolding observe_all observe validate_message_sequence
replies = refl

window_refines_history_example : observe_all window numbers ≡ remember_all 4 [] numbers
window_refines_history_example = window_refines_history 4 numbers window new_four

abbrev calls : List Call
calls =
    observed (int (pos 3))
    ∷ authenticated (int (pos 9)) (ok [])
    ∷ authenticated (int (pos 9)) (err value_error)
    ∷ []

run-IsValid_example :
    IsValid (run calls window) × (length (run calls window).seen ≤ (run calls window).window_size)
run-IsValid_example = run-IsValid (int (pos 4)) window calls new_four

abbrev accept : Value → ReplayWindow → Result ℕ × ReplayWindow
accept v = authenticate_and_record v (pure 1)

accepted : (accept (int (pos 3)) window).0 ≡ ok 1
unfolding authenticate_and_record validate_message_sequence
accepted = refl

accepted_once_example :
    accept (int (pos 3)) (run calls (accept (int (pos 3)) window).1)
    ≡ (err replay_detected_error, run calls (accept (int (pos 3)) window).1)
accepted_once_example = accepted_once window 3 (pure 1) 1 calls (pure 1) accepted
