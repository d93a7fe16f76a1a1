-- ===== src/Replay.antt =====
-- src/cyphersyntax/replay.py: the window of message sequence numbers that were accepted.
pub mod Invariant
pub mod History
use cypher_syntax.Prelude.{
  ℕ, ◌≤◌, ◌<◌, ◌≡◌, ℤ, pos, negsuc, ◌-ℤ◌, leb_ℤ, ltb_ℤ, Bool, List, [], ◌∷◌, not, contains, keep,
  if◌then◌else◌, pos_part, ltb,
}
use cypher_syntax.Py.Result.{Result, ok, err, type_error, value_error, replay_detected_error, ◌>>=◌}
use cypher_syntax.Py.Exec.{Exec, then_run}
use cypher_syntax.Py.Value.{Value, int}
use cypher_syntax.Protocol.{validate_message_sequence}

-- `seen` is a Python set: its items in some order, none of them twice.
pub record ReplayWindow : Type 0 where
  pub window_size : ℕ
  pub highest_seen : ℤ
  pub seen : List ℕ

-- `ReplayWindow(window_size)`, with `__post_init__`; the size of a window is a positive integer.
unfoldable pub new : Value → Result ReplayWindow
new (int z) =
    if leb_ℤ z (pos 0)
    then err value_error
    else ok (record { window_size = pos_part z; highest_seen = negsuc 0; seen = [] })
new _ = err type_error

-- `self.highest_seen - self.window_size`
abbrev pub floor : ReplayWindow → ℤ
floor w = w.highest_seen -ℤ pos w.window_size

-- `_check_unlocked`
unfoldable pub check : ReplayWindow → Value → Result ℕ
check w sequence = do
  n ← validate_message_sequence sequence
  (if contains w.seen n
      then err replay_detected_error
      else if leb_ℤ (pos n) (floor w)
      then err replay_detected_error
      else ok n)

-- `set.add`
abbrev add : ℕ → List ℕ → List ℕ
add n numbers = if contains numbers n then numbers else n ∷ numbers

abbrev raise_highest : ℕ → ReplayWindow → ReplayWindow
raise_highest n w = if ltb_ℤ w.highest_seen (pos n) then record w { highest_seen = pos n } else w

abbrev prune : ReplayWindow → ReplayWindow
prune w = record w { seen = keep (λ number. ltb_ℤ (floor w) (pos number)) w.seen }

-- `_record_unlocked`
unfoldable pub record_seen : ℕ → ReplayWindow → ReplayWindow
record_seen n w = prune (raise_highest n (record w { seen = add n w.seen }))

abbrev after_check : Result ℕ → ReplayWindow → Result (Unit {0}) × ReplayWindow
after_check (ok n) w = (ok tt, record_seen n w)
after_check (err e) w = (err e, w)

-- The lock makes each call one step.
unfoldable pub observe : Value → Exec ReplayWindow (Unit {0})
unfolding check record_seen
observe sequence w = after_check (check w sequence) w

-- the rest of `authenticate_and_record` once the operation has returned
abbrev pub record_after {ℓ} : {A : Type ℓ} → ℕ → Result A × ReplayWindow → Result A × ReplayWindow
record_after n (ok a, w) = (ok a, record_seen n w)
record_after n (err e, w) = (err e, w)

-- The operation runs between the check and the record, under a lock that its own thread may take
-- again: it may change the window itself, so it is given the window.
unfoldable pub authenticate_and_record :
    {A : Type 0} → Value → Exec ReplayWindow A → Exec ReplayWindow A
unfolding check record_seen
authenticate_and_record sequence operation w =
    then_run (check w sequence) (λ n v. record_after n (operation v)) w
