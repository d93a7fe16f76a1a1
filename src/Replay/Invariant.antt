-- ===== src/Replay/Invariant.antt =====
-- What holds of every window that calls produce, how much it holds, and what it refuses for good.
use cypher_syntax.Prelude.{
  ◌∙◌, ap, ℕ, suc, ◌-◌, ◌≤◌, ◌<◌, ◌≡◌, pos, ◌≤ℤ◌, ◌<ℤ◌, leb_ℤ, ltb_ℤ, Bool-cases, true, List, [],
  ◌∷◌, ◌||◌, inl, inr, contains, contains-keep, arith, Distinct, Distinct-keep, length,
  length_le_range, int-cases,
}
use cypher_syntax.Py.Result.{bind-eq-ok, Result-cases, Result, ok, err, replay_detected_error}
use cypher_syntax.Py.Exec.{Exec, then_run, reading}
use cypher_syntax.Py.Value.{null, Value, int, Bytes}
use cypher_syntax.Protocol.{
  max_message_sequence, validate_message_sequence, validate_message_sequence_sound,
}
use cypher_syntax.Replay.{
  record_after, ReplayWindow, new, check, add, record_seen, raise_highest, floor, after_check,
  observe, authenticate_and_record,
}

pub record IsValid (w : ReplayWindow) : Type 0 where
  pub positive : 0 < w.window_size
  pub within : (n : ℕ) → contains w.seen n ≡ true → (floor w <ℤ pos n) × (pos n ≤ℤ w.highest_seen)
  pub distinct : Distinct w.seen
  -- the highest number is held, unless nothing was accepted yet
  pub top : (h : ℕ) → w.highest_seen ≡ pos h → contains w.seen h ≡ true

Distinct-add : (n : ℕ) (xs : List ℕ) → Distinct xs → Distinct (add n xs)
Distinct-add n xs h = ground arith

seen-raise_highest-Distinct :
    (n : ℕ) (w : ReplayWindow) → Distinct w.seen → Distinct (raise_highest n w).seen
seen-raise_highest-Distinct n w h = elim (Bool-cases (ltb_ℤ w.highest_seen (pos n))) [
  | inl e ↦ rw e h
  | inr e ↦ rw e h
]

pub record_seen-IsValid : (n : ℕ) (w : ReplayWindow) → IsValid w → IsValid (record_seen n w)
unfolding record_seen
record_seen-IsValid n w v = record {
  positive = ground (arith, v.positive);
  within = λ m. rw contains-keep (ground (arith, v.within m));
  distinct =
      Distinct-keep
        (λ number. ltb_ℤ (floor (raise_highest n (record w { seen = add n w.seen }))) (pos number))
        (raise_highest n (record w { seen = add n w.seen })).seen
        (seen-raise_highest-Distinct n (record w { seen = add n w.seen })
          (Distinct-add n w.seen v.distinct));
  top = λ h. rw contains-keep (ground (arith, v.top h, v.positive));
}

new-IsValid : (size : Value) (w : ReplayWindow) → new size ≡ ok w → IsValid w
unfolding new
new-IsValid (int z) w h = record {
  positive = ground arith;
  within = λ m. ground arith;
  distinct = let e : w.seen ≡ [] = ground arith in rw e tt;
  top = λ m. ground arith;
}
new-IsValid null w h = absurd (cc)
new-IsValid _ w h = absurd (cc)

-- a call of the window, with the result of the operation where it has one
pub data Call : Type 0 where
  observed : Value → Call
  authenticated : Value → Result Bytes → Call

unfoldable pub step : Call → ReplayWindow → ReplayWindow
unfolding observe authenticate_and_record
step (observed v) w = (observe v w).1
step (authenticated v outcome) w = (authenticate_and_record v (reading (λ _. outcome)) w).1

unfoldable pub run : List Call → ReplayWindow → ReplayWindow
run [] w = w
run (c ∷ calls) w = run calls (step c w)

module _ (P : ReplayWindow → Type 0)
    (keeps : (n : ℕ) (w : ReplayWindow) → P w → P (record_seen n w)) where
  after_check-keeps : (x : Result ℕ) (w : ReplayWindow) → P w → P (after_check x w).1
  after_check-keeps (ok n) w h = keeps n w h
  after_check-keeps (err e) w h = h

  record_after-keeps :
      (x : Result ℕ) (outcome : Result Bytes) (w : ReplayWindow)
      → P w
      → P (then_run x (λ n v. record_after n (outcome, v)) w).1
  record_after-keeps (ok n) (ok a) w h = keeps n w h
  record_after-keeps (ok n) (err e) w h = h
  record_after-keeps (err e) outcome w h = h

  step-keeps : (c : Call) (w : ReplayWindow) → P w → P (step c w)
  unfolding step
  step-keeps (observed v) w h = after_check-keeps (check w v) w h
  step-keeps (authenticated v outcome) w h = record_after-keeps (check w v) outcome w h

  pub run-keeps : (calls : List Call) (w : ReplayWindow) → P w → P (run calls w)
  unfolding run
  run-keeps [] w h = h
  run-keeps (c ∷ calls) w h = run-keeps calls (step c w) (step-keeps c w h)

length-seen-le-size : (w : ReplayWindow) → IsValid w → length w.seen ≤ w.window_size
length-seen-le-size w v = elim (int-cases w.highest_seen) [
  | inl none_yet ↦
      length_le_range w.window_size 0 w.seen v.distinct
        (λ n m. ground (arith, v.within n m, none_yet.1))
  | inr (h, e) ↦
      length_le_range w.window_size (suc h - w.window_size) w.seen v.distinct
        (λ n m. ground (arith, v.within n m, e))
]

-- Whatever calls a new window gets, and whatever the operations return, the window stays valid: it
-- holds distinct numbers, all of them above the floor and none above the highest, and the highest
-- accepted one is among them. So it never holds more numbers than its size.
pub run-IsValid :
    (size : Value) (w : ReplayWindow) (calls : List Call)
    → new size ≡ ok w
    → IsValid (run calls w) × (length (run calls w).seen ≤ (run calls w).window_size)
run-IsValid size w calls made =
    let v = run-keeps IsValid record_seen-IsValid calls w (new-IsValid size w made) in
    (v, length-seen-le-size (run calls w) v)

-- refused from now on
abbrev IsRetired : ℕ → ReplayWindow → Type 0
IsRetired n w = (contains w.seen n || leb_ℤ (pos n) (floor w)) ≡ true

record_seen-IsRetired : (n m : ℕ) (w : ReplayWindow) → IsRetired n w → IsRetired n (record_seen m w)
unfolding record_seen
record_seen-IsRetired n m w h = rw contains-keep (ground arith)

record_seen-IsRetired_self : (n : ℕ) (w : ReplayWindow) → IsRetired n (record_seen n w)
unfolding record_seen
record_seen-IsRetired_self n w = rw contains-keep (ground arith)

check-IsRetired :
    (n : ℕ) (w : ReplayWindow)
    → n ≤ max_message_sequence
    → IsRetired n w
    → check w (int (pos n)) ≡ err replay_detected_error
unfolding check validate_message_sequence
check-IsRetired n w fits h = ground arith

check_sound :
    (w : ReplayWindow) (n m : ℕ)
    → check w (int (pos n)) ≡ ok m
    → (m ≡ n) × (n ≤ max_message_sequence)
unfolding check validate_message_sequence
check_sound w n m h = ground arith

-- what passed is the number itself
pub check_number :
    (w : ReplayWindow) (v : Value) (n : ℕ)
    → check w v ≡ ok n
    → (v ≡ int (pos n)) × (n ≤ max_message_sequence)
unfolding check
check_number w v n h =
    let (m, passed, fresh) = bind-eq-ok (validate_message_sequence v) _ h in
    let (same, fits) = validate_message_sequence_sound v m passed in
    let e : m ≡ n = ground arith in (same ∙ ap (λ k. int (pos k)) e, omega arith)

module _ {A : Type 0} where
  record_after-IsRetired :
      (n : ℕ) (p : Result A × ReplayWindow) (a : A)
      → (record_after n p).0 ≡ ok a
      → IsRetired n (record_after n p).1
  record_after-IsRetired n (ok b, w) a h = record_seen-IsRetired_self n w
  record_after-IsRetired n (err e, w) a h = absurd (cc)

  accepted-IsRetired :
      (w : ReplayWindow) (n : ℕ) (operation : Exec ReplayWindow A) (a : A)
      → (authenticate_and_record (int (pos n)) operation w).0 ≡ ok a
      → IsRetired n (authenticate_and_record (int (pos n)) operation w).1
        × (n ≤ max_message_sequence)
  unfolding authenticate_and_record
  accepted-IsRetired w n operation a h = elim (Result-cases (check w (int (pos n)))) [
    | inl (m, e) ↦
        let (same, fits) = check_sound w n m e in
        rw (e, same) (record_after-IsRetired n (operation w) a (rw (e, same) at h), fits)
    | inr (m, e) ↦ absurd (cc (rw e at h))
  ]

-- A number that was accepted once is refused for ever, whatever window it was, whatever the
-- operation did to it, and whatever calls came in between: the second operation does not run and
-- the window stays as it is.
pub accepted_once :
    {A B : Type 0} (w : ReplayWindow) (n : ℕ) (operation : Exec ReplayWindow A) (a : A)
    (calls : List Call) (second : Exec ReplayWindow B)
    → (authenticate_and_record (int (pos n)) operation w).0 ≡ ok a
    → let w' = run calls (authenticate_and_record (int (pos n)) operation w).1 in
      authenticate_and_record (int (pos n)) second w' ≡ (err replay_detected_error, w')
unfolding authenticate_and_record
accepted_once w n operation a calls second accepted =
    let (retired, fits) = accepted-IsRetired w n operation a accepted in
    let w' = run calls (authenticate_and_record (int (pos n)) operation w).1 in
    rw (
      check-IsRetired n w' fits
        (run-keeps (IsRetired n) (λ m u. record_seen-IsRetired n m u) calls _ retired))
