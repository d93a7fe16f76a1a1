-- ===== src/Replay/History.antt =====
-- The window against the whole history of accepted numbers, which it does not keep.
use mathlib.Core.Path.{fun_ext, ap₂}
use cypher_syntax.Prelude.{
  ◌∙◌, Bool-cases, inl, inr, ℕ, ◌≡◌, refl, ap, ℤ, pos, negsuc, ◌-ℤ◌, ltb_ℤ, Bool, List, [], ◌∷◌,
  not, ◌&&◌, contains, contains-keep, if◌then◌else◌, arith,
}
use cypher_syntax.Py.Result.{◌>>=◌, Result, ok, err, replay_detected_error}
use cypher_syntax.Py.Value.{Value, int}
use cypher_syntax.Protocol.{validate_message_sequence}
use cypher_syntax.Replay.{after_check, ReplayWindow, new, check, record_seen, floor, observe}

-- the largest number of a history, and -1 if it is empty
abbrev pub latest : List ℕ → ℤ
latest [] = negsuc 0
latest (n ∷ history) = if ltb_ℤ (latest history) (pos n) then pos n else latest history

-- what a receiver that remembers everything accepts
abbrev pub is_fresh : ℕ → List ℕ → ℕ → Bool
is_fresh size history n = not (contains history n) && ltb_ℤ (latest history -ℤ pos size) (pos n)

pub record Represents (w : ReplayWindow) (history : List ℕ) : Type 0 where
  pub highest : w.highest_seen ≡ latest history
  pub members : (n : ℕ) → contains w.seen n ≡ (contains history n && ltb_ℤ (floor w) (pos n))

-- the test of a number that is in range
abbrev fresh_or_err : ℕ → List ℕ → ℕ → Result ℕ
fresh_or_err size history n = if is_fresh size history n then ok n else err replay_detected_error

check_fresh :
    (w : ReplayWindow) (history : List ℕ) (v : Value)
    → Represents w history
    → check w v ≡ (validate_message_sequence v >>= fresh_or_err w.window_size history)
unfolding check
check_fresh w history v r =
    ap (λ f. validate_message_sequence v >>= f)
      (fun_ext (λ n. ground (arith, r.members n, r.highest)))

record_seen-Represents :
    (w : ReplayWindow) (history : List ℕ) (n : ℕ)
    → Represents w history
    → Represents (record_seen n w) (n ∷ history)
unfolding record_seen
record_seen-Represents w history n r = record {
  highest = ground (arith, r.highest);
  members = λ m. rw contains-keep (ground (arith, r.members m, r.highest));
}

-- one call against a receiver that remembers everything
abbrev pub remember : ℕ → List ℕ → Result ℕ → Result (Unit {0}) × List ℕ
remember size history (ok n) =
    if is_fresh size history n then (ok tt, n ∷ history) else (err replay_detected_error, history)
remember size history (err e) = (err e, history)

abbrev pub remember_all : ℕ → List ℕ → List Value → List (Result (Unit {0}))
remember_all size history [] = []
remember_all size history (v ∷ calls) =
    let (r, history') = remember size history (validate_message_sequence v) in
    r ∷ remember_all size history' calls

-- the results of a row of calls of `observe`
unfoldable pub observe_all : ReplayWindow → List Value → List (Result (Unit {0}))
observe_all w [] = []
observe_all w (v ∷ calls) = let (r, w') = observe v w in r ∷ observe_all w' calls

window_size-record_seen : (n : ℕ) (w : ReplayWindow) → (record_seen n w).window_size ≡ w.window_size
unfolding record_seen
window_size-record_seen n w = ground arith

record Simulates (size : ℕ) (a : Result (Unit {0}) × ReplayWindow) (b : Result (Unit {0}) × List ℕ)
    : Type 0 where
  same : a.0 ≡ b.0
  sized : a.1.window_size ≡ size
  related : Represents a.1 b.1

after_check-Simulates :
    (w : ReplayWindow) (history : List ℕ) (x : Result ℕ)
    → Represents w history
    → Simulates w.window_size
        (after_check (x >>= fresh_or_err w.window_size history) w)
        (remember w.window_size history x)
after_check-Simulates w history (err e) r = record { same = refl; sized = refl; related = r }
after_check-Simulates w history (ok n) r = elim (Bool-cases (is_fresh w.window_size history n)) [
  | inl e ↦ rw e (record {
    same = refl;
    sized = window_size-record_seen n w;
    related = record_seen-Represents w history n r;
  })
  | inr e ↦ rw e (record { same = refl; sized = refl; related = r })
]

observe-remember :
    (w : ReplayWindow) (history : List ℕ) (v : Value)
    → Represents w history
    → Simulates w.window_size
        (observe v w)
        (remember w.window_size history (validate_message_sequence v))
observe-remember w history v r =
    unfold observe in
    rw (check_fresh w history v r) (after_check-Simulates w history (validate_message_sequence v) r)

observe_all-remember_all :
    (calls : List Value) (w : ReplayWindow) (history : List ℕ)
    → Represents w history
    → observe_all w calls ≡ remember_all w.window_size history calls
unfolding observe_all
observe_all-remember_all [] w history r = refl
observe_all-remember_all (v ∷ calls) w history r =
    let w' = (observe v w).1 in
    let later = (remember w.window_size history (validate_message_sequence v)).1 in
    let s = observe-remember w history v r in
    ap₂ ◌∷◌ s.same (
      observe_all-remember_all calls w' later s.related
      ∙ ap (λ (k : ℕ). remember_all k later calls) s.sized)

-- A window of a positive size answers every row of calls of `observe`, valid numbers or not, as
-- a receiver does that keeps the whole history and accepts a number exactly if it is new and
-- larger than the largest accepted one less the size.
pub window_refines_history :
    (size : ℕ) (calls : List Value) (w : ReplayWindow)
    → new (int (pos size)) ≡ ok w
    → observe_all w calls ≡ remember_all size [] calls
unfolding new
window_refines_history size calls w h =
    observe_all-remember_all calls w []
      (record { highest = ground arith; members = λ n. ground arith })
    ∙ ap (λ (k : ℕ). remember_all k [] calls) (ground arith)
