-- ===== src/Core/Fault.antt =====
-- cmd/core/fault_on.go: the commit hook of a build for the crash tests.
use nine_core.Common.{
  ℕ, ◌++◌, Option, none, some, false, Option-cases, Bytes, codes, bytes_eq, if◌then◌else◌, ◌≡◌,
  Bool-cases, inl, inr, ◌⊎◌,
}
use nine_core.Errors.{GoError}

-- What becomes of the call: it returns, and the offsets are committed, or the process exits.
data Passed : Type 0 where
  returned : Passed
  exited : ℕ → Passed

abbrev exit_at_fault : ℕ
exit_at_fault = 97

abbrev exit_no_release : ℕ
exit_no_release = 98

abbrev point : Bytes
point = codes "AFTER_DB_COMMIT"

-- The environment, the output, the errors and the input of the process.
module _ {S : Type 0} (getenv : Bytes → Bytes) (print_line complain : Bytes → S → S)
    (read_line : S → Option GoError × S) where
  abbrev no_line : GoError → Bytes
  no_line e = codes "nine-fault: stdin ended before a release line: " ++ e.text

  -- Behind the line that tells the test where the process stands.
  abbrev paused : S → Passed × S
  paused s = elim (read_line s).0 [
    | none ↦ (returned, (read_line s).1)
    | some e ↦ (exited exit_no_release, complain (no_line e) (read_line s).1)
  ]

  abbrev mode : Bytes
  mode = getenv (codes "NINE_FAULT_" ++ point)

  unfoldable pause_or_crash : S → Passed × S
  unfolding bytes_eq
  pause_or_crash s =
      if bytes_eq mode (codes "exit")
      then (exited exit_at_fault, s)
      else if bytes_eq mode (codes "pause")
      then paused (print_line (codes "nine-fault-reached: " ++ point) s)
      else (returned, s)

  paused-returned : (s : S) → (paused s).0 ≡ returned → (read_line s).0 ≡ none
  paused-returned s h = elim (Option-cases (read_line s).0) [
    | inl q ↦ q
    | inr (e, q) ↦ cc (rw (q, paused) at h)
  ]

  -- The offsets are committed only if no crash was asked for, and behind a pause only once a line
  -- was read.
  pause_or_crash-returned :
      (s : S)
      → (pause_or_crash s).0 ≡ returned
      → (bytes_eq mode (codes "exit") ≡ false)
        × ((bytes_eq mode (codes "pause") ≡ false)
            ⊎ ((read_line (print_line (codes "nine-fault-reached: " ++ point) s)).0 ≡ none))
  unfolding pause_or_crash
  pause_or_crash-returned s h = elim (Bool-cases (bytes_eq mode (codes "exit"))) [
    | inl t ↦ cc (rw t at h)
    | inr t ↦ elim (Bool-cases (bytes_eq mode (codes "pause"))) [
      | inr u ↦ (t, inl u)
      | inl u ↦ (
        t,
        inr (
            paused-returned (print_line (codes "nine-fault-reached: " ++ point) s)
              (rw (t, u) at h)),
      )
    ]
  ]
