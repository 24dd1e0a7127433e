-- ===== src/Examples/CaptureRuns.antt =====
-- What a run captures, at concrete inputs.
use patience.Base.{ℕ, ◌≡◌, refl, ◌-ℤ◌, pos, negsuc, String, true, List, [], ◌∷◌}
use patience.Executor.Capture.{
  LimitedBuffer, write, Process, exit_error, run_with_output_and_context, Describes,
  run_with_output_and_context-Describes,
}

-- Four of eight bytes are used.
abbrev half_full : LimitedBuffer
half_full = record { bytes = 1 ∷ 2 ∷ 3 ∷ 4 ∷ []; limit = pos 8 }

abbrev five_bytes : List ℕ
five_bytes = 5 ∷ 6 ∷ 7 ∷ 8 ∷ 9 ∷ []

-- The fifth byte is lost, and Write says so without an error.
four_written : (write five_bytes half_full).0 ≡ 4
unfolding write ◌-ℤ◌
four_written = refl

abbrev killed : Process
killed = record {
  stdout = (104 ∷ []) ∷ (105 ∷ []) ∷ [];
  stderr = [];
  finish = exit_error (negsuc 0);
  past_deadline = true;
}

abbrev as_text : List ℕ → String
as_text [] = ""
as_text (b ∷ bs) = "bytes"

run_with_output_and_context-Describes_example :
    Describes as_text killed (run_with_output_and_context as_text ("sleep" ∷ "9" ∷ []) killed)
run_with_output_and_context-Describes_example =
    run_with_output_and_context-Describes as_text "sleep" ("9" ∷ []) killed
