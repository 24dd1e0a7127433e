-- ===== src/Executor/Capture.antt =====
-- What a run of the system's commands captures (limitedBuffer and RunWithOutputAndContext of
-- pkg/executor/executor.go). A buffer holds bytes; starting the process, copying its output and
-- waiting for it are the standard library's, so their results are arguments.
use patience.Base.{
  ℕ, ◌+◌, ◌-◌, ◌≤◌, ◌<◌, ◌≡◌, ◌↔◌, refl, ap, sym, ◌∙◌, ℤ, pos, pos_part, ◌-ℤ◌, ltb_ℤ, Bool-cases,
  inl, inr, List, [], ◌∷◌, ◌++◌, length, take, append_assoc, append-nil, if◌then◌else◌, arith,
  take_all, take-append, length-take-le, length-take, Option, none, some, String, negsuc, ◌≢◌, ◌*◌,
  Bool, true, false,
}
use mathlib.Core.Path.{subst}
use patience.Executor.Attempts.{CommandOutput, RunError, deadline_exceeded, other_error, no_output}

pub record LimitedBuffer : Type 0 where
  pub bytes : List ℕ
  pub limit : ℤ

-- The number that Write returns, beside the buffer; its error is always nil.
unfoldable pub write : List ℕ → LimitedBuffer → ℕ × LimitedBuffer
write p b =
    if ltb_ℤ b.limit (pos (length b.bytes + length p))
    then (let remaining = b.limit -ℤ pos (length b.bytes) in
        if ltb_ℤ (pos 0) remaining
        then (
          length (take (pos_part remaining) p),
          record b { bytes = b.bytes ++ take (pos_part remaining) p },
        )
        else (length p, b))
    else (length p, record b { bytes = b.bytes ++ p })

unfoldable pub write_all : List (List ℕ) → LimitedBuffer → LimitedBuffer
write_all [] b = b
write_all (p ∷ ps) b = write_all ps (write p b).1

abbrev pub joined : List (List ℕ) → List ℕ
joined [] = []
joined (p ∷ ps) = p ++ joined ps

abbrev pub empty_buffer : ℤ → LimitedBuffer
empty_buffer limit = record { bytes = []; limit = limit }

-- A buffer that was written `written` holds the start of it that fits.
record Holds (m : ℕ) (written : List ℕ) (b : LimitedBuffer) : Type 0 where
  limit : b.limit ≡ pos m
  bytes : b.bytes ≡ take m written

remaining_lem : (m k : ℕ) → pos_part (pos m -ℤ pos k) ≡ m - k
unfolding ◌-ℤ◌
remaining_lem m k = ground arith

write-bytes :
    (m : ℕ) (p : List ℕ) (b : LimitedBuffer)
    → b.limit ≡ pos m
    → length b.bytes ≤ m
    → ((write p b).1.bytes ≡ b.bytes ++ take (m - length b.bytes) p) × ((write p b).1.limit ≡ pos m)
unfolding write ◌-ℤ◌
write-bytes m p b limit h =
    let keep = λ (k : ℕ) (eq : k ≡ m - length b.bytes). ap (λ n. b.bytes ++ take n p) eq in
    let rest = remaining_lem m (length b.bytes) in
    rw limit (elim (Bool-cases (ltb_ℤ (pos m) (pos (length b.bytes + length p)))) [
      | inr e ↦
          rw e (
            ap (λ l. b.bytes ++ l) (sym (take_all (m - length b.bytes) p (ground (arith, e)))),
            refl,
          )
      | inl e ↦ elim (Bool-cases (ltb_ℤ (pos 0) (pos m -ℤ pos (length b.bytes)))) [
        | inl f ↦ rw (e, f) (keep _ rest, refl)
        | inr f ↦ rw (e, f) (sym (append-nil b.bytes) ∙ keep 0 (ground (arith, f)), refl)
      ]
    ])

write-Holds :
    (m : ℕ) (written p : List ℕ) (b : LimitedBuffer)
    → Holds m written b
    → Holds m (written ++ p) (write p b).1
write-Holds m written p b h =
    let le : length b.bytes ≤ m =
      subst (λ l. length l ≤ m) (sym h.bytes) (length-take-le m written) in
    let (bytes, limit) = write-bytes m p b h.limit le in
    record {
      limit = limit;
      bytes = bytes ∙ ap (λ l. l ++ take (m - length l) p) h.bytes ∙ sym (take-append m written p);
    }

write_all-Holds :
    (m : ℕ) (written : List ℕ) (ps : List (List ℕ)) (b : LimitedBuffer)
    → Holds m written b
    → Holds m (written ++ joined ps) (write_all ps b)
unfolding write_all
write_all-Holds m written [] b h = subst (λ l. Holds m l b) (sym (append-nil written)) h
write_all-Holds m written (p ∷ ps) b h =
    subst (λ l. Holds m l (write_all ps (write p b).1)) (append_assoc written p (joined ps))
      (write_all-Holds m (written ++ p) ps (write p b).1 (write-Holds m written p b h))

-- However an output is split into writes, an empty buffer ends up with the first bytes of the
-- output, as many as its limit allows or all of them.
pub write_all-take :
    (m : ℕ) (ps : List (List ℕ)) → (write_all ps (empty_buffer (pos m))).bytes ≡ take m (joined ps)
write_all-take m ps =
    (write_all-Holds m [] ps (empty_buffer (pos m))
      record { limit = refl; bytes = sym (take_all m [] (omega arith)) }).bytes

-- Write returns another number than the length of what it was given, which io.Writer forbids
-- without an error, exactly for a chunk that reaches across the limit: the buffer was not full, and
-- the chunk does not fit.
pub write_short_iff :
    (p : List ℕ) (b : LimitedBuffer) (m : ℕ)
    → b.limit ≡ pos m
    → ((write p b).0 < length p) ↔ ((length b.bytes < m) × (m < length b.bytes + length p))
unfolding write ◌-ℤ◌
write_short_iff p b m limit =
    rw (limit, remaining_lem m (length b.bytes))
      (ground (arith, length-take (m - length b.bytes) p))

-- How cmd.Run ends: without an error, with an *exec.ExitError, or with another error.
pub data ProcessEnd : Type 0 where
  completed : ProcessEnd
  exit_error : ℤ → ProcessEnd
  broken : String → ProcessEnd

-- What a started process does: the writes that reach each buffer, its end, and whether the context's
-- deadline has passed by then.
pub record Process : Type 0 where
  pub stdout : List (List ℕ)
  pub stderr : List (List ℕ)
  pub finish : ProcessEnd
  pub past_deadline : Bool

abbrev pub max_buffer_size : ℕ
max_buffer_size = 10 * 1024 * 1024

module _ (text : List ℕ → String) where
  abbrev captured : Process → ℤ → CommandOutput
  captured p exit_code = record {
    exit_code = exit_code;
    stdout = text (write_all p.stdout (empty_buffer (pos max_buffer_size))).bytes;
    stderr = text (write_all p.stderr (empty_buffer (pos max_buffer_size))).bytes;
  }

  unfoldable pub finished : Process → Bool → ProcessEnd → CommandOutput × Option RunError
  finished p past_deadline completed = (captured p (pos 0), none)
  finished p true (exit_error code) = (captured p (negsuc 0), some deadline_exceeded)
  finished p true (broken error) = (captured p (negsuc 0), some deadline_exceeded)
  finished p false (exit_error code) = (captured p code, none)
  finished p false (broken error) = (captured p (negsuc 0), some (other_error error))

  unfoldable pub run_with_output_and_context :
      List String → Process → CommandOutput × Option RunError
  run_with_output_and_context [] p = (no_output (negsuc 0), none)
  run_with_output_and_context (name ∷ args) p = finished p p.past_deadline p.finish

  -- The result of a run beside the process that it describes.
  pub record Describes (p : Process) (result : CommandOutput × Option RunError) : Type 0 where
    pub stdout : result.0.stdout ≡ text (take max_buffer_size (joined p.stdout))
    pub stderr : result.0.stderr ≡ text (take max_buffer_size (joined p.stderr))
    pub failure : result.1 ≢ none → result.0.exit_code ≡ negsuc 0
    pub deadline :
        (result.1 ≡ some deadline_exceeded) ↔ ((p.past_deadline ≡ true) × (p.finish ≢ completed))

  captured-Describes :
      (p : Process) (exit_code : ℤ) (error : Option RunError)
      → (error ≢ none → exit_code ≡ negsuc 0)
      → (error ≡ some deadline_exceeded) ↔ ((p.past_deadline ≡ true) × (p.finish ≢ completed))
      → Describes p (captured p exit_code, error)
  captured-Describes p exit_code error h k = record {
    stdout = ap text (write_all-take max_buffer_size p.stdout);
    stderr = ap text (write_all-take max_buffer_size p.stderr);
    failure = h;
    deadline = k;
  }

  finished-Describes :
      (p : Process) (past : Bool) (e : ProcessEnd)
      → p.past_deadline ≡ past
      → p.finish ≡ e
      → Describes p (finished p past e)
  unfolding finished
  finished-Describes p past completed late eq =
      captured-Describes p (pos 0) none (ground arith) (ground (arith, eq))
  finished-Describes p true (exit_error code) late eq =
      captured-Describes p (negsuc 0) (some deadline_exceeded) (ground arith)
        (ground (arith, eq, late))
  finished-Describes p false (exit_error code) late eq =
      captured-Describes p code none (ground arith) (ground (arith, eq, late))
  finished-Describes p true (broken error) late eq =
      captured-Describes p (negsuc 0) (some deadline_exceeded) (ground arith)
        (ground (arith, eq, late))
  finished-Describes p false (broken error) late eq =
      captured-Describes p (negsuc 0) (some (other_error error)) (ground arith)
        (ground (arith, eq, late))

  -- A run of a command returns the first 10 MiB of what the process wrote to each of its outputs,
  -- however it was split into writes; with an error the exit code is -1; and the error is the
  -- deadline's exactly if the deadline had passed and the process did not end without an error.
  pub run_with_output_and_context-Describes :
      (name : String) (args : List String) (p : Process)
      → Describes p (run_with_output_and_context (name ∷ args) p)
  unfolding run_with_output_and_context
  run_with_output_and_context-Describes name args p =
      finished-Describes p p.past_deadline p.finish refl refl
