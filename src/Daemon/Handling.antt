-- ===== src/Daemon/Handling.antt =====
-- handleConnection of WorkerPool (pkg/daemon/worker_pool.go): what a worker reads from a connection, parses and
-- stores. Instants are the nanoseconds since its start. json.Unmarshal is an argument.
use patience.Base.{
  ℕ, leb, ◌≤◌, ◌≡◌, refl, ℤ, Option, none, some, List, [], ◌∷◌, ◌++◌, Text, is_empty, if◌then◌else◌,
  Bool-cases, inl, inr, arith,
}
use patience.Metrics.{RunMetrics}
use patience.Storage.{MetricsStorage, store}

-- What comes from the other end: bytes, its end, or an error of the connection. An end that does nothing
-- any more has no further event.
pub data Event : Type 0 where
  sends : ℕ → Text → Event
  closes breaks : ℕ → Event

-- io.ReadAll: all the bytes up to the end, an error, or no return at all.
pub data Reading : Type 0 where
  all_read : ℕ → Text → Reading
  read_error : ℕ → Reading
  never_read : Reading

-- SetReadDeadline(time.Now().Add(5 * time.Second))
abbrev pub read_deadline : Option ℕ
read_deadline = some 5000000000

-- Until the deadline, which ends the reading if it comes before the event, or if there is no event.
abbrev pub until_deadline : Option ℕ → ℕ → Reading → Reading
until_deadline none at reading = reading
until_deadline (some deadline) at reading = if leb deadline at then read_error deadline else reading

abbrev pub silence : Option ℕ → Reading
silence none = never_read
silence (some deadline) = read_error deadline

unfoldable pub read_all : Option ℕ → Text → List Event → Reading
read_all deadline bytes [] = silence deadline
read_all deadline bytes (sends at more ∷ events) =
    until_deadline deadline at (read_all deadline (bytes ++ more) events)
read_all deadline bytes (closes at ∷ events) = until_deadline deadline at (all_read at bytes)
read_all deadline bytes (breaks at ∷ events) = until_deadline deadline at (read_error at)

-- When a connection has been handled, and the metrics that were stored.
pub data Handled : Type 0 where
  stored : ℕ → RunMetrics → Handled
  skipped : ℕ → Handled
  unfinished : Handled

abbrev pub parsed : ℕ → Option RunMetrics → Handled
parsed at none = skipped at
parsed at (some metrics) = stored at metrics

abbrev pub of_reading : (Text → Option RunMetrics) → Reading → Handled
of_reading unmarshal (all_read at data_read) =
    if is_empty data_read then skipped at else parsed at (unmarshal data_read)
of_reading unmarshal (read_error at) = skipped at
of_reading unmarshal never_read = unfinished

unfoldable pub handle_connection : (Text → Option RunMetrics) → List Event → Handled
handle_connection unmarshal events = of_reading unmarshal (read_all read_deadline [] events)

-- The storage behind it; `now` and `later` are the readings of the clock in Store.
abbrev pub storage_after : Handled → ℤ → ℤ → MetricsStorage → MetricsStorage
storage_after (stored at metrics) now later s = store metrics now later s
storage_after (skipped at) now later s = s
storage_after unfinished now later s = s

abbrev pub finished_at : Handled → Option ℕ
finished_at (stored at metrics) = some at
finished_at (skipped at) = some at
finished_at unfinished = none

-- Within five seconds.
abbrev IsTimely : Reading → Type 0
IsTimely (all_read at bytes) = at ≤ 5000000000
IsTimely (read_error at) = at ≤ 5000000000
IsTimely never_read = ⊥

until_deadline-IsTimely :
    (at : ℕ) (r : Reading)
    → (at ≤ 5000000000 → IsTimely r)
    → IsTimely (until_deadline read_deadline at r)
until_deadline-IsTimely at r h = elim (Bool-cases (leb 5000000000 at)) [
  | inl late ↦ rw late (omega arith)
  | inr early ↦ rw early (h (ground (arith, early)))
]

read_all-IsTimely :
    (bytes : Text) (events : List Event) → IsTimely (read_all read_deadline bytes events)
unfolding read_all
read_all-IsTimely bytes [] = omega arith
read_all-IsTimely bytes (sends at more ∷ events) =
    until_deadline-IsTimely at _ (λ h. read_all-IsTimely (bytes ++ more) events)
read_all-IsTimely bytes (closes at ∷ events) = until_deadline-IsTimely at _ (λ h. h)
read_all-IsTimely bytes (breaks at ∷ events) = until_deadline-IsTimely at _ (λ h. h)

-- Handled within five seconds.
abbrev pub IsFinished : Handled → Type 0
IsFinished handled = (at : ℕ) × (finished_at handled ≡ some at) × (at ≤ 5000000000)

parsed-IsFinished :
    (at : ℕ) (metrics : Option RunMetrics) → at ≤ 5000000000 → IsFinished (parsed at metrics)
parsed-IsFinished at none h = (at, refl, h)
parsed-IsFinished at (some metrics) h = (at, refl, h)

of_reading-IsFinished :
    (unmarshal : Text → Option RunMetrics) (r : Reading)
    → IsTimely r
    → IsFinished (of_reading unmarshal r)
of_reading-IsFinished unmarshal (all_read at bytes) h = elim (Bool-cases (is_empty bytes)) [
  | inl none_sent ↦ rw none_sent (at, refl, h)
  | inr some_sent ↦ rw some_sent (parsed-IsFinished at (unmarshal bytes) h)
]
of_reading-IsFinished unmarshal (read_error at) h = (at, refl, h)
of_reading-IsFinished unmarshal never_read h = absurd h

-- A connection is handled within five seconds, whatever the other end does.
pub handle_connection-IsFinished :
    (unmarshal : Text → Option RunMetrics) (events : List Event)
    → IsFinished (handle_connection unmarshal events)
unfolding handle_connection
handle_connection-IsFinished unmarshal events =
    of_reading-IsFinished unmarshal (read_all read_deadline [] events) (read_all-IsTimely [] events)
