-- ===== src/AuditLog/Writer.antt =====
-- The background writer of pkg/proxy/audit.go: startWriter, enqueue, Flush and Close. A write is a
-- function of the tables in the source, and a number here; `written` holds those that have run, and
-- whether the database, which Close closes at its end, still takes them is left out. The steps
-- interleave: a caller of `enqueue` that has found the logger open sends its write later, so that a
-- `Close` and the end of the writer can come between the two.
pub mod Order
use agentsecrets.Prelude.{
  ℕ, zero, suc, ◌+◌, ◌≤◌, ◌<◌, ◌≡◌, refl, Bool, true, false, List, [], ◌∷◌, ◌++◌, arith, ltb, leb,
  ◌==◌, if◌then◌else◌, length, length-append, append_assoc, append-nil, ap,
}

abbrev pub audit_write_buffer : ℕ
audit_write_buffer = 256

pub record Writer : Type 0 where
  pub waiting : List ℕ
  pub queue : List ℕ
  pub written : List ℕ
  pub closed : Bool
  pub exited : Bool

abbrev pub new_writer : Writer
new_writer = record { waiting = []; queue = []; written = []; closed = false; exited = false }

-- The states that the logger comes to, with the writes that callers have asked for until then.
pub data Run : List ℕ → Writer → Type 0 where
  fresh : Run [] new_writer
  -- The first select of `enqueue`: a caller that finds the logger closed runs its write itself.
  call_closed :
      {jobs : List ℕ} {w : Writer} (job : ℕ)
      → Run jobs w
      → w.closed ≡ true
      → Run (job ∷ jobs) (record w { written = w.written ++ job ∷ [] })
  call_open :
      {jobs : List ℕ} {w : Writer} (job : ℕ)
      → Run jobs w
      → w.closed ≡ false
      → Run (job ∷ jobs) (record w { waiting = job ∷ w.waiting })
  -- The second select: it may send whenever the buffer has room, the logger closed or not.
  send :
      {jobs : List ℕ} {w : Writer} (before : List ℕ) (job : ℕ) (after : List ℕ)
      → Run jobs w
      → w.waiting ≡ before ++ job ∷ after
      → length w.queue < audit_write_buffer
      → Run jobs (record w { waiting = before ++ after; queue = w.queue ++ job ∷ [] })
  run_full :
      {jobs : List ℕ} {w : Writer} (before : List ℕ) (job : ℕ) (after : List ℕ)
      → Run jobs w
      → w.waiting ≡ before ++ job ∷ after
      → audit_write_buffer ≤ length w.queue
      → Run jobs (record w { waiting = before ++ after; written = w.written ++ job ∷ [] })
  run_closed :
      {jobs : List ℕ} {w : Writer} (before : List ℕ) (job : ℕ) (after : List ℕ)
      → Run jobs w
      → w.waiting ≡ before ++ job ∷ after
      → w.closed ≡ true
      → Run jobs (record w { waiting = before ++ after; written = w.written ++ job ∷ [] })
  -- The goroutine takes the next write.
  take_next :
      {jobs : List ℕ} {w : Writer} (job : ℕ) (rest : List ℕ)
      → Run jobs w
      → w.exited ≡ false
      → w.queue ≡ job ∷ rest
      → Run jobs (record w { queue = rest; written = w.written ++ job ∷ [] })
  close : {jobs : List ℕ} {w : Writer} → Run jobs w → Run jobs (record w { closed = true })
  -- The goroutine ends, with nothing left to drain.
  exit :
      {jobs : List ℕ} {w : Writer}
      → Run jobs w
      → w.closed ≡ true
      → w.queue ≡ []
      → Run jobs (record w { exited = true })

unfoldable pub count : ℕ → List ℕ → ℕ
count n [] = 0
count n (m ∷ ms) = if n == m then suc (count n ms) else count n ms

count-append : (n : ℕ) (xs ys : List ℕ) → count n (xs ++ ys) ≡ count n xs + count n ys
unfolding count
count-append n [] ys = omega arith
count-append n (x ∷ xs) ys = ground (arith, count-append n xs ys)

-- How often a write is somewhere in the logger.
unfoldable pub held : ℕ → Writer → ℕ
unfolding count
held n w = count n w.waiting + count n w.queue + count n w.written

taken :
    (n : ℕ) (w : Writer) (before : List ℕ) (job : ℕ) (after : List ℕ)
    → w.waiting ≡ before ++ job ∷ after
    → count n w.waiting ≡ count n (before ++ after) + count n (job ∷ [])
unfolding count
taken n w before job after e =
    ground (arith, ap (count n) e, count-append n before (job ∷ after), count-append n before after)

-- The buffer never holds more than its 256 writes.
Run-bounded : {jobs : List ℕ} {w : Writer} → Run jobs w → length w.queue ≤ audit_write_buffer
Run-bounded fresh = omega arith
Run-bounded (call_closed job r h) = Run-bounded r
Run-bounded (call_open job r h) = Run-bounded r
Run-bounded {w = _} (send {w = w} before job after r e room) =
    omega (arith, length-append w.queue (job ∷ []), room)
Run-bounded (run_full before job after r e full) = Run-bounded r
Run-bounded (run_closed before job after r e h) = Run-bounded r
Run-bounded (take_next {w = w} job rest r running e) = omega (arith, Run-bounded r, ap length e)
Run-bounded (close r) = Run-bounded r
Run-bounded (exit r h e) = Run-bounded r

-- Whatever the interleaving, every write that was asked for is held in exactly one place, as often as
-- it was asked for: with the callers, in the buffer, or among those that have run.
pub Run-conserves : {jobs : List ℕ} {w : Writer} (n : ℕ) → Run jobs w → held n w ≡ count n jobs
unfolding held
Run-conserves n fresh = refl
Run-conserves n (call_closed {w = w} job r h) =
    ground (arith, Run-conserves n r, count-append n w.written (job ∷ []))
Run-conserves n (call_open job r h) = ground (arith, Run-conserves n r)
Run-conserves n (send {w = w} before job after r e room) =
    ground
      (arith, Run-conserves n r, taken n w before job after e, count-append n w.queue (job ∷ []))
Run-conserves n (run_full {w = w} before job after r e full) =
    ground
      (arith, Run-conserves n r, taken n w before job after e, count-append n w.written (job ∷ []))
Run-conserves n (run_closed {w = w} before job after r e h) =
    ground
      (arith, Run-conserves n r, taken n w before job after e, count-append n w.written (job ∷ []))
Run-conserves n (take_next {w = w} job rest r running e) =
    ground (arith, Run-conserves n r, ap (count n) e, count-append n w.written (job ∷ []))
Run-conserves n (close r) = Run-conserves n r
Run-conserves n (exit r h e) = Run-conserves n r

-- `enqueue`, when nothing comes between its selects.
unfoldable pub enqueue : ℕ → Writer → Writer
enqueue job w =
    if w.closed
    then record w { written = w.written ++ job ∷ [] }
    else if ltb (length w.queue) audit_write_buffer
    then record w { queue = w.queue ++ job ∷ [] }
    else record w { written = w.written ++ job ∷ [] }

-- One turn of the goroutine.
unfoldable pub take_turn : List ℕ → Writer → Writer
take_turn [] w = w
take_turn (job ∷ rest) w = record w { queue = rest; written = w.written ++ job ∷ [] }

-- Flush: the goroutine takes every write that was queued before the flush.
unfoldable pub flush_turns : List ℕ → Writer → Writer
unfolding take_turn
flush_turns [] w = w
flush_turns (job ∷ rest) w = flush_turns rest (take_turn (job ∷ rest) w)

unfoldable pub flush : Writer → Writer
unfolding flush_turns
flush w = if w.closed then w else flush_turns w.queue w

pub data Action : Type 0 where
  log : ℕ → Action
  turn : Action

unfoldable pub act : Action → Writer → Writer
unfolding enqueue take_turn
act (log job) w = enqueue job w
act turn w = take_turn w.queue w

unfoldable pub act_all : List Action → Writer → Writer
unfolding act
act_all [] w = w
act_all (a ∷ actions) w = act_all actions (act a w)

-- The writes of a list of actions, in their order.
abbrev pub logged : List Action → List ℕ
logged [] = []
logged (log job ∷ actions) = job ∷ logged actions
logged (turn ∷ actions) = logged actions
