-- ===== src/AuditLog/Writer/Order.antt =====
-- The order in which the writes of calls that do not overlap run.
use agentsecrets.Prelude.{
  ℕ, ◌+◌, ◌≤◌, ◌<◌, ◌≡◌, refl, true, false, List, [], ◌∷◌, ◌++◌, arith, ltb, length, length-append,
  append_assoc, append-nil, ap, sym, ◌∙◌, subst, if◌then◌else◌,
}
use agentsecrets.AuditLog.Writer.{
  audit_write_buffer, Writer, new_writer, Run, fresh, call_open, send, close, exit, enqueue,
  take_turn, flush_turns, flush, log, turn, Action, act, act_all, logged,
}

enqueue_room :
    (job : ℕ) (w : Writer)
    → w.closed ≡ false
    → length w.queue < 256
    → enqueue job w ≡ record w { queue = w.queue ++ job ∷ [] }
unfolding enqueue
enqueue_room job w live room =
    let t : ltb (length w.queue) audit_write_buffer ≡ true = ground arith in rw (live, t) refl

take_turn-order :
    (queue : List ℕ) (w : Writer)
    → w.queue ≡ queue
    → ((take_turn queue w).written ++ (take_turn queue w).queue ≡ w.written ++ w.queue)
      × (length (take_turn queue w).queue ≤ length w.queue)
      × ((take_turn queue w).closed ≡ w.closed)
unfolding take_turn
take_turn-order [] w e = (refl, omega arith, refl)
take_turn-order (job ∷ rest) w e = (
  append_assoc w.written (job ∷ []) rest ∙ ap (λ q. w.written ++ q) (sym e),
  omega (arith, ap length e),
  refl,
)

regroup :
    (xs ys : List ℕ) (job : ℕ) (zs : List ℕ)
    → (xs ++ (ys ++ job ∷ [])) ++ zs ≡ (xs ++ ys) ++ job ∷ zs
regroup xs ys job zs =
    ap (λ l. l ++ zs) (sym (append_assoc xs ys (job ∷ []))) ∙ append_assoc (xs ++ ys) (job ∷ []) zs

act_all-order :
    (actions : List Action) (w : Writer)
    → w.closed ≡ false
    → length w.queue + length (logged actions) ≤ 256
    → ((act_all actions w).written ++ (act_all actions w).queue
        ≡ (w.written ++ w.queue) ++ logged actions)
      × ((act_all actions w).closed ≡ false)
unfolding act_all act
act_all-order [] w live room = (sym (append-nil _), live)
act_all-order (log job ∷ actions) w live room =
    let few : length w.queue < 256 = omega (arith, room) in
    let next = enqueue_room job w live few in
    let sent : Writer = record w { queue = w.queue ++ job ∷ [] } in
    let (order, last) =
      act_all-order actions sent live (omega (arith, room, length-append w.queue (job ∷ []))) in
    subst
      (λ v.
        ((act_all actions v).written ++ (act_all actions v).queue
          ≡ (w.written ++ w.queue) ++ job ∷ logged actions)
        × ((act_all actions v).closed ≡ false))
      (sym next) (order ∙ regroup w.written w.queue job (logged actions), last)
act_all-order (turn ∷ actions) w live room =
    let (same, shorter, still) = take_turn-order w.queue w refl in
    let (order, last) =
      act_all-order actions (take_turn w.queue w) (still ∙ live) (omega (arith, shorter, room)) in
    (order ∙ ap (λ l. l ++ logged actions) same, last)

flush_turns-written :
    (queue : List ℕ) (w : Writer)
    → w.queue ≡ queue
    → (flush_turns queue w).written ≡ w.written ++ queue
unfolding flush_turns take_turn
flush_turns-written [] w e = sym (append-nil _)
flush_turns-written (job ∷ rest) w e =
    flush_turns-written rest _ refl ∙ append_assoc w.written (job ∷ []) rest

-- At most 256 writes, from calls that do not overlap, have run after a flush, in the order of the
-- calls, wherever the goroutine has taken its turns.
pub flush-in_order :
    (actions : List Action)
    → length (logged actions) ≤ 256
    → (flush (act_all actions new_writer)).written ≡ logged actions
unfolding flush
flush-in_order actions few =
    let (order, live) = act_all-order actions new_writer refl (omega (arith, few)) in
    let w = act_all actions new_writer in
    ap (λ b. (if b then w else flush_turns w.queue w).written) live
    ∙ flush_turns-written w.queue w refl
    ∙ order

-- A caller that found the logger open can send its write to a writer that has ended meanwhile, which
-- never takes it.
late_send :
    Run
      (7 ∷ [])
      (record { waiting = []; queue = 7 ∷ []; written = []; closed = true; exited = true })
late_send = send [] 7 [] (exit (close (call_open 7 fresh refl)) refl refl) refl (omega arith)
