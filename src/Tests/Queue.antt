-- ===== src/Tests/Queue.antt =====
-- Concrete queues and packets for the theorems on `FifoQueue`.
use console_master_rtpvoice.Prelude.{
  ℕ, true, ◌≡◌, refl, List, [], ◌∷◌, ◌++◌, pos, negsuc, length, length-replicate, replicate, take,
  ok, arith,
}
use console_master_rtpvoice.Fifo.{
  Fifo, empty_fifo, fifo_bytes, slot_size, clear_queue, queue_is_empty, push_to_queue,
  take_from_queue, wait_timeout,
}
use console_master_rtpvoice.Fifo.Bounded.{empty-Holds, Holds, indices}
use console_master_rtpvoice.Fifo.{appended, sem_wait, take_front}
use console_master_rtpvoice.Fifo
use console_master_rtpvoice.Fifo.Interleaving.{
  Busy, Reach, here, next, append, post, pass, take_out, idle_queue, take_front-Reach,
}
use console_master_rtpvoice.Fifo.Order.{puts, gets, Delivers, Queued, gets-Delivers}
use console_master_rtpvoice.Fifo.Refine.{Reply, run, serve, put, get, AllAgree, run-AllAgree}
use console_master_rtpvoice.Fifo.Faults.{push_full_overwrites, clear-take}

run-AllAgree_example :
    (rs : List Reply) × (run empty_fifo
        (put (1 ∷ 2 ∷ []) ∷ get wait_timeout ∷ get wait_timeout ∷ [])
      ≡ ok rs)
    × AllAgree rs (serve [] (put (1 ∷ 2 ∷ []) ∷ get wait_timeout ∷ get wait_timeout ∷ []))
run-AllAgree_example =
    run-AllAgree (put (1 ∷ 2 ∷ []) ∷ get wait_timeout ∷ get wait_timeout ∷ []) empty_fifo []
      empty-Holds (omega arith, omega arith, tt)

abbrev posted : Fifo
posted = record { list = 0 ∷ []; buf = replicate fifo_bytes 0; fifo_counter = 1; sem = 1 }

clear-take_example :
    (queue_is_empty (clear_queue posted) ≡ true)
    × (take_from_queue (clear_queue posted) wait_timeout
        ≡ (negsuc 1, [], record (clear_queue posted) { sem = 0 }))
clear-take_example = clear-take posted wait_timeout 0 refl

abbrev full_queue : Fifo
full_queue = record {
  list = indices 0 (replicate 20 (0 ∷ []));
  buf = replicate fifo_bytes 0;
  fifo_counter = 0;
  sem = 20;
}

full-Holds : Holds full_queue (replicate 20 (0 ∷ []))
full-Holds = record {
  taken = 0;
  few = omega arith;
  pointers = refl;
  packets = (
    omega arith,
    refl,
    (
      omega arith,
      refl,
      (
        omega arith,
        refl,
        (
          omega arith,
          refl,
          (
            omega arith,
            refl,
            (
              omega arith,
              refl,
              (
                omega arith,
                refl,
                (
                  omega arith,
                  refl,
                  (
                    omega arith,
                    refl,
                    (
                      omega arith,
                      refl,
                      (
                        omega arith,
                        refl,
                        (
                          omega arith,
                          refl,
                          (
                            omega arith,
                            refl,
                            (
                              omega arith,
                              refl,
                              (
                                omega arith,
                                refl,
                                (
                                  omega arith,
                                  refl,
                                  (
                                    omega arith,
                                    refl,
                                    (
                                      omega arith,
                                      refl,
                                      (omega arith, refl, (omega arith, refl, tt)),
                                    ),
                                  ),
                                ),
                              ),
                            ),
                          ),
                        ),
                      ),
                    ),
                  ),
                ),
              ),
            ),
          ),
        ),
      ),
    ),
  );
  counter = refl;
  posted = refl;
  full = length-replicate {A = ℕ} fifo_bytes 0;
}

push_full_overwrites_example :
    (f' : Fifo) × (block : List ℕ) × (f'' : Fifo) × (push_to_queue full_queue (9 ∷ []) ≡ ok f')
    × (take_from_queue f' wait_timeout ≡ (pos 0, block, f''))
    × (take (length {A = ℕ} (9 ∷ [])) block ≡ 9 ∷ [])
    × Holds f'' (replicate 19 (0 ∷ []) ++ (9 ∷ []) ∷ [])
push_full_overwrites_example =
    push_full_overwrites full_queue (0 ∷ []) (replicate 19 (0 ∷ [])) (9 ∷ []) wait_timeout
      full-Holds refl (omega arith)

-- One thread is pushing, and another has taken the semaphore of the push before.
abbrev two_threads : Busy
two_threads = record {
  queue = record (Fifo.posted (appended (appended empty_fifo (1 ∷ [])) (2 ∷ []))) { sem = 0 };
  pushing = 1;
  taking = 1;
}

unfoldable two_threads-Reach : Reach idle_queue two_threads
unfolding sem_wait
two_threads-Reach =
    next
      (next
        (next (next here (append empty_fifo 0 0 (1 ∷ []) (omega arith)))
          (append (appended empty_fifo (1 ∷ [])) 1 0 (2 ∷ []) (omega arith)))
        (post (appended (appended empty_fifo (1 ∷ [])) (2 ∷ [])) 1 0))
      (pass (Fifo.posted (appended (appended empty_fifo (1 ∷ [])) (2 ∷ []))) 1 0 wait_timeout refl)

take_front-Reach_example : (take_front two_threads.queue (pos 0) two_threads.queue.list).0 ≡ pos 0
take_front-Reach_example = take_front-Reach two_threads 0 two_threads-Reach refl

-- The take of the first packet.
abbrev one_taken : Busy
one_taken = record {
  queue = (take_front two_threads.queue (pos 0) two_threads.queue.list).2;
  pushing = 1;
  taking = 0;
}

abbrev one_taken-Reach : Reach idle_queue one_taken
one_taken-Reach = next two_threads-Reach (take_out two_threads.queue 1 0)

gets-Delivers_example :
    (ds : List (List ℕ)) × (ps : List (List ℕ)) × (puts one_taken-Reach ≡ ds ++ ps)
    × Delivers (gets one_taken-Reach) ds
    × Queued one_taken.queue ps
unfolding two_threads-Reach
gets-Delivers_example =
    gets-Delivers one_taken one_taken-Reach
      (omega arith, omega arith, (omega arith, omega arith, tt))
