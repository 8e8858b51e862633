-- ===== src/Tests/Outbound.antt =====
-- A queue of two frames, flushed into a socket that takes a few bytes at a time.
use network_service.Prelude.{◌≡◌, ◌≢◌, ◌⊎◌, refl, true, false, List, [], ◌∷◌, arith, codes}
use network_service.Outbound.{
  OutboundQueue, Reply, sent, send_failed, eagain, poll_ready, poll_timeout, enqueue, front_size,
  accepted, flush, finished, drained, slow_client, flush_round,
}
use network_service.Outbound.Queue.{pending, IsQueue, enqueue_cases}
use network_service.Outbound.Flush.{Flushes, flush-Flushes, flush_drains}

abbrev two : OutboundQueue
two = record {
  max_frames = 3;
  max_bytes = 16;
  queued_bytes = 8;
  frames =
      record { bytes = codes "hello"; offset = 2 }
      ∷ record { bytes = codes "world"; offset = 0 }
      ∷ [];
}

abbrev two-IsQueue : IsQueue two
two-IsQueue = record {
  counted = refl;
  unfinished = omega arith;
  frames_fit = omega arith;
  bytes_fit = omega arith;
}

abbrev replies : List Reply
replies =
    sent 2
    ∷ send_failed eagain (poll_ready (record { wake_raised = false; socket_failed = false }))
    ∷ sent 1
    ∷ send_failed eagain poll_timeout
    ∷ []

stalled : flush true two replies ≡ (
  record two { queued_bytes = 5; frames = record { bytes = codes "world"; offset = 0 } ∷ [] },
  finished slow_client,
  codes "llo",
)
unfolding flush flush_round
stalled = refl

enqueue_cases_example :
    (((enqueue two (codes "!")).1 ≡ accepted)
      × (pending (enqueue two (codes "!")).0 ≡ codes "lloworld!"))
    ⊎ (((enqueue two (codes "!")).1 ≢ accepted) × ((enqueue two (codes "!")).0 ≡ two))
enqueue_cases_example = enqueue_cases two (codes "!")

flush-Flushes_example : Flushes two (flush true two replies)
unfolding flush_round front_size
flush-Flushes_example = flush-Flushes true two replies two-IsQueue (omega arith)

abbrev taking : List Reply
taking = sent 3 ∷ sent 5 ∷ sent 1 ∷ sent 1 ∷ sent 1 ∷ sent 1 ∷ sent 1 ∷ sent 1 ∷ []

flush_drains_example :
    ((flush false two taking).1 ≡ finished drained)
    × ((flush false two taking).2 ≡ codes "lloworld")
unfolding flush_round front_size
flush_drains_example =
    flush_drains false two taking two-IsQueue
      (λ _. (omega arith, omega arith, λ _. (omega arith, omega arith, λ h. cc))) (omega arith)
