-- ===== src/Log/Examples.antt =====
-- A log of three frames of two bytes, and the ring as it is made for frames of 232 bytes.
use microblx.Base.{◌≡◌, refl, ◌++◌, List, [], ◌∷◌, none, some, replicate, arith}
use microblx.Log.{LogInf, LogBuf, overrun, new_data, no_data, logc_seek_to_oldest}
use microblx.Log.Ring.{Sized, At}
use microblx.Log.Refine.{LogOp, log, read}
use microblx.Log.Runs.{ring_run, stream_run, start, nothing_written, ring_run-stream_run}
use microblx.Log.Delivery.{frames, messages, frames-ring_run}
use microblx.Log.Seek.{
  log_ring, log_ring-Sized, logc_seek_to_oldest-At, logc_seek_to_oldest_misaligned,
}

abbrev tiny : LogInf
tiny = record { shm_size = 22; frame_size = 2 }

tiny-Sized : Sized 16 tiny 3
tiny-Sized = record {
  frames = omega arith;
  some_fit = omega arith;
  fits = omega arith;
  full = omega arith;
  small = omega arith;
}

-- The client is three messages behind at the last read.
abbrev overtaken : List LogOp
overtaken =
    log (1 ∷ 2 ∷ [])
    ∷ read
    ∷ read
    ∷ log (3 ∷ 4 ∷ [])
    ∷ log (5 ∷ 6 ∷ [])
    ∷ log (7 ∷ 8 ∷ [])
    ∷ read
    ∷ []

ring_run-stream_run_example :
    ring_run 16 tiny overtaken (record { w = start; bytes = λ x. 0 }, start)
    ≡ stream_run 3 overtaken nothing_written
ring_run-stream_run_example =
    ring_run-stream_run 16 tiny 3 tiny-Sized overtaken (λ x. 0) (omega arith)
      (refl, (tt, (tt, (refl, (refl, (refl, (tt, tt)))))))

overtaken_shows :
    stream_run 3 overtaken nothing_written
    ≡ none
      ∷ some (new_data, some (1 ∷ 2 ∷ []))
      ∷ some (no_data, none)
      ∷ none
      ∷ none
      ∷ none
      ∷ some (overrun, none)
      ∷ []
overtaken_shows = refl

-- Across the end of a lap.
abbrev followed : List LogOp
followed =
    log (1 ∷ 2 ∷ []) ∷ log (3 ∷ 4 ∷ []) ∷ read ∷ log (5 ∷ 6 ∷ []) ∷ read ∷ log (7 ∷ 8 ∷ []) ∷ []

frames-ring_run_example :
    frames (
      ring_run 16 tiny (followed ++ replicate 2 read) (record { w = start; bytes = λ x. 0 }, start))
    ≡ messages followed
frames-ring_run_example =
    frames-ring_run 16 tiny 3 tiny-Sized followed 2 (λ x. 0) (omega arith)
      (refl, (refl, (tt, (refl, (tt, (refl, tt)))))) refl (omega arith)

-- The writer has passed seven frames, the client five.
abbrev second_lap : LogBuf
second_lap = record { w = record { wrap = 2; off = 2 }; bytes = λ x. 0 }

second_lap-At : At tiny 3 second_lap.w 7
second_lap-At = record {
  laps = 2;
  slot = 1;
  count = omega arith;
  within = omega arith;
  at_off = refl;
  at_wrap = refl;
}

follower-At : At tiny 3 (record { wrap = 1; off = 4 }) 5
follower-At = record {
  laps = 1;
  slot = 2;
  count = omega arith;
  within = omega arith;
  at_off = refl;
  at_wrap = refl;
}

-- The real ring: once in the middle of the second lap, once near the end of the first.
abbrev middle : LogBuf
middle = record { w = record { wrap = 1; off = 1160 }; bytes = λ x. 0 }

logc_seek_to_oldest-At_example :
    At (log_ring 232) 9999 (logc_seek_to_oldest 16 (log_ring 232) middle) 105
logc_seek_to_oldest-At_example =
    logc_seek_to_oldest-At 16 (log_ring 232) 9999 (log_ring-Sized 232 (omega arith) (omega arith))
      middle 1 5 refl (omega arith) (omega arith)

abbrev near_end : LogBuf
near_end = record { w = record { wrap = 0; off = 2296800 }; bytes = λ x. 0 }

logc_seek_to_oldest_misaligned_example :
    ¬ At (log_ring 232) 9999 (logc_seek_to_oldest 16 (log_ring 232) near_end) 1
logc_seek_to_oldest_misaligned_example =
    logc_seek_to_oldest_misaligned 232 9900 1 near_end (omega arith) (omega arith) (omega arith)
      (omega arith) refl
