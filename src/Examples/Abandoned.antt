-- ===== src/Examples/Abandoned.antt =====
-- The abandoned copies of src/abandoned-copies.cpp at concrete inputs.
use hip_object.Prelude.{◌<◌, Bool, List, [], ◌∷◌, ◌==◌, length, arith}
use hip_object.Abandoned.{Copy, AbandonedCopies, reserve, running}
use hip_object.Abandoned.Release.{IsReleased, running-IsReleased}
use hip_object.Abandoned.Room.{at_first, after, reserves, Reached-length}

abbrev empty_list : AbandonedCopies
empty_list = record { copies = []; capacity = 0; reserved = 0 }

Reached-length_example :
    length (reserve (λ n. n) empty_list).copies < (reserve (λ n. n) empty_list).capacity
Reached-length_example =
    Reached-length (λ n. n) (reserve (λ n. n) empty_list) 0 (λ n. omega arith)
      (after at_first (reserves 0))

-- Two copies of one registration, of which one is over, and one of another.
abbrev three : AbandonedCopies
three = record {
  copies =
      record { entry = 1; done = 10 }
      ∷ record { entry = 2; done = 11 }
      ∷ record { entry = 1; done = 12 }
      ∷ [];
  capacity = 4;
  reserved = 1;
}

abbrev is_over : Copy → Bool
is_over copy = copy.done == 10

running-IsReleased_example :
    (gone : List Copy) × IsReleased is_over 1 three.copies (record {
      kept = (running is_over 1 three).1.copies;
      gone = gone;
      still_running = (running is_over 1 three).0;
    })
running-IsReleased_example = running-IsReleased is_over 1 three
