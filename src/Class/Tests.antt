-- ===== src/Class/Tests.antt =====
-- A stream, whose class has handles as its super class, and the theorems on classes at it.
use couv.Prelude.{◌==◌, ◌≡◌, refl, Bool, true, none, some, if◌then◌else◌}
use couv.Class.{Tables, testudataclass, walk}
use couv.Class.Inherit.{Ends, Decides, class_test_answers}

-- Table 10 is the class of handles, 11 that of streams, and 50 is a stream.
abbrev tables : Tables
tables = record {
  metatable = λ j. if j == 50 then some 11 else if j == 11 then some 10 else none;
  registry = λ name. if name == 0 then some 10 else if name == 1 then some 11 else none;
}

over_stream : Ends tables 50 2
over_stream = Ends.below refl (Ends.below refl (Ends.top refl))

a_stream_is_a_handle : testudataclass 3 tables true 50 0 ≡ some true
unfolding testudataclass walk
a_stream_is_a_handle = refl

class_test_answers_example :
    (b : Bool) × (testudataclass 3 tables true 50 0 ≡ some b) × Decides tables 50 10 b
class_test_answers_example = class_test_answers tables 50 0 10 2 refl over_stream
