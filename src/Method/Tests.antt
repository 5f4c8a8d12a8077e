-- ===== src/Method/Tests.antt =====
-- A TCP handle, a UDP handle and a pipe, and the theorems on methods at them.
use couv.Prelude.{ℕ, ◌==◌, ◌≡◌, refl, true, false, Option, none, some, List, [], ◌∷◌, if◌then◌else◌}
use couv.Prelude.Int.{pos, negsuc}
use couv.Lua.{raised, class_error}
use couv.Class.{testudataclass}
use couv.Class.Open.{ClassName, name_number, object_at}
use couv.Class.Hierarchy.{is_a, opened, classes_nest}
use couv.Method.{State, Arg}
use couv.Method.Typed.{AllTyped}
use couv.Method.Program.{Method, invoke, run}
use couv.Method.Safe.{calls_are_typed}
use couv.Method.Refused.{other_class_is_refused}

-- Userdata 1 is a TCP handle, 2 a UDP handle, 3 a pipe.
abbrev classes : ℕ → Option ClassName
classes k =
    if k == 1
    then some ClassName.tcp
    else if k == 2
    then some ClassName.udp
    else if k == 3
    then some ClassName.pipe
    else none

abbrev start : State
start = record { calls = []; owner = λ h. 0 }

classes_nest_example :
    testudataclass 5 (opened classes) true (object_at 1) (name_number ClassName.stream)
    ≡ some (is_a (classes 1) ClassName.stream)
classes_nest_example = classes_nest classes 1 ClassName.stream

abbrev methods : List Method
methods =
    Method.tcp_nodelay (Arg.userdata 1) true
    ∷ Method.tcp_nodelay (Arg.userdata 2) true
    ∷ Method.accept (Arg.userdata 3) (Arg.userdata 1)
    ∷ Method.close false (Arg.userdata 2)
    ∷ Method.udp_set_ttl Arg.other (pos 1)
    ∷ []

calls_are_typed_example :
    (s' : State) × (run classes (λ c. pos 0) "EINVAL" methods start ≡ some s')
    × AllTyped classes s'.calls
calls_are_typed_example = calls_are_typed classes (λ c. pos 0) "EINVAL" methods start tt

other_class_is_refused_example :
    invoke classes (λ c. negsuc 0) "EINVAL" (Method.tcp_nodelay (Arg.userdata 2) true) start
    ≡ raised (class_error (pos 1) (name_number ClassName.tcp)) start
other_class_is_refused_example =
    other_class_is_refused classes (λ c. negsuc 0) "EINVAL"
      (Method.tcp_nodelay (Arg.userdata 2) true) ClassName.tcp start refl refl
