-- ===== src/Process/Tests.antt =====
-- A process that is spawned with a pipe as its output, and one that libuv refuses.
use couv.Prelude.{
  ℕ, ◌==◌, ◌≡◌, refl, false, Option, none, some, List, [], ◌∷◌, arith, if◌then◌else◌,
}
use couv.Prelude.Int.{pos, negsuc}
use couv.Lua.{ok}
use couv.Class.Open.{ClassName}
use couv.Process.{
  Strings, Stdio, Elem, ContainerArg, Container, Source, Options, OptionsArg, State, all_strings,
}
use couv.Process.Start.{couv_process_spawn}
use couv.Process.Spawn.{FreesOrLeaks, frees_or_leaks, running, spawned_as_asked}

abbrev classes : ℕ → Option ClassName
classes k = if k == 3 then some ClassName.pipe else none

abbrev start : State
start = record { memory = λ p. false; registry = λ k. none; owner = λ h. 0; spawned = [] }

-- "ls", "-l", with its output to userdata 3.
abbrev args : List (Option (List ℕ))
args = some (108 ∷ 115 ∷ []) ∷ some (45 ∷ 108 ∷ []) ∷ []

abbrev options : Options
options = record {
  args = Strings.array args;
  file = none;
  env = Strings.nil;
  cwd = none;
  flags = pos 0;
  uid = pos 0;
  gid = pos 0;
  stdio = Stdio.table (
      ContainerArg.table (Elem.number (pos 0) ∷ [])
      ∷ ContainerArg.table (Elem.number (pos 1) ∷ Elem.userdata 3 ∷ [])
      ∷ []);
  exit_cb = some 7;
}

abbrev containers : List Container
containers =
    record { flags = pos 0; source = Source.unset }
    ∷ record { flags = pos 1; source = Source.stream 3 }
    ∷ []

read_args : all_strings args ≡ some ((108 ∷ 115 ∷ []) ∷ (45 ∷ 108 ∷ []) ∷ [])
unfolding all_strings
read_args = refl

spawned_as_asked_example :
    couv_process_spawn classes "ENOENT" (λ o. pos 0) 9 50 10 20 30 (OptionsArg.table options) start
    ≡ ok tt (
        running 9 50 options (108 ∷ 115 ∷ []) ((45 ∷ 108 ∷ []) ∷ []) none (some containers) 7 start)
spawned_as_asked_example =
    spawned_as_asked classes "ENOENT" (λ o. pos 0) 9 50 10 20 30 start (λ e. ground arith)
      (λ e. ground arith) (λ e. ground arith) (λ e. ground arith) (λ e. ground arith)
      (λ e. ground arith) refl refl refl options args (108 ∷ 115 ∷ []) ((45 ∷ 108 ∷ []) ∷ []) refl
      read_args none (some containers) 7 tt (refl, ((refl, refl), tt)) refl refl

frees_or_leaks_example : FreesOrLeaks start.memory 10 (
    couv_process_spawn classes "ENOENT"
      (λ o. negsuc 0)
      9
      50
      10
      20
      30
      (OptionsArg.table options)
      start)
frees_or_leaks_example =
    frees_or_leaks classes "ENOENT" (λ o. negsuc 0) 9 50 10 20 30 start (λ e. ground arith)
      (λ e. ground arith) (λ e. ground arith) (λ e. ground arith) (λ e. ground arith)
      (λ e. ground arith) refl refl refl options args (108 ∷ 115 ∷ []) ((45 ∷ 108 ∷ []) ∷ []) refl
      read_args
