-- ===== src/Handle/Tests.antt =====
-- A TCP server and a named pipe that are made and closed.
use couv.Prelude.{ℕ, ◌==◌, ◌≡◌, refl, true, false, none, some, List, [], ◌∷◌, arith, if◌then◌else◌}
use couv.Prelude.Int.{pos, negsuc}
use couv.Lua.{ok}
use couv.Handle.{
  Kind, Value, Registry, Act, acts, close_cb, clean_pipe_handle, timer_start, couv_listen,
  process_spawn,
}
use couv.Handle.Callbacks.{
  Passed, later, timer_cb, connection_cb, exit_cb, invoked, with_error, callback_is_called,
}
use couv.Handle.Closing.{uses, closing_restores, named_pipe_stays}

-- Another handle's userdata is at 50.
abbrev registry : Registry
registry j = if j == 50 then some (Value.userdata 50) else none

abbrev calls : List (Act Kind.tcp)
calls = Act.new_tcp false (pos 0) ∷ Act.listen_tcp 7 (negsuc 97) ∷ Act.listen_tcp 7 (pos 0) ∷ []

tcp_is_free : (j : ℕ) → uses Kind.tcp 20 j ≡ true → registry j ≡ none
tcp_is_free j u = ground arith

pipe_is_free : (j : ℕ) → uses Kind.named_pipe 20 j ≡ true → registry j ≡ none
pipe_is_free j u = ground arith

closing_restores_example : close_cb Kind.tcp 20 (acts "EADDRINUSE" 20 calls registry) ≡ registry
closing_restores_example =
    closing_restores "EADDRINUSE" Kind.tcp 20 calls registry (λ e. absurd cc) tcp_is_free

named_pipe_stays_example :
    (close_cb Kind.named_pipe 20 (acts "" 20 (Act.new_pipe false (pos 0) ∷ []) registry) 20
      ≡ some (Value.userdata 20))
    × (close_cb Kind.named_pipe 20 (acts "" 20 (Act.new_pipe false (pos 0) ∷ []) registry) 21
        ≡ some Value.thread)
    × (clean_pipe_handle 20 (acts "" 20 (Act.new_pipe false (pos 0) ∷ []) registry) ≡ registry)
named_pipe_stays_example = named_pipe_stays "" 20 0 registry pipe_is_free

callback_is_called_example :
    let timer =
      later "" 20 50
        (Act.new_tcp false (pos 0) ∷ [])
        (timer_start "" 20 7 (pos 0) registry)
        registry in
    let stream =
      later "" 20 50
        (Act.new_tcp false (pos 0) ∷ [])
        (couv_listen "" 20 7 (pos 0) registry)
        registry in
    let process =
      later "" 20 50
        (Act.new_tcp false (pos 0) ∷ [])
        (process_spawn "" 20 (some 7) (pos 0) registry)
        registry in
    (timer_cb "" 20 (negsuc 0) timer
      ≡ ok (invoked 7 (with_error "" (negsuc 0) (some (Value.userdata 20)))) timer)
    × (connection_cb "" 20 (negsuc 0) stream
        ≡ ok (invoked 7 (with_error "" (negsuc 0) (some (Value.userdata 20)))) stream)
    × (exit_cb 20 (pos 1) (pos 9) process
        ≡ ok
            (invoked 7 (
              Passed.handle (some (Value.userdata 20))
              ∷ Passed.number (pos 1)
              ∷ Passed.number (pos 9)
              ∷ []))
            process)
callback_is_called_example =
    callback_is_called "" 20 7 registry Kind.tcp 50 (Act.new_tcp false (pos 0) ∷ []) refl refl 0
      (negsuc 0) (pos 1) (pos 9)
