-- ===== src/Request/Tests.antt =====
-- A write of one string at two addresses, and the theorems on requests at it.
use couv.Prelude.{
  ℕ, zero, suc, ◌≡◌, ◌≢◌, refl, true, false, Option, none, some, List, [], ◌∷◌, arith,
}
use couv.Prelude.Int.{pos, negsuc}
use couv.Lua.{ok, raised, fault, lua_error, arg_error, class_error}
use couv.Buffer.Concat.{Value, tobuforstr}
use couv.SockAddr.{SockAddr}
use couv.Class.Open.{ClassName}
use couv.Method.{Arg}
use couv.Request.{
  Store, store_bufs, Memory, mark, couv_write, couv_write2, write_cb, udp_send, udp_send_cb,
  couv_shutdown, shutdown_cb, tcp_connect, connect_cb, pipe_connect,
}
use couv.Request.Life.{
  all_sources, sends_are_freed, bad_table_is_freed, refused_write_leaks, connects_are_freed,
}

abbrev memory : Memory
memory p = false

abbrev at_four : Memory
at_four = mark memory 4 true

abbrev both : Memory
both = mark at_four 8 true

abbrev values : List Value
values = Value.string (72 ∷ 105 ∷ []) ∷ []

abbrev bad_values : List Value
bad_values = Value.string (72 ∷ 105 ∷ []) ∷ Value.other ∷ []

abbrev local : SockAddr
local = record { sa_family = 2; sin_port = 20480; sin_addr = 127 ∷ 0 ∷ 0 ∷ 1 ∷ [] }

abbrev four : ℕ
four = 4

abbrev eight : ℕ
eight = 8

four_real : four ≢ 0
four_real = omega arith

eight_real : eight ≢ 0
eight_real = omega arith

apart : four ≢ eight
apart = omega arith

good : all_sources values ≡ true
unfolding tobuforstr
good = refl

bad : all_sources bad_values ≡ false
unfolding tobuforstr
bad = refl

abbrev no_data : ℕ → ℕ
no_data p = 0

abbrev store : Store
store = record { memory = memory; bufs = no_data }

-- The array at 4 is in the request at 8.
abbrev under_way : Store
under_way = record { memory = both; bufs = store_bufs no_data 8 4 }

abbrev afterwards : Store
afterwards = record { memory = memory; bufs = store_bufs no_data 8 4 }

-- Userdata 1 is a pipe, 2 an address and the others are timers.
abbrev classes : ℕ → Option ClassName
classes zero = none
classes (suc zero) = some ClassName.pipe
classes (suc (suc zero)) = some ClassName.sock_addr_v4
classes (suc (suc (suc k))) = some ClassName.timer

abbrev addr_at : ℕ → SockAddr
addr_at k = local

sends_are_freed_example :
    (couv_write "EPIPE" four eight (pos 0) values store ≡ ok tt under_way)
    × (couv_write2 "EPIPE" classes four eight (pos 0) values (Arg.userdata 1) store
        ≡ ok tt under_way)
    × (write_cb "EPIPE" eight (negsuc 0) under_way ≡ ok ("EPIPE" ∷ []) afterwards)
    × (udp_send "EPIPE" classes addr_at four eight (pos 0) (negsuc 0) values (Arg.userdata 2) store
        ≡ ok tt under_way)
    × (udp_send_cb "EPIPE" eight (negsuc 0) under_way ≡ ok ("EPIPE" ∷ []) afterwards)
sends_are_freed_example =
    sends_are_freed "EPIPE" classes addr_at store four eight four_real eight_real apart refl refl
      values (pos 0) (negsuc 0) 1 2 (pos 0) (negsuc 0) good refl refl refl refl

-- A request that is freed already, or that was never sent, is a fault.
freed_twice : write_cb "EPIPE" eight (pos 0) afterwards ≡ fault
unfolding write_cb
freed_twice = refl

bad_table_is_freed_example :
    (couv_write "" four eight (pos 0) bad_values store
      ≡ raised (arg_error 1 "must be an array (table) of buffers or strings") store)
    × (couv_write2 "" classes four eight (pos 0) bad_values (Arg.userdata 1) store
        ≡ raised (arg_error 1 "must be an array (table) of buffers or strings") store)
    × (udp_send "" classes addr_at four eight (pos 0) (pos 0) bad_values (Arg.userdata 1) store
        ≡ raised (arg_error 1 "must be an array (table) of buffers or strings") store)
bad_table_is_freed_example =
    bad_table_is_freed "" classes addr_at store four eight four_real eight_real apart refl refl
      bad_values (pos 0) (Arg.userdata 1) (pos 0) (pos 0) bad

refused_write_leaks_example :
    ((t : Store) × (couv_write "EBADF" four eight (negsuc 0) values store
        ≡ raised (lua_error "EBADF") t)
      × (t.memory four ≡ true)
      × (t.memory eight ≡ true))
    × (t : Store) × (couv_write2 "EBADF" classes four eight (negsuc 0) values (Arg.userdata 3) store
        ≡ raised (class_error (pos 3) 9) t)
    × (udp_send "EBADF" classes addr_at four eight (pos 0) (pos 0) values Arg.other store
        ≡ raised (class_error (pos 3) 2) t)
    × (t.memory four ≡ true)
refused_write_leaks_example =
    refused_write_leaks "EBADF" classes addr_at store four eight four_real eight_real apart refl
      refl values (negsuc 0) (Arg.userdata 3) Arg.other (pos 0) (pos 0) good refl refl refl

connects_are_freed_example :
    (couv_shutdown "" four (pos 0) memory ≡ ok tt at_four)
    × (shutdown_cb "" four (pos 0) at_four ≡ ok [] memory)
    × (tcp_connect "" four local (pos 0) (negsuc 0) memory ≡ ok tt at_four)
    × (pipe_connect four memory ≡ ok tt at_four)
    × (connect_cb "" four (pos 0) at_four ≡ ok [] memory)
connects_are_freed_example =
    connects_are_freed "" memory four four_real refl (pos 0) (pos 0) local (pos 0) (negsuc 0) refl
      refl
