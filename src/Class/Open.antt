-- ===== src/Class/Open.antt =====
-- The classes that `luaopen_couv_native` of src/couv.c makes, in its order: a super class before
-- its subclasses. A class has its table at the number of its name.
use couv.Prelude.{ℕ, ◌+◌, ◌-◌, Option, none, some, ltb, if◌then◌else◌}
use couv.Class.{Tables, newmetatable}

-- `COUV_BUFFER_MTBL_NAME` and the others.
pub data ClassName : Type 0 where
  buffer fs_stat sock_addr sock_addr_v4 sock_addr_v6 : ClassName
  handle process timer udp stream pipe tcp tty : ClassName

abbrev pub name_number : ClassName → ℕ
name_number ClassName.buffer = 0
name_number ClassName.fs_stat = 1
name_number ClassName.sock_addr = 2
name_number ClassName.sock_addr_v4 = 3
name_number ClassName.sock_addr_v6 = 4
name_number ClassName.handle = 5
name_number ClassName.process = 6
name_number ClassName.timer = 7
name_number ClassName.udp = 8
name_number ClassName.stream = 9
name_number ClassName.pipe = 10
name_number ClassName.tcp = 11
name_number ClassName.tty = 12

abbrev pub make : ClassName → Option ClassName → Tables → Tables
make c none = newmetatable (name_number c) (name_number c) none
make c (some super) = newmetatable (name_number c) (name_number c) (some (name_number super))

unfoldable pub luaopen_couv_buffer : Tables → Tables
luaopen_couv_buffer = make ClassName.buffer none

unfoldable pub luaopen_couv_fs : Tables → Tables
luaopen_couv_fs = make ClassName.fs_stat none

unfoldable pub luaopen_couv_sockaddr : Tables → Tables
luaopen_couv_sockaddr s =
    make ClassName.sock_addr_v6 (some ClassName.sock_addr)
      (make ClassName.sock_addr_v4 (some ClassName.sock_addr) (make ClassName.sock_addr none s))

unfoldable pub luaopen_couv_handle : Tables → Tables
luaopen_couv_handle = make ClassName.handle none

unfoldable pub luaopen_couv_process : Tables → Tables
luaopen_couv_process = make ClassName.process (some ClassName.handle)

unfoldable pub luaopen_couv_timer : Tables → Tables
luaopen_couv_timer = make ClassName.timer (some ClassName.handle)

unfoldable pub luaopen_couv_udp : Tables → Tables
luaopen_couv_udp = make ClassName.udp (some ClassName.handle)

unfoldable pub luaopen_couv_stream : Tables → Tables
luaopen_couv_stream = make ClassName.stream (some ClassName.handle)

unfoldable pub luaopen_couv_pipe : Tables → Tables
luaopen_couv_pipe = make ClassName.pipe (some ClassName.stream)

unfoldable pub luaopen_couv_tcp : Tables → Tables
luaopen_couv_tcp = make ClassName.tcp (some ClassName.stream)

unfoldable pub luaopen_couv_tty : Tables → Tables
luaopen_couv_tty = make ClassName.tty (some ClassName.stream)

unfoldable pub luaopen_couv_native : Tables → Tables
luaopen_couv_native s = luaopen_couv_tty (
    luaopen_couv_tcp (
      luaopen_couv_pipe (
        luaopen_couv_stream (
          luaopen_couv_udp (
            luaopen_couv_timer (
              luaopen_couv_process (
                luaopen_couv_handle
                  (luaopen_couv_sockaddr (luaopen_couv_fs (luaopen_couv_buffer s))))))))))

-- Userdata number `k` is the object `13 + k`, behind the tables of the classes.
abbrev pub object_at : ℕ → ℕ
object_at k = 13 + k

abbrev pub number_of : Option ClassName → Option ℕ
number_of none = none
number_of (some c) = some (name_number c)

-- Userdata of the given classes, before the classes are made.
abbrev pub userdata : (ℕ → Option ClassName) → Tables
userdata classes = record {
  metatable = λ j. if ltb j 13 then none else number_of (classes (j - 13));
  registry = λ name. none;
}
