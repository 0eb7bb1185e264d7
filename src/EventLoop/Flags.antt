-- ===== src/EventLoop/Flags.antt =====
-- event_loop.h: the flags, and the test and the setting of a bit in a mask of them.
use file_system_server.Base.{ℕ, ◌+◌, ◌/◌, ◌%◌, Bool, ◌==◌, if◌then◌else◌}

abbrev pub event_read : ℕ
event_read = 0x01

abbrev pub event_write : ℕ
event_write = 0x02

abbrev pub event_error : ℕ
event_error = 0x04

-- `mask & flag`, for a flag of one bit.
abbrev pub has : ℕ → ℕ → Bool
has mask flag = mask / flag % 2 == 1

-- `mask | flag`, for a flag of one bit.
abbrev pub with_flag : ℕ → ℕ → ℕ
with_flag mask flag = if has mask flag then mask else mask + flag
