-- ===== src/Memory/Tests.antt =====
-- The memory after `memory_init`, and the laws of access there.
use dez.Base.{◌≡◌, refl, true, false, ◌==◌, ◌&&◌, if◌then◌else◌, arith}
use dez.Memory.Defs.{
  Memory, memory_init, memory_set_protection, memory_read_byte, memory_write_byte,
  memory_is_code_segment,
}
use dez.Memory.Access.{IsValid, can_store}
use dez.Memory.Bytes.{memory_read_byte-memory_write_byte}

abbrev junk : Memory
junk = record {
  memory = λ a. a;
  code_start = 1;
  code_end = 2;
  data_start = 3;
  data_end = 4;
  stack_start = 5;
  stack_end = 6;
  code_readonly = false;
  data_writable = false;
  stack_writable = false;
  code_usage = 7;
  data_usage = 8;
  stack_usage = 9;
  max_stack_usage = 10;
  access_count = 11;
  read_count = 12;
  write_count = 13;
  debug_memory_stats = true;
}

fresh : Memory
fresh = memory_init junk

fresh-IsValid : IsValid fresh
unfolding fresh memory_init
fresh-IsValid = record { words = λ i. omega arith; code_start = refl; code_end = refl }

-- "H" stored highest first in word 0x40, read back.
byte_order :
    (memory_read_byte
      (memory_write_byte (memory_set_protection fresh 0 false) 0x101 0x48).1
      0x101).0
    ≡ 0x48
unfolding memory_read_byte memory_write_byte memory_set_protection fresh memory_init
    memory_is_code_segment
byte_order = refl

memory_read_byte-memory_write_byte_example :
    (memory_read_byte (memory_write_byte fresh 0x1001 0x48).1 0x1002).0 ≡ (
      if 0x1002 == 0x1001 && can_store fresh 0x400 then 0x48 else (memory_read_byte fresh 0x1002).0)
memory_read_byte-memory_write_byte_example =
    memory_read_byte-memory_write_byte fresh 0x1001 0x1002 0x48 fresh-IsValid (omega arith)
