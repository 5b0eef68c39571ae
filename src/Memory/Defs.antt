-- ===== src/Memory/Defs.antt =====
-- src/core/dez_memory.h and dez_memory.c: the memory with its segments, protection flags and
-- statistics. A call on a null pointer is not modelled: the callers pass the address of a field.
use dez.Base.{
  ℕ, ◌+◌, ◌-◌, Bool, true, false, not, ◌&&◌, List, [], ◌∷◌, ltb, leb, ◌==◌, if◌then◌else◌, bit_and,
  bit_or, ◌<<◌, ◌>>◌, u32, not32, Words, update,
}
use dez.Event.{Event, read_out_of_bounds, write_out_of_bounds, write_read_only}

abbrev pub memory_size_words : ℕ
memory_size_words = 4096

abbrev pub code_start : ℕ
code_start = 0x0000

abbrev pub code_end : ℕ
code_end = 0x03FF

abbrev pub data_start : ℕ
data_start = 0x0400

abbrev pub data_end : ℕ
data_end = 0x07FF

abbrev pub stack_start : ℕ
stack_start = 0x0800

abbrev pub stack_end : ℕ
stack_end = 0x0FFF

-- `dez_memory_t`. `debug_memory_stats` says whether the build defines DEBUG_MEMORY_STATS.
pub record Memory : Type 0 where
  pub memory : Words
  pub code_start : ℕ
  pub code_end : ℕ
  pub data_start : ℕ
  pub data_end : ℕ
  pub stack_start : ℕ
  pub stack_end : ℕ
  pub code_readonly : Bool
  pub data_writable : Bool
  pub stack_writable : Bool
  pub code_usage : ℕ
  pub data_usage : ℕ
  pub stack_usage : ℕ
  pub max_stack_usage : ℕ
  pub access_count : ℕ
  pub read_count : ℕ
  pub write_count : ℕ
  pub debug_memory_stats : Bool

-- The return value 0 or -1 of a write.
pub data Status : Type 0 where
  success failure : Status

unfoldable pub memory_init : Memory → Memory
memory_init mem = record {
  memory = λ _. 0;
  code_start = code_start;
  code_end = code_end;
  data_start = data_start;
  data_end = data_end;
  stack_start = stack_start;
  stack_end = stack_end;
  code_readonly = true;
  data_writable = true;
  stack_writable = true;
  code_usage = 0;
  data_usage = 0;
  stack_usage = 0;
  max_stack_usage = 0;
  access_count = 0;
  read_count = 0;
  write_count = 0;
  debug_memory_stats = mem.debug_memory_stats;
}

unfoldable pub memory_is_valid_address : Memory → ℕ → Bool
memory_is_valid_address mem address = ltb address memory_size_words

unfoldable pub memory_is_code_segment : Memory → ℕ → Bool
memory_is_code_segment mem address = leb mem.code_start address && leb address mem.code_end

unfoldable pub memory_is_data_segment : Memory → ℕ → Bool
memory_is_data_segment mem address = leb mem.data_start address && leb address mem.data_end

unfoldable pub memory_is_stack_segment : Memory → ℕ → Bool
memory_is_stack_segment mem address = leb mem.stack_start address && leb address mem.stack_end

unfoldable pub memory_can_write : Memory → ℕ → Bool
memory_can_write mem address =
    if memory_is_code_segment mem address
    then not mem.code_readonly
    else if memory_is_data_segment mem address
    then mem.data_writable
    else if memory_is_stack_segment mem address
    then mem.stack_writable
    else false

unfoldable pub memory_read_word_fast : Memory → ℕ → ℕ
memory_read_word_fast mem address = mem.memory address

unfoldable pub memory_write_word_fast : Memory → ℕ → ℕ → Status × Memory
memory_write_word_fast mem address value =
    (success, record mem { memory = update mem.memory address value })

-- The usage statistics of one access, which both word operations keep.
unfoldable pub count_usage : Memory → ℕ → Memory
count_usage mem address =
    if memory_is_code_segment mem address
    then record mem { code_usage = u32 (mem.code_usage + 1) }
    else if memory_is_data_segment mem address
    then record mem { data_usage = u32 (mem.data_usage + 1) }
    else if memory_is_stack_segment mem address
    then (let used : ℕ = u32 (mem.stack_usage + 1) in
        record mem {
          stack_usage = used;
          max_stack_usage = if ltb mem.max_stack_usage used then used else mem.max_stack_usage;
        })
    else mem

unfoldable pub count_read : Memory → ℕ → Memory
unfolding count_usage
count_read mem address =
    count_usage
      (record mem {
        access_count = u32 (mem.access_count + 1);
        read_count = u32 (mem.read_count + 1);
      })
      address

unfoldable pub count_write : Memory → ℕ → Memory
unfolding count_usage
count_write mem address =
    count_usage
      (record mem {
        access_count = u32 (mem.access_count + 1);
        write_count = u32 (mem.write_count + 1);
      })
      address

-- The value, the memory with its statistics, and what is printed.
unfoldable pub memory_read_word : Memory → ℕ → ℕ × Memory × List Event
memory_read_word mem address =
    if ltb address memory_size_words
    then (mem.memory address, (if mem.debug_memory_stats then count_read mem address else mem), [])
    else if not (memory_is_valid_address mem address)
    then (0, mem, read_out_of_bounds address ∷ [])
    else (mem.memory (address >> 2), count_read mem address, [])

-- `mem->memory[address] = value`
abbrev pub put : Memory → ℕ → ℕ → Memory
put mem address value = record mem { memory = update mem.memory address value }

unfoldable pub memory_write_word : Memory → ℕ → ℕ → Status × Memory × List Event
memory_write_word mem address value =
    if ltb address memory_size_words
    then (if memory_is_code_segment mem address && mem.code_readonly
        then (failure, mem, write_read_only address ∷ [])
        else (
          success,
          put (if mem.debug_memory_stats then count_write mem address else mem) address value,
          [],
        ))
    else if not (memory_is_valid_address mem address)
    then (failure, mem, write_out_of_bounds address ∷ [])
    else if not (memory_can_write mem address)
    then (failure, mem, write_read_only address ∷ [])
    else (success, put (count_write mem address) (address >> 2) value, [])

unfoldable pub memory_read_byte : Memory → ℕ → ℕ × List Event
memory_read_byte mem address =
    let word_addr : ℕ = address >> 2 in
    let byte_offset : ℕ = bit_and address 3 in
    if leb memory_size_words word_addr
    then (0, read_out_of_bounds address ∷ [])
    else (bit_and (mem.memory word_addr >> (24 - (byte_offset << 3))) 0xFF, [])

unfoldable pub memory_write_byte : Memory → ℕ → ℕ → Status × Memory × List Event
memory_write_byte mem address value =
    let word_addr : ℕ = address >> 2 in
    let byte_offset : ℕ = bit_and address 3 in
    if leb memory_size_words word_addr
    then (failure, mem, write_out_of_bounds address ∷ [])
    else if memory_is_code_segment mem word_addr && mem.code_readonly
    then (failure, mem, write_read_only address ∷ [])
    else let word : ℕ = mem.memory word_addr in
      let shift : ℕ = 24 - (byte_offset << 3) in
      let mask : ℕ = u32 (0xFF << shift) in
      (success, put mem word_addr (bit_or (bit_and word (not32 mask)) (u32 (value << shift))), [])

unfoldable pub memory_get_usage : Memory → ℕ → ℕ
memory_get_usage mem segment =
    if segment == 0
    then mem.code_usage
    else if segment == 1
    then mem.data_usage
    else if segment == 2
    then mem.stack_usage
    else 0

unfoldable pub memory_set_protection : Memory → ℕ → Bool → Memory
memory_set_protection mem segment readonly =
    if segment == 0
    then record mem { code_readonly = readonly }
    else if segment == 1
    then record mem { data_writable = not readonly }
    else if segment == 2
    then record mem { stack_writable = not readonly }
    else mem
