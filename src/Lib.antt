-- ===== src/Lib.antt =====
-- The Dez virtual machine, its assembler, and its disassembler.
--
-- The program (paths from the root of the repository):
--   include/dez_vm_types.h: opcodes, flags, system calls, and the macros that take a word apart.
--   src/core/dez_memory.c: 4096 words in a code, a data and a stack segment, with protection.
--   src/core/dez_instruction_table.c: one executor for each instruction, and the dispatch table.
--   src/core/dez_vm.c: init, the program loader, one step (fetch, dispatch, program counter), and
--     the run loop.
--   src/assembler/dez_lexer.c: from the characters of a program to its tokens.
--   src/assembler/dez_symbol_table.c: labels, constants and string literals, with a hash cache.
--   src/assembler/dez_parser.c: operands, instructions, lines, and the two passes of parser_parse;
--     parser_encode_instruction, which looks labels up, stores literals and packs an instruction into
--     a word, and the encoders that it calls.
--   src/assembler/dez_assembler.c: the assembler's state, the assembly of a text and of a file, and the
--     writers of the program file.
--   src/core/dez_disasm.c: the text of a word.
-- The parser goes through the tokens of the text twice: first it gives the labels their addresses in the
-- symbol table, then it encodes each instruction into a buffer, which is written to a file and loaded
-- by the machine. The assembler encodes each instruction as a 32-bit word; the machine fetches the
-- word at its program counter, looks its opcode up in the dispatch table, and calls the executor,
-- which reads and writes the machine and its memory.
--
-- The files:
--   Base: tests on ℕ, 32-bit arithmetic, arrays as functions, C strings, and laws of the bit
--     operations.
--   Event: what the program prints, one constructor for each message.
--   Isa: Instruction (the enumerations), Decode (the macros), Encode (the encoders), Fields and
--     RoundTrip (decoding what was encoded), Statement (assembly statements with their operands
--     resolved, and the word of each) and Range (the words have 32 bits).
--   Memory: Defs (the operations of dez_memory.c), Access and Bytes (their laws).
--   Vm: State (the machine, dez_vm_init, the validation macros), Alu, Transfer, Flow, Stack and Sys
--     (the executors), Table (the dispatch table), Step (dez_vm_step, dez_vm_run). Of the laws,
--     Valid and Invariant hold the invariant, Keeps the induction over executors, steps and runs
--     that Invariant, Bounds and Protection instantiate, Meaning the specification of statements,
--     Correct, Fetch and Counter the refinement, RoundTrip the stack, Compare the flags, Text the
--     strings, Run the loop, Slide a run to its HALT, and Corner two places where the code departs
--     from its specification. Sample is a machine for the tests.
--   Loader: Defs (dez_vm_load_program), Image and Program (a file in the assembler's format), Errors
--     (every other file).
--   Symbols: Defs (the operations), Find (the lookup), Define (definition and lookup), Labels (tables
--     without literals) and Strings (the addresses of literals).
--   Lexer: Defs (the character classes, the loops over whitespace and comments, the register names),
--     Tokens (tokens and the lexer's state) and Scan (lexer_next_token and lexer_peek_token). Of the
--     laws, Skip, Consumed and Progress say what a token uses up, Pending what is left for the
--     parser's loops, Reads, Decimal, Signs and Words which text is which token, and Registers has
--     the names.
--   Parser: Operands (operands and parser_encode_instruction), State (the parser and its token helpers),
--     Statements (operands and instructions), Lines (labels, constants and lines) and Passes
--     (parser_parse). Spelling, Encoding and Literals hold the laws of parser_encode_instruction; Quiet,
--     Follow, Looked, LineSteps and Total what any input does to the parser; Source, Mnemonics, Reads,
--     OperandText and StatementText the text of instructions and its parsing; Program the text of a
--     program, Executed an instruction from its text to its effect, and Plain, LineText, Rounds,
--     LabelText, Length, Defined, Collected, FirstPass, Resolved, Emitted, SecondPass and Assembled what
--     the two passes make of a program. Sample is a program for the tests.
--   Assembler: Defs (write_binary_file_with_strings), Driver (the state, the assembly of a text and of a
--     file, and the other writers), Strings (the strings of a written file, loaded), Hex (a reader of the
--     hex file), Composed (from text to file) and Machine (from text to a step of the machine).
--   Disasm: Defs (dez_disasm_instruction), Names (the names of registers and system calls), Text (the
--     text of statements) and Listing (the text of their words).
--
-- The state is a record passed from function to function; a validation macro takes the rest of its
-- function as an argument; printing appends an event to the `stdout` of the machine. A name of the
-- model is the name in the source, with `parser_encode_x` as `encode_x`.
--
-- Numbers are natural numbers, cut to 32 or 8 bits where the source's type cuts them. An array is
-- a function on all indices, so that an access out of bounds shows. The run loop has fuel: two
-- rounds more than the step limit of the source, which the loop never uses up. PRINT_STR has fuel
-- for the 512 byte addresses below its limit, and the loop over whitespace for every character of
-- the input. A pass of the parser, and the loop that skips a line, have two rounds more than there
-- are characters left, and give `none` when they run out: every token but the last uses up one.
--
-- The lexer's input is what stands before its position followed by what is left, and has_token with
-- current_token is one optional token. The symbol table that parser and assembler share is a field of
-- the state that runs. A function that fills in a result and returns whether it could gives the result
-- or `none`. What an operand holds before it is filled in is the parameter `unset`, and what malloc
-- gives is the parameter `buffer`; no theorem puts a condition on them.
--
-- A shift by 32 or more is undefined in C: its result is the field `wide_shift` of the machine, on
-- which no theorem puts a condition. DEBUG_MEMORY_STATS of the build is the field
-- `debug_memory_stats` of the memory.
--
-- A file is the list of its bytes. The order of the bytes of a word on the host is the parameter
-- `ByteOrder`, whose one law is that the bytes of a word, joined, are the word.
--
-- A C string is the list of its bytes, a pointer to a symbol is its index, and a call of snprintf is
-- the list of what its format prints. The word of an operand's union that is read under another tag
-- is given by the parameter `union`, on which no theorem puts a condition.
--
-- Not modelled: the functions that only print (memory_print_stats, dez_vm_print_state,
-- symbol_table_print, dez_disasm_memory, assembler_print_output), read_file_contents and
-- assembler_cleanup, which are input and memory management, the command lines, and the disassembler
-- tool.

pub mod Base
pub mod Isa
pub mod Event
pub mod Memory
pub mod Vm
pub mod Loader
pub mod Symbols
pub mod Lexer
pub mod Parser
pub mod Assembler
pub mod Disasm
