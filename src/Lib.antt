-- ===== src/Lib.antt =====
-- nerves_initramfs is the first program that runs on a Nerves device: it evaluates a small script
-- that sets up the root file system. This library models its core over byte strings, lists and
-- natural numbers.
--
-- The program's parts, and the files that model them:
--
-- src/uboot_env.c, src/uboot_env.h (the U-Boot environment in memory, and its block on disk):
-- UbootEnv. `UbootEnv/Defs.antt` has the list operations, `UbootEnv/Read.antt` and
-- `UbootEnv/Write.antt` the two directions of the block. An environment is the size of its block
-- and the list of its pairs, head first; names and values are the bytes before their NUL. Pointers
-- into the block are the bytes behind them, or offsets where the block is written. `qsort` is an
-- argument with the contract `Sorts` of `UbootEnv/Order.antt`.
-- src/crc32.c (the checksum of that block): Crc32, with the table in `Crc32/Table.antt`, and its
-- bitwise definition in `Crc32/Bitwise.antt`.
-- src/block_device.c, src/block_device.h (finding disks and partitions, waiting for device files):
-- BlockDevice. `BlockDevice/Probe.antt` reads the partition tables, `BlockDevice/Spec.antt` looks
-- up a specification and waits. What `pread`, `open` and `scandir` give is an argument; the files
-- may be others at each millisecond.
-- src/script.c, src/script.h (the interpreter behind the grammar): Script. `Script/Defs.antt` has
-- the terms and the table of functions, `Script/Machine.antt` the state, the heap and the
-- constructors, `Script/Value.antt` the variables and the collection, `Script/Convert.antt` the
-- conversions, `Script/Functions.antt` and `Script/Storage.antt` the built-in functions,
-- `Script/Run.antt` the calls; `Script/Flags.antt` is about the variables that say whether the
-- U-Boot environment is loaded and modified, and `Script/Save.antt` and `Script/Getenv.antt` run
-- the functions on it, for which `Script/Location.antt` opens the device and seeks;
-- `Script/Reads.antt` reads variables, and `Script/Numbers.antt` converts numbers to strings and
-- back. The state is the index into the heap, the variables, the U-Boot environment, the tries left
-- for device files, and the outside world; a step gives a result or a `Stop`. Terms do not change
-- once they are made, so a pointer to a term is the term; the links between terms are lists, and
-- NULL is `none`. The block device functions and those on the U-Boot environment are the ones of
-- the other two parts.
-- src/util.c (`trim_string_in_place`, and the messages): Util and Log.
-- src/cmd.c (a command with its output in a buffer): Cmd. What the child writes, and in what pieces
-- the pipe gives it, is an argument; `Cmd/Redirect.antt` has the child.
-- src/rootdisk.c (links to the disk that the root file system is on): Rootdisk, over what /sys
-- holds. `Rootdisk/Nodes.antt` and `Rootdisk/Scan.antt` are about the list of nodes and what the
-- scan adds to it, `Rootdisk/Links.antt` about the links.
-- src/nerves_initramfs.c (the boot itself): Boot has the default variables, the options of the
-- kernel command line, which `Script/Settings.antt` and `Boot/Defaults.antt` follow into the
-- variables; `Boot/Cleanup.antt` the removal of the old root file system, over what its directories
-- list; `Boot/Kernel.antt` the calls, with what the kernel answers as an argument that may look at
-- all the calls before; `Boot/Mount.antt` the mounts and the device-mapper requests, and
-- `Boot/Main.antt` the switch of the root and `main`, of which `Boot/Repl.antt` has the script that
-- is read and the REPL, with linenoise as an argument. `Boot/Phases.antt` specifies the order of
-- the calls by an automaton, and `Boot/Order.antt` carries it through the functions;
-- `Boot/Success.antt`, `Boot/Mounting.antt` and `Boot/Finish.antt` follow a boot in which no call
-- fails, and `Boot/Conf.antt` one from the text of its script.
-- src/lexer.l (the tokens of a script): `Script/Lexer.antt` has the rules, and the choice that flex
-- makes among them, of which `Script/Lexer/Munch.antt` has the longest match;
-- `Script/Lexer/Rules.antt` has what all rules have in common, and `Script/Lexer/Stops.antt` where
-- matches end; `Script/Lexer/Lines.antt` is about lines; `Script/Lexer/Print.antt` has the text of
-- a token, which `Script/Lexer/Fixed.antt`, `Script/Lexer/Reads.antt` and
-- `Script/Lexer/RoundTrip.antt` read back; `Script/Lexer/Input.antt` has how the input is given to
-- flex.
-- src/parser.y (the grammar): `Script/Grammar.antt` has the actions of its productions, over the
-- parse trees of `Script/Grammar/Trees.antt`, with `eval_string` and `eval_file` of src/script.c.
-- The parser that bison generates is an argument of the two, from the lexemes to the statements
-- that it reduces, and to what it has reduced of a statement before a syntax error, whose actions
-- run too. What the buffer of flex still holds of an input whose parse failed stands in front of
-- the next input, and is an argument as well: nothing for /nerves_initramfs.conf, which is the
-- first; what flex echoes does not reach the parser, and is not written anywhere.
-- `Script/Grammar/Calls.antt` has which terms the actions make, and `Script/Grammar/Text.antt` the
-- tokens of a parse tree. `Script/Grammar/Line.antt` specifies scripts whose lines set a variable,
-- always or where a variable compares with a text; `Script/Grammar/Assign.antt`,
-- `Script/Grammar/Conditions.antt` and `Script/Grammar/Statements.antt` follow their statements,
-- and `Script/Grammar/Scripts.antt` goes from the text of a script to the variables, where
-- `Script/Digits.antt` has the numbers, `Script/Settings.antt` the variables, and
-- `Script/Tidy.antt` what a collection needs of them.
--
-- The interpreter calls the other parts: `loadenv` and `saveenv` open a block device by its
-- specification and read or write the environment's block; `blkid` probes the disks; `cmd` trims
-- what a command prints. `main` runs the script between its first mounts and that of the root file
-- system, whose path, type and secret are variables of the script.
--
-- Numbers. A `size_t` or `uint32_t` is a natural number with its wrap-around written out; an `int`
-- is an integer, and a result of `int` arithmetic wraps at 32 bits, as the compiled code does. An
-- access outside a buffer, and NULL where it is followed, is `none` or the stop `undefined`.
--
-- Fuel. The loop of `uboot_env_read` has as much fuel as the block has bytes, which is enough since
-- each pair takes a byte at least. The wait for a device file recurses on the tries that are left.
-- The interpreter recurses through variables and parameters without a bound in the source (a
-- variable may hold an identifier of itself), so an evaluator has a level for each unit of fuel,
-- and the stop `no_fuel` says that it was too little. `system_cmd` has one unit more than the child
-- writes bytes, which is enough since a read gives one at least. The lexer has as many as the input
-- has bytes, since a step takes one at least. `repl` has one unit more than linenoise gives lines.
--
-- Not modelled: the tables of flex and bison, so `main` takes the evaluation of its script as an
-- argument; the term of a token is made when the grammar uses it, one token later than the lexer
-- does, which only shows where the heap is full; src/linenoise.c, a copy of a library; src/compat,
-- for building on another system. `malloc` does not fail. What is
-- freed is not tracked. The text of the interpreter's messages is kept, and `info` and `fatal` are
-- its effects; the messages of the boot leave out the text of `strerror`,
-- and those of `uboot_env_read` and of `open_block_device` where it gives up are left out.
pub mod Base
pub mod Crc32
pub mod UbootEnv
pub mod BlockDevice
pub mod Util
pub mod Log
pub mod Cmd
pub mod Rootdisk
pub mod Boot
pub mod Script
pub mod Tests
