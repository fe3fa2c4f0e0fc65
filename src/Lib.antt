-- ===== src/Lib.antt =====
-- qoot: emergency tools in C with no C library. This development models the shared headers under
-- include/ and the tools under tools/ that have logic of their own.
--
-- Base            native numbers, Boolean tests, lists, signed words, laws of `|`.
-- Str             include/string.h. A C string is the list of the bytes before its terminator, a
--                 pointer into it the suffix that it points at. Str itself holds the functions on
--                 characters and strings, Str.Digits and Str.Parse the conversions of numbers.
-- Io              include/io.h: `read_line` over `sys_read`, Io.Passwd the searches of /etc/passwd
--                 and /etc/group, Io.Mode the text of a mode, Io.Password the typed password.
-- Auth            include/auth.h: who may use sudo, from the two files.
-- Grep            tools/grep.c: the pattern matcher; Grep.Pattern says what a pattern means.
-- Sort            tools/sort.c: cutting the text, the insertion sort, the output.
-- Cut             tools/cut.c: the ranges, and the bytes or fields of a line.
-- Diff            tools/diff.c: the stored lines, the hunks, the status; Diff.Patch says what hunks
--                 mean.
-- Streams         the loop of the tools that look at each byte of their input: Streams.Words is
--                 tools/wc.c, Streams.Translate tools/tr.c.
-- Realpath        tools/realpath.c: the components of a path; Realpath.Normal says what they mean.
-- Ar              tools/ar.c: headers and members; Ar.Header writes what it reads.
-- Printf          tools/printf.c: the format; Printf.Widths fields of numbers, Printf.Ends odd formats.
-- Uniq            tools/uniq.c: the buffer and its lines; Uniq.Pieces the reads, Uniq.Runs the output.
-- Xxd             tools/xxd.c: the rows of a dump, and its reverse; Xxd.Columns and Xxd.Endless which
--                 rows are read back.
-- Wget            tools/wget.c: URLs; Wget.Address, Wget.Names and Wget.Dns find an address, Wget.Http
--                 takes the response, Wget.Client is `wget_main`.
-- Date            tools/date.c: from seconds to the printed date.
-- Deflate         include/deflate.h: CRC-32, the bit reader and the Huffman tables; Deflate.Output the
--                 output buffer and window, Deflate.Trees the tables and dynamic codes,
--                 Deflate.Inflate the blocks, Deflate.Gzip the header of a file.
-- Sed             tools/sed.c: commands, addresses, the substitution, the loop over the lines;
--                 Sed.Replace says what a substitution means.
-- Digest          include/md5.h and include/sha256.h: the context that both share; Digest.Md5 and
--                 Digest.Sha256 their transforms, Digest.Blocks the blocks of a text.
-- Tar             tools/tar.c: the fields, the checksum and the path of a header; Tar.Header the header
--                 that is written, Tar.Create the data of a file, Tar.Extract extraction and
--                 listing.
-- Sudo            tools/sudo.c: from the arguments to the command that is run, and as whom.
-- Sh              tools/sh.c, one child for each part: Sh.Environment the variables, Sh.Expand their
--                 expansion, Sh.Words the words of a command, Sh.Segments pipes and redirects,
--                 Sh.Path the search path, Sh.Commands one command, Sh.Lines a line, Sh.Sessions
--                 `sh_main`.
-- Tests           runs on small inputs, and each theorem at an input that meets its hypotheses.
--
-- The tools call the headers: sudo reads its configuration by `read_line`, names users by
-- `uid_to_name` and compares by `str_cmp` and `starts_with`; sort compares by `str_cmp` and
-- `str_to_long`; date prints by `uint_to_str`; the shell finds variables by `str_ncmp` and cuts at
-- `str_chr`.
--
-- The kernel is a parameter: `Io.Reader` is a descriptor with its `sys_read`, `Io.Delivers` states
-- what read(2) promises on a regular file, and `Tar.Extract.Data.DeliversAll` what it gives there
-- where it is not interrupted. A failed `sys_open` is `none`. `Deflate.Output.Writer` is a
-- descriptor with its `sys_write`, and `Appends` what write(2) promises. `Sudo.World` and
-- `Sh.Commands.Kernel` are what the kernel answers to sudo and to the shell; a program that runs
-- in a child is `Kernel.run`. Arrays that the code leaves uninitialised are parameters too.
-- Machine words are natural numbers with their wrap-around written out, and a `long` is the
-- integer of its 64-bit pattern.
--
-- Fuel: the digit loops take the number itself as fuel, which falls in every round; the loop over
-- years takes one round for each day; `read_lines` takes a bound on the number of lines, and its
-- theorems ask for more fuel than there are lines; `write_loop` takes the number of bytes, and its
-- theorem says that it is enough; `sed_substitute` takes the length of the line; `expand_loop`
-- that of the text, which its theorem says is enough, and `pieces` that of its text; the loops of
-- tar take a bound on the headers and on the reads, which their theorems give; the loops of
-- `inflate_to_fd` over blocks and symbols, which need not end, say `stuck` where the fuel is used
-- up; `read_pieces`, `read_bytes` and the other loops over reads take a bound on the reads, and
-- their theorems ask for more than the file has bytes; `format_loop` and `components_loop` take the
-- length of their text; `hex_bytes` takes a bound on its rounds and says `none` beyond. All other loops recur on their data.
--
-- Where a path is written over the end of its array, or the code goes on with a null pointer, C does
-- not say what follows: the models of sudo, of the shell and of realpath then end with a result of
-- its own (`undefined`, `overrun`, `none`), and their theorems say nothing of what is behind it.
--
-- Not modelled: option parsing other than that of sudo, messages on standard error, output by
-- `sys_write`, and the tools that wrap a system call. Of the shell, the prompt, a failure of fork
-- or pipe in a line with redirects or pipes, and children that an earlier line has left; of cut, the
-- text of the ranges; of sudo, user names that overrun the arrays of `build_env`; of tar, the walk
-- over a directory; of wget, the length that the header tells, which only a run without -q prints.
pub mod Base
pub mod Str
pub mod Io
pub mod Auth
pub mod Grep
pub mod Sort
pub mod Sudo
pub mod Sh
pub mod Cut
pub mod Diff
pub mod Streams
pub mod Realpath
pub mod Ar
pub mod Printf
pub mod Uniq
pub mod Xxd
pub mod Wget
pub mod Date
pub mod Tar
pub mod Digest
pub mod Sed
pub mod Deflate
mod Tests
