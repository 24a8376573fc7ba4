-- ===== src/Lib.antt =====
-- A verification library for the programs of the course in network system programming: small C
-- programs in one directory for each homework, SP_HW1 to SP_HW12.
--
-- The programs and their parts:
--   * the shell of SP_HW5/Part2. main in shell.c reads a line with fgets, parse.c makes an array of
--     strings of it, builtin.c runs a command in the shell itself, run_command.c forks for any other:
--     the child redirects (redirect_in.c, redirect_out.c) and becomes one command, or two that a
--     pipe joins (pipe_present.c, pipe_command.c); is_background.c tells the parent not to wait;
--   * the shell of SP_HW3, an earlier one without redirection and pipes;
--   * the dictionary of SP_HW11. main.c asks for words and calls lookup, of which there are four:
--     part1/lookup5.c searches a file, part1/lookup7.c, part2/lookup8.c and part3/lookup9.c ask a
--     server (part1/usock_server.c, part2/isock_server.c, part3/udp_server.c) that uses lookup5;
--   * the dictionary of SP_HW12, whose clients (lookup6.c) and server (shm_server.c) share a segment
--     of memory and two semaphores;
--   * the tail of SP_HW2, SP_hw2_tail.c, which writes the last lines of a file;
--   * the sequence numbers of SP_HW8/46_2, which server.c gives to client.c over a message queue;
--   * the copy of SP_HW9/54_1, where writer.c and reader.c share a segment and two semaphores;
--   * the tee of SP_HW1, SP_hw1-1.c;
--   * the process tree of SP_HW4, 12_2.c, which reads /proc and prints what is below process 1;
--   * the dictionary of SP_HW5/Part3: convert.c copies a text file of words and definitions,
--     lookup1.c searches one line by line, and main.c asks for words;
--   * 44_2.c of SP_HW6, popen and pclose of its own over a table of streams and children, with a
--     main that runs two commands; and 44_1.c there, a child that returns what it is sent in upper
--     case;
--   * 22_3.c of SP_HW7, a parent and a child that signal each other by turns; and 22_4.c there, the
--     signal functions of System V;
--   * SP_HW10.c, a producer that numbers messages in a shared ring and signals its consumers.
--
-- The files:
--   * Prelude and the files below it: shared names, tests on the native numbers, lists, C strings as
--     lists of bytes, strcmp and its order, integers;
--   * Tokens: strtok and the words of a line. Libc: atoi and fgets. Machine: what the C machine does,
--     as the programs see it. A computation takes a World (the heap's counters, the text printed,
--     the standard descriptors, the working directory) to an Outcome: a result, exit with a status,
--     another program by execvp, or undefined behaviour (`fault`);
--   * Shell: the shell of SP_HW5/Part2. Shell.Parse is parse.c, Shell.Scan is is_background.c and
--     pipe_present.c, Shell.Pipe is pipe_command.c, Shell.Redirect is redirect_in.c and
--     redirect_out.c, Shell.Run is run_command.c, Shell.Builtin is builtin.c and Shell.Main is
--     shell.c; a C function has the name that it has there, and its loops have names of their own;
--   * Shell3: the shell of SP_HW3, by the same division;
--   * Dict: the dictionary of SP_HW11. Dict.Search is lookup5.c, Dict.Remote the socket clients and
--     the servers' dialogues, Dict.Servers the servers from their start, Dict.Prompt is main.c, and
--     Dict.Parts holds the copies of lookup5.c and main.c in part2, part3 and SP_HW12. The servers'
--     files are taken to open and map;
--   * Shm: the dictionary of SP_HW12, as steps of any number of clients and one server in any order;
--     Shm.Turns, Shm.Moves and Shm.Served are about the runs in which no client ends, Shm.Orderly and
--     Shm.Exclusion about all, Shm.Runs says which runs there are, and Shm.Search is
--     SP_HW12/lookup5.c, with which the server is linked;
--   * Tail: the tail of SP_HW2, on the bytes that its one read gives;
--   * Queue: the server and the client of SP_HW8/46_2;
--   * Transfer: the copy of SP_HW9/54_1, as steps of the writer and the reader in any order, from what
--     exists under their three names;
--   * Tee: SP_HW1/SP_hw1-1.c over the files of a directory, with opens and writes that may fail;
--   * Tree: SP_HW4/12_2.c. Tree.Status is main up to the tree, Tree itself insert and dfs_show, whose
--     output is a list of items and the bytes of each;
--   * Convert: SP_HW5/Part3/convert.c; Convert.Lookup is lookup1.c and main.c beside it;
--   * Popen: my_popen and my_pclose of SP_HW6/44_2.c, both sides of fork; Popen.Main is its main;
--   * Upper: SP_HW6/44_1.c, the parent's loop with what the child returns for each block;
--   * Pingpong: SP_HW7/22_3.c, as steps of the two processes in any order;
--   * Signals: the functions of SP_HW7/22_4.c over the mask and the actions of a process, and
--     Signals.Main its main;
--   * Ring: SP_HW10/SP_HW10.c, as steps of the producer and of the signal handlers of any number of
--     consumers in any order, reads and writes of a shared cell apart; Ring.Setup is main up to there.
--   The files named Tests hold runs at concrete inputs.
--
-- Bounds and fuel. Loops over a list are structural. The loop of parse has the length of the rest
-- of the line as its fuel, the main loops the length of the input, as each round takes a byte at
-- least; pipe_and_exec has the number of cells of its array, and bsearch the number of records;
-- convert and lookup1 have the length of the file, as each line takes a byte, and dfs_show has the
-- number of processes, which a table without a circle does not exceed. No fuel left is undefined
-- behaviour, so that a theorem which excludes that says that the fuel is enough. Lengths of lines
-- and arrays are bounded by those of the input and do not wrap; the sums that may leave an int in
-- reader.c, in SP_HW8/46_2/server.c and, for its two counters and its loops, in SP_HW10.c are
-- undefined there. Sizes of arrays are those of the sources: 255 bytes for a line, which a program
-- reads up to its first NUL, 512 for one of convert, 32 and 480 for a dictionary record, 108 for
-- the name of a socket, 128 entries in the table of 44_2.c.
--
-- What is outside src is a parameter: which requests the allocator grants, which files open, what
-- execvp, fork and waitpid answer, whether a send, a write or a connection succeeds, what is read.
--
-- Not modelled: text on stderr; the contents of files that a shell redirects to; in SP_HW12 the end
-- of a process within a call of lookup, and of the server; partial sends and receives; in 44_1.c
-- failed calls of the child, and the messages of failed calls; in SP_HW10.c the delay between
-- messages and the report at the end; and the programs of the other homeworks: those that print
-- what the system reports (SP_HW5/Part1, 12_1.c and 12_3.c of SP_HW4), the sparse files of SP_HW1,
-- the copy by mmap of SP_HW9/49_1, the named pipes of SP_HW8, which are listings of a textbook, and
-- SP_HW9/52_3, which holds merge-conflict markers and does not compile.
pub mod Convert
pub mod Dict
pub mod Libc
pub mod Machine
pub mod Pingpong
pub mod Popen
pub mod Prelude
pub mod Queue
pub mod Ring
pub mod Shell
pub mod Shell3
pub mod Shm
pub mod Signals
pub mod Tail
pub mod Tee
pub mod Tokens
pub mod Transfer
pub mod Tree
pub mod Upper
