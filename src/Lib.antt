-- ===== src/Lib.antt =====
-- Verification of the course programs in SP_HW and SP_quiz.
--
-- The repository holds small C programs for Unix, each homework a folder of its own. The parts that
-- are modelled, the files that model them, and the sources:
--
-- - Tail (SP_HW/SP_HW2/tail.c): `seek` is the backward loop over blocks of BUF_SIZE bytes, `scan` its
--   inner loop, `print_rest` the loop that prints, `tail_main` the program.
-- - Copy (SP_HW/SP_HW1/cp.c): `copy` is the loop, over the blocks that the reads return; the
--   destination is a file with an offset, so that a seek past the end makes a hole.
-- - Dict: the dictionary. Dict/Sequential has SP_HW/SP_HW5/part3: `convert` makes the file of records
--   (convert.c) and `lookup1` searches it from the top (lookup1.c). Dict/Mapped is the search of
--   SP_HW/SP_HW11/part1/lookup5.c in a mapped file of records. Dict/Dialogue has the servers of
--   SP_HW/SP_HW11 (usock_server.c, isock_server.c, udp_server.c), which call that search, and the
--   clients that ask them (lookup7.c, lookup8.c, lookup9.c). Dict/Asking is the main.c of part 1,
--   and Dict/Asking/Endless that of SP_HW/SP_HW5/part3.
-- - Shell: the shells of SP_HW/SP_HW5/part2 and SP_HW/SP_HW3. Shell/Parse (parse.c) splits a line,
--   Shell/Builtin (builtin.c) has the commands of the shell itself, Shell/Redirect (redirect_in.c,
--   redirect_out.c, is_background.c) and Shell/Pipe (pipe_present.c, pipe_command.c) set a child up,
--   and Shell/Run (run_command.c, shell.c) joins them in `run_command` and `main_loop`. Shell/Early is
--   the first shell (run_command.c, is_background.c, shell.c of SP_HW3). Shell/Input has the lines of at
--   most 254 bytes that `fgets` hands to both.
-- - Exchange (SP_HW/SP_HW12): the server (shm_server.c) and any number of clients in `lookup`
--   (lookup6.c) as processes that take steps in any order, with two System V semaphores and one
--   record of shared memory, and with the undoing of what a client has added when it ends; the
--   server's lookup in its file is a parameter.
-- - Transfer (SP_HW/SP_HW9/54_1): the writer (shm_xfr_writer.c) and the reader (shm_xfr_reader.c) as
--   two processes that take steps in any order, with two semaphores, the shared memory, the input
--   and what is printed.
-- - Signals (SP_HW/SP_HW7/22-4/22-4.c): `my_sigset` and its companions over a record of the kernel's
--   calls, with the laws that their documentation states.
-- - Tickets (SP_HW/SP_HW8/44-6): `serve` is the loop of the server (fifo_seqnum_server.c), `turn` one
--   round of it and `try_open` its retries, five at most. Tickets/Clients has the server and any number
--   of clients (fifo_seqnum_client.c) over their FIFOs, in steps of single calls. Ranges has what the
--   two servers of sequence numbers, this and that of Mail, share.
-- - Tree (SP_HW/SP_HW4/12-2.c): `print_tree` over a table of processes, as the list of what is printed,
--   and Tree/Reading, which reads that table from the status files of /proc.
-- - Fetch (SP_HW/SP_HW9/52_3): `serve_request` is what the server (posixmq_file_server.c) sends to the
--   queue of a client, and `receive` the client (posixmq_file_client.c). Fetch/Request has the
--   request that the client writes, and the loop of the server over all requests.
-- - Threads (SP_quiz/quiz_2/1.c): the producer and its consumers as threads over the mutex, the
--   condition variable and the buffer.
-- - Feed (SP_HW/SP_HW10): the producer (producer.c) and the handlers of its consumers (consumer.c), over
--   the rows in shared memory and the signals that are pending; Feed/Closing has the end of
--   the producer, which kills the consumers, in steps of single calls.
-- - Mail (SP_HW/SP_HW8/46-2): the server (server.c) and any number of clients (client.c) over one
--   message queue, from which a receiver takes the first message of its type.
-- - Router (SP_quiz/quiz_3): the loop of the router (router.c) over the connections of the nodes
--   (node.c), each with the message it has written.
-- - Upper (SP_HW/SP_HW6/44_1.c): `converse` is the loops of parent and child over the lines that are
--   typed, each the bytes of one `read`, with the buffers of both.
-- - Proc (SP_HW/SP_HW4/12-1.c, 12-3.c): the processes of a user, from the status files of /proc
--   (`get_process_uid`, `get_process_cmdname`), and the processes that have a file open.
-- - Popen (SP_HW/SP_HW6/44_2.c): `my_popen` over the descriptors of the parent and of the child, and
--   `my_pclose`.
-- - Pour (SP_HW/SP_HW1/tee.c, SP_HW/SP_HW5/part1/mycat.c, pipe_ls.c): programs that read blocks and
--   write them on, by the blocks that are read and the writes that succeed.
-- - Mirror (SP_HW/SP_HW9/49_1/49_1.c): a copy of a file through two mappings, by which of its calls
--   succeed.
-- - Detector (SP_quiz/quiz_1/detector.c): the two signal handlers, over the signals that arrive.
-- - Tokens: `strtok` with a set of delimiters, and the loop over all tokens, which the shells, mydate.c
--   (SP_HW/SP_HW5/part1) and myrpc.c (SP_quiz/quiz_1) share.
-- - Fifo (SP_HW/SP_HW8/44-7): the branches of server.c and client.c as two processes over one FIFO, in
--   steps of single calls.
-- - Date (SP_HW/SP_HW5/part1/mydate.c): `mydate`, from the string of `ctime` to what is printed, with
--   `atoi` as a parameter.
-- - Remote (SP_quiz/quiz_1/myrpc.c): `commander` with the descriptors that are left to it, and `child` up to
--   its `execvpe`.
-- - Popen/Listing (SP_HW/SP_HW5/part1/pipe_ls.c): the descriptors of the child that becomes `ls`, and the
--   parent that prints what comes through the pipe.
--
-- Base holds what the parts share: lists and strings over the native numbers, and the tests on them.
-- Tests runs the programs at concrete inputs.
--
-- Conventions. A C string is the list of its bytes. System calls that can fail are a function from
-- the number of the call to its success (`Calls`), or a data type of what they bring; a failing call
-- takes the branch that the source has for it. Reads of files and pipes come as blocks in the order
-- in which they arrive. Messages on stderr are left out where the program ends behind them.
-- Undefined behaviour that the source does not exclude is an outcome of its own: `fault`, `crashes`,
-- `overruns`.
--
-- Fuel. `seek` and `print_rest` of Tail have one more round than the file has bytes, and each round
-- takes a byte or more. `search` of Dict/Mapped has the 100 rounds of the source. `tokens` of
-- Shell/Parse has one more round than the line has bytes, and `pipe_and_exec` one more than the vector
-- has strings, and each recursion passes over one. `print_tree` of Tree has the depth of the recursion
-- as fuel, and a table whose parents form a tree needs no more than its depth.
--
-- Not modelled: the copies of the support code of The Linux Programming Interface (error_functions.c,
-- get_num.c), memory that runs out (other than in `my_popen`), reads and writes of parts of a block,
-- the opening of what the servers share and the exits where that fails, the main
-- programs and repeated copies of the later dictionaries, and the programs that only print the answer of
-- a system call (hostinfo.c and printdir.c of SP_HW/SP_HW5/part1).
pub mod Base
pub mod Ranges
pub mod Tokens
pub mod Tail
pub mod Copy
pub mod Dict
pub mod Shell
pub mod Exchange
pub mod Transfer
pub mod Signals
pub mod Tickets
pub mod Mail
pub mod Tree
pub mod Fetch
pub mod Threads
pub mod Feed
pub mod Fifo
pub mod Router
pub mod Proc
pub mod Popen
pub mod Pour
pub mod Mirror
pub mod Detector
pub mod Date
pub mod Remote
pub mod Upper
mod Tests
