-- ===== src/Lib.antt =====
-- Programs of TLPI (exercises and examples of "The Linux Programming Interface") and of hplsp (a book
-- on servers) as actions over an operating system that they cannot see into.
--
-- A program is an action of the type `M A` (Sys/Run.antt): it gets a kernel and the trace of the calls
-- made so far, newest first, and it returns, or it ends the process: exit with a status, a successful
-- exec, undefined behaviour of C, a call that blocks for ever, or the end of the model's fuel. The kernel
-- answers each call and may let the answer depend on everything that happened, so that a theorem for
-- every kernel covers every behaviour of files, peers and signals that the calls can report. What a
-- program relies on, as that a read returns the next bytes of a file, is a named hypothesis
-- (Sys/Files.antt, Sys/Image.antt), and what a run did is read off its trace (Sys/View.antt). Sys/Calls.antt has the calls with the types of
-- their answers, Sys/Bind.antt, Sys/Loop.antt and Sys/Always.antt the rules for sequences and loops,
-- Sys/Sample.antt kernels for the examples. Prelude has the numbers, lists and C strings.
--
-- The programs, with their functions under the names of the source in this language's spelling:
--   FileIo/Copy        TLPI/chapter4/copy.c              main, and its loop as copy_round
--   FileIo/CpHole      TLPI/chapter4/cp_hole.c           main, copy_round, copy_block
--   FileIo/CreatHole   TLPI/chapter4/creat_hole_file.c   main as create, with the size of the hole
--   FileIo/Tee         TLPI/chapter4/tee.c               main, tee_round
--   FileIo/Append      TLPI/chapter5/exercise/atomic_append.c   main, append
--   FileIo/LargeFile   TLPI/chapter5/exercise/large_file_2.c    main, write_at
--   FileIo/Gather      TLPI/chapter5/exercise/scatter_gather_io.c   my_writev, main
--   FileIo/Overwrite   TLPI/chapter5/exercise/file_append_5.2.c     main, put
--   FileIo/Readv       TLPI/chapter5/t_readv.c           main
--   Descriptors/Dup    TLPI/chapter5/exercise/dup.c      my_dup, my_dup2, is_file_descripter, main
--   Processes/MultiWait   TLPI/chapter26/multi_wait.c    main, fork_from, wait_round
--   Threads/Counter    TLPI/chapter30/thread_incr_mutex.c   threadFunc as step, main in Counter/Start;
--                                                        Counter/Atomic is the specification, with one
--                                                        step for an addition
--   Threads/Race       TLPI/chapter30/thread_incr.c      threadFunc as step, main
--   Threads/Multijoin  TLPI/chapter30/thread_multijoin.c    threadFunc and main
--   Threads/Cleanup    TLPI/chapter32/thread_cleanup.c   threadFunc, cleanHandler and main
--   Daemon             TLPI/chapter37/become_daemon.c    becomeDaemon
--   Pipe/Simple        TLPI/chapter44/simple_pipe.c      main with child and parent
--   Pipe/LsWc          TLPI/chapter44/pipe_ls_wc.c       main with both children
--   Fifo               TLPI/chapter44/FIFO_SERVER_CLIENT    the server, the client and their messages
--   MessageFile        TLPI/chapter46/server             the server, the client and their messages
--   SvQueue            TLPI/chapter46                    svmsg_create.c, svmsg_send.c, svmsg_receive.c
--   BinarySems         TLPI/chapter47/binary_sems.c      reserveSem, releaseSem and the others
--   ShmTransfer        TLPI/chapter48                    svshm_xfr_writer.c and svshm_xfr_reader.c
--   PosixQueue         TLPI/chapter52                    pmsg_create.c, pmsg_send.c, pmsg_receive.c
--   PosixShm           TLPI/chapter54                    pshm_create.c, pshm_write.c, pshm_read.c
--   UnixSocket         TLPI/chapter57                    us_xfr_cl.c and us_xfr_sv.c
--   Inet/Sockets       TLPI/chapter59/inet_sockets.c     inetConnect, inetListen, inetBind
--   Inet/AddressStr    TLPI/chapter59/inet_sockets.c     inetAddressStr
--   Datagram           TLPI/chapter59, TLPI/chapter60    i6d_ucase_sv.c, i6d_ucase_cl.c, id_echo_sv.c,
--                                                        id_echo_cl.c
--   Epoll              hplsp/chapter9                    9_3_epoll_LT_ET.cpp as Trigger,
--                                                        9_4_EPOLLONESHOT.cpp as OneShot,
--                                                        9_8_TCP_UDP.cpp as TcpUdp
--   Events/PollPipes   TLPI/chapter63/poll_pipes.c       main, make_pipes, write_some, watch
--   Events/Select      TLPI/chapter63/t_select.c         main, add_all, watch
--   Tcp                hplsp/chapter6, 9 and 11          1_CGI.cpp as Cgi, 3_sendfile.cpp as SendFile,
--                                                        4_splice.cpp as Splice,
--                                                        9_6_chatroom_client.cpp as ChatClient,
--                                                        11_1_connect_timeout.cpp as TimedConnect
-- ShmTransfer uses the functions of BinarySems, the echo programs those of Daemon and Inet.
-- ShmTransfer/Transfer, SvQueue/Exchange and PosixShm/Exchange put two programs together: what one left
-- in the segment, the queue or the object is what the other finds there. Threads/Counter/Start puts main
-- and the two threads together: what main loads after the joins is what a schedule left.
--
-- A loop of C that ends only when a call says so is `loop` on fuel, one round of its body for one unit.
-- No theorem takes the end of the fuel for a result: a server that runs for ever is described for any
-- fuel, by what holds when it is used up; where a loop must end, the theorem says how much is enough
-- (copy.c, reserveSem, thread_multijoin.c). Loops over lists and counters are recursive without fuel.
-- The threads of Threads/Counter and Threads/Race are a step relation, one step for a statement, and a
-- schedule is a sequence of steps; in the other programs with threads a load or a store of a shared
-- variable is a call, so that the kernel stands for the other threads. getopt is a call that answers an
-- option or -1.
--
-- A call always has an answer, so that a theorem that a run ends says so of runs in which every call
-- returns. Where a call is likely to block for ever, in poll_pipes.c and t_select.c, its answer can say
-- this, and the run ends as `blocked`.
--
-- An `int` is a number that the calls return, or -1; where a program mixes it with a `size_t` or adds
-- it up in 32 bits, the wrap-around is written out. Strings are lists of bytes without the terminator,
-- where `sizeof` counts it, it is written out. Text that goes to the terminal is a call, too.
--
-- Not modelled: signals that arrive inside a run (their handlers are definitions of their own),
-- buffering by stdio, the time, permissions, the programs that do not compile as they stand (seek_io.c,
-- system.c, prod_condvar.c, real_timer.c, epoll_input.c, 9_5_nonblocking_connect.cpp,
-- 9_7_chatroom_server.cpp, 10_1_unifyEventSource.cpp), and those that show what one call returns.
pub mod Prelude
pub mod Sys
pub mod FileIo
pub mod BinarySems
pub mod ShmTransfer
pub mod Inet
pub mod Daemon
pub mod UnixSocket
pub mod Fifo
pub mod Pipe
pub mod MessageFile
pub mod Datagram
pub mod SvQueue
pub mod PosixQueue
pub mod PosixShm
pub mod Epoll
pub mod Events
pub mod Tcp
pub mod Processes
pub mod Threads
pub mod Descriptors
