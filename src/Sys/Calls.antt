-- ===== src/Sys/Calls.antt =====
-- The system calls and the library calls with an effect that the programs make, with the type of
-- each answer. The kernel behind them is a parameter of every program.
use linux_unix_system_progra.Prelude.{ℕ, String, Option, List, Text, ℤ, Bool}

pub data Errno : Type 0 where
  eintr enoent eexist echild eperm esrch ebadf eagain einprogress : Errno
  other_errno : ℕ → Errno

-- -1 with `errno`, or a result.
pub data Reply (A : Type 0) : Type 0 where
  ok : A → Reply A
  fail : Errno → Reply A

pub data OpenFlag : Type 0 where
  o_rdonly o_wronly o_rdwr o_creat o_trunc o_append o_excl o_nonblock : OpenFlag

pub data Whence : Type 0 where
  seek_set seek_cur seek_end : Whence

pub data IpcFlag : Type 0 where
  ipc_creat ipc_excl ipc_nowait msg_noerror msg_except sem_undo : IpcFlag

pub data Signal : Type 0 where
  sigint sigquit sigchld sigpipe : Signal

pub data Disposition : Type 0 where
  sig_ign sig_dfl handler : Disposition

-- The keys of System V objects: IPC_PRIVATE, or a number.
pub data Key : Type 0 where
  ipc_private : Key
  key : ℤ → Key

pub data Family : Type 0 where
  af_unix af_inet6 af_unspec : Family
  other_family : ℕ → Family

pub data SockType : Type 0 where
  sock_stream sock_dgram : SockType

pub data Addr : Type 0 where
  unix_path : Text → Addr
  inet6_any : ℕ → Addr
  inet6 : Text → ℕ → Addr
  -- 0.0.0.0 where there is no text
  inet4 : Option Text → ℕ → Addr
  other_addr : ℕ → Addr

pub data EpollFlag : Type 0 where
  epollin epollet epolloneshot : EpollFlag

-- A ready descriptor, and whether there is input.
pub record Ready : Type 0 where
  pub fd : ℤ
  pub has_input : Bool

pub data ThreadState : Type 0 where
  ts_alive ts_terminated ts_joined : ThreadState

-- One entry of the list that getaddrinfo returns.
pub record AddrInfo : Type 0 where
  pub ai_family : Family
  pub ai_socktype : SockType
  pub ai_protocol : ℕ
  pub ai_addr : Addr
  pub ai_addrlen : ℕ

pub data Arg : Type 0 where
  num : ℕ → Arg
  int : ℤ → Arg
  str : Text → Arg

pub data Call : Type 0 where
  printf eprintf : String → List Arg → Call
  perror : String → Call
  -- files and descriptors
  open_file : Text → List OpenFlag → ℕ → Call
  close : ℕ → Call
  read : ℕ → ℕ → Call
  -- the bytes of the buffer, and the count
  write : ℕ → Text → ℕ → Call
  lseek : ℕ → ℤ → Whence → Call
  ftruncate : ℕ → ℤ → Call
  readv : ℕ → List ℕ → Call
  -- fcntl with F_GETFL, F_DUPFD
  fcntl_getfl : ℕ → Call
  fcntl_dupfd : ℕ → ℕ → Call
  dup2 : ℕ → ℤ → Call
  sysconf_open_max : Call
  unlink remove_file : Text → Call
  umask : ℕ → Call
  chdir : Text → Call
  syslog : String → Call
  -- pipes and FIFOs
  pipe : Call
  mkfifo : Text → ℕ → Call
  -- processes
  fork getpid getppid setsid wait_child : Call
  waitpid_nohang : Call
  execlp : Text → List Text → Call
  sigaction : Signal → Disposition → Call
  register_atexit : Call
  -- System V messages, semaphores and shared memory; a message is the front of the buffer, and its size
  msgget semget : Key → List IpcFlag → ℕ → Call
  msgsnd : ℕ → ℕ → Text → ℕ → List IpcFlag → Call
  msgrcv : ℕ → ℤ → ℤ → List IpcFlag → Call
  msgctl_rmid semctl_rmid shmctl_rmid : ℕ → Call
  ftok : Text → ℕ → Call
  semctl_setval : ℕ → ℕ → ℕ → Call
  semop : ℕ → ℕ → ℤ → List IpcFlag → Call
  shmget : Key → ℕ → List IpcFlag → ℕ → Call
  shmat shmdt : ℕ → Call
  -- loads from a shared segment: the count and the bytes, as the other process left them
  shm_cnt shm_buf : ℕ → Call
  -- stores to the count and the bytes of a shared segment
  set_shm_cnt : ℕ → ℤ → Call
  set_shm_buf : ℕ → Text → Call
  -- sockets
  socket : Family → SockType → ℕ → Call
  connect bind : ℕ → Addr → Call
  listen : ℕ → ℕ → Call
  accept : ℕ → Call
  set_reuseaddr : ℕ → Call
  getaddrinfo : Option Text → Text → Family → SockType → Bool → Call
  freeaddrinfo : Call
  -- with NI_NUMERICSERV, for an address and its length
  getnameinfo : Addr → ℕ → Call
  recvfrom : ℕ → ℕ → Call
  sendto : ℕ → Text → ℕ → Addr → Call
  inet_pton : Text → Call
  inet_ntop : Addr → Call
  -- the next option of argv, for this option string, and argv from optind on
  getopt : String → Call
  operands : Call
  -- msgsnd and msgrcv with the numbers that a user gave
  queue_send : ℤ → ℤ → Text → ℕ → List IpcFlag → Call
  queue_receive : ℤ → ℕ → ℤ → List IpcFlag → Call
  -- POSIX message queues: the flags, the mode, and mq_maxmsg and mq_msgsize
  mq_open : Text → List OpenFlag → Call
  mq_create : Text → List OpenFlag → ℤ → ℤ → ℤ → Call
  mq_msgsize : ℕ → Call
  mq_receive : ℕ → ℕ → Call
  mq_send : ℕ → Text → ℕ → ℕ → Call
  malloc : ℕ → Call
  -- POSIX shared memory; a descriptor that was not checked is an `int`
  shm_open : Text → List OpenFlag → ℤ → Call
  shm_truncate : ℤ → ℕ → Call
  mmap : ℤ → ℕ → Call
  fstat_size : ℕ → Call
  -- loads from and stores to a mapping: its address, and the count or the bytes
  load_map : ℕ → ℕ → Call
  store_map : ℕ → Text → Call
  -- calls on descriptors that were not checked; flags that could not be read are -1, all bits
  get_flags : ℤ → Call
  set_flags : ℤ → Option (List OpenFlag) → Call
  fd_bind : ℤ → Addr → Call
  fd_listen : ℤ → ℕ → Call
  fd_accept fd_close : ℤ → Call
  fd_recv : ℤ → ℕ → Call
  fd_recvfrom : ℤ → ℕ → Call
  fd_send : ℤ → Text → ℕ → Call
  fd_sendto : ℤ → Text → ℕ → Addr → Call
  inet_pton4 : Text → Call
  epoll_create : ℕ → Call
  epoll_add epoll_mod : ℕ → ℤ → List EpollFlag → Call
  epoll_wait : ℕ → ℕ → Call
  load_errno : Call
  connect4 : ℕ → Addr → Call
  sendfile : ℕ → ℕ → ℕ → Call
  -- splice from a descriptor to another, at most this many bytes
  splice : ℕ → ℕ → ℕ → Call
  -- poll on standard input and a socket: what is ready of standard input, input and hang-up of the socket
  poll_two : ℕ → Call
  -- poll with POLLIN on a list of descriptors: how many are ready, and which
  poll_in : List ℕ → Call
  -- a write to a pipe, as `write`
  pipe_write : ℕ → Text → ℕ → Call
  -- select: the count, the members of both sets, and the seconds, none for a null pointer
  select : ℤ → List ℕ → List ℕ → Option ℤ → Call
  -- srandom(time(NULL)), and a number that is never below 0
  seed_random random : Call
  -- a number of entries of a size
  calloc : ℕ → ℕ → Call
  set_sndtimeo : ℕ → ℤ → Call
  -- threads: the start of a thread for an entry of `thread`, or a worker for a pair of descriptors
  thread_create thread_join : ℕ → Call
  worker_create : ℕ → ℤ → Call
  mutex_lock mutex_unlock cond_wait cond_signal : Call
  sleep : ℤ → Call
  -- loads and stores of variables that threads share
  load_arg : Call
  load_state : ℕ → Call
  store_state : ℕ → ThreadState → Call
  load_sleep_time : ℕ → Call
  store_sleep_time : ℕ → ℤ → Call
  add_unjoined : ℤ → Call
  load_glob : Call
  set_glob : ℤ → Call
  free_block : Call
  cond_wait_or_cancel : Call
  cancel_thread join_result : Call

abbrev pub Answer : Call → Type 0
Answer (printf _ _) = Unit {0}
Answer (eprintf _ _) = Unit {0}
Answer (perror _) = Unit {0}
Answer (open_file _ _ _) = Reply ℕ
Answer (read _ _) = Reply Text
Answer (write _ _ _) = Reply ℕ
Answer (lseek _ _ _) = Reply ℕ
Answer (readv _ _) = Reply ℕ
Answer (fcntl_getfl _) = Reply (List OpenFlag)
Answer (fcntl_dupfd _ _) = Reply ℕ
Answer (dup2 _ _) = Reply ℕ
Answer sysconf_open_max = Reply ℕ
Answer (umask _) = ℕ
Answer (syslog _) = Unit {0}
Answer pipe = Reply (ℕ × ℕ)
Answer fork = Reply ℕ
Answer getpid = ℕ
Answer getppid = ℕ
Answer setsid = Reply ℕ
Answer wait_child = Reply ℕ
Answer waitpid_nohang = Reply ℕ
Answer (msgget _ _ _) = Reply ℕ
Answer (semget _ _ _) = Reply ℕ
-- the type and the bytes of the message
Answer (msgrcv _ _ _ _) = Reply (ℕ × Text)
Answer (ftok _ _) = Reply ℤ
Answer (shmget _ _ _ _) = Reply ℕ
Answer (shmat _) = Reply ℕ
Answer (shm_cnt _) = ℤ
Answer (shm_buf _) = Text
Answer (set_shm_cnt _ _) = Unit {0}
Answer (set_shm_buf _ _) = Unit {0}
Answer (socket _ _ _) = Reply ℕ
Answer (accept _) = Reply ℕ
Answer (getaddrinfo _ _ _ _ _) = Reply (List AddrInfo)
Answer freeaddrinfo = Unit {0}
-- the host and the service
Answer (getnameinfo _ _) = Reply (Text × Text)
Answer (recvfrom _ _) = Reply (Text × Addr)
Answer (sendto _ _ _ _) = Reply ℕ
-- the parsed address, none for a text that is no address
Answer (inet_pton _) = Reply (Option Text)
Answer (inet_ntop _) = Reply Text
-- an option character with its argument, none for -1
Answer (getopt _) = Option (ℕ × Text)
Answer operands = List Text
Answer (queue_receive _ _ _ _) = Reply (ℤ × Text)
Answer (mq_open _ _) = Reply ℕ
Answer (mq_create _ _ _ _ _) = Reply ℕ
Answer (mq_msgsize _) = Reply ℕ
-- the bytes and the priority
Answer (mq_receive _ _) = Reply (Text × ℕ)
-- whether there was memory
Answer (malloc _) = Bool
Answer (shm_open _ _ _) = Reply ℕ
Answer (mmap _ _) = Reply ℕ
Answer (fstat_size _) = Reply ℕ
Answer (load_map _ _) = Text
Answer (store_map _ _) = Unit {0}
Answer (get_flags _) = Reply (List OpenFlag)
Answer (fd_accept _) = Reply ℕ
Answer (fd_recv _ _) = Reply Text
Answer (fd_recvfrom _ _) = Reply (Text × Addr)
Answer (fd_send _ _ _) = Reply ℕ
Answer (fd_sendto _ _ _ _) = Reply ℕ
Answer (inet_pton4 _) = Reply (Option Text)
Answer (epoll_create _) = Reply ℕ
Answer (epoll_wait _ _) = Reply (List Ready)
Answer load_errno = Errno
Answer (sendfile _ _ _) = Reply ℕ
-- the bytes that were moved
Answer (splice _ _ _) = Reply Text
Answer (poll_two _) = Reply (Bool × Bool × Bool)
-- none for a call that never returns
Answer (poll_in _) = Option (Reply (ℕ × List Bool))
Answer (pipe_write _ _ _) = Option (Reply ℕ)
-- the count, the members of both sets afterwards, and the seconds and microseconds that are left;
-- none if it never returns
Answer (select _ _ _ _) = Option (Reply (ℕ × (List ℕ × List ℕ) × (ℤ × ℤ)))
Answer seed_random = Unit {0}
Answer random = ℕ
-- whether there was memory
Answer (calloc _ _) = Bool
Answer (sleep _) = Unit {0}
Answer load_arg = ℕ
Answer (load_state _) = ThreadState
Answer (store_state _ _) = Unit {0}
Answer (load_sleep_time _) = ℤ
Answer (store_sleep_time _ _) = Unit {0}
Answer (add_unjoined _) = Unit {0}
Answer load_glob = ℤ
Answer (set_glob _) = Unit {0}
Answer free_block = Unit {0}
-- whether the thread was woken, and not canceled
Answer cond_wait_or_cancel = Reply Bool
-- whether the thread was canceled
Answer join_result = Reply Bool
Answer _ = Reply (Unit {0})
