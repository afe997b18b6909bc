-- ===== src/Sys/Sample.antt =====
-- Operating systems that are easy to compute with, for the examples.
use linux_unix_system_progra.Prelude.{
  pos, none, some, true, false, [], ◌∷◌, Text, take, drop, length,
}
use linux_unix_system_progra.Sys.Calls.{
  ebadf, ok, fail, o_rdonly, inet6_any, printf, eprintf, perror, open_file, close, read, write,
  lseek, ftruncate, readv, fcntl_getfl, fcntl_dupfd, dup2, sysconf_open_max, unlink, remove_file,
  umask, chdir, syslog, pipe, mkfifo, fork, getpid, getppid, setsid, wait_child, waitpid_nohang,
  execlp, sigaction, register_atexit, msgget, semget, msgsnd, msgrcv, msgctl_rmid, semctl_rmid,
  shmctl_rmid, ftok, semctl_setval, semop, shmget, shmat, shmdt, shm_cnt, shm_buf, set_shm_cnt,
  set_shm_buf, socket, connect, bind, listen, accept, set_reuseaddr, getaddrinfo, freeaddrinfo,
  getnameinfo, recvfrom, sendto, inet_pton, inet_ntop, getopt, operands, queue_send, queue_receive,
  mq_open, mq_create, mq_msgsize, mq_receive, mq_send, malloc, shm_open, shm_truncate, mmap,
  fstat_size, load_map, store_map, eagain, ts_alive, get_flags, set_flags, fd_bind, fd_listen,
  fd_accept, fd_close, fd_recv, fd_recvfrom, fd_send, fd_sendto, inet_pton4, epoll_create,
  epoll_add, epoll_mod, epoll_wait, load_errno, connect4, sendfile, splice, poll_two, poll_in,
  pipe_write, select, seed_random, random, calloc, set_sndtimeo, thread_create, thread_join,
  worker_create, mutex_lock, mutex_unlock, cond_wait, cond_signal, sleep, load_arg, load_state,
  store_state, load_sleep_time, store_sleep_time, add_unjoined, load_glob, set_glob, free_block,
  cond_wait_or_cancel, cancel_thread, join_result,
}
use linux_unix_system_progra.Sys.Run.{Kernel}
pub use linux_unix_system_progra.Sys.Always.{trace}
use linux_unix_system_progra.Sys.View.{received}

-- Every call succeeds. A file opened for reading is descriptor 3, any other 4, a socket is 5, and
-- nothing can be read.
abbrev pub sample : Kernel
sample t (printf _ _) = tt
sample t (eprintf _ _) = tt
sample t (perror _) = tt
sample t (open_file _ (o_rdonly ∷ _) _) = ok 3
sample t (open_file _ _ _) = ok 4
sample t (close _) = ok tt
sample t (read _ _) = ok []
sample t (write _ _ n) = ok n
sample t (lseek _ (pos n) _) = ok n
sample t (lseek _ _ _) = ok 0
sample t (ftruncate _ _) = ok tt
sample t (readv _ _) = ok 0
sample t (fcntl_getfl _) = ok []
sample t (fcntl_dupfd _ n) = ok n
sample t (dup2 _ (pos n)) = ok n
sample t (dup2 _ _) = fail ebadf
sample t sysconf_open_max = ok 4
sample t (unlink _) = ok tt
sample t (remove_file _) = ok tt
sample t (umask _) = 0
sample t (chdir _) = ok tt
sample t (syslog _) = tt
sample t pipe = ok (3, 4)
sample t (mkfifo _ _) = ok tt
sample t fork = ok 0
sample t getpid = 7
sample t getppid = 6
sample t setsid = ok 7
sample t wait_child = ok 8
sample t waitpid_nohang = ok 0
sample t (execlp _ _) = ok tt
sample t (sigaction _ _) = ok tt
sample t register_atexit = ok tt
sample t (msgget _ _ _) = ok 1
sample t (semget _ _ _) = ok 2
sample t (msgsnd _ _ _ _ _) = ok tt
sample t (msgrcv _ _ _ _) = ok (3, [])
sample t (msgctl_rmid _) = ok tt
sample t (semctl_rmid _) = ok tt
sample t (shmctl_rmid _) = ok tt
sample t (ftok _ _) = ok (pos 1)
sample t (semctl_setval _ _ _) = ok tt
sample t (semop _ _ _ _) = ok tt
sample t (shmget _ _ _ _) = ok 3
sample t (shmat _) = ok 9
sample t (shmdt _) = ok tt
sample t (shm_cnt _) = pos 0
sample t (shm_buf _) = []
sample t (set_shm_cnt _ _) = tt
sample t (set_shm_buf _ _) = tt
sample t (socket _ _ _) = ok 5
sample t (connect _ _) = ok tt
sample t (bind _ _) = ok tt
sample t (listen _ _) = ok tt
sample t (accept _) = ok 6
sample t (set_reuseaddr _) = ok tt
sample t (getaddrinfo _ _ _ _ _) = ok []
sample t freeaddrinfo = tt
sample t (getnameinfo _ _) = ok ([], [])
sample t (recvfrom _ _) = ok ([], inet6_any 0)
sample t (sendto _ _ n _) = ok n
sample t (inet_pton _) = ok none
sample t (inet_ntop _) = ok []
sample t (getopt _) = none
sample t operands = []
sample t (queue_send _ _ _ _ _) = ok tt
sample t (queue_receive _ _ _ _) = ok (pos 1, [])
sample t (mq_open _ _) = ok 3
sample t (mq_create _ _ _ _ _) = ok 3
sample t (mq_msgsize _) = ok 8192
sample t (mq_receive _ _) = ok ([], 0)
sample t (mq_send _ _ _ _) = ok tt
sample t (malloc _) = true
sample t (shm_open _ _ _) = ok 3
sample t (shm_truncate _ _) = ok tt
sample t (mmap _ _) = ok 4096
sample t (fstat_size _) = ok 0
sample t (load_map _ _) = []
sample t (store_map _ _) = tt
sample t (get_flags _) = ok []
sample t (set_flags _ _) = ok tt
sample t (fd_bind _ _) = ok tt
sample t (fd_listen _ _) = ok tt
sample t (fd_accept _) = ok 6
sample t (fd_close _) = ok tt
sample t (fd_recv _ _) = ok []
sample t (fd_recvfrom _ _) = ok ([], inet6_any 0)
sample t (fd_send _ _ n) = ok n
sample t (fd_sendto _ _ n _) = ok n
sample t (inet_pton4 _) = ok none
sample t (epoll_create _) = ok 7
sample t (epoll_add _ _ _) = ok tt
sample t (epoll_mod _ _ _) = ok tt
sample t (epoll_wait _ _) = ok []
sample t load_errno = eagain
sample t (connect4 _ _) = ok tt
sample t (sendfile _ _ n) = ok n
sample t (splice _ _ _) = ok []
sample t (poll_two _) = ok (false, false, true)
sample t (poll_in _) = some (ok (0, []))
sample t (pipe_write _ _ n) = some (ok n)
sample t (select _ _ _ _) = some (ok (0, ([], []), (pos 0, pos 0)))
sample t seed_random = tt
sample t random = 4
sample t (calloc _ _) = true
sample t (set_sndtimeo _ _) = ok tt
sample t (thread_create _) = ok tt
sample t (thread_join _) = ok tt
sample t (worker_create _ _) = ok tt
sample t mutex_lock = ok tt
sample t mutex_unlock = ok tt
sample t cond_wait = ok tt
sample t cond_signal = ok tt
sample t (sleep _) = tt
sample t load_arg = 0
sample t (load_state _) = ts_alive
sample t (store_state _ _) = tt
sample t (load_sleep_time _) = pos 0
sample t (store_sleep_time _ _) = tt
sample t (add_unjoined _) = tt
sample t load_glob = pos 1
sample t (set_glob _) = tt
sample t free_block = tt
sample t cond_wait_or_cancel = ok true
sample t cancel_thread = ok tt
sample t join_result = ok true

-- Each descriptor has this content to read.
abbrev pub feeding : Text → Kernel
feeding src t (read fd n) = ok (take n (drop (length (received fd t)) src))
feeding src t c = sample t c
