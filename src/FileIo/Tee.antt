-- ===== src/FileIo/Tee.antt =====
-- TLPI/chapter4/tee.c: copies standard input to a file and to standard output.
mod Examples
pub mod Output
use linux_unix_system_progra.Prelude.{
  ℕ, true, false, ◌&&◌, List, [], ◌∷◌, Text, ◌==◌, if◌then◌else◌, length,
}
use linux_unix_system_progra.Sys.{
  Reply, ok, fail, o_wronly, o_creat, o_append, str, printf, perror, open_file, close, read, write,
  M, ◌>>=◌, ◌>>◌, pure, call, exit, returned, arg, Round, next, leave, loop,
}

abbrev pub buf_size : ℕ
buf_size = 1024

abbrev open_error : {A : Type 0} → M A
open_error = call (perror "\nopen erro\n") >> exit 1

-- With two arguments the second is the file, to be appended to, whatever the first is.
pub open_target : List Text → M ℕ
open_target argv =
    if length argv == 3
    then (do
      name ← arg argv 2
      opened ← call (open_file name (o_wronly ∷ o_append ∷ []) 0)
      elim opened [ ok fd ↦ pure fd | fail e ↦ open_error ])
    else if length argv == 2
    then (do
      name ← arg argv 1
      opened ← call (open_file name (o_wronly ∷ o_creat ∷ []) 0o666)
      elim opened [ ok fd ↦ pure fd | fail e ↦ open_error ])
    else (do
      program ← arg argv 0
      call (printf "usage: ./%s [-a] <filename>" (str program ∷ []))
      exit 1)

-- Both writes are made before their counts are compared.
pub tee_round : ℕ → Unit {0} → M (Round (Unit {0}) (Reply (Unit {0})))
tee_round fd _ = do
  num_read ← call (read 0 buf_size)
  elim num_read [
    | fail e ↦ pure (leave (fail e))
    | ok [] ↦ pure (leave (ok tt))
    | ok (b ∷ bs) ↦ do
      num_written ← call (write fd (b ∷ bs) (length (b ∷ bs)))
      stdout_written ← call (write 1 (b ∷ bs) (length (b ∷ bs)))
      if returned num_written (length (b ∷ bs)) && returned stdout_written (length (b ∷ bs))
          then pure (next tt)
          else (call (perror "出现了部分写！\n") >> exit 1)
  ]

-- Lines 68 to 80: a failed read and a failed close are only reported.
pub finish : ℕ → Reply (Unit {0}) → M ℕ
finish fd last = do
  elim last [ ok _ ↦ pure tt | fail e ↦ call (perror "strerror(errno)") ]
  closed ← call (close fd)
  elim closed [ ok _ ↦ pure tt | fail e ↦ call (perror "\nclose erro.\n") ]
  pure 0

pub main : ℕ → List Text → M ℕ
unfolding open_target finish
main fuel argv = do fd ← open_target argv; last ← loop fuel (tee_round fd) tt; finish fd last
