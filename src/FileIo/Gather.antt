-- ===== src/FileIo/Gather.antt =====
-- TLPI/chapter5/exercise/scatter_gather_io.c: is to write several buffers with one call.
pub mod Overrun
mod Examples
use linux_unix_system_progra.Prelude.{
  ℕ, ◌+◌, ◌*◌, ℤ, pos, negsuc, Bool, true, false, Option, none, some, String, List, [], ◌∷◌, ◌++◌,
  Text, codes, leb, length, drop, if◌then◌else◌, c_string, int_eq,
}
use linux_unix_system_progra.Sys.{
  Errno, ebadf, Reply, ok, fail, OpenFlag, o_creat, o_rdwr, str, printf, fcntl_getfl, open_file,
  write, close, M, ◌>>=◌, ◌>>◌, pure, call, exit, say, halt, End, or_die,
}

-- struct iovec: a C string, and the length that is given for it.
pub record Iovec : Type 0 where
  pub iov_base : Text
  pub iov_len : ℕ

abbrev pub iovec : Text → ℕ → Iovec
iovec base len = record { iov_base = base; iov_len = len }

pub total : List Iovec → ℕ
total [] = 0
total (v ∷ vs) = v.iov_len + total vs

-- strcat(buf, src): the text in `buf` and `src` with its terminator have to fit.
abbrev pub put : Bool → Text → M Text
put true new = pure new
put false new = halt End.undefined

abbrev pub strcat_to : Option Text → Text → Text → M Text
strcat_to none buf src = halt End.undefined
strcat_to (some s) buf src =
    put (leb (length s + length src + 1) (length buf))
      (s ++ (src ++ 0 ∷ drop (length s + length src + 1) buf))

pub strcat : Text → Text → M Text
strcat buf src = strcat_to (c_string buf) buf src

pub gather : Text → List Iovec → M Text
unfolding strcat
gather buf [] = pure buf
gather buf (v ∷ vs) = do
  call (printf "%s\n" (str v.iov_base ∷ []))
  new ← strcat buf v.iov_base
  gather new vs

abbrev show_buffer : Option Text → M (Unit {0})
show_buffer none = halt End.undefined
show_buffer (some s) = call (printf "%s\n" (str s ∷ []))

-- A failed write is answered with 0, too, and leaves the descriptor open.
abbrev close_after : ℕ → Reply ℕ → M ℤ
close_after fd (fail e) = do say "write erro!\n"; pure (pos 0)
close_after fd (ok n) = do
  closed ← call (close fd)
  elim closed [ ok _ ↦ pure (pos 0) | fail e ↦ do say "close erro\n"; pure (negsuc 0) ]

-- `garbage` is what the new buffer holds.
pub write_all : (ℕ → Text) → ℕ → List Iovec → M ℤ
unfolding gather total
write_all garbage fd iov = do
  say "Before strcat.\n"
  data2write ← gather (garbage (total iov)) iov
  show_buffer (c_string data2write)
  written ← call (write fd data2write (total iov))
  close_after fd written

abbrev checked : (ℕ → Text) → ℕ → Option (List Iovec) → M ℤ
checked garbage fd none = do say "pointer iov is NULL!\n"; pure (negsuc 0)
checked garbage fd (some []) = do say "iovcnt 小于1"; pure (negsuc 0)
checked garbage fd (some (v ∷ vs)) = write_all garbage fd (v ∷ vs)

abbrev pub is_ebadf : Reply (List OpenFlag) → Bool
is_ebadf (fail ebadf) = true
is_ebadf _ = false

-- The vectors are those that `iovcnt` counts; NULL is none.
pub my_writev : (ℕ → Text) → ℕ → Option (List Iovec) → M ℤ
unfolding write_all
my_writev garbage fd iov = do
  flags ← call (fcntl_getfl fd)
  if is_ebadf flags then (do say "无效的fd"; pure (negsuc 0)) else checked garbage fd iov

abbrev str1 : Text
str1 = codes "Hello, I'm str1, who is there?\n"

abbrev str2 : Text
str2 = codes "Hi, This is str2,How are you?\n"

-- In UTF-8.
abbrev str3 : Text
str3 =
    228
    ∷ 189
    ∷ 160
    ∷ 229
    ∷ 165
    ∷ 189
    ∷ 239
    ∷ 188
    ∷ 140
    ∷ 230
    ∷ 136
    ∷ 145
    ∷ 230
    ∷ 152
    ∷ 175
    ∷ codes "str3"

abbrev with_length : Text → Iovec
with_length s = iovec s (length s)

pub main : (ℕ → Text) → M (Unit {0})
unfolding my_writev
main garbage = do
  opened ← call (open_file (codes "test_scatter_gather.txt") (o_creat ∷ o_rdwr ∷ []) (6 * 64))
  fd ← or_die "open test_scatter_gather.txt failed.\n" 1 opened
  say "before call my_writev\n"
  result ← my_writev garbage fd (some (with_length str1 ∷ with_length str2 ∷ with_length str3 ∷ []))
  if int_eq result (pos 0) then (do say "Success!\n"; exit 0) else (do say "Failed!\n"; exit 1)
