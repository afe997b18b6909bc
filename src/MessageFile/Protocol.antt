-- ===== src/MessageFile/Protocol.antt =====
-- TLPI/chapter46/server/svmsg_file.h: the messages of the two programs.
use linux_unix_system_progra.Prelude.{
  ℕ, ◌+◌, ◌<◌, ◌≡◌, refl, ◌≢◌, [], ◌∷◌, ◌++◌, Text, pos, drop, ◌==◌, if◌then◌else◌, arith,
}
use linux_unix_system_progra.Fifo.Wire.{word, le32, of_le32, of_le32-le32}
use linux_unix_system_progra.Sys.{Key, key}

abbrev pub server_key : Key
server_key = key (pos 0x1aaaaaa1)

-- PATH_MAX of Linux.
abbrev pub path_max : ℕ
path_max = 4096

-- struct requestMsg.
pub record Request : Type 0 where
  pub mtype : ℕ
  pub client_id : ℕ
  pub pathname : Text

-- The bytes of an `int` and of the pathname's array.
abbrev pub req_msg_size : ℕ
req_msg_size = 4 + path_max

abbrev pub resp_msg_size : ℕ
resp_msg_size = 8192

abbrev pub resp_mt_failure : ℕ
resp_mt_failure = 1

abbrev pub resp_mt_data : ℕ
resp_mt_data = 2

abbrev pub resp_mt_end : ℕ
resp_mt_end = 3

-- The bytes behind the type of a request message: the `int`, the name and its terminator. What stands
-- behind the terminator in the array is never looked at.
pub request_body : Request → Text
request_body r = le32 r.client_id ++ (r.pathname ++ 0 ∷ [])

-- The string that begins a buffer.
unfoldable pub c_string : Text → Text
c_string [] = []
c_string (b ∷ bs) = if b == 0 then [] else b ∷ c_string bs

pub request_of : ℕ × Text → Request
unfolding c_string
request_of m = record { mtype = m.0; client_id = of_le32 m.1; pathname = c_string (drop 4 m.1) }

abbrev pub NoZero : Text → Type 0
NoZero [] = Unit
NoZero (b ∷ bs) = (b ≢ 0) × NoZero bs

c_string-append : (s rest : Text) → NoZero s → c_string (s ++ 0 ∷ rest) ≡ s
unfolding c_string
c_string-append [] rest h = refl
c_string-append (b ∷ s) rest h = ground (arith, h.0, c_string-append s rest h.1)

-- The server finds in the message the request that the client put in, if the queue's id is an `int`
-- and the name is a C string.
pub request_of-body :
    (r : Request)
    → r.client_id < word
    → NoZero r.pathname
    → request_of (r.mtype, request_body r) ≡ r
unfolding request_of request_body le32
request_of-body r h z =
    ground
      (arith, of_le32-le32 r.client_id (r.pathname ++ 0 ∷ []) h, c_string-append r.pathname [] z)
