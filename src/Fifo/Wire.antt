-- ===== src/Fifo/Wire.antt =====
-- TLPI/chapter44/FIFO_SERVER_CLIENT/fifo_seqnum.h: the messages as the bytes that travel, on a
-- little-endian machine with 32-bit `int` and `pid_t`, and the names of the FIFOs.
use linux_unix_system_progra.Prelude.{
  ℕ, zero, suc, ◌+◌, ◌-◌, ◌*◌, ◌/◌, ◌%◌, ◌^◌, ◌<◌, ◌≡◌, refl, ℤ, pos, negsuc, [], ◌∷◌, ◌++◌, Text,
  codes, arith, length, ltb, if◌then◌else◌, drop,
}

abbrev pub word : ℕ
word = 2 ^ 32

-- An `int` as its bit pattern.
pub word_of : ℤ → ℕ
word_of (pos n) = n % word
word_of (negsuc n) = word - 1 - n % word

unfoldable pub le32 : ℕ → Text
le32 n = n % 256 ∷ n / 256 % 256 ∷ n / 65536 % 256 ∷ n / 16777216 % 256 ∷ []

pub of_le32 : Text → ℕ
of_le32 (a ∷ b ∷ c ∷ d ∷ _) = a + 256 * b + 65536 * c + 16777216 * d
of_le32 _ = 0

-- struct request, with its fields as bit patterns.
pub record Request : Type 0 where
  pub seq_len : ℕ
  pub pid : ℕ

-- sizeof(struct request) and sizeof(struct response).
abbrev pub request_size : ℕ
request_size = 8

abbrev pub response_size : ℕ
response_size = 4

unfoldable pub encode_request : Request → Text
unfolding le32
encode_request r = le32 r.seq_len ++ le32 r.pid

unfoldable pub decode_request : Text → Request
unfolding of_le32
decode_request bs = record { seq_len = of_le32 bs; pid = of_le32 (drop 4 bs) }

pub encode_response : ℕ → Text
unfolding le32
encode_response n = le32 n

-- %ld of a number.
pub decimal_aux : ℕ → ℕ → Text → Text
decimal_aux zero n acc = acc
decimal_aux (suc f) n acc =
    let rest = decimal_aux f (n / 10) ((b'0' + n % 10) ∷ acc) in
    if ltb n 10 then (b'0' + n % 10) ∷ acc else rest

unfoldable pub decimal : ℕ → Text
unfolding decimal_aux
decimal n = decimal_aux (suc n) n []

abbrev pub server_fifo : Text
server_fifo = codes "/tmp/seqnum_sv"

abbrev signed_decimal : ℤ → Text
signed_decimal (pos n) = decimal n
signed_decimal (negsuc n) = codes "-" ++ decimal (suc n)

-- snprintf with CLIENT_FIFO_TEMPLATE for the number of a process; the buffer is long enough for every
-- `long`.
pub client_fifo : ℤ → Text
unfolding decimal
client_fifo pid = codes "/tmp/seqnum_cl." ++ signed_decimal pid

pub of_le32-le32 : (n : ℕ) (rest : Text) → n < word → of_le32 (le32 n ++ rest) ≡ n
unfolding of_le32 le32
of_le32-le32 n rest h = omega arith

-- The server reads from a request the two numbers that the client put in, and a request has the size
-- that both sides compare with.
pub decode-encode :
    (n p : ℕ)
    → n < word
    → p < word
    → (decode_request (encode_request (record { seq_len = n; pid = p }))
        ≡ record { seq_len = n; pid = p })
      × (length (encode_request (record { seq_len = n; pid = p })) ≡ request_size)
unfolding decode_request encode_request le32
decode-encode n p hn hp = (ground (arith, of_le32-le32 n (le32 p) hn, of_le32-le32 p [] hp), refl)
