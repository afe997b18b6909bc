-- ===== src/Inet/AddressStr.antt =====
-- TLPI/chapter59/inet_sockets.c: inetAddressStr, the text of an address in a buffer.
pub mod Fits
mod Examples
use linux_unix_system_progra.Prelude.{
  ℕ, zero, suc, ◌+◌, ◌-◌, ◌≤◌, ◌≡◌, refl, ap, sym, ◌∙◌, Option, some, List, [], ◌∷◌, ◌++◌, Text,
  codes, length, take, drop, arith, c_string, IsCString, c_string-append,
}
use linux_unix_system_progra.Sys.{
  Kernel, Trace, Addr, getnameinfo, Reply, ok, fail, End, undefined, done, halted, M, ◌>>=◌, ◌>>◌,
  pure, halt, call,
}

-- snprintf(buf, size, …) for a text: at most size - 1 bytes and a terminator.
pub snprintf : Text → ℕ → Text → Text
snprintf buf zero text = buf
snprintf buf (suc n) text = take n text ++ 0 ∷ drop (suc (length (take n text))) buf

-- buf[at] = '\0'
pub end_at : ℕ → Text → Text
end_at at buf = take at buf ++ 0 ∷ drop (suc at) buf

-- What is written for the answer of getnameinfo.
pub address_text : Reply (Text × Text) → Text
address_text (ok (host, service)) = codes "(" ++ host ++ codes ", " ++ service ++ codes ")"
address_text (fail _) = codes "(?UNKNOWN?)"

-- The buffer afterwards. With the size 0 the terminator would be written in front of the buffer.
pub inet_address_str : Addr → ℕ → Text → ℕ → M Text
unfolding snprintf end_at address_text
inet_address_str addr addrlen addr_str zero = do call (getnameinfo addr addrlen); halt End.undefined
inet_address_str addr addrlen addr_str (suc n) = do
  names ← call (getnameinfo addr addrlen)
  pure (end_at n (snprintf addr_str (suc n) (address_text names)))
