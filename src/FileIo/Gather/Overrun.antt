-- ===== src/FileIo/Gather/Overrun.antt =====
-- Why my_writev never gets to its write.
use linux_unix_system_progra.Prelude.{
  ℕ, ◌+◌, ◌≡◌, List, [], ◌∷◌, ◌++◌, Text, length, drop, IsCString,
}
use linux_unix_system_progra.Sys.{Trace, Kernel, undefined, halted, write}
use linux_unix_system_progra.FileIo.Gather.{Iovec, gather}

-- Each vector is a C string with its own length.
abbrev pub Exact : List Iovec → Type 0
Exact [] = Unit
Exact (v ∷ vs) = IsCString v.iov_base × (v.iov_len ≡ length v.iov_base) × Exact vs

-- The calls of write.
pub writes : Trace → ℕ
writes [] = 0
writes ((write _ _ _, _) ∷ t) = writes t + 1
writes (_ ∷ t) = writes t

abbrev Overruns : Text → List Iovec → Kernel → Trace → Type 0
Overruns buf vs k t = (u : Trace) × (gather buf vs k t ≡ halted undefined u) × (writes u ≡ writes t)

-- The text and the rest of the buffer after one more string.
module _ (s src buf : Text) where
  abbrev longer : Text
  longer = s ++ (src ++ 0 ∷ drop (length s + length src + 1) buf)
