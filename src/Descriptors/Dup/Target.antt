-- ===== src/Descriptors/Dup/Target.antt =====
-- What my_dup2 does to its target.
use linux_unix_system_progra.Prelude.{
  ℕ, ◌≡◌, refl, ◌≢◌, ◌⊎◌, inl, inr, ℤ, pos, negsuc, List, [], ◌∷◌, arith, ◌==◌, if◌then◌else◌,
  Bool-cases,
}
use linux_unix_system_progra.Sys.{
  num, printf, Event, OpenFlag, ok, fcntl_getfl, fcntl_dupfd, sysconf_open_max, Trace, Kernel, done,
}
use linux_unix_system_progra.Sys.View.{released}
use linux_unix_system_progra.Descriptors.Dup.{above, is_file_descripter, copy_to, my_dup2}

-- The copies that fcntl made of `old`, the latest first.
unfoldable pub copies : ℕ → Trace → List ℕ
copies old [] = []
copies old ((fcntl_dupfd f _, ok m) ∷ t) = if f == old then m ∷ copies old t else copies old t
copies old (_ ∷ t) = copies old t

module _ (k : Kernel) (old new : ℕ) where
  copy_to-copies :
      (t u : Trace) (r : ℤ)
      → old ≢ new
      → copy_to old new k t ≡ done r u
      → ((r ≡ negsuc 0) ⊎ ((r ≡ pos new) × (copies old u ≡ new ∷ copies old t)))
  unfolding copy_to is_file_descripter copies
  copy_to-copies t u r ne h = ground arith

  -- Between two numbers, my_dup2 either returns -1, or returns the new number, and then the system has
  -- made a copy of the old descriptor under exactly that number.
  pub my_dup2-copies :
      (t u : Trace) (r : ℤ)
      → old ≢ new
      → my_dup2 old (pos new) k t ≡ done r u
      → (r ≡ negsuc 0) ⊎ ((r ≡ pos new) × (copies old u ≡ new ∷ copies old t))
  unfolding my_dup2 is_file_descripter copies
  my_dup2-copies t u r ne h =
      let one : Trace = (sysconf_open_max, k t sysconf_open_max) ∷ t in
      let two : Trace = (fcntl_getfl new, k one (fcntl_getfl new)) ∷ one in
      let three : Trace =
        (printf "未占用的fd: %d.\n" (num new ∷ []), k two (printf "未占用的fd: %d.\n" (num new ∷ [])))
        ∷ two in
      ground (arith, copy_to-copies three u r ne)

  -- If the new number is an open descriptor, my_dup2 returns -1 and closes nothing, also when it is
  -- the old descriptor itself: the close for this case cannot be reached.
  pub my_dup2-refuses :
      (flags : List OpenFlag) (t : Trace)
      → ((v : Trace) → k v (fcntl_getfl new) ≡ ok flags)
      → (u : Trace) × (my_dup2 old (pos new) k t ≡ done (negsuc 0) u) × (released u ≡ released t)
  unfolding my_dup2 is_file_descripter released
  my_dup2-refuses flags t is_open =
      let one : Trace = (sysconf_open_max, k t sysconf_open_max) ∷ t in
      let line : Event =
        (printf "newFd out of range.\n" [], k one (printf "newFd out of range.\n" [])) in
      elim (Bool-cases (above new (k t sysconf_open_max))) [
        | inl high ↦ (line ∷ one, ground (arith, high), refl)
        | inr low ↦ (
          (printf "newFd out of range.\n" [], tt) ∷ (fcntl_getfl new, ok flags) ∷ one,
          ground (arith, low, is_open one),
          refl,
        )
      ]
