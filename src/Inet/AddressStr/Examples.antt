-- ===== src/Inet/AddressStr/Examples.antt =====
-- The address (h, 7) in a buffer that is too small.
use linux_unix_system_progra.Prelude.{
  ◌≡◌, refl, some, [], ◌∷◌, Text, codes, take, drop, arith, c_string,
}
use linux_unix_system_progra.Sys.{Kernel, other_addr, getnameinfo, ok}
use linux_unix_system_progra.Sys.Sample.{sample}
use linux_unix_system_progra.Inet.AddressStr.{inet_address_str, snprintf, end_at}
use linux_unix_system_progra.Inet.AddressStr.Fits.{inet_address_str-fits}

abbrev kernel : Kernel
kernel t (getnameinfo _ _) = ok (codes "h", codes "7")
kernel t c = sample t c

abbrev buf : Text
buf = 1 ∷ 2 ∷ 3 ∷ 4 ∷ 5 ∷ []

abbrev filled : Text
filled = b'(' ∷ b'h' ∷ b',' ∷ 0 ∷ 5 ∷ []

inet_address_str-fits_example :
    (c_string filled ≡ some (take 3 (codes "(h, 7)"))) × (drop 4 filled ≡ drop 4 buf)
unfolding inet_address_str snprintf end_at
inet_address_str-fits_example =
    inet_address_str-fits (other_addr 0) 16 3 buf kernel [] _ filled (omega arith)
      (
        (λ e. ground arith),
        (
          (λ e. ground arith),
          (
            (λ e. ground arith),
            ((λ e. ground arith), ((λ e. ground arith), ((λ e. ground arith), tt))),
          ),
        ),
      )
      refl
