-- ===== src/Inet/AddressStr/Fits.antt =====
-- The buffer that inetAddressStr leaves.

use linux_unix_system_progra.Prelude.{
  ℕ, zero, suc, ◌≤◌, ◌≡◌, refl, ap, ◌∙◌, some, [], ◌∷◌, ◌++◌, Text, length, take, drop, arith,
  c_string, IsCString, length-append, length-take, length-drop, drop_all,
}
use linux_unix_system_progra.Sys.{Kernel, Trace, Addr, getnameinfo, done}
use linux_unix_system_progra.Inet.AddressStr.{snprintf, end_at, address_text, inet_address_str}

drop-nil : (n : ℕ) → drop {A = ℕ} n [] ≡ []
drop-nil zero = refl
drop-nil (suc n) = refl

IsCString-take : (n : ℕ) (s : Text) → IsCString s → IsCString (take n s)
IsCString-take zero s c = tt
IsCString-take (suc n) [] c = tt
IsCString-take (suc n) (b ∷ s) (nz, c) = (nz, IsCString-take n s c)

c_string-end_at :
    (n : ℕ) (s r q : Text)
    → IsCString s
    → length s ≤ n
    → c_string (take n (s ++ 0 ∷ r) ++ 0 ∷ q) ≡ some s
unfolding c_string
c_string-end_at zero [] r q c h = refl
c_string-end_at (suc n) [] r q c h = refl
c_string-end_at zero (b ∷ s) r q c h = absurd (omega arith)
c_string-end_at (suc n) (b ∷ s) r q (nz, c) h =
    let ih = c_string-end_at n s r q c (omega arith) in ground (arith, ih, nz)

drop-put :
    (n : ℕ) (s buf : Text)
    → length s ≤ n
    → drop (suc n) (s ++ 0 ∷ drop (suc (length s)) buf) ≡ drop (suc n) buf
drop-put n [] [] h = drop-nil n
drop-put n [] (b ∷ buf) h = refl
drop-put zero (c ∷ s) buf h = absurd (omega arith)
drop-put (suc n) (c ∷ s) [] h =
    drop_all (suc n) (s ++ 0 ∷ []) (omega (arith, length-append s (0 ∷ [])))
drop-put (suc n) (c ∷ s) (b ∷ buf) h = drop-put n s buf (omega arith)

drop-end_at : (n : ℕ) (xs ys : Text) → n ≤ length xs → drop (suc n) (take n xs ++ 0 ∷ ys) ≡ ys
drop-end_at zero xs ys h = refl
drop-end_at (suc n) [] ys h = absurd (omega arith)
drop-end_at (suc n) (x ∷ xs) ys h = drop-end_at n xs ys (omega arith)

-- What is left of a text in a buffer of more than `n` bytes.
module _ (n : ℕ) (text buf : Text) (room : suc n ≤ length buf) where
  abbrev new : Text
  new = end_at n (snprintf buf (suc n) text)

  shorter : length (take n text) ≤ n
  shorter = omega (arith, length-take n text)

  put_length : length (snprintf buf (suc n) text) ≡ length buf
  unfolding snprintf
  put_length = omega (
    arith,
    room,
    shorter,
    length-append (take n text) (0 ∷ drop (suc (length (take n text))) buf),
    length-drop (suc (length (take n text))) buf,
  )

  behind : drop (suc n) new ≡ drop (suc n) buf
  unfolding snprintf end_at
  behind =
      drop-end_at n (snprintf buf (suc n) text) (drop (suc n) (snprintf buf (suc n) text))
        (omega (arith, room, put_length))
      ∙ drop-put n (take n text) buf shorter

  shown : IsCString text → c_string new ≡ some (take n text)
  unfolding snprintf end_at
  shown c =
      c_string-end_at n (take n text) (drop (suc (length (take n text))) buf)
        (drop (suc n) (snprintf buf (suc n) text)) (IsCString-take n text c) shorter

-- If the buffer has at least `size` bytes, and `size` is above 0, then inetAddressStr leaves in it, as a
-- C string, the first `size - 1` bytes of the address as text, or of `(?UNKNOWN?)`, and changes no byte
-- at or behind `size`.
pub inet_address_str-fits :
    (addr : Addr) (addrlen n : ℕ) (buf : Text) (k : Kernel) (t u : Trace) (result : Text)
    → suc n ≤ length buf
    → IsCString (address_text (k t (getnameinfo addr addrlen)))
    → inet_address_str addr addrlen buf (suc n) k t ≡ done result u
    → (c_string result ≡ some (take n (address_text (k t (getnameinfo addr addrlen)))))
      × (drop (suc n) result ≡ drop (suc n) buf)
unfolding inet_address_str
inet_address_str-fits addr addrlen n buf k t u result room text h =
    let names = address_text (k t (getnameinfo addr addrlen)) in
    let same : result ≡ end_at n (snprintf buf (suc n) names) = ground (arith, h) in
    (
      ap (λ s. c_string s) same ∙ shown n names buf room text,
      ap (λ s. drop (suc n) s) same ∙ behind n names buf room,
    )
