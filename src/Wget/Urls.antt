-- ===== src/Wget/Urls.antt =====
-- tools/wget.c: what `parse_url` finds in a written URL.
use qoot.Base.{
  ℕ, suc, ◌+◌, ◌-◌, ◌^◌, ◌<◌, ◌≡◌, refl, ap, sym, ◌∙◌, true, false, [], ◌∷◌, ◌++◌, append_assoc,
  append-nil, Option, none, some, Bytes, codes, length, length-append, take, drop, All-append,
  replicate, arith, leb, ltb, lt→ltb, ◌≢◌, take-length-append, Option-cases, inl, inr,
}
use qoot.Str.{IsCString, cstr, str_chr, is_digit}
use qoot.Str.Laws.{starts_with-append}
use qoot.Str.Search.{Lacks, str_chr_skip, Lacks-str_chr, str_chr-some}
use qoot.Str.Digits.{uint_to_str, decimal_digit}
use qoot.Str.Copy.{str_ncpy_short, cstr-append_nul}
use qoot.Str.Places.{All-to_text}
use qoot.Str.RoundTrip.{str_to_uint-uint_to_str}
use qoot.Wget.{parse_url, host_and_port, path_of}

-- A path begins with a slash, or there is none.
pub data IsPath : Bytes → Type 0 where
  absent : IsPath []
  path : (p : Bytes) → IsPath (b'/' ∷ p)

-- The text of a port, if there is one.
abbrev pub port_text : Option ℕ → Bytes
port_text none = []
port_text (some port) = b':' ∷ (uint_to_str port).0

abbrev pub port_or : Option ℕ → ℕ
port_or none = 80
port_or (some port) = port

abbrev pub path_or : Bytes → Bytes
path_or [] = codes "/"
path_or (c ∷ p) = c ∷ p

abbrev pub spelled : Bytes → Option ℕ → Bytes → Bytes
spelled host port p = codes "http://" ++ (host ++ (port_text port ++ p))

slash_of : Bytes → Option Bytes
slash_of [] = none
slash_of (c ∷ p) = some (c ∷ p)

find_slash :
    (front p : Bytes) → Lacks b'/' front → IsPath p → str_chr (front ++ p) b'/' ≡ slash_of p
unfolding slash_of
find_slash front p free absent = rw (append-nil front) (Lacks-str_chr front b'/' (omega arith) free)
find_slash front p free (path q) = str_chr_skip front q b'/' free

-- What stands before a suffix.
before : (front p : Bytes) → take (length (front ++ p) - length p) (front ++ p) ≡ front
before front p =
    let n : length (front ++ p) - length p ≡ length front = omega (arith, length-append front p) in
    rw n (take-length-append front p)

str_chr_past : (front p : Bytes) (c : ℕ) → Lacks c front → str_chr (front ++ p) c ≡ str_chr p c
unfolding str_chr
str_chr_past [] p c free = refl
str_chr_past (x ∷ front) p c free = ground (arith, str_chr_past front p c free.1, free.0)

-- A colon behind the slash is not that of a port.
no_port :
    (host p : Bytes)
    → IsPath p
    → host_and_port (host ++ p) (str_chr p b':') (slash_of p) ≡ (host, 80)
unfolding host_and_port slash_of str_chr
no_port host p absent = rw append-nil
no_port host p (path q) = elim (Option-cases (str_chr q b':')) [
  | inl e ↦ rw (e, before host (b'/' ∷ q))
  | inr (r, e) ↦
      let (f, t, eq, er, free) = str_chr-some q b':' {r = r} (omega arith) e in
      let short : ltb (suc (length q)) (length r) ≡ false =
        ground (arith, ap length eq, length-append f r) in
      rw (e, short, before host (b'/' ∷ q))
]

with_port :
    (host p : Bytes) (port : ℕ)
    → port < 2 ^ 31
    → IsPath p
    → host_and_port
        (host ++ b':' ∷ ((uint_to_str port).0 ++ p))
        (some (b':' ∷ ((uint_to_str port).0 ++ p)))
        (slash_of p)
      ≡ (host, port)
unfolding host_and_port slash_of
with_port host p port fits absent =
    let digits = (uint_to_str port).0 ++ [] in
    rw (
      before host (b':' ∷ digits),
      str_to_uint-uint_to_str port [] (omega arith) (unfold is_digit in refl),
    )
with_port host p port fits (path q) =
    let digits = (uint_to_str port).0 ++ b'/' ∷ q in
    let longer : ltb (suc (length q)) (suc (length digits)) ≡ true =
      lt→ltb _ _ (omega (arith, length-append (uint_to_str port).0 (b'/' ∷ q))) in
    rw (
      longer,
      before host (b':' ∷ digits),
      str_to_uint-uint_to_str port (b'/' ∷ q) (omega arith) (unfold is_digit in refl),
    )

path_of-slash_of :
    (junk p : Bytes)
    → IsPath p
    → IsCString p
    → length p + 1 < length junk
    → path_of junk (slash_of p) ≡ path_or p
unfolding path_of slash_of
path_of-slash_of junk p absent c room = refl
path_of-slash_of junk p (path q) c room =
    let n = length junk - 1 in
    let copy = str_ncpy_short junk (b'/' ∷ q) n (omega arith) in
    let one_more : suc n - length (b'/' ∷ q) ≡ suc (n - length (b'/' ∷ q)) = omega arith in
    rw (copy, one_more)
      (ap cstr
          (append_assoc (b'/' ∷ q) (replicate (suc (n - length (b'/' ∷ q))) 0) (drop (suc n) junk))
        ∙ cstr-append_nul (b'/' ∷ q) _ c)

no_slash : (port : Option ℕ) → Lacks b'/' (port_text port)
unfolding uint_to_str
no_slash none = tt
no_slash (some port) = (
  omega arith,
  All-to_text (λ c. c ≢ b'/') decimal_digit 10 (omega arith) (λ d h. omega arith) port
      (omega arith),
)

-- The host and the port are found, with and without a port.
host_found :
    (host p : Bytes) (port : Option ℕ)
    → Lacks b':' host
    → IsPath p
    → port_or port < 2 ^ 31
    → let text = host ++ (port_text port ++ p) in
      host_and_port text (str_chr text b':') (slash_of p) ≡ (host, port_or port)
host_found host p none free ok fits = rw (str_chr_past host p b':' free) (no_port host p ok)
host_found host p (some port) free ok fits =
    rw (str_chr_skip host ((uint_to_str port).0 ++ p) b':' free) (with_port host p port fits ok)

-- Of a URL that is put together from a host of fewer than 256 bytes without a slash or a colon, a
-- port below 2 ^ 31 or none, and a path that begins with a slash, or none, and is shorter than its array by two
-- bytes, parse_url gives the host, the port or 80, and the path or a slash.
pub parse_url-spelled :
    (junk host : Bytes) (port : Option ℕ) (p : Bytes)
    → Lacks b'/' host
    → Lacks b':' host
    → length host < 256
    → port_or port < 2 ^ 31
    → IsPath p
    → IsCString p
    → length p + 1 < length junk
    → parse_url junk (spelled host port p) 256
      ≡ some (record { host = host; port = port_or port; path = path_or p })
unfolding parse_url
parse_url-spelled junk host port p free_slash free_colon fits port_fits ok c room =
    let text : Bytes = host ++ (port_text port ++ p) in
    let slash : str_chr text b'/' ≡ slash_of p =
      ap (λ (t : Bytes). str_chr t b'/') (sym (append_assoc host (port_text port) p))
      ∙ find_slash (host ++ port_text port) p
          (All-append (λ x. x ≢ b'/') host (port_text port) free_slash (no_slash port)) ok in
    rw (
      starts_with-append (codes "http://") text,
      slash,
      host_found host p port free_colon ok port_fits,
      path_of-slash_of junk p ok c room,
      short,
    )
  where
    short : leb 256 (length host) ≡ false
    short = ground arith
