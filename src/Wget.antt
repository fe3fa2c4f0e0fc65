-- ===== src/Wget.antt =====
-- tools/wget.c: `parse_url`, and the name of the file that is written. Wget.Address reads an
-- address, Wget.Names finds it for a name, Wget.Dns asks a server, Wget.Http takes the response.
pub mod Address
pub mod Dns
pub mod Names
pub mod Http
pub mod Urls
pub mod Client
use qoot.Base.{
  ℕ, ◌-◌, ◌+◌, Bool, true, false, ◌||◌, [], ◌∷◌, Option, none, some, Bytes, codes, length, take,
  drop, ltb, leb, ◌==◌, if◌then◌else◌,
}
use qoot.Str.{cstr, peek, str_chr, str_rchr, str_ncpy, str_eq, starts_with, str_len}
use qoot.Str.Parse.{str_to_uint}

pub record Url : Type 0 where
  pub host : Bytes
  pub port : ℕ
  pub path : Bytes

-- The port is the 32-bit pattern of an `int`, as the cast leaves it. The host before `colon` or `slash`, which point into `p`, and the port; a pointer is the suffix
-- of `p` that it points at, so the longer suffix is the smaller pointer.
unfoldable pub host_and_port : Bytes → Option Bytes → Option Bytes → Bytes × ℕ
host_and_port p none none = (p, 80)
host_and_port p none (some slash) = (take (length p - length slash) p, 80)
host_and_port p (some colon) none = (take (length p - length colon) p, str_to_uint (drop 1 colon))
host_and_port p (some colon) (some slash) =
    if ltb (length slash) (length colon)
    then (take (length p - length colon) p, str_to_uint (drop 1 colon))
    else (take (length p - length slash) p, 80)

-- `slash ? str_ncpy(path, slash, psz - 1) : str_cpy(path, "/")`, into an array that is not
-- initialised.
unfoldable pub path_of : Bytes → Option Bytes → Bytes
path_of junk none = codes "/"
path_of junk (some slash) = cstr (str_ncpy junk slash (length junk - 1))

-- `none` for HTTPS. `hsz` is the size of the host's array.
unfoldable pub parse_url : Bytes → Bytes → ℕ → Option Url
unfolding host_and_port path_of
parse_url junk url hsz =
    let p = if starts_with url (codes "http://") then drop 7 url else url in
    let slash = str_chr p b'/' in
    let (host, port) = host_and_port p (str_chr p b':') slash in
    let parsed : Option Url = some (record {
      host = if leb hsz (length host) then take (hsz - 1) host else host;
      port = port;
      path = path_of junk slash;
    }) in
    if starts_with url (codes "http://")
    then parsed
    else if starts_with url (codes "https://")
    then none
    else parsed

-- The last part of the path, or index.html, into an array that is not initialised.
unfoldable pub output_name : Bytes → Bytes → Bytes
output_name junk path =
    let slash = str_rchr path b'/' in
    let fname : Bytes = elim slash [ some s ↦ drop 1 s | none ↦ path ] in
    if peek fname == 0 || str_eq fname (codes "/")
    then codes "index.html"
    else cstr (str_ncpy junk fname (length junk - 1))
