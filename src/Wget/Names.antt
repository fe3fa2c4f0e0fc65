-- ===== src/Wget/Names.antt =====
-- tools/wget.c: `resolve_host`, with /etc/hosts, /etc/resolv.conf and a name server.
pub mod Endless
use qoot.Base.{
  ℕ, zero, suc, ◌+◌, ◌-◌, Bool, true, false, ◌||◌, List, [], ◌∷◌, ◌++◌, Option, none, some, Bytes,
  codes, length, drop, ltb, ◌==◌, if◌then◌else◌,
}
use qoot.Sh.Words.{pieces, until, is_blank, skip_blanks}
use qoot.Str.{cstr, peek, str_eq, starts_with}
use qoot.Wget.Address.{quad}
use qoot.Wget.Dns.{query, reply_address}

-- What a single `sys_read` gives of the two files, `none` where there is none, and what a server
-- replies to a query: `none` if there is no socket, and nothing if the call fails.
pub record Net : Type 0 where
  pub hosts : Option Bytes
  pub resolv_conf : Option Bytes
  pub ask : ℕ → Bytes → Option Bytes
  -- What the array of 512 bytes holds behind a reply of a given length.
  pub stale : ℕ → Bytes

pub data Resolved : Type 0 where
  address : ℕ → Resolved
  unknown : Resolved
  deeper : Resolved

-- The lines of a file, each ended by a NUL.
unfoldable pub lines_of : Option Bytes → List Bytes
lines_of none = []
lines_of (some read) = let text = cstr read in pieces 10 (length text) text

-- The loop over the names in a line; there are no more of them than bytes.
unfoldable pub has_name : ℕ → Bytes → Bytes → Bool
has_name zero host hname = false
has_name (suc f) host hname =
    let end = until is_blank hname in
    let later = has_name f host (skip_blanks (drop (length end) hname)) in
    if peek hname == 0 then false else if str_eq end host then true else later

-- The address of a line that names the host.
unfoldable pub line_address : Bytes → Bytes → Option Bytes
unfolding has_name
line_address host line =
    let first = until is_blank line in
    let sp = drop (length first) line in
    let names = skip_blanks (drop 1 sp) in
    if peek line == b'#' || peek line == 0 || peek sp == 0
    then none
    else if has_name (length names) host names
    then some first
    else none

unfoldable pub hosts_address : Bytes → List Bytes → Option Bytes
unfolding line_address
hosts_address host [] = none
hosts_address host (line ∷ lines) = elim (line_address host line) [
  | some a ↦ some a
  | none ↦ hosts_address host lines
]

-- The first line that names a server.
unfoldable pub nameserver : List Bytes → Option Bytes
nameserver [] = none
nameserver (line ∷ lines) =
    if starts_with line (codes "nameserver ") then some (drop 11 line) else nameserver lines

-- `dns_ip`: 0 where nothing was found, and then 8.8.8.8.
unfoldable pub server_or : Resolved → ℕ
server_or (address a) = if a == 0 then 0x08080808 else a
server_or other = 0x08080808

module _ (net : Net) where
  -- The query, and the reply's first address.
  unfoldable pub ask_server : Bytes → ℕ → Resolved
  ask_server host server = elim (net.ask server (query host)) [
    | none ↦ unknown
    | some reply ↦ (elim (reply_address (reply ++ net.stale (length reply)) (length reply)) [
      | some a ↦ address a
      | none ↦ unknown
    ])
  ]

  -- `resolve_host`, which calls itself at most `f` deep.
  unfoldable pub resolve_host : ℕ → Bytes → Resolved
  unfolding ask_server
  resolve_host zero host = deeper
  resolve_host (suc f) host = elim (quad host) as (λ _. Resolved) [
    | some a ↦ address a
    | none ↦ (elim (hosts_address host (lines_of net.hosts)) as (λ _. Resolved) [
      | some line ↦ resolve_host f line
      | none ↦ (elim (nameserver (lines_of net.resolv_conf)) as (λ _. Resolved) [
        | none ↦ ask_server host 0x08080808
        | some name ↦ (elim (resolve_host f name) as (λ _. Resolved) [
          | deeper ↦ deeper
          | address a ↦ ask_server host (server_or (address a))
          | unknown ↦ ask_server host (server_or unknown)
        ])
      ])
    ])
  ]
