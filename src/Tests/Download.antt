-- ===== src/Tests/Download.antt =====
-- tools/wget.c: runs and witnesses.
use mathlib.Core.List.{cons-ne-nil}
use qoot.Base.{
  suc, ◌+◌, ◌*◌, ◌≡◌, refl, true, false, List, [], ◌∷◌, ◌++◌, none, some, Bytes, codes, length,
  replicate, arith, leb, if◌then◌else◌,
}
use qoot.Sh.Words.{pieces, until, is_blank, skip_blanks}
use qoot.Io.{Reader, got}
use qoot.Str.{cstr, is_digit, starts_with, str_eq, str_ncpy, str_rchr}
use qoot.Str.Digits.{uint_to_str}
use qoot.Tests.Disk.{disk, disk_delivers}
use qoot.Wget.{parse_url, output_name}
use qoot.Wget.Address.{quad, packed}
use qoot.Wget.Dns.{query, reply_address}
use qoot.Wget.Http.{response_loop, header_end}
use qoot.Wget.Http.Body.{response_loop-Saved, header, status_line}
use qoot.Wget.Http.Split.{response_loop_split}
use qoot.Wget.Names.{Net, deeper, resolve_host, hosts_address, nameserver, lines_of}
use qoot.Wget.Names.Endless.{resolve_host_endless}
use qoot.Wget.Urls.{parse_url-spelled, spelled, path}

dotted : quad (codes "10.0.2.15") ≡ some (10 + 2 * 65536 + 15 * 16777216)
unfolding quad is_digit pieces until
dotted = refl

-- The reply to a query for `a.b`, with one answer whose name is a pointer to the question.
abbrev reply : Bytes
reply =
    0 ∷ 1 ∷ 129 ∷ 128 ∷ 0 ∷ 1 ∷ 0 ∷ 1 ∷ 0 ∷ 0 ∷ 0 ∷ 0 ∷ 1 ∷ b'a' ∷ 1 ∷ b'b' ∷ 0 ∷ 0 ∷ 1 ∷ 0 ∷ 1
    ∷ 192 ∷ 12 ∷ 0 ∷ 1 ∷ 0 ∷ 1 ∷ 0 ∷ 0 ∷ 0 ∷ 60 ∷ 0 ∷ 4 ∷ 10 ∷ 0 ∷ 2 ∷ 15 ∷ []

answered : reply_address reply (length reply) ≡ some (10 + 2 * 65536 + 15 * 16777216)
unfolding reply_address packed
answered = refl

asked :
    query (codes "a.b")
    ≡ 0 ∷ 1 ∷ 1 ∷ 0 ∷ 0 ∷ 1 ∷ 0 ∷ 0 ∷ 0 ∷ 0 ∷ 0 ∷ 0 ∷ 1 ∷ b'a' ∷ 1 ∷ b'b' ∷ 0 ∷ 0 ∷ 1 ∷ 0 ∷ 1 ∷ []
unfolding query pieces until
asked = refl

last_part : output_name (replicate 256 7) (codes "/pub/file.tar") ≡ codes "file.tar"
unfolding output_name cstr str_rchr str_ncpy str_eq
last_part = refl

no_last_part : output_name (replicate 256 7) (codes "/pub/") ≡ codes "index.html"
unfolding output_name cstr str_rchr str_ncpy str_eq
no_last_part = refl

abbrev ipv6 : Net
ipv6 = record {
  hosts = some (codes "127.0.0.1 localhost\n");
  resolv_conf = some (codes "# home\nnameserver fe80::1\n");
  ask = λ server question. none;
  stale = λ n. [];
}

resolve_host_endless_example : resolve_host ipv6 9 (codes "example.org") ≡ deeper
unfolding quad nameserver hosts_address lines_of pieces cstr starts_with until is_digit is_blank
    skip_blanks str_eq
resolve_host_endless_example =
    resolve_host_endless ipv6 (codes "fe80::1") 9 (codes "example.org") refl refl refl refl refl

parse_url-spelled_example :
    parse_url (replicate 2048 7) (spelled (codes "example.org") (some 8080) (codes "/a:b/c")) 256
    ≡ some (record { host = codes "example.org"; port = 8080; path = codes "/a:b/c" })
parse_url-spelled_example =
    parse_url-spelled (replicate 2048 7) (codes "example.org") (some 8080) (codes "/a:b/c")
      (omega arith) (omega arith) (omega arith) (omega arith) (path (codes "a:b/c")) (omega arith)
      (omega arith)

abbrev fields : List Bytes
fields = codes "Server: q" ∷ []

abbrev response : Bytes
response =
    header (status_line (codes "HTTP/1.0") 200 (codes "OK")) fields
    ++ 13 ∷ 10 ∷ 13 ∷ 10 ∷ codes "hello"

response_loop-Saved_example : response_loop disk true (suc 9) response ≡ (
    if leb 400 200
    then record { result = 1; created = false; written = [] }
    else if true
    then record { result = 0; created = true; written = codes "hello" }
    else record { result = 1; created = false; written = [] })
unfolding uint_to_str
response_loop-Saved_example =
    response_loop-Saved disk disk_delivers true 9 response (codes "HTTP/1.0") 200 (codes "OK")
      fields (codes "hello") refl
      ((cons-ne-nil _ _, omega arith), ((cons-ne-nil _ _, omega arith), tt)) (omega arith)
      (omega arith) (omega arith) (omega arith) (omega arith)

-- A socket that delivers one piece for each call.
abbrev socket : Reader
socket = record {
  State = List Bytes;
  sys_read = λ s n. elim s [ [] ↦ (got [], []) | p ∷ ps ↦ (got p, ps) ];
}

-- The header's end is cut in two.
abbrev cut_header : List Bytes
cut_header = (codes "HTTP/1.0 200 OK" ++ 13 ∷ 10 ∷ 13 ∷ []) ∷ (10 ∷ codes "hello") ∷ []

response_loop_split_example :
    response_loop socket true (suc (length cut_header)) cut_header
    ≡ record { result = 0; created = false; written = [] }
unfolding header_end
response_loop_split_example =
    response_loop_split socket true cut_header cut_header
      (refl, cons-ne-nil _ _, (refl, cons-ne-nil _ _, refl)) (refl, (refl, tt))
