-- ===== src/Wget/Names/Endless.antt =====
-- tools/wget.c: a name server that is given by a name.
use qoot.Base.{ℕ, zero, suc, ◌≡◌, refl, none, some, Bytes}
use qoot.Wget.Address.{quad}
use qoot.Wget.Names.{Net, deeper, resolve_host, hosts_address, nameserver, lines_of}

module _ (net : Net) (server : Bytes) where
  -- Where the first name server is not written as four numbers, as an IPv6 address is not, and
  -- /etc/hosts does not name it, resolve_host calls itself without end for it, and so for every host
  -- that /etc/hosts does not name and that is not four numbers.
  pub resolve_host_endless :
      (f : ℕ) (host : Bytes)
      → nameserver (lines_of net.resolv_conf) ≡ some server
      → quad server ≡ none
      → hosts_address server (lines_of net.hosts) ≡ none
      → quad host ≡ none
      → hosts_address host (lines_of net.hosts) ≡ none
      → resolve_host net f host ≡ deeper
  unfolding resolve_host
  resolve_host_endless zero host first no_quad unnamed host_no_quad host_unnamed = refl
  resolve_host_endless (suc f) host first no_quad unnamed host_no_quad host_unnamed = rw (
    host_no_quad,
    resolve_host,
    host_unnamed,
    first,
    resolve_host_endless f server first no_quad unnamed no_quad unnamed,
  )
