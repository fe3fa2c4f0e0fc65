-- ===== src/Wget/Client.antt =====
-- tools/wget.c: `wget_main`, behind its options, with -q.
use qoot.Base.{ℕ, ◌%◌, ◌^◌, Bool, [], ◌++◌, Option, none, some, Bytes, codes}
use qoot.Io.{Reader}
use qoot.Wget.{Url, parse_url, output_name}
use qoot.Wget.Http.{Saved, failure, response_loop}
use qoot.Wget.Names.{Net, address, unknown, deeper, resolve_host}

unfoldable pub request : Url → Bytes
request url =
    codes "GET "
    ++ (url.path
        ++ (codes " HTTP/1.0\r\nHost: "
            ++ (url.host ++ codes "\r\nUser-Agent: qemt-wget/1.0\r\nConnection: close\r\n\r\n")))

-- `connect` makes a connection to an address and a port and writes the request to it, and is
-- `none` if one of the calls fails.
module _ (k : Reader) (net : Net) (connect : ℕ → ℕ → Bytes → Option k.State)
    (creates : Bytes → Bool) where
  -- The name of the file, and what becomes of it, `none` if the host is not resolved within `depth`
  -- calls; `f` bounds the pieces of the response, and `output` is the name given by `-O`. The two
  -- arrays are not initialised.
  unfoldable pub wget_main : ℕ → ℕ → Bytes → Bytes → Option Bytes → Bytes → Option (Bytes × Saved)
  unfolding parse_url output_name request
  wget_main depth f path_junk name_junk output arg =
      elim (parse_url path_junk arg 256) as (λ _. Option (Bytes × Saved)) [
        | none ↦ some ([], failure)
        | some url ↦
            let name : Bytes = elim output [ some o ↦ o | none ↦ output_name name_junk url.path ] in
            elim (resolve_host net depth url.host) as (λ _. Option (Bytes × Saved)) [
              | deeper ↦ none
              | unknown ↦ some (name, failure)
              | address a ↦
                  (elim (connect a (url.port % 2 ^ 16) (request url))
                    as (λ _. Option (Bytes × Saved)) [
                      | none ↦ some (name, failure)
                      | some s ↦ some (name, response_loop k (creates name) f s)
                    ])
            ]
      ]
