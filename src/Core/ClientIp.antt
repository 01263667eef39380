-- ===== src/Core/ClientIp.antt =====
-- src/core/client_ip.py: the address of a caller behind trusted proxies.
pub mod Forged
mod Tests
use Prim.Native.String.{String}
use janus_server.Prelude.{
  ℕ, zero, suc, ◌-◌, leb, Bool, Option, none, some, List, [], ◌∷◌, length, if◌then◌else◌,
}

unfoldable pub get_elem? : List String → ℕ → Option String
get_elem? [] i = none
get_elem? (x ∷ xs) zero = some x
get_elem? (x ∷ xs) (suc i) = get_elem? xs i

-- The entry of the parts that the caller's proxies have written.
unfoldable pub pick : List String → ℕ → Option String
unfolding get_elem?
pick parts trusted_proxy_count =
    if leb trusted_proxy_count (length parts)
    then get_elem? parts (length parts - trusted_proxy_count)
    else get_elem? parts 0

unfoldable pub from_parts : List String → ℕ → Option String → Option String
unfolding pick
from_parts [] trusted_proxy_count peer = peer
from_parts (p ∷ ps) trusted_proxy_count peer = pick (p ∷ ps) trusted_proxy_count

-- `parts_of` stands for the library's split at the commas, strip, and filter of empty parts; an
-- empty header has none. A count below 0 works as 0.
unfoldable pub client_ip :
    (String → List String) → ℕ → Option String → Option String → Option String
unfolding from_parts
client_ip parts_of zero peer forwarded = peer
client_ip parts_of (suc n) peer none = peer
client_ip parts_of (suc n) peer (some header) = from_parts (parts_of header) (suc n) peer
