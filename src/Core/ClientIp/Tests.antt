-- ===== src/Core/ClientIp/Tests.antt =====
-- A header with a forged entry.
use Prim.Native.String.{String}
use text.Mathlib.Text.{◌==◌ as str_eq}
use janus_server.Prelude.{◌≡◌, refl, none, some, List, [], ◌∷◌, if◌then◌else◌, arith}
use janus_server.Core.ClientIp.{client_ip}
use janus_server.Core.ClientIp.Forged.{client_ip-forged}

-- The parts of two headers.
abbrev two_headers : String → List String
two_headers h =
    if str_eq h "1.2.3.4, 10.0.0.7" then "1.2.3.4" ∷ "10.0.0.7" ∷ [] else "10.0.0.7" ∷ []

client_ip-forged_example :
    client_ip two_headers 1 none (some "1.2.3.4, 10.0.0.7")
    ≡ client_ip two_headers 1 none (some "10.0.0.7")
client_ip-forged_example =
    client_ip-forged two_headers 1 none "1.2.3.4, 10.0.0.7" "10.0.0.7" ("1.2.3.4" ∷ [])
      ("10.0.0.7" ∷ []) (omega arith) (omega arith) refl refl
