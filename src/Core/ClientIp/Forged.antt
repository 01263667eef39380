-- ===== src/Core/ClientIp/Forged.antt =====
-- What a caller may write into the header changes nothing.
use Prim.Native.String.{String}
use janus_server.Prelude.{
  ℕ, zero, suc, ◌+◌, ◌-◌, ◌≤◌, ◌<◌, ◌≡◌, refl, sym, ◌∙◌, ap, le→leb, Option, some, List, [], ◌∷◌,
  ◌++◌, length, length-append, arith,
}
use janus_server.Core.ClientIp.{get_elem?, pick, from_parts, client_ip}

get_elem?-append :
    (xs ys : List String) (i : ℕ) → get_elem? (xs ++ ys) (length xs + i) ≡ get_elem? ys i
unfolding get_elem?
get_elem?-append [] ys i = ap (get_elem? ys) (omega arith)
get_elem?-append (x ∷ xs) ys i =
    ap (get_elem? (x ∷ xs ++ ys)) (shift (length xs) i) ∙ get_elem?-append xs ys i
  where
    shift : (n i : ℕ) → suc n + i ≡ suc (n + i)
    shift n i = omega arith

pick-append :
    (forged real : List String) (n : ℕ) → n ≤ length real → pick (forged ++ real) n ≡ pick real n
unfolding pick
pick-append forged real n h =
    rw
      (
        le→leb n (length real) h,
        le→leb n (length (forged ++ real)) (omega (arith, length-append forged real)),
      )
      (ap (get_elem? (forged ++ real)) (
          offset (length (forged ++ real)) (length forged) (length real) (length-append forged real)
            h)
        ∙ get_elem?-append forged real (length real - n))
  where
    offset : (a b c : ℕ) → a ≡ b + c → n ≤ c → a - n ≡ b + (c - n)
    offset a b c e h = omega (arith, e)

-- Entries that stand before those of the trusted proxies do not change the address, where the
-- proxies have written at least as many as are trusted.
pub client_ip-forged :
    (parts_of : String → List String) (n : ℕ) (peer : Option String) (header honest : String)
    (forged real : List String)
    → n ≤ length real
    → 0 < length real
    → parts_of honest ≡ real
    → parts_of header ≡ forged ++ real
    → client_ip parts_of n peer (some header) ≡ client_ip parts_of n peer (some honest)
unfolding client_ip from_parts
client_ip-forged parts_of zero peer header honest forged real h some_real e e' = refl
client_ip-forged parts_of (suc n) peer header honest forged real h some_real e e' =
    ap (λ l. from_parts l (suc n) peer) e'
    ∙ go forged real (pick-append forged real (suc n) h) some_real
    ∙ sym (ap (λ l. from_parts l (suc n) peer) e)
  where
    go :
        (forged real : List String)
        → pick (forged ++ real) (suc n) ≡ pick real (suc n)
        → 0 < length real
        → from_parts (forged ++ real) (suc n) peer ≡ from_parts real (suc n) peer
    go forged [] same h = absurd (omega arith)
    go [] (r ∷ real) same h = same
    go (x ∷ forged) (r ∷ real) same h = same
