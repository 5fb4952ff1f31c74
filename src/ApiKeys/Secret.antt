-- ===== src/ApiKeys/Secret.antt =====
-- The texts of src/api-keys/api-keys.service.ts: what stands before the dot of a secret, and the bytes
-- that `Buffer.from(text, 'hex')` reads.
use Prim.Native.Char.{Char, code}
use lotus_build_server.Base.{
  ℕ, zero, suc, ◌+◌, ◌-◌, ◌*◌, String, Bool, true, false, ◌&&◌, Option, none, some, List, [], ◌∷◌,
  leb, nat_eq, if◌then◌else◌,
}

abbrev pub is_dot : Char → Bool
is_dot c = nat_eq (code c) b'.'

-- `indexOf('.')`, where -1 is `none`
unfoldable pub index_of_dot : String → Option ℕ
index_of_dot String.[] = none
index_of_dot (String.◌∷◌ c s) = if is_dot c then some 0 else next (index_of_dot s)
  where
    next : Option ℕ → Option ℕ
    next none = none
    next (some i) = some (suc i)

-- `slice(0, end)`
unfoldable pub slice_to : ℕ → String → String
slice_to zero s = ""
slice_to (suc n) String.[] = ""
slice_to (suc n) (String.◌∷◌ c s) = String.◌∷◌ c (slice_to n s)

-- The text before the dot, where `separatorIndex <= 0` does not hold.
unfoldable pub secret_prefix : String → Option String
secret_prefix secret = cut (index_of_dot secret)
  where
    cut : Option ℕ → Option String
    cut none = none
    cut (some zero) = none
    cut (some (suc i)) = some (slice_to (suc i) secret)

hex_digit : ℕ → Option ℕ
hex_digit c =
    if leb b'0' c && leb c b'9'
    then some (c - b'0')
    else if leb b'a' c && leb c b'f'
    then some (c - b'a' + 10)
    else if leb b'A' c && leb c b'F'
    then some (c - b'A' + 10)
    else none

-- decoding stops at the first pair that is not two digits
read_byte : Option ℕ → Option ℕ → List ℕ → List ℕ
read_byte (some a) (some b) rest = (a * 16 + b) ∷ rest
read_byte _ _ rest = []

unfoldable pub from_hex : String → List ℕ
unfolding hex_digit read_byte
from_hex String.[] = []
from_hex (String.◌∷◌ c String.[]) = []
from_hex (String.◌∷◌ c (String.◌∷◌ d s)) =
    read_byte (hex_digit (code c)) (hex_digit (code d)) (from_hex s)

-- `a.length === b.length && timingSafeEqual(a, b)`
unfoldable pub bytes_eq : List ℕ → List ℕ → Bool
bytes_eq [] [] = true
bytes_eq (a ∷ as_) (b ∷ bs) = nat_eq a b && bytes_eq as_ bs
bytes_eq _ _ = false
