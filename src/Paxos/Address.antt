-- ===== src/Paxos/Address.antt =====
-- Server addresses: `std::to_string`, the texts "127.0.0.1:<port>" that the program builds, and
-- `getPortNumber`, with `std::stoi` on what it is given.
use Prim.Native.Char.{code}
use Prim.Native.String.{◌++◌}
use chubby.Prelude.{
  ℕ, zero, suc, ◌+◌, ◌-◌, ◌*◌, ◌/◌, ◌%◌, String, Bool, ◌&&◌, Option, none, some, leb, ltb,
  if◌then◌else◌, ◌≡◌, refl,
}
use chubby.Prelude.Int.{ℤ, pos, negsuc}
use chubby.Paxos.KeyValue.{split_at}

unfoldable pub digit : ℕ → String
digit zero = "0"
digit (suc zero) = "1"
digit (suc (suc zero)) = "2"
digit (suc (suc (suc zero))) = "3"
digit (suc (suc (suc (suc zero)))) = "4"
digit (suc (suc (suc (suc (suc zero))))) = "5"
digit (suc (suc (suc (suc (suc (suc zero)))))) = "6"
digit (suc (suc (suc (suc (suc (suc (suc zero))))))) = "7"
digit (suc (suc (suc (suc (suc (suc (suc (suc zero)))))))) = "8"
digit (suc (suc (suc (suc (suc (suc (suc (suc (suc k))))))))) = "9"

-- The digits of a number in front of a text; the fuel is one more than the number of digits.
unfoldable pub digits_before : ℕ → ℕ → String → String
unfolding digit
digits_before zero n rest = rest
digits_before (suc fuel) n rest =
    let text = digit (n % 10) ++ rest in
    let more = digits_before fuel (n / 10) text in if ltb n 10 then text else more

-- `std::to_string` on an `int`, which has ten digits at most.
unfoldable pub to_string : ℤ → String
unfolding digits_before
to_string (pos n) = digits_before 10 n ""
to_string (negsuc n) = "-" ++ digits_before 10 (suc n) ""

-- `"127.0.0.1:" + std::to_string(port)`
unfoldable pub address_of : ℤ → String
unfolding to_string
address_of port = "127.0.0.1:" ++ to_string port

abbrev is_digit : ℕ → Bool
is_digit c = leb b'0' c && leb c b'9'

-- The digits at the head of a text, after those read so far.
unfoldable pub read_digits : ℕ → String → ℕ
read_digits acc String.[] = acc
read_digits acc (String.◌∷◌ c s) =
    let more = read_digits (acc * 10 + (code c - b'0')) s in if is_digit (code c) then more else acc

abbrev first_digit : String → Option ℕ
first_digit String.[] = none
first_digit (String.◌∷◌ c s) = if is_digit (code c) then some (code c - b'0') else none

-- The largest `int`.
abbrev pub int_max : ℕ
int_max = 2147483647

-- `std::stoi` on a text with no leading space or sign; `none` is an exception.
unfoldable pub stoi : String → Option ℕ
unfolding read_digits
stoi s = elim (first_digit s) [
  | none ↦ none
  | some d ↦ let n = read_digits 0 s in if leb n int_max then some n else none
]

-- `getPortNumber`; `none` is an exception, for want of a colon or of a number after it.
unfoldable pub get_port_number : String → Option ℕ
unfolding split_at stoi
get_port_number address = elim (split_at b':' address) [
  | none ↦ none
  | some (host, port) ↦ stoi port
]

port_of_address : get_port_number (address_of (pos 50051)) ≡ some 50051
unfolding get_port_number address_of
port_of_address = refl
