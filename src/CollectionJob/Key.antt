-- ===== src/CollectionJob/Key.antt =====
-- internal/module/collectionjob/producer.go: the idempotency key of a source.
use contentflow.Prelude.{
  ltb, ◌==◌, if◌then◌else◌, ℤ, pos, negsuc, ℕ, zero, suc, ◌%◌, ◌/◌, String, ◌≡◌, refl,
}
use Prim.Native.String.{◌++◌}

-- `fmt.Sprintf("%d", n)`
abbrev digit : ℕ → String
digit d =
    if d == 0
    then "0"
    else if d == 1
    then "1"
    else if d == 2
    then "2"
    else if d == 3
    then "3"
    else if d == 4
    then "4"
    else if d == 5
    then "5"
    else if d == 6
    then "6"
    else if d == 7
    then "7"
    else if d == 8
    then "8"
    else "9"

-- the digits of a number below 10 ^ fuel
unfoldable pub decimal_digits : ℕ → ℕ → String
decimal_digits zero n = ""
decimal_digits (suc fuel) n =
    let front = decimal_digits fuel (n / 10) in
    if ltb n 10 then digit n else front ++ digit (n % 10)

-- An `int64` has at most 19 digits.
unfoldable pub decimal : ℤ → String
unfolding decimal_digits
decimal (pos n) = decimal_digits 20 n
decimal (negsuc n) = "-" ++ decimal_digits 20 (suc n)

-- `idempotencyKey`
unfoldable pub idempotency_key : ℤ → String
unfolding decimal
idempotency_key source_id = "collection:source:" ++ decimal source_id

idempotency_key_test : idempotency_key (pos 407) ≡ "collection:source:407"
unfolding idempotency_key
idempotency_key_test = refl
