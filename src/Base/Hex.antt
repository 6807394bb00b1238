-- ===== src/Base/Hex.antt =====
-- `hex.EncodeToString` and `hex.DecodeString` of Go's library.
use Prim.Native.Nat.{ℕ, ◌+◌, ◌-◌, ◌*◌, ◌/◌, ◌%◌, ◌<◌}
use mathlib.Core.Path.{◌≡◌, refl}
use mathlib.Core.Bool.{◌&&◌}
use mathlib.Core.Option.{Option, none, some}
use mathlib.Core.List.{List, [], ◌∷◌}
use native.Mathlib.Omega.{arith}
use lightchain_worker.Base.Tests.{ltb, leb, if◌then◌else◌}
use lightchain_worker.Base.Lists.{All}

abbrev pub hex_char : ℕ → ℕ
hex_char n = if ltb n 10 then 48 + n else 87 + n

unfoldable pub encode : List ℕ → List ℕ
encode [] = []
encode (b ∷ bs) = hex_char (b / 16) ∷ (hex_char (b % 16) ∷ encode bs)

-- Both cases are read.
unfoldable pub nibble : ℕ → Option ℕ
nibble c =
    if leb 48 c && leb c 57
    then some (c - 48)
    else if leb 97 c && leb c 102
    then some (c - 87)
    else if leb 65 c && leb c 70
    then some (c - 55)
    else none

abbrev push : Option ℕ → Option ℕ → Option (List ℕ) → Option (List ℕ)
push none low rest = none
push (some h) none rest = none
push (some h) (some l) none = none
push (some h) (some l) (some bs) = some ((16 * h + l) ∷ bs)

unfoldable pub decode : List ℕ → Option (List ℕ)
decode [] = some []
decode (c ∷ []) = none
decode (c ∷ (d ∷ s)) = push (nibble c) (nibble d) (decode s)

nibble-hex_char : (n : ℕ) → n < 16 → nibble (hex_char n) ≡ some n
unfolding nibble
nibble-hex_char n h = ground arith

pub decode-encode : (bs : List ℕ) → All (λ b. b < 256) bs → decode (encode bs) ≡ some bs
unfolding decode encode
decode-encode [] h = refl
decode-encode (b ∷ bs) (h, hs) =
    rw (nibble-hex_char (b / 16) (omega arith))
      (rw (nibble-hex_char (b % 16) (omega arith)) (rw (decode-encode bs hs) (ground arith)))
