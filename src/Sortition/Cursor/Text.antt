-- ===== src/Sortition/Cursor/Text.antt =====
-- The decimal text of a cursor: `strconv.FormatUint` and `strconv.ParseUint` in base 10 and for 64
-- bits, and `strings.TrimSpace` for the white space of ASCII.
use native.Mathlib.Omega.{pow_step}
use lightchain_worker.Base.{
  ℕ, zero, suc, ◌+◌, ◌*◌, ◌/◌, ◌%◌, ◌-◌, ◌^◌, ◌<◌, ◌≤◌, ◌≡◌, refl, ◌∙◌, inl, inr, Bool, true, false,
  ◌&&◌, ◌||◌, Option, none, some, [], ◌∷◌, arith, ltb, leb, ◌==◌, if◌then◌else◌, length, u64_mod,
  All, Bool-cases,
}
use lightchain_worker.Base.Bytes.{Bytes}

-- The digits from the last to the first; twenty are enough for 64 bits.
unfoldable pub digits_from : (fuel : ℕ) → ℕ → Bytes → Bytes
digits_from zero n acc = acc
digits_from (suc fuel) n acc =
    let rest = digits_from fuel (n / 10) ((48 + n % 10) ∷ acc) in
    if ltb n 10 then (48 + n) ∷ acc else rest

unfoldable pub format_uint : ℕ → Bytes
format_uint n = digits_from 20 n []

abbrev pub is_digit : ℕ → Bool
is_digit c = leb 48 c && leb c 57

unfoldable pub parse_from : Bytes → ℕ → Option ℕ
parse_from [] acc = some acc
parse_from (c ∷ cs) acc =
    let rest = parse_from cs (10 * acc + (c - 48)) in
    if is_digit c && ltb (10 * acc + (c - 48)) u64_mod then rest else none

-- No digits are an error, and so is a value of 2^64 or more.
unfoldable pub parse_uint : Bytes → Option ℕ
parse_uint [] = none
parse_uint (c ∷ cs) = parse_from (c ∷ cs) 0

-- Tab, line feed, vertical tab, form feed, carriage return and space.
abbrev pub is_space : ℕ → Bool
is_space c = c == 32 || (leb 9 c && leb c 13)

unfoldable pub trim_left : Bytes → Bytes
trim_left [] = []
trim_left (c ∷ cs) = let rest = trim_left cs in if is_space c then rest else c ∷ cs

unfoldable pub trim_right : Bytes → Bytes
trim_right [] = []
trim_right (c ∷ cs) = elim (trim_right cs) [
  | [] ↦ if is_space c then [] else c ∷ []
  | d ∷ ds ↦ c ∷ (d ∷ ds)
]

unfoldable pub trim_space : Bytes → Bytes
trim_space cs = trim_right (trim_left cs)

parse_digit :
    (d acc n : ℕ) (rest : Bytes)
    → d < 10
    → 10 * acc + d ≡ n
    → n < u64_mod
    → parse_from ((48 + d) ∷ rest) acc ≡ parse_from rest n
unfolding parse_from
parse_digit d acc n rest small value fits =
    let digit : (is_digit (48 + d) && ltb (10 * acc + (48 + d - 48)) u64_mod) ≡ true =
      ground arith in
    let exact : 10 * acc + (48 + d - 48) ≡ n = omega arith in rw (digit, exact) refl

digits-parse :
    (fuel n : ℕ) (rest : Bytes)
    → n < 10 ^ suc fuel
    → n < u64_mod
    → parse_from (digits_from (suc fuel) n rest) 0 ≡ parse_from rest n
unfolding digits_from
digits-parse zero n rest small fits =
    let last : ltb n 10 ≡ true = ground arith in
    rw (last, digits_from) (parse_digit n 0 n rest (omega arith) (omega arith) fits)
digits-parse (suc f) n rest small fits = elim (Bool-cases (ltb n 10)) [
  | inl last ↦ rw (last, digits_from) (parse_digit n 0 n rest (ground arith) (omega arith) fits)
  | inr more ↦
      let front =
        digits-parse f (n / 10) ((48 + n % 10) ∷ rest) (omega (arith, pow_step 10 (suc f)))
          (omega arith) in
      rw (more, digits_from)
        (front ∙ parse_digit (n % 10) (n / 10) n rest (omega arith) (omega arith) fits)
]

length-digits_from : (fuel n : ℕ) (acc : Bytes) → length acc ≤ length (digits_from fuel n acc)
unfolding digits_from
length-digits_from zero n acc = omega arith
length-digits_from (suc fuel) n acc =
    ground (arith, length-digits_from fuel (n / 10) ((48 + n % 10) ∷ acc))

some_digit : (fuel n : ℕ) (acc : Bytes) → 0 < length (digits_from (suc fuel) n acc)
unfolding digits_from
some_digit fuel n acc = ground (arith, length-digits_from fuel (n / 10) ((48 + n % 10) ∷ acc))

parse_not_empty : (cs : Bytes) → 0 < length cs → parse_uint cs ≡ parse_from cs 0
unfolding parse_uint
parse_not_empty [] h = absurd (omega arith)
parse_not_empty (c ∷ cs) h = refl

abbrev IsText : Bytes → Type 0
IsText = All (λ (c : ℕ). is_space c ≡ false)

digits-IsText : (fuel n : ℕ) (acc : Bytes) → IsText acc → IsText (digits_from fuel n acc)
unfolding digits_from
digits-IsText zero n acc h = h
digits-IsText (suc fuel) n acc h = elim (Bool-cases (ltb n 10)) [
  | inl last ↦ rw (last, digits_from) (ground arith, h)
  | inr more ↦ rw (more, digits_from) (digits-IsText fuel (n / 10) _ (ground arith, h))
]

trim_right-IsText : (cs : Bytes) → IsText cs → trim_right cs ≡ cs
unfolding trim_right
trim_right-IsText [] h = refl
trim_right-IsText (c ∷ []) h = ground arith
trim_right-IsText (c ∷ (d ∷ ds)) h = rw (trim_right-IsText (d ∷ ds) h.1) refl

trim_left-IsText : (cs : Bytes) → IsText cs → trim_left cs ≡ cs
unfolding trim_left
trim_left-IsText [] h = refl
trim_left-IsText (c ∷ cs) h = ground arith

-- A number of 64 bits is read back from its text.
pub parse_uint-format_uint :
    (n : ℕ) → n < u64_mod → parse_uint (trim_space (format_uint n)) ≡ some n
unfolding trim_space format_uint parse_from
parse_uint-format_uint n h =
    let text = digits-IsText 20 n [] tt in
    rw (trim_left-IsText (digits_from 20 n []) text) (
      rw (trim_right-IsText (digits_from 20 n []) text)
        (parse_not_empty _ (some_digit 19 n []) ∙ digits-parse 19 n [] (omega arith) h))
