-- ===== src/Chain/SendErrors.antt =====
-- internal/chain/send_errors.go: which failures of `SendTransaction` make the nonce counter be
-- re-read. An error is its message and, where `errors.As` finds an `rpc.Error` in it, that code.
use lightchain_worker.Base.{
  ℕ, ◌≡◌, Bool, true, false, ◌||◌, Option, none, some, List, [], ◌∷◌, ◌++◌, arith, ℤ, pos, negsuc,
  ◌⊎◌, mem, if◌then◌else◌,
}
use lightchain_worker.Base.Bytes.{Bytes, codes, contains, contains-wrap}

pub record SendError : Type 0 where
  pub message : Bytes
  pub rpc_code : Option ℤ

abbrev pub already_reserved_substr : Bytes
already_reserved_substr = codes "address already reserved"

abbrev pub nonce_too_high_substr : Bytes
nonce_too_high_substr = codes "nonce too high"

abbrev pub nonce_too_low_substr : Bytes
nonce_too_low_substr = codes "nonce too low"

-- -32602, -38010, -38011, -38013, -38014, -38015, -38024 and -38025: `negsuc n` is -(n + 1).
abbrev pub rejection_codes : List ℕ
rejection_codes = 32601 ∷ 38009 ∷ 38010 ∷ 38012 ∷ 38013 ∷ 38014 ∷ 38023 ∷ 38024 ∷ []

-- A nil error is `none`.
unfoldable pub is_already_reserved_error : Option SendError → Bool
is_already_reserved_error none = false
is_already_reserved_error (some e) = contains e.message already_reserved_substr

unfoldable pub is_nonce_desync_error : Option SendError → Bool
is_nonce_desync_error none = false
is_nonce_desync_error (some e) =
    contains e.message already_reserved_substr
    || contains e.message nonce_too_high_substr
    || contains e.message nonce_too_low_substr

-- The `switch` on the code.
unfoldable pub is_rejection_code : Option ℤ → Bool
is_rejection_code none = false
is_rejection_code (some (pos n)) = false
is_rejection_code (some (negsuc n)) = mem n rejection_codes

abbrev pub code_of : Option SendError → Option ℤ
code_of none = none
code_of (some e) = e.rpc_code

unfoldable pub should_reset_nonce_on_send_error : Option SendError → Bool
unfolding is_nonce_desync_error is_rejection_code
should_reset_nonce_on_send_error e =
    if is_nonce_desync_error e then true else is_rejection_code (code_of e)

-- An error whose message is put inside another, and whose code may be lost.
abbrev pub wrapped : Bytes → Bytes → Option ℤ → SendError → SendError
wrapped before after code e = record { message = before ++ (e.message ++ after); rpc_code = code }

-- The classification survives wrapping: an error that is a reservation rejection or a nonce
-- desync is a desync and makes the nonce be reset, and one that is a reservation rejection stays
-- one, with any text around its message and whatever becomes of its code.
pub should_reset-wrapped :
    (before after : Bytes) (code : Option ℤ) (e : SendError)
    → (is_already_reserved_error (some e) ≡ true) ⊎ (is_nonce_desync_error (some e) ≡ true)
    → (is_nonce_desync_error (some (wrapped before after code e)) ≡ true)
      × (should_reset_nonce_on_send_error (some (wrapped before after code e)) ≡ true)
      × ((is_already_reserved_error (some e) ≡ false)
          ⊎ (is_already_reserved_error (some (wrapped before after code e)) ≡ true))
unfolding is_already_reserved_error should_reset_nonce_on_send_error
should_reset-wrapped before after code e h = ground (
  arith,
  contains-wrap before e.message after already_reserved_substr,
  contains-wrap before e.message after nonce_too_high_substr,
  contains-wrap before e.message after nonce_too_low_substr,
)
