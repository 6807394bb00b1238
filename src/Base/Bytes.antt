-- ===== src/Base/Bytes.antt =====
-- Text as its bytes, and `strings.Contains`.
use Prim.Native.Nat.{ℕ}
use Prim.Native.Char.{code}
use Prim.Native.String.{String}
use mathlib.Core.Path.{◌≡◌, refl, ap}
use mathlib.Core.Logic.{inl, inr}
use mathlib.Core.Bool.{Bool, true, false, ◌&&◌, ◌||◌}
use mathlib.Core.List.{List, [], ◌∷◌, ◌++◌, append_assoc}
use native.Mathlib.Omega.{arith}
use lightchain_worker.Base.Tests.{◌==◌, Bool-cases}

abbrev pub Bytes : Type 0
Bytes = List ℕ

abbrev pub codes : String → Bytes
codes String.[] = []
codes (String.◌∷◌ c s) = code c ∷ codes s

abbrev pub same_text : Bytes → Bytes → Bool
same_text [] [] = true
same_text [] (y ∷ ys) = false
same_text (x ∷ xs) [] = false
same_text (x ∷ xs) (y ∷ ys) = x == y && same_text xs ys

unfoldable pub is_prefix : Bytes → Bytes → Bool
is_prefix [] s = true
is_prefix (x ∷ xs) [] = false
is_prefix (x ∷ xs) (y ∷ ys) = x == y && is_prefix xs ys

-- `strings.Contains(s, sub)`
unfoldable pub contains : Bytes → Bytes → Bool
unfolding is_prefix
contains [] sub = is_prefix sub []
contains (x ∷ xs) sub = is_prefix sub (x ∷ xs) || contains xs sub

is_prefix-append : (sub post : Bytes) → is_prefix sub (sub ++ post) ≡ true
unfolding is_prefix
is_prefix-append [] post = refl
is_prefix-append (x ∷ xs) post = ground (arith, is_prefix-append xs post)

contains_prefix : (s sub : Bytes) → is_prefix sub s ≡ true → contains s sub ≡ true
unfolding contains
contains_prefix [] sub h = h
contains_prefix (x ∷ xs) sub h = ground arith

-- A text found inside another stays found, whatever is put before and behind it.
pub contains_infix : (pre sub post : Bytes) → contains (pre ++ (sub ++ post)) sub ≡ true
unfolding contains
contains_infix [] sub post = contains_prefix (sub ++ post) sub (is_prefix-append sub post)
contains_infix (x ∷ pre) sub post = ground (arith, contains_infix pre sub post)

is_prefix_split : (sub s : Bytes) → is_prefix sub s ≡ true → (post : Bytes) × (s ≡ sub ++ post)
unfolding is_prefix
is_prefix_split [] s h = (s, refl)
is_prefix_split (x ∷ xs) [] h = absurd (ground arith)
is_prefix_split (x ∷ xs) (y ∷ ys) h =
    let (post, e) = is_prefix_split xs ys (ground arith) in (post, ground arith)

pub contains_split :
    (s sub : Bytes)
    → contains s sub ≡ true
    → (pre : Bytes) × (post : Bytes) × (s ≡ pre ++ (sub ++ post))
unfolding contains
contains_split [] sub h = let (post, e) = is_prefix_split sub [] h in ([], post, e)
contains_split (x ∷ xs) sub h = elim (Bool-cases (is_prefix sub (x ∷ xs))) [
  | inl here ↦ let (post, e) = is_prefix_split sub (x ∷ xs) here in ([], post, e)
  | inr later ↦
      let (pre, post, e) = contains_split xs sub (ground arith) in (x ∷ pre, post, ap (◌∷◌ x) e)
]

-- Wrapping keeps what a text contains.
pub contains-wrap :
    (before s after sub : Bytes)
    → contains s sub ≡ true
    → contains (before ++ (s ++ after)) sub ≡ true
contains-wrap before s after sub h =
    let (pre, post, e) = contains_split s sub h in
    rw (e, append_assoc pre (sub ++ post) after, append_assoc sub post after)
      (rw (← append_assoc before pre (sub ++ (post ++ after)))
        (contains_infix (before ++ pre) sub (post ++ after)))
