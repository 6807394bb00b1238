-- ===== src/Chain/Nonce/Leases.antt =====
-- Leases: the nonces that senders hold. A sender leases a nonce by `NextNonce` and gives back each
-- lease once, by `ReleaseNonce`; anybody may ask for a reset at any time.
use lightchain_worker.Base.{
  ℕ, ◌+◌, ◌-◌, ◌≤◌, ◌<◌, ◌≡◌, refl, Bool, true, false, Result, ok, err, List, [], ◌∷◌, arith, pos,
  length, mem, All, u64_mod, i64_half, if◌then◌else◌, ◌==◌,
}
use lightchain_worker.Chain.Nonce.{
  NonceManager, new_nonce_manager, next_nonce, release_nonce, reset_nonce,
}

-- No number twice.
abbrev pub Distinct : List ℕ → Type 0
Distinct [] = Unit
Distinct (n ∷ ns) = (mem n ns ≡ false) × Distinct ns

-- The list without the first occurrence of a number.
abbrev pub remove_one : ℕ → List ℕ → List ℕ
remove_one n [] = []
remove_one n (x ∷ xs) = if x == n then xs else x ∷ remove_one n xs

abbrev pub Below : ℕ → List ℕ → Type 0
Below p = All (λ n. n < p)

pub length-remove_one :
    (n : ℕ) (ns : List ℕ) → mem n ns ≡ true → length (remove_one n ns) + 1 ≡ length ns
length-remove_one n [] h = absurd (ground arith)
length-remove_one n (x ∷ xs) h = ground (arith, length-remove_one n xs)

pub mem-remove_one : (m n : ℕ) (ns : List ℕ) → mem m ns ≡ false → mem m (remove_one n ns) ≡ false
mem-remove_one m n [] h = refl
mem-remove_one m n (x ∷ xs) h = ground (arith, mem-remove_one m n xs)

pub remove_one-Distinct : (n : ℕ) (ns : List ℕ) → Distinct ns → Distinct (remove_one n ns)
remove_one-Distinct n [] d = tt
remove_one-Distinct n (x ∷ xs) d =
    ground (arith, mem-remove_one x n xs, remove_one-Distinct n xs d.1)

pub remove_one-Below : (p n : ℕ) (ns : List ℕ) → Below p ns → Below p (remove_one n ns)
remove_one-Below p n [] b = tt
remove_one-Below p n (x ∷ xs) b = ground (arith, remove_one-Below p n xs b.1)

pub Below-mono : (p q : ℕ) (ns : List ℕ) → p ≤ q → Below p ns → Below q ns
Below-mono p q [] h b = tt
Below-mono p q (x ∷ xs) h b = (omega arith, Below-mono p q xs h b.1)

-- Without the newest nonce the others lie below it.
pub Below-pred : (p : ℕ) (ns : List ℕ) → Below p ns → mem (p - 1) ns ≡ false → Below (p - 1) ns
Below-pred p [] b h = tt
Below-pred p (x ∷ xs) b h = ground (arith, Below-pred p xs b.1)

pub not-mem-Below : (p : ℕ) (ns : List ℕ) → Below p ns → mem p ns ≡ false
not-mem-Below p [] b = refl
not-mem-Below p (x ∷ xs) b = ground (arith, not-mem-Below p xs b.1)

pub not-mem-remove_one : (n : ℕ) (ns : List ℕ) → Distinct ns → mem n (remove_one n ns) ≡ false
not-mem-remove_one n [] d = refl
not-mem-remove_one n (x ∷ xs) d = ground (arith, not-mem-remove_one n xs d.1)

pub length-zero-Below : (p : ℕ) (ns : List ℕ) → ¬ (0 < length ns) → Below p ns
length-zero-Below p [] h = tt
length-zero-Below p (x ∷ xs) h = absurd (h (omega arith))

pub record System : Type 0 where
  pub manager : NonceManager
  pub held : List ℕ

unfoldable pub start : ℕ → System
start account = record { manager = new_nonce_manager account; held = [] }

-- The chain answers each seeding read as it likes. A nonce is below 2 ^ 64 - 1 (EIP-2681), and
-- fewer than 2 ^ 63 leases are out at once.
pub data Step {ℓ} (E : Type ℓ) : System → System → Type ℓ where
  lease :
      (s : System) (fetch : ℕ → Result E ℕ) (n : ℕ) (m : NonceManager)
      → next_nonce fetch s.manager ≡ (ok n, m)
      → n + 1 < u64_mod
      → length s.held + 1 < i64_half
      → Step E s (record { manager = m; held = n ∷ s.held })
  refused :
      (s : System) (fetch : ℕ → Result E ℕ) (e : E) (m : NonceManager)
      → next_nonce fetch s.manager ≡ (err e, m)
      → Step E s (record s { manager = m })
  release :
      (s : System) (n : ℕ) (consumed : Bool)
      → mem n s.held ≡ true
      → Step E s
          (record { manager = release_nonce n consumed s.manager; held = remove_one n s.held })
  reset : (s : System) → Step E s (record s { manager = reset_nonce s.manager })

pub data Reach {ℓ} (E : Type ℓ) (s : System) : System → Type ℓ where
  here : Reach E s s
  next : {t u : System} → Reach E s t → Step E t u → Reach E s u

pub record Inv (s : System) : Type 0 where
  pub counted : s.manager.outstanding ≡ pos (length s.held)
  pub few : length s.held < i64_half
  pub word : s.manager.pending_nonce < u64_mod
  pub below : Below s.manager.pending_nonce s.held
  pub distinct : Distinct s.held
  pub live : 0 < length s.held → s.manager.initialized ≡ true
  pub deferred : s.manager.reset_pending ≡ true → 0 < length s.held
