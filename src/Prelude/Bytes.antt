-- ===== src/Prelude/Bytes.antt =====
-- Byte-addressed memory: reading and writing a run of bytes.
use Prim.Native.Nat.{ℕ, zero, suc, ◌+◌, ◌<◌, ◌≤◌}
use mathlib.Core.Path.{◌≡◌, refl, sym, ap, ap₂, ◌∙◌}
use mathlib.Core.Logic.{◌⊎◌, inl, inr}
use mathlib.Core.List.{List, [], ◌∷◌, ◌++◌}
use native.Mathlib.Omega.{arith}
use libxpdk.Prelude.Tests.{◌==◌, if◌then◌else◌}
use libxpdk.Prelude.Lists.{length, replicate, length-replicate}

abbrev pub Memory : Type 0
Memory = ℕ → ℕ

-- A store at one place of a map from addresses.
abbrev pub update {ℓ} : {A : Type ℓ} → (ℕ → A) → ℕ → A → ℕ → A
update f p v q = if p == q then v else f q

-- The `n` bytes from `p` on.
abbrev pub read_bytes : Memory → ℕ → ℕ → List ℕ
read_bytes m p zero = []
read_bytes m p (suc n) = m p ∷ read_bytes m (p + 1) n

-- The bytes of `xs` stored from `p` on.
abbrev pub write_bytes : Memory → ℕ → List ℕ → Memory
write_bytes m p [] = m
write_bytes m p (x ∷ xs) = write_bytes (update m p x) (p + 1) xs

-- Two runs of bytes that share no address.
abbrev pub Apart : ℕ → ℕ → ℕ → ℕ → Type 0
Apart p n q k = (p + n ≤ q) ⊎ (q + k ≤ p)

pub length-read_bytes : (m : Memory) (p n : ℕ) → length (read_bytes m p n) ≡ n
length-read_bytes m p zero = refl
length-read_bytes m p (suc n) = ap suc (length-read_bytes m (p + 1) n)

-- A byte below or above what is written stays.
pub write_bytes_outside :
    (m : Memory) (p : ℕ) (xs : List ℕ) (q : ℕ)
    → (q < p) ⊎ (p + length xs ≤ q)
    → write_bytes m p xs q ≡ m q
write_bytes_outside m p [] q h = refl
write_bytes_outside m p (x ∷ xs) q h =
    ground (arith, write_bytes_outside (update m p x) (p + 1) xs q)

pub read_bytes-write_bytes :
    (m : Memory) (p : ℕ) (xs : List ℕ) → read_bytes (write_bytes m p xs) p (length xs) ≡ xs
read_bytes-write_bytes m p [] = refl
read_bytes-write_bytes m p (x ∷ xs) =
    ap₂ ◌∷◌ (write_bytes_outside (update m p x) (p + 1) xs p (inl (omega arith)) ∙ ground arith)
      (read_bytes-write_bytes (update m p x) (p + 1) xs)

pub read_bytes-write_bytes-Apart :
    (m : Memory) (p : ℕ) (xs : List ℕ) (q n : ℕ)
    → Apart p (length xs) q n
    → read_bytes (write_bytes m p xs) q n ≡ read_bytes m q n
read_bytes-write_bytes-Apart m p xs q zero h = refl
read_bytes-write_bytes-Apart m p xs q (suc n) h =
    ap₂ ◌∷◌ (write_bytes_outside m p xs q (ground arith))
      (read_bytes-write_bytes-Apart m p xs (q + 1) n (ground arith))

-- A run of bytes is the same in two memories that agree on it.
pub read_bytes_ext :
    (f g : Memory) (p n : ℕ)
    → ((q : ℕ) → p ≤ q → q < p + n → f q ≡ g q)
    → read_bytes f p n ≡ read_bytes g p n
read_bytes_ext f g p zero h = refl
read_bytes_ext f g p (suc n) h =
    ap₂ ◌∷◌ (h p (omega arith) (omega arith))
      (read_bytes_ext f g (p + 1) n (λ q lo hi. h q (omega arith) (omega arith)))

pub read_bytes_add :
    (m : Memory) (p a b : ℕ) → read_bytes m p (a + b) ≡ read_bytes m p a ++ read_bytes m (p + a) b
read_bytes_add m p zero b =
    let e : zero + b ≡ b = omega arith in let e' : p + zero ≡ p = omega arith in rw (e, e')
read_bytes_add m p (suc a) b =
    let e : suc a + b ≡ suc (a + b) = omega arith in
    let e' : p + suc a ≡ p + 1 + a = omega arith in
    rw (e, e') (ap (◌∷◌ (m p)) (read_bytes_add m (p + 1) a b))

pub write_bytes-append :
    (m : Memory) (p : ℕ) (xs ys : List ℕ)
    → write_bytes m p (xs ++ ys) ≡ write_bytes (write_bytes m p xs) (p + length xs) ys
write_bytes-append m p [] ys = let e : p + zero ≡ p = omega arith in rw e
write_bytes-append m p (x ∷ xs) ys =
    let e : p + suc (length xs) ≡ p + 1 + length xs = omega arith in
    rw e (write_bytes-append (update m p x) (p + 1) xs ys)

pub replicate-add {ℓ} :
    {A : Type ℓ} (a b : ℕ) (x : A) → replicate (a + b) x ≡ replicate a x ++ replicate b x
replicate-add zero b x = let e : zero + b ≡ b = omega arith in rw e
replicate-add (suc a) b x =
    let e : suc a + b ≡ suc (a + b) = omega arith in rw e (ap (◌∷◌ x) (replicate-add a b x))

read_zeros :
    (m : Memory) (p n : ℕ) → read_bytes (write_bytes m p (replicate n 0)) p n ≡ replicate n 0
read_zeros m p n =
    ap (read_bytes (write_bytes m p (replicate n 0)) p) (sym (length-replicate {A = ℕ} n 0))
    ∙ read_bytes-write_bytes m p (replicate n 0)

-- A run of zeros with other bytes written over its start.
pub read_bytes_over_zeros :
    (m : Memory) (p : ℕ) (xs : List ℕ) (rest : ℕ)
    → read_bytes
        (write_bytes (write_bytes m p (replicate (length xs + rest) 0)) p xs)
        p
        (length xs + rest)
      ≡ xs ++ replicate rest 0
read_bytes_over_zeros m p xs rest =
    read_bytes_add over p n rest
    ∙ ap₂ ◌++◌ (read_bytes-write_bytes zeroed p xs)
        (untouched ∙ ap (λ l. read_bytes l (p + n) rest) split ∙ tail)
  where
    n : ℕ
    n = length xs

    zeroed : Memory
    zeroed = write_bytes m p (replicate (n + rest) 0)

    over : Memory
    over = write_bytes zeroed p xs

    untouched : read_bytes over (p + n) rest ≡ read_bytes zeroed (p + n) rest
    untouched = read_bytes-write_bytes-Apart zeroed p xs (p + n) rest (inl (omega arith))

    split :
        zeroed
        ≡ write_bytes
            (write_bytes m p (replicate n 0))
            (p + length (replicate {A = ℕ} n 0))
            (replicate rest 0)
    split =
        rw (replicate-add {A = ℕ} n rest 0)
          (write_bytes-append m p (replicate n 0) (replicate rest 0))

    tail :
        read_bytes
          (write_bytes
            (write_bytes m p (replicate n 0))
            (p + length (replicate {A = ℕ} n 0))
            (replicate rest 0))
          (p + n)
          rest
        ≡ replicate rest 0
    tail =
        rw (length-replicate {A = ℕ} n 0)
          (read_zeros (write_bytes m p (replicate n 0)) (p + n) rest)

-- The start of a run of bytes.
pub read_bytes_prefix :
    (f g : Memory) (p q a b : ℕ)
    → read_bytes f p (a + b) ≡ read_bytes g q (a + b)
    → read_bytes f p a ≡ read_bytes g q a
read_bytes_prefix f g p q zero b h = refl
read_bytes_prefix f g p q (suc a) b h =
    let e : suc a + b ≡ suc (a + b) = omega arith in
    let h' : (f p ∷ read_bytes f (p + 1) (a + b)) ≡ g q ∷ read_bytes g (q + 1) (a + b) =
      rw e at h in
    ap₂ ◌∷◌ (cc) (read_bytes_prefix f g (p + 1) (q + 1) a b (cc))

--- The start of what is written, read back.
pub read_bytes-write_bytes-append :
    (m : Memory) (p : ℕ) (xs ys : List ℕ) (a : ℕ)
    → length xs ≡ a
    → read_bytes (write_bytes m p (xs ++ ys)) p a ≡ xs
read_bytes-write_bytes-append m p xs ys a long =
    let e = write_bytes-append m p xs ys in
    let apart =
      read_bytes-write_bytes-Apart (write_bytes m p xs) (p + length xs) ys p (length xs)
        (inr (omega arith)) in
    rw (← long, e, apart) (read_bytes-write_bytes m p xs)
