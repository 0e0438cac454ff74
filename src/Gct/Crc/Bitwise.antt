-- ===== src/Gct/Crc/Bitwise.antt =====
-- The table-driven checksum against its definition bit by bit: CRC-16 with the polynomial 0x1021,
-- the initial value 0xFFFF and the highest bit first.
use native.Mathlib.Nat.{pow-suc}
use comsrv.Base.{
  ℕ, zero, suc, ◌+◌, ◌*◌, ◌/◌, ◌%◌, ◌^◌, ◌<◌, ◌≤◌, ◌≡◌, refl, sym, ap, ◌∙◌, true, false, List, [],
  ◌∷◌, bit_and, bit_xor, arith, get_or, ltb, ◌==◌, ==_iff, if◌then◌else◌, holds_below,
  holds_below_at, All, IsByte, IsU16, shl16, shr, Bool-cases, inl, inr,
}
use comsrv.Base.Bits.{bit_and_mask, bit_xor-lt, zero-bit_xor, bit_xor-zero, xor_digit, double}
use comsrv.Gct.Crc.{table, crc_step, crc_loop, crc16, crc_step-IsU16}

-- One bit of the register.
abbrev pub bit_step : ℕ → ℕ
bit_step r = if ltb r 0x8000 then shl16 r 1 else bit_xor (shl16 r 1) 0x1021

abbrev pub bit_steps : ℕ → ℕ → ℕ
bit_steps zero r = r
bit_steps (suc n) r = bit_steps n (bit_step r)

-- The register after these bytes.
abbrev pub crc16_bitwise : ℕ → List ℕ → ℕ
crc16_bitwise crc [] = crc
crc16_bitwise crc (x ∷ xs) = crc16_bitwise (bit_steps 8 (bit_xor crc (x * 2 ^ 8))) xs

half : (a b : ℕ) → bit_xor a b / 2 ≡ bit_xor (a / 2) (b / 2)
half a b = omega (arith, xor_digit a b)

odd : (a b : ℕ) → bit_xor a b % 2 ≡ (a + b) % 2
odd a b = omega (arith, xor_digit a b)

right_comm :
    (n a b c : ℕ) → a ≤ n → b ≤ n → c ≤ n → bit_xor (bit_xor a b) c ≡ bit_xor (bit_xor a c) b
right_comm zero zero zero zero p q r = refl
right_comm zero (suc a) b c p q r = absurd (omega arith)
right_comm zero zero (suc b) c p q r = absurd (omega arith)
right_comm zero zero zero (suc c) p q r = absurd (omega arith)
right_comm (suc n) a b c p q r =
    let ih = right_comm n (a / 2) (b / 2) (c / 2) (omega arith) (omega arith) (omega arith) in
    omega (
      arith,
      xor_digit (bit_xor a b) c,
      xor_digit (bit_xor a c) b,
      odd a b,
      odd a c,
      ap (λ (t : ℕ). bit_xor t (c / 2)) (half a b),
      ap (λ (t : ℕ). bit_xor t (b / 2)) (half a c),
      ih,
    )

twice : (a b : ℕ) → bit_xor (a * 2) (b * 2) ≡ bit_xor a b * 2
twice a b =
    let e : a * 2 / 2 ≡ a = omega arith in
    let f : b * 2 / 2 ≡ b = omega arith in
    let d : bit_xor (a * 2) (b * 2) ≡ bit_xor (a * 2 / 2) (b * 2 / 2) * 2 =
      omega (arith, xor_digit (a * 2) (b * 2)) in
    d ∙ rw (e, f) refl

-- `^` by a number below `2 ^ k` leaves the bits from `k` on.
xor_low_bits :
    (k q r l : ℕ) → r < 2 ^ k → l < 2 ^ k → bit_xor (q * 2 ^ k + r) l ≡ q * 2 ^ k + bit_xor r l
xor_low_bits zero q zero zero hr hl = ground (arith, bit_xor-zero q)
xor_low_bits zero q (suc r) l hr hl = absurd (omega arith)
xor_low_bits zero q zero (suc l) hr hl = absurd (omega arith)
xor_low_bits (suc k) q r l hr hl =
    let e : (q * 2 ^ suc k + r) / 2 ≡ q * 2 ^ k + r / 2 = omega (arith, double q k) in
    omega (
      arith,
      double q k,
      xor_digit (q * 2 ^ suc k + r) l,
      xor_digit r l,
      ap (λ (t : ℕ). bit_xor t (l / 2)) e,
      xor_low_bits k q (r / 2) (l / 2) (omega (arith, pow-suc 2 k)) (omega (arith, pow-suc 2 k)),
    )

-- `^` by a multiple of `2 ^ k` leaves the `k` low bits.
xor_high_bits :
    (k q r p : ℕ) → r < 2 ^ k → bit_xor (q * 2 ^ k + r) (p * 2 ^ k) ≡ bit_xor q p * 2 ^ k + r
xor_high_bits zero q zero p hr =
    let e : q * 1 + 0 ≡ q = omega arith in
    let f : p * 1 ≡ p = omega arith in
    let g : bit_xor q p * 1 + 0 ≡ bit_xor q p = omega arith in rw (e, f, g) refl
xor_high_bits zero q (suc r) p hr = absurd (omega arith)
xor_high_bits (suc k) q r p hr =
    let e : (q * 2 ^ suc k + r) / 2 ≡ q * 2 ^ k + r / 2 = omega (arith, double q k) in
    let f : p * 2 ^ suc k / 2 ≡ p * 2 ^ k = omega (arith, double p k) in
    omega (
      arith,
      double (bit_xor q p) k,
      double q k,
      double p k,
      xor_digit (q * 2 ^ suc k + r) (p * 2 ^ suc k),
      ap (λ (t : ℕ). bit_xor t (p * 2 ^ suc k / 2)) e,
      ap (λ (t : ℕ). bit_xor (q * 2 ^ k + r / 2) t) f,
      xor_high_bits k q (r / 2) p (omega (arith, pow-suc 2 k)),
    )

bit_step-xor :
    (a l : ℕ) → IsU16 a → l < 2 ^ 15 → bit_step (bit_xor a l) ≡ bit_xor (bit_step a) (l * 2)
bit_step-xor a l ha hl =
    let q = a / 2 ^ 15 in
    let r = a % 2 ^ 15 in
    let whole : q * 2 ^ 15 + r ≡ a = omega arith in
    let parts : bit_xor a l ≡ q * 2 ^ 15 + bit_xor r l =
      ap (λ (t : ℕ). bit_xor t l) (sym whole) ∙ xor_low_bits 15 q r l (omega arith) hl in
    let small : bit_xor r l < 2 ^ 15 = bit_xor-lt 15 r l (omega arith) hl in
    let shifted : shl16 (bit_xor a l) 1 ≡ bit_xor r l * 2 = omega arith in
    let shifted_a : shl16 a 1 ≡ r * 2 = omega arith in
    elim (Bool-cases (ltb a 0x8000)) [
      | inl t ↦
          let u : ltb (bit_xor a l) 0x8000 ≡ true = ground (arith, parts, small) in
          rw (t, u, shifted, shifted_a) (sym (twice r l))
      | inr t ↦
          let u : ltb (bit_xor a l) 0x8000 ≡ false = ground (arith, parts, small) in
          rw (t, u, shifted, shifted_a, sym (twice r l))
            (right_comm (r * 2 + l * 2 + 0x1021) (r * 2) (l * 2) 0x1021 (omega arith) (omega arith)
              (omega arith))
    ]

bit_step-IsU16 : (r : ℕ) → IsU16 (bit_step r)
bit_step-IsU16 r = elim (Bool-cases (ltb r 0x8000)) [
  | inl t ↦ rw t (omega arith)
  | inr t ↦ rw t (bit_xor-lt 16 (shl16 r 1) 0x1021 (omega arith) (omega arith))
]

twice_first : (l n : ℕ) → l * 2 ^ suc n ≡ l * 2 * 2 ^ n
twice_first l n = simp (double l n) (omega arith)

grows : (n l : ℕ) → l ≤ l * 2 ^ n
grows zero l = omega arith
grows (suc n) l = omega (arith, double l n, grows n l)

fits : (n l : ℕ) → l * 2 ^ suc n < 2 ^ 16 → l < 2 ^ 15
fits n l h = omega (arith, double l n, grows n l)

no_low_bits : (h l : ℕ) → l < 2 ^ 8 → bit_xor (h * 2 ^ 8) l ≡ h * 2 ^ 8 + l
no_low_bits h l lt =
    let e : h * 2 ^ 8 + 0 ≡ h * 2 ^ 8 = omega arith in
    ap (λ (t : ℕ). bit_xor t l) (sym e)
    ∙ xor_low_bits 8 h 0 l (omega arith) lt
    ∙ rw (zero-bit_xor l)

-- Bits that never reach the top just move up.
bit_steps-xor :
    (n a l : ℕ)
    → IsU16 a
    → l * 2 ^ n < 2 ^ 16
    → bit_steps n (bit_xor a l) ≡ bit_xor (bit_steps n a) (l * 2 ^ n)
bit_steps-xor zero a l ha hl = let e : l * 1 ≡ l = omega arith in rw e
bit_steps-xor (suc n) a l ha hl =
    let moved : l * 2 ^ suc n ≡ l * 2 * 2 ^ n = twice_first l n in
    rw (bit_step-xor a l ha (fits n l hl), moved)
      (bit_steps-xor n (bit_step a) (l * 2) (bit_step-IsU16 a) (omega (arith, moved)))

table_steps : holds_below (λ h. bit_steps 8 (h * 2 ^ 8) == get_or table h 0) 256 ≡ true
unfolding holds_below table
table_steps = refl

table-bit_steps : (h : ℕ) → h < 256 → bit_steps 8 (h * 2 ^ 8) ≡ get_or table h 0
table-bit_steps h lt =
    (==_iff (bit_steps 8 (h * 2 ^ 8)) (get_or table h 0)).0
      (holds_below_at (λ i. bit_steps 8 (i * 2 ^ 8) == get_or table i 0) 256 h lt table_steps)

-- One byte through the table is eight bits.
crc_step-bit_steps :
    (crc x : ℕ) → IsU16 crc → IsByte x → crc_step crc x ≡ bit_steps 8 (bit_xor crc (x * 2 ^ 8))
unfolding crc_step
crc_step-bit_steps crc x hc hx =
    let q = crc / 2 ^ 8 in
    let l = crc % 2 ^ 8 in
    let h = bit_xor q x in
    let whole : q * 2 ^ 8 + l ≡ crc = omega arith in
    let h-lt : h < 2 ^ 8 = bit_xor-lt 8 q x (omega arith) hx in
    let idx : bit_and (bit_xor (shr crc 8) x) 0xFF ≡ h = omega (arith, bit_and_mask 8 h) in
    let low : shl16 crc 8 ≡ l * 2 ^ 8 = omega arith in
    let start : bit_xor crc (x * 2 ^ 8) ≡ bit_xor (h * 2 ^ 8) l =
      ap (λ (t : ℕ). bit_xor t (x * 2 ^ 8)) (sym whole)
      ∙ xor_high_bits 8 q l x (omega arith)
      ∙ sym (no_low_bits h l (omega arith)) in
    rw (idx, low, start, bit_steps-xor 8 (h * 2 ^ 8) l (omega arith) (omega arith))
      (ap (λ (t : ℕ). bit_xor t (l * 2 ^ 8)) (sym (table-bit_steps h h-lt)))

crc_loop-bitwise :
    (crc : ℕ) (xs : List ℕ) → IsU16 crc → All IsByte xs → crc_loop crc xs ≡ crc16_bitwise crc xs
unfolding crc_loop
crc_loop-bitwise crc [] hc all = refl
crc_loop-bitwise crc (x ∷ xs) hc (hx, all) =
    rw (sym (crc_step-bit_steps crc x hc hx))
      (crc_loop-bitwise (crc_step crc x) xs (crc_step-IsU16 crc x) all)

-- On any bytes the checksum by the table is the CRC-16 of the polynomial 0x1021, computed bit by
-- bit from 0xFFFF on.
pub crc16-bitwise : (xs : List ℕ) → All IsByte xs → crc16 xs ≡ crc16_bitwise 0xFFFF xs
unfolding crc16
crc16-bitwise xs all = crc_loop-bitwise 0xFFFF xs (omega arith) all
