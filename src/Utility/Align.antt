-- ===== src/Utility/Align.antt =====
-- What SGLIB_ALIGN_BYTES makes of an address.
use libiocp.Base.{
  ℕ, zero, suc, ◌+◌, ◌-◌, ◌*◌, ◌/◌, ◌%◌, ◌^◌, ◌≤◌, ◌<◌, ◌≡◌, ◌⊎◌, inl, inr, ap, ap₂, ◌∙◌, arith,
  dec_le, mod_once,
}
use Prim.Native.Nat.{bit_and}
use native.Mathlib.Nat.{
  pow-suc, one-le-pow, div-add-mod', mod-lt, div-lt_iff_lt-mul, lt-div-mul-add, div-mul-le_self,
  mod-eq-sub-mod, mod-eq_of_lt, div-eq_of_lt,
}
use libiocp.Utility.{align_bytes}
use libiocp.Utility.Bits.{bit_and_ones, bit_and_high}

pow_split : (j k : ℕ) → 2 ^ (j + k) ≡ 2 ^ j * 2 ^ k
pow_split zero k = let e : 0 + k ≡ k = omega arith in ap (λ n. 2 ^ n) e ∙ omega arith
pow_split (suc j) k =
    let e : suc j + k ≡ suc (j + k) = omega arith in
    ap (λ n. 2 ^ n) e
    ∙ omega (arith, pow-suc 2 (j + k), pow_split j k, ap (λ (t : ℕ). t * 2 ^ k) (pow-suc 2 j))

-- `x` below `2 ^ (j + k)` with its `k` lowest digits taken away.
masked : (j k x : ℕ) → x < 2 ^ (j + k) → bit_and x (2 ^ (j + k) - 2 ^ k) ≡ x / 2 ^ k * 2 ^ k
masked j k x lt =
    let pos_k = one-le-pow k 2 (omega arith) in
    let q = x / 2 ^ k in
    let r = x % 2 ^ k in
    let parts : x ≡ q * 2 ^ k + r = omega (arith, div-add-mod' x (2 ^ k)) in
    let more : 2 ^ j ≡ 2 ^ j - 1 + 1 = omega (arith, one-le-pow j 2) in
    let spread = ap (λ (t : ℕ). t * 2 ^ k) more in
    let mask : 2 ^ (j + k) - 2 ^ k ≡ (2 ^ j - 1) * 2 ^ k = omega (arith, pow_split j k, spread) in
    let small : q < 2 ^ j = (div-lt_iff_lt-mul pos_k).1 (omega (arith, pow_split j k)) in
    ap₂ bit_and parts mask
    ∙ bit_and_high k q r (2 ^ j - 1) (mod-lt x pos_k)
    ∙ ap (λ t. t * 2 ^ k) (bit_and_ones j q small)

-- Behind a full turn of the address space.
turned : (x w : ℕ) → 1 ≤ x → x ≤ 2 ^ w → (x + 2 ^ w - 1) % 2 ^ w ≡ x - 1
turned x w low high = ground (arith, mod_once (x + 2 ^ w - 1) (2 ^ w) (omega arith))

power_fits : (j k : ℕ) → (1 ≤ 2 ^ k) × (2 ^ k ≤ 2 ^ (j + k))
power_fits j k =
    let pos_j = one-le-pow j 2 (omega arith) in
    let pos_k = one-le-pow k 2 (omega arith) in
    let more : 2 ^ j ≡ 2 ^ j - 1 + 1 = omega (arith, pos_j) in
    let spread = ap (λ (t : ℕ). t * 2 ^ k) more in (pos_k, omega (arith, pow_split j k, spread))

-- The sum as it comes out of the address space.
align_as :
    (j k ptr sum : ℕ)
    → sum < 2 ^ (j + k)
    → (ptr + 2 ^ k + 2 ^ (j + k) - 1) % 2 ^ (j + k) ≡ sum
    → align_bytes (j + k) ptr (2 ^ k) ≡ sum / 2 ^ k * 2 ^ k
unfolding align_bytes
align_as j k ptr sum lt e =
    let (pos_k, le) = power_fits j k in
    let mask : 2 ^ (j + k) - 1 - (2 ^ k + 2 ^ (j + k) - 1) % 2 ^ (j + k) ≡ 2 ^ (j + k) - 2 ^ k =
      omega (arith, turned (2 ^ k) (j + k) pos_k le, pos_k, le) in
    ap₂ bit_and e mask ∙ masked j k sum lt

align_fits :
    (j k ptr : ℕ)
    → ptr + 2 ^ k ≤ 2 ^ (j + k)
    → align_bytes (j + k) ptr (2 ^ k) ≡ (ptr + 2 ^ k - 1) / 2 ^ k * 2 ^ k
align_fits j k ptr le =
    let (pos_k, _) = power_fits j k in
    align_as j k ptr (ptr + 2 ^ k - 1) (omega (arith, pos_k))
      (turned (ptr + 2 ^ k) (j + k) (omega (arith, pos_k)) le)

around_twice : (a m : ℕ) → a < m → (a + m + m) % m ≡ a
around_twice a m lt =
    let first : a + m + m - m ≡ a + m = omega arith in
    let second : a + m - m ≡ a = omega arith in
    mod-eq-sub-mod {n = a + m + m} {m = m} (omega arith)
    ∙ ap (λ t. t % m) first
    ∙ mod-eq-sub-mod {n = a + m} {m = m} (omega arith)
    ∙ ap (λ t. t % m) second
    ∙ mod-eq_of_lt lt

align_wraps :
    (j k ptr : ℕ)
    → ptr < 2 ^ (j + k)
    → 2 ^ (j + k) < ptr + 2 ^ k
    → align_bytes (j + k) ptr (2 ^ k) ≡ 0
align_wraps j k ptr lt over =
    let (pos_k, le) = power_fits j k in
    let m = 2 ^ (j + k) in
    let sum = ptr + 2 ^ k - 1 - m in
    let same : ptr + 2 ^ k + m - 1 ≡ sum + m + m = omega (arith, pos_k) in
    let small : sum < m = omega (arith, le) in
    let none_left : sum / 2 ^ k ≡ 0 = div-eq_of_lt {n = sum} {m = 2 ^ k} (omega arith) in
    align_as j k ptr sum small (ap (λ t. t % m) same ∙ around_twice sum m small)
    ∙ ap (λ t. t * 2 ^ k) none_left
    ∙ omega arith

-- The address that comes back is the next multiple of the power of two, the address itself if it is
-- one: up to less than the power above it. At the end of the address space, where that multiple does
-- not fit, it is 0.
pub align_bytes-Next :
    (j k ptr : ℕ)
    → ptr < 2 ^ (j + k)
    → ((ptr + 2 ^ k ≤ 2 ^ (j + k))
        × ((q : ℕ) × (align_bytes (j + k) ptr (2 ^ k) ≡ q * 2 ^ k))
        × (ptr ≤ align_bytes (j + k) ptr (2 ^ k))
        × (align_bytes (j + k) ptr (2 ^ k) < ptr + 2 ^ k))
      ⊎ (2 ^ (j + k) < ptr + 2 ^ k) × (align_bytes (j + k) ptr (2 ^ k) ≡ 0)
align_bytes-Next j k ptr lt = elim (dec_le (ptr + 2 ^ k) (2 ^ (j + k))) [
  | yes p ↦
      let (pos_k, _) = power_fits j k in
      let e = align_fits j k ptr p in
      let x = ptr + 2 ^ k - 1 in
      inl (
        p,
        ((ptr + 2 ^ k - 1) / 2 ^ k, e),
        omega (arith, e, pos_k, lt-div-mul-add {a = x} pos_k),
        omega (arith, e, pos_k, div-mul-le_self x (2 ^ k)),
      )
  | no p ↦ inr (omega arith, align_wraps j k ptr lt (omega arith))
]
