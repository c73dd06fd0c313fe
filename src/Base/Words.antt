-- ===== src/Base/Words.antt =====
-- Machine words: a value is a plain number, and arithmetic wraps as the source's types do.
use Prim.Native.Nat.{ℕ, ◌+◌, ◌-◌, ◌*◌, ◌/◌, ◌%◌, ◌^◌}
use nebula_x.Base.Tests.{◌==◌, if◌then◌else◌}

-- UINT32_MAX, the null index of the intrusive lists.
abbrev pub nil_idx : ℕ
nil_idx = 4294967295

abbrev pub u32 : ℕ → ℕ
u32 x = x % 2 ^ 32

abbrev pub u64 : ℕ → ℕ
u64 x = x % 2 ^ 64

abbrev pub add32 : ℕ → ℕ → ℕ
add32 a b = (a + b) % 2 ^ 32

-- The modulus comes first, since `-` stops at 0.
abbrev pub sub32 : ℕ → ℕ → ℕ
sub32 a b = (a + 2 ^ 32 - b) % 2 ^ 32

abbrev pub add64 : ℕ → ℕ → ℕ
add64 a b = (a + b) % 2 ^ 64

abbrev pub sub64 : ℕ → ℕ → ℕ
sub64 a b = (a + 2 ^ 64 - b) % 2 ^ 64

-- `(((fh >> 32) + 1) << 32) | idx`: the tag goes up by one over a new index below 2^32.
abbrev pub retag : ℕ → ℕ → ℕ
retag fh idx = ((fh / 2 ^ 32 + 1) % 2 ^ 32) * 2 ^ 32 + idx

-- An array as a function, written at one place.
abbrev pub update {ℓ} : {A : Type ℓ} → (ℕ → A) → ℕ → A → ℕ → A
update f i v j = if j == i then v else f j
