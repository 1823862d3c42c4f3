-- ===== src/Loader/Bytes.antt =====
-- webapp/api/lib/bpf-loader.ts, `u32LE` and `u64LE`: what can be read back from the bytes written.
use multi_delegator.Base.{ℕ, zero, suc, ◌/◌, ◌^◌, ◌<◌, ◌≡◌, refl, arith, length}
use native.Mathlib.Nat.{pow-succ'}
use multi_delegator.Client.HookMetas.{little_endian, from_little_endian}

pub length-little_endian : (k n : ℕ) → length (little_endian k n) ≡ k
unfolding little_endian
length-little_endian zero n = refl
length-little_endian (suc k) n = omega (arith, length-little_endian k (n / 256))

-- A number below 256 ^ k is read back from its k bytes.
pub from_little_endian-little_endian :
    (k n : ℕ) → n < 256 ^ k → from_little_endian (little_endian k n) ≡ n
unfolding little_endian from_little_endian
from_little_endian-little_endian zero n h = omega (arith, h)
from_little_endian-little_endian (suc k) n h =
    let read = from_little_endian-little_endian k (n / 256) (omega (arith, h, pow-succ' 256 k)) in
    omega (arith, read)
