-- ===== src/LoadGen/Schedule.antt =====
-- When the workers of the load generator start.
use Prim.Native.Nat.{max}
use native.Mathlib.Nat.{div-lt_iff_lt-mul, div-mul-le_self, lt-div-mul-add}
use iron_babel.Base.{ℕ, ◌+◌, ◌*◌, ◌/◌, ◌≤◌, ◌<◌, ◌≡◌, ap₂, arith, min}
use iron_babel.LoadGen.{stagger_ms}

-- Below the bounds the formula is a plain division.
stagger_ms-div :
    (rps worker_id : ℕ)
    → worker_id < rps
    → 1000 * rps ≤ 18446744073709551615
    → stagger_ms rps worker_id ≡ 1000 * worker_id / rps
unfolding stagger_ms
stagger_ms-div rps worker_id h fits =
    let product : min (1000 * worker_id) 18446744073709551615 ≡ 1000 * worker_id = omega arith in
    let divisor : max rps 1 ≡ rps = omega arith in ap₂ (λ a b. a / b) product divisor

-- Each of the workers of a positive rate starts within the first second, at its place in an even
-- division of this second, to the millisecond.
pub stagger_ms-spread :
    (rps worker_id : ℕ)
    → worker_id < rps
    → 1000 * rps ≤ 18446744073709551615
    → (stagger_ms rps worker_id < 1000)
      × (stagger_ms rps worker_id * rps ≤ 1000 * worker_id)
      × (1000 * worker_id < stagger_ms rps worker_id * rps + rps)
stagger_ms-spread rps worker_id h fits =
    let pos : 0 < rps = omega arith in
    rw (stagger_ms-div rps worker_id h fits) (
      (div-lt_iff_lt-mul pos).1 (omega arith),
      div-mul-le_self (1000 * worker_id) rps,
      lt-div-mul-add pos,
    )
