-- ===== src/Util.antt =====
-- src/util.c: reading and writing whole buffers.
pub mod Ends
use keyd_fork.Common.{
  ℕ, zero, suc, ◌-◌, Option, none, some, List, ◌++◌, ◌==◌, if◌then◌else◌, length, take, drop,
  Result, ok, aborted, out_of_fuel, exited,
}

-- What the calls of `read` give, in order: none is an error, and no bytes the end of the file. No call
-- gives more than it is asked for. `got` is what was read; the fuel bounds the calls.
unfoldable pub xread : ℕ → (ℕ → Option (List ℕ)) → ℕ → List ℕ → Result (List ℕ)
xread zero reads sz got = out_of_fuel
xread (suc fuel) reads sz got = elim (reads 0) [
  | none ↦ if length got == sz then ok got else aborted exited
  | some bytes ↦
      let rest = xread fuel (λ k. reads (suc k)) sz (got ++ take (sz - length got) bytes) in
      if length got == sz then ok got else rest
]

-- How many bytes the calls of `write` take, in order; the bytes that are left, and those that went out.
unfoldable pub xwrite : ℕ → (ℕ → Option ℕ) → List ℕ → List ℕ → Result (List ℕ)
xwrite zero writes buf out = out_of_fuel
xwrite (suc fuel) writes buf out = elim (writes 0) [
  | none ↦ if length buf == 0 then ok out else aborted exited
  | some n ↦
      let rest = xwrite fuel (λ k. writes (suc k)) (drop n buf) (out ++ take n buf) in
      if length buf == 0 then ok out else rest
]
