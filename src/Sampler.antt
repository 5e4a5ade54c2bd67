-- ===== src/Sampler.antt =====
-- crates/mimo26-coordinator/src/sampler.rs: the set of tokens seen, a bitmap of 64-bit words. A failed
-- assertion, at which the source panics, is `none`.
pub mod Bit
pub mod Seen
mod Tests
use mimo26f_afd.Prelude.{
  ℕ, Bool, ◌+◌, ◌/◌, ◌%◌, ◌^◌, ◌==◌, not, ltb, if◌then◌else◌, bit_and, bit_or, Option, none, some,
  List, replicate, set, get_or,
}

pub record SeenSet : Type 0 where
  pub bits : List ℕ
  pub vocab : ℕ

unfoldable pub new : ℕ → SeenSet
new vocab = record { bits = replicate ((vocab + 63) / 64) 0; vocab = vocab }

unfoldable pub mark : SeenSet → ℕ → Option SeenSet
mark s id =
    if ltb id s.vocab
    then some (record s {
      bits = set s.bits (id / 64) (bit_or (get_or s.bits (id / 64) 0) (2 ^ (id % 64) % 2 ^ 64));
    })
    else none

unfoldable pub contains : SeenSet → ℕ → Option Bool
contains s id =
    if ltb id s.vocab
    then some (not (bit_and (get_or s.bits (id / 64) 0) (2 ^ (id % 64) % 2 ^ 64) == 0))
    else none
