-- ===== src/Sampler/Tests.antt =====
-- A bitmap of three words.
use mimo26f_afd.Prelude.{◌≡◌, refl, some, none, [], ◌∷◌, arith}
use mimo26f_afd.Sampler.{new, mark, contains}
use mimo26f_afd.Sampler.Seen.{Reads, mark_all, insert_all, empty, mark_all-new}

mark_all-new_example :
    Reads (mark_all (3 ∷ 64 ∷ 129 ∷ []) (some (new 130))) 130 (insert_all (3 ∷ 64 ∷ 129 ∷ []) empty)
mark_all-new_example =
    mark_all-new 130 (3 ∷ 64 ∷ 129 ∷ []) (omega arith, (omega arith, (omega arith, tt)))

marked_word : mark (new 130) 65 ≡ some (record { bits = 0 ∷ 2 ∷ 0 ∷ []; vocab = 130 })
unfolding mark new
marked_word = refl

out_of_vocab : contains (new 130) 130 ≡ none
unfolding contains new
out_of_vocab = refl
