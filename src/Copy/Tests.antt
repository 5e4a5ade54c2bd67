-- ===== src/Copy/Tests.antt =====
-- Drafts of short contexts; tokens are character codes, as in the source's tests.
use mimo26f_afd.Prelude.{ℕ, ◌≡◌, refl, arith, List, [], ◌∷◌, ◌++◌}
use mimo26f_afd.Dict
use mimo26f_afd.Copy.{
  default, propose, index_from, index_one, gram_at, or_none, draft, walk, backward_len, extend_len,
  emit,
}
use mimo26f_afd.Copy.Index.{default-IsIndex}
use mimo26f_afd.Copy.Draft.{Proposes, propose-Proposes}
use mimo26f_afd.Copy.Session.{session, fresh, session-fresh}

-- "12345678" and "..12345678AB12345678"
abbrev digits : List ℕ
digits = 49 ∷ 50 ∷ 51 ∷ 52 ∷ 53 ∷ 54 ∷ 55 ∷ 56 ∷ []

abbrev quoted : List ℕ
quoted = 46 ∷ 46 ∷ (digits ++ (65 ∷ 66 ∷ digits))

-- "AB", then the quoted digits again.
copies : (propose default quoted 3).1 ≡ 65 ∷ 66 ∷ 49 ∷ []
unfolding propose default index_from index_one gram_at or_none draft walk backward_len extend_len
    emit Dict.get Dict.insert Dict.remove
copies = refl

propose-Proposes_example : Proposes quoted 3 default (propose default quoted 3)
unfolding default
propose-Proposes_example =
    propose-Proposes quoted 3 default (default-IsIndex quoted (omega arith)) (omega arith)

session-fresh_example :
    session [] default ((quoted, 7) ∷ (65 ∷ [], 7) ∷ [])
    ≡ fresh [] ((quoted, 7) ∷ (65 ∷ [], 7) ∷ [])
session-fresh_example = session-fresh ((quoted, 7) ∷ (65 ∷ [], 7) ∷ [])
