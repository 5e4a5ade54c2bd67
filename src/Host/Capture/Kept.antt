-- ===== src/Host/Capture/Kept.antt =====
-- crates/mimo26-coordinator/src/hostcache.rs: what `capture` does with slots and references.
use mimo26f_afd.Prelude.{
  ℕ, ◌+◌, ◌≡◌, refl, ◌∙◌, Option, none, some, List, [], ◌∷◌, ◌++◌, append-nil, length, Result, ok,
  err, arith, sum_by, sum_by-append, List_eq,
}
use Prim.Native.String.{String}
use mimo26f_afd.Host.{Slot, Snapshot, Stats, HostCache, drop_refs, give_tail}
use mimo26f_afd.Host.Capture.{write_slot}
use mimo26f_afd.Host.Counts.{
  count, IsCounted, tail_weight, page_weight, state_weight, drop_refs-Keeps,
}

-- The outcome of a capture, against the weights of all page slots and of all state slots before it.
-- Where it returns with no error, no reference but the snapshots' is left and no slot is lost.
pub record Captures (pages states : (Slot → ℕ) → ℕ) (out : HostCache × Result String (Unit {0}))
    : Type 0 where
  pub held : List ℕ
  pub lost : List Slot
  pub counted : IsCounted held out.0
  pub pages_kept : (w : Slot → ℕ) → page_weight w out.0 + sum_by w lost ≡ pages w
  pub states_kept : (w : Slot → ℕ) → state_weight w out.0 ≡ states w
  pub none_lost : out.1 ≡ ok tt → (held ≡ []) × (lost ≡ [])

abbrev pub tail_list : Option Slot → List Slot
tail_list none = []
tail_list (some slot) = slot ∷ []

pub tail_list_weight : (w : Slot → ℕ) (t : Option Slot) → sum_by w (tail_list t) ≡ tail_weight w t
tail_list_weight w none = refl
tail_list_weight w (some slot) = omega arith

tail-IsCounted :
    (held : List ℕ) (t : Option Slot) (c : HostCache)
    → IsCounted held c
    → IsCounted held (give_tail t c)
tail-IsCounted held none c k = k
tail-IsCounted held (some t) c k = record {
  unique = k.unique;
  exact = k.exact;
  positive = k.positive;
  bounded = k.bounded;
}

tail_page_weight :
    (w : Slot → ℕ) (t : Option Slot) (c : HostCache)
    → page_weight w (give_tail t c) ≡ page_weight w c + tail_weight w t
tail_page_weight w none c = omega arith
tail_page_weight w (some t) c = omega arith

tail_state_weight :
    (w : Slot → ℕ) (t : Option Slot) (c : HostCache)
    → state_weight w (give_tail t c) ≡ state_weight w c
tail_state_weight w none c = refl
tail_state_weight w (some t) c = refl

-- The end of a capture that gives all back.
pub gives_back :
    (pages states : (Slot → ℕ) → ℕ) (held : List ℕ) (t : Option Slot) (c : HostCache)
    (r : Result String (Unit {0}))
    → IsCounted held c
    → ((w : Slot → ℕ) → page_weight w c + tail_weight w t ≡ pages w)
    → ((w : Slot → ℕ) → state_weight w c ≡ states w)
    → Captures pages states (drop_refs held (give_tail t c), r)
gives_back pages states held t c r k p s =
    let k' : IsCounted (held ++ []) (give_tail t c) = rw append-nil (tail-IsCounted held t c k) in
    let freed = drop_refs-Keeps held [] (give_tail t c) k' in
    record {
      held = [];
      lost = [];
      counted = freed.counted;
      pages_kept = λ w. omega (arith, freed.pages_kept w, tail_page_weight w t c, p w);
      states_kept = λ w. freed.states_kept w ∙ (tail_state_weight w t c ∙ s w);
      none_lost = λ h. (refl, refl);
    }

-- The end of a capture that stops with an error at once.
pub gives_up :
    (pages states : (Slot → ℕ) → ℕ) (held : List ℕ) (lost : List Slot) (c : HostCache) (e : String)
    → IsCounted held c
    → ((w : Slot → ℕ) → page_weight w c + sum_by w lost ≡ pages w)
    → ((w : Slot → ℕ) → state_weight w c ≡ states w)
    → Captures pages states (c, err e)
gives_up pages states held lost c e k p s = record {
  held = held;
  lost = lost;
  counted = k;
  pages_kept = p;
  states_kept = s;
  none_lost = λ h. absurd (cc);
}

-- The snapshot that comes in takes over the references and the slots.
pub keeps_snapshot :
    (pages states : (Slot → ℕ) → ℕ) (c : HostCache) (s : Snapshot) (b : List ℕ) (n : Stats)
    → IsCounted s.pages c
    → ((w : Slot → ℕ) → page_weight w c + tail_weight w s.tail ≡ pages w)
    → ((w : Slot → ℕ) → state_weight w c + w s.state ≡ states w)
    → Captures pages states (
      record c { states = write_slot s.state b c.states; snaps = c.snaps ++ (s ∷ []); stats = n },
      ok tt,
    )
keeps_snapshot pages states c s b n k p t = record {
  held = [];
  lost = [];
  counted = record {
    unique = k.unique;
    exact = λ id.
        omega
          (arith, k.exact id, sum_by-append (λ (x : Snapshot). count id x.pages) c.snaps (s ∷ []));
    positive = k.positive;
    bounded =
        omega (arith, k.bounded, sum_by-append (λ (x : Snapshot). length x.pages) c.snaps (s ∷ []));
  };
  pages_kept = λ w.
      omega (arith, p w, sum_by-append (λ (x : Snapshot). tail_weight w x.tail) c.snaps (s ∷ []));
  states_kept =
      λ w. omega (arith, t w, sum_by-append (λ (x : Snapshot). w x.state) c.snaps (s ∷ []));
  none_lost = λ h. (refl, refl);
}
