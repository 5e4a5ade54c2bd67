-- ===== src/Wire/Request/Size.antt =====
-- The sizes of the parts of a request, and reading the parts back.
use mimo26f_afd.Prelude.{
  ℕ, suc, ◌+◌, ◌-◌, ◌*◌, ◌≡◌, refl, sym, ap, ◌∙◌, arith, List, [], ◌∷◌, ◌++◌, length, length-append,
  take, drop, append_assoc, All, ok,
}
use mimo26f_afd.Wire.Naive.{WireNaive}
use mimo26f_afd.Wire.Layout.{hidden}
use mimo26f_afd.Wire.Bytes.{take-drop_middle, length-append_middle}
use mimo26f_afd.Wire.Row.{
  RowDescriptor, RouteEntry, row_descriptor_wire, row_descriptor_from_wire, route_entry_wire,
  route_entry_from_wire,
}
use mimo26f_afd.Wire.Row.RoundTrip.{
  IsRow, IsRoute, row_descriptor_lem, route_entry_lem, length-row_descriptor_wire,
  length-route_entry_wire,
}
use mimo26f_afd.Wire.Request.{
  HiddenRow, rows_wire, routes_wire, hidden_wire, read_rows, read_routes, read_hidden,
}

pub length-rows_wire :
    (rows : List RowDescriptor) (naive : WireNaive)
    → length (rows_wire rows naive) ≡ length rows * 40
unfolding rows_wire
length-rows_wire [] naive = refl
length-rows_wire (row ∷ rows) naive = omega (
  arith,
  length-append (row_descriptor_wire row naive) (rows_wire rows naive),
  length-row_descriptor_wire row naive,
  length-rows_wire rows naive,
)

pub length-routes_wire :
    (routes : List RouteEntry) (naive : WireNaive)
    → length (routes_wire routes naive) ≡ length routes * 12
unfolding routes_wire
length-routes_wire [] naive = refl
length-routes_wire (r ∷ routes) naive = omega (
  arith,
  length-append (route_entry_wire r naive) (routes_wire routes naive),
  length-route_entry_wire r naive,
  length-routes_wire routes naive,
)

-- A hidden row of `stride` bytes.
abbrev pub IsHidden : ℕ → HiddenRow → Type 0
IsHidden stride h = (length h.payload ≡ hidden) × (length h.scales + hidden ≡ stride)

pub length-hidden_wire :
    (stride : ℕ) (hs : List HiddenRow)
    → All (IsHidden stride) hs
    → length (hidden_wire hs) ≡ length hs * stride
unfolding hidden_wire
length-hidden_wire stride [] i = omega arith
length-hidden_wire stride (h ∷ hs) ((p, s), i) =
    let rest = length-hidden_wire stride hs i in
    let step : suc (length hs) * stride ≡ stride + length hs * stride = grind arith in
    omega (arith, length-append_middle h.payload h.scales (hidden_wire hs))

pub read_rows-rows_wire :
    (rows : List RowDescriptor) (naive : WireNaive) (i : ℕ) (pre post : List ℕ)
    → All IsRow rows
    → length pre ≡ i * 40
    → read_rows (length rows) i (pre ++ (rows_wire rows naive ++ post)) naive ≡ ok rows
unfolding read_rows rows_wire
read_rows-rows_wire [] naive i pre post h e = refl
read_rows-rows_wire (row ∷ rows) naive i pre post (h, hs) e =
    let b = row_descriptor_wire row naive in
    let rest = rows_wire rows naive in
    let first : row_descriptor_from_wire (pre ++ ((b ++ rest) ++ post)) (i * 40) naive ≡ ok row =
      rw (sym e, append_assoc b rest post) (row_descriptor_lem row naive pre (rest ++ post) h) in
    let others : read_rows (length rows) (i + 1) (pre ++ ((b ++ rest) ++ post)) naive ≡ ok rows =
      rw (append_assoc b rest post, ← append_assoc pre b (rest ++ post))
        (read_rows-rows_wire rows naive (i + 1) (pre ++ b) post hs
          (omega (arith, length-append pre b, length-row_descriptor_wire row naive))) in
    rw (first, others) refl

pub read_routes-routes_wire :
    (routes : List RouteEntry) (naive : WireNaive) (base j : ℕ) (pre post : List ℕ)
    → All IsRoute routes
    → length pre ≡ base + j * 12
    → read_routes (length routes) base j (pre ++ (routes_wire routes naive ++ post)) naive
      ≡ ok routes
unfolding read_routes routes_wire
read_routes-routes_wire [] naive base j pre post h e = refl
read_routes-routes_wire (r ∷ routes) naive base j pre post (h, hs) e =
    let b = route_entry_wire r naive in
    let rest = routes_wire routes naive in
    let first : route_entry_from_wire (pre ++ ((b ++ rest) ++ post)) (base + j * 12) naive ≡ ok r =
      rw (sym e, append_assoc b rest post) (route_entry_lem r naive pre (rest ++ post) h) in
    let others : read_routes (length routes) base (j + 1) (pre ++ ((b ++ rest) ++ post)) naive
        ≡ ok routes =
      rw (append_assoc b rest post, ← append_assoc pre b (rest ++ post))
        (read_routes-routes_wire routes naive base (j + 1) (pre ++ b) post hs
          (omega (arith, length-append pre b, length-route_entry_wire r naive))) in
    rw (first, others) refl

-- A part of known length in the middle of a buffer.
pub take-drop_part :
    (n at : ℕ) (pre xs post : List ℕ)
    → n ≡ length xs
    → at ≡ length pre
    → take n (drop at (pre ++ (xs ++ post))) ≡ xs
take-drop_part n at pre xs post e f = rw (e, f) (take-drop_middle pre xs post)

pub read_hidden-hidden_wire :
    (hs : List HiddenRow) (base i stride : ℕ) (pre post : List ℕ)
    → All (IsHidden stride) hs
    → length pre ≡ base + i * stride
    → read_hidden (length hs) base i stride (pre ++ (hidden_wire hs ++ post)) ≡ hs
unfolding read_hidden hidden_wire
read_hidden-hidden_wire [] base i stride pre post a e = refl
read_hidden-hidden_wire (h ∷ hs) base i stride pre post ((p, s), a) e =
    let rest = hidden_wire hs in
    let whole : (h.payload ++ (h.scales ++ rest)) ++ post
        ≡ h.payload ++ (h.scales ++ (rest ++ post)) =
      append_assoc h.payload (h.scales ++ rest) post
      ∙ ap (λ l. h.payload ++ l) (append_assoc h.scales rest post) in
    let next : (i + 1) * stride ≡ i * stride + stride = grind arith in
    let at = base + i * stride in
    let payload : take hidden (drop at (pre ++ (h.payload ++ (h.scales ++ (rest ++ post)))))
        ≡ h.payload =
      take-drop_part hidden at pre h.payload (h.scales ++ (rest ++ post)) (sym p) (sym e) in
    let scales : take (stride - hidden)
          (drop (at + hidden) (pre ++ (h.payload ++ (h.scales ++ (rest ++ post)))))
        ≡ h.scales =
      rw (← append_assoc pre h.payload (h.scales ++ (rest ++ post))) (
        take-drop_part (stride - hidden) (at + hidden) (pre ++ h.payload) h.scales (rest ++ post)
          (omega arith) (omega (arith, length-append pre h.payload))) in
    let others : read_hidden (length hs) base (i + 1) stride
          (pre ++ (h.payload ++ (h.scales ++ (rest ++ post))))
        ≡ hs =
      rw
        (
          ← append_assoc h.payload h.scales (rest ++ post),
          ← append_assoc pre (h.payload ++ h.scales) (rest ++ post),
        )
        (read_hidden-hidden_wire hs base (i + 1) stride (pre ++ (h.payload ++ h.scales)) post a
          (omega (arith, length-append_middle pre h.payload h.scales))) in
    rw (whole, payload, scales, others) refl
